-- ===== src/Discovery/View/Accept.antt =====
-- The end of recv_hello keeps the invariant: the adjacency and the neighbor that a hello makes or renews.
use openbsd_ldpd.Base.{
  ℕ, ◌≡◌, ◌≢◌, ◌∙◌, inl, inr, refl, sym, ap, Bool, true, false, Option, none, some, List, [], ◌∷◌,
  ◌==◌, map, Bool-cases, arith, ◌&&◌,
}
use mathlib.Core.Path.{subst}
use openbsd_ldpd.Lde.{Af}
use openbsd_ldpd.Nbr.{NbrEvent, set_nbr, nbr_fsm}
use openbsd_ldpd.Discovery.{HelloSource, Adj, Neighbor, PendingConn, Disc, LeConf, nbr_find_ldpid}
use openbsd_ldpd.Discovery.Adjacency.{
  adj_new, adj_get, set_adj, adopt, greet, nbr_create, fresh_nbr, is_taken, pending_conn_find,
  session_accept_nbr,
}
use openbsd_ldpd.Discovery.Hello.{
  Heard, Connect, find_adj, set_gtsm, set_seqnum, renew, update_nbr, refresh, set_holdtime,
  start_session, is_idle, nbr_session_active_role, nbr_establish_connection, extra_hellos,
  finish_hello, adj_holdtime,
}
use openbsd_ldpd.Discovery.Lists.{Has, Has-map}
use openbsd_ldpd.Discovery.View.{Link, Key, View, IsLinked, view, link_of, key_of}
use openbsd_ldpd.Discovery.View.Delete.{view-on_nbr, keys_map, marks_link}
use openbsd_ldpd.Discovery.View.Purge.{IsWell, IsWellView}
use openbsd_ldpd.Discovery.View.Target.{find_adj_lem}
use openbsd_ldpd.Discovery.View.Insert.{insert}
use openbsd_ldpd.Discovery.View.Adopt.{adopt_link, join}

pub same_view-IsWell : (d e : Disc) → view e ≡ view d → IsWell d → IsWell e
same_view-IsWell d e q w = subst IsWellView (sym q) w

set_adj_absent :
    (b : Adj) (xs : List Adj)
    → ((x : Link) → Has x (map link_of xs) → x.ptr ≢ b.ptr)
    → map (set_adj b) xs ≡ xs
set_adj_absent b [] h = refl
set_adj_absent b (x ∷ xs) h = elim (Bool-cases (x.ptr == b.ptr)) [
  | inl e ↦ absurd (h (link_of x) (inl refl) (ground arith))
  | inr e ↦ rw e (ap (◌∷◌ x) (set_adj_absent b xs (λ y k. h y (inr k))))
]

abbrev pub id_of : Option Neighbor → Option ℕ
id_of none = none
id_of (some n) = some n.id

pub view-find_adj :
    (d : Disc) (nbr : Option Neighbor) (lsr : ℕ) (s : HelloSource) (addr : ℕ)
    → IsLinked (view d)
    → view (find_adj d none nbr lsr s addr).0 ≡ insert (view d) lsr (id_of nbr) s
unfolding find_adj adj_new
view-find_adj d none lsr s addr i = rw (marks_link s (some d.next) d.tnbrs) refl
view-find_adj d (some n) lsr s addr i =
    let far : (x : Link) → Has x (map link_of d.adj_list) → x.ptr ≢ d.next =
      λ x h e. let l = i.fresh x h in absurd (omega arith) in
    let own : (d.next == d.next) ≡ true = ground arith in
    rw
      (
        marks_link s (some d.next) d.tnbrs,
        own,
        set_adj_absent (find_adj d none (some n) lsr s addr).1 d.adj_list far,
      )
      refl

-- What the adjacency of find_adj is.
pub found_adj :
    (d : Disc) (nbr : Option Neighbor) (lsr : ℕ) (s : HelloSource) (addr : ℕ)
    → link_of (find_adj d none nbr lsr s addr).1
      ≡ record { ptr = d.next; lsr_id = lsr; nbr = id_of nbr; source = s }
unfolding find_adj adj_new
found_adj d none lsr s addr = refl
found_adj d (some n) lsr s addr = refl

pub find_adj_nbrs :
    (d : Disc) (nbr : Option Neighbor) (lsr : ℕ) (s : HelloSource) (addr : ℕ)
    → (find_adj d none nbr lsr s addr).0.nbrs ≡ d.nbrs
unfolding find_adj adj_new
find_adj_nbrs d none lsr s addr = refl
find_adj_nbrs d (some n) lsr s addr = refl

links_adopt :
    (id : ℕ) (xs : List Adj)
    → map link_of (map (adopt id) xs) ≡ map (adopt_link id) (map link_of xs)
links_adopt id [] = refl
links_adopt id (x ∷ xs) = elim (Bool-cases (x.lsr_id == id)) [
  | inl e ↦ rw (e, links_adopt id xs) refl
  | inr e ↦ rw (e, links_adopt id xs) refl
]

view-greet : (d : Disc) (n : Neighbor) (p : Option PendingConn) → view (greet d n p) ≡ view d
unfolding greet
view-greet d n none = refl
view-greet d n (some p) = view-on_nbr d n (session_accept_nbr p.checked)

pub view-nbr_create :
    (c : LeConf) (d : Disc) (id : ℕ) (af : Af) (ds : Bool) (addr scope : ℕ)
    → is_taken d.nbrs (fresh_nbr c id af ds addr scope) ≡ false
    → view (nbr_create c d id af ds addr scope)
      ≡ join (view d) (record { id = id; af = af; raddr = addr })
unfolding nbr_create
view-nbr_create c d id af ds addr scope h =
    let n = fresh_nbr c id af ds addr scope in
    let e = record d { adj_list = map (adopt id) d.adj_list; nbrs = n ∷ d.nbrs } in
    rw h (
      view-greet e n (pending_conn_find d.pending_conns af addr)
      ∙ ap (λ (ls : List Link). record (view e) { links = ls }) (links_adopt id d.adj_list))

gtsm_key : (id : ℕ) (g : Bool) (n : Neighbor) → key_of (set_gtsm id g n) ≡ key_of n
gtsm_key id g n = elim (Bool-cases (n.id == id)) [ inl e ↦ rw e refl | inr e ↦ rw e refl ]

renew_key : (s : ℕ) (n : Neighbor) → key_of (renew s n) ≡ key_of n
renew_key s n = ground arith

seqnum_key : (id : ℕ) (s : Option ℕ) (n : Neighbor) → key_of (set_seqnum id s n) ≡ key_of n
seqnum_key id none n = refl
seqnum_key id (some s) n = elim (Bool-cases (n.id == id)) [
  | inl e ↦ rw e (renew_key s n)
  | inr e ↦ rw e refl
]

view-update_nbr : (d : Disc) (id : ℕ) (h : Heard) → view (update_nbr d id h) ≡ view d
view-update_nbr d id h =
    ap (λ (ks : List Key). record (view d) { keys = ks })
      (keys_map (set_seqnum id h.seqnum) (map (set_gtsm id h.gtsm) d.nbrs) (seqnum_key id h.seqnum)
        ∙ keys_map (set_gtsm id h.gtsm) d.nbrs (gtsm_key id h.gtsm))

holdtime_link : (a : Adj) (h : ℕ) → link_of (set_holdtime a h) ≡ link_of a
holdtime_link a h = elim (Bool-cases (h == 65535)) [ inl e ↦ rw e refl | inr e ↦ rw e refl ]

links_set :
    (b : Adj) (xs : List Adj)
    → ((x : Adj) → Has x xs → x.ptr ≡ b.ptr → link_of x ≡ link_of b)
    → map link_of (map (set_adj b) xs) ≡ map link_of xs
links_set b [] h = refl
links_set b (x ∷ xs) h =
    let rest = links_set b xs (λ y k. h y (inr k)) in
    elim (Bool-cases (x.ptr == b.ptr)) [
      | inl e ↦ rw (e, rest, h x (inl refl) (ground arith)) refl
      | inr e ↦ rw (e, rest) refl
    ]

pub view-refresh :
    (d : Disc) (a : Adj) (h : ℕ) (l : Link)
    → IsLinked (view d)
    → Has l (view d).links
    → l.ptr ≡ a.ptr
    → view (refresh d a h) ≡ view d
view-refresh d a h l i m q =
    let f = find_adj_lem d.adj_list l m in
    let g : adj_get d.adj_list a.ptr ≡ some f.0 =
      subst (λ (x : ℕ). adj_get d.adj_list x ≡ some f.0) q f.1 in
    let b = set_holdtime f.0 h in
    let hl : link_of b ≡ link_of f.0 = holdtime_link f.0 h in
    let same : (x : Adj) → Has x d.adj_list → x.ptr ≡ b.ptr → link_of x ≡ link_of b = λ x k e.
      i.uniq (link_of x) (link_of f.0) (Has-map link_of x d.adj_list k)
        (Has-map link_of f.0 d.adj_list f.2) (e ∙ ap (λ (y : Link). y.ptr) hl)
      ∙ sym hl in
    rw (g, refresh)
      (ap (λ (ls : List Link). record (view d) { links = ls }) (links_set b d.adj_list same))

view_establish :
    (d : Disc) (n : Neighbor) (k : Connect) → view (nbr_establish_connection d n k) ≡ view d
unfolding nbr_establish_connection
view_establish d n Connect.unable = refl
view_establish d n Connect.refused = refl
view_establish d n Connect.in_progress =
    view-on_nbr (extra_hellos d n) n (λ w. set_nbr w (record (w.nbr) { ev_connect = true }))
view_establish d n Connect.at_once =
    view-on_nbr (extra_hellos d n) n (λ w. nbr_fsm w NbrEvent.connect_up)

pub view-start_session :
    (d : Disc) (o : Option Neighbor) (k : Connect) → view (start_session d o k) ≡ view d
unfolding start_session
view-start_session d none k = refl
view-start_session d (some n) k = elim (Bool-cases (is_idle n && nbr_session_active_role n)) [
  | inl e ↦ rw e (view_establish d n k)
  | inr e ↦ rw e refl
]

pub view_finish :
    (d : Disc) (a : Adj) (lsr : ℕ) (s : HelloSource) (own : ℕ) (h : Heard) (k : Connect) (l : Link)
    → IsLinked (view d)
    → Has l (view d).links
    → l.ptr ≡ a.ptr
    → view (finish_hello d a lsr s own h k) ≡ view d
unfolding finish_hello
view_finish d a lsr s own h k l i m q =
    let e = update_nbr d lsr h in
    let t = adj_holdtime s own h.holdtime in
    let f = refresh e a t in
    let v = view-update_nbr d lsr h in
    let ie : IsLinked (view e) = subst IsLinked (sym v) i in
    let me : Has l (view e).links = subst (λ (x : View). Has l x.links) (sym v) m in
    view-start_session f (nbr_find_ldpid f.nbrs lsr) k ∙ view-refresh e a t l ie me q ∙ v

pub finish-IsWell :
    (d : Disc) (a : Adj) (lsr : ℕ) (s : HelloSource) (own : ℕ) (h : Heard) (k : Connect) (l : Link)
    → IsWell d
    → Has l (view d).links
    → l.ptr ≡ a.ptr
    → IsWell (finish_hello d a lsr s own h k)
finish-IsWell d a lsr s own h k l w m q =
    same_view-IsWell d (finish_hello d a lsr s own h k) (view_finish d a lsr s own h k l w.0 m q) w
