-- ===== src/Discovery/View/Judge.antt =====
-- recv_hello keeps the invariant, when an adjacency with the source of the hello is of its LSR id and family.
use openbsd_ldpd.Base.{
  ℕ, ◌≡◌, ◌≢◌, ◌∙◌, inl, inr, refl, sym, ap, Bool, true, false, Option, none, some, List, [], ◌∷◌,
  map, Bool-cases, arith, ◌||◌,
}
use mathlib.Core.Path.{subst}
use openbsd_ldpd.Lde.{Af}
use openbsd_ldpd.Nbr.Events.{session_shutdown, s_shutdown}
use openbsd_ldpd.Discovery.{
  HelloSource, Adj, Neighbor, Disc, LeConf, on_nbr, nbr_find_ldpid, nbr_find_addr, same_addr,
  source_af, adj_get_af,
}
use openbsd_ldpd.Discovery.Adjacency.{is_taken, fresh_nbr}
use openbsd_ldpd.Discovery.Hello.{
  Heard, Connect, find_adj, find_nbr, starts_session, has_value, accept_hello, judge_found,
  drop_adj, shut_down_nbr, is_mismatch, is_noncompliant, is_moved, is_used, s_trans_mismtch,
  s_ds_noncmplnce,
}
use openbsd_ldpd.Discovery.Lists.{Has, Has-map}
use openbsd_ldpd.Discovery.View.{Link, Key, Mark, View, view, link_of, key_of, target_of}
use openbsd_ldpd.Discovery.View.Unlink.{some_inj}
use openbsd_ldpd.Discovery.View.Delete.{view-on_nbr, find_key}
use openbsd_ldpd.Discovery.View.Purge.{IsWell, IsWellView, adj_del-IsWell}
use openbsd_ldpd.Discovery.View.Insert.{Fits, insert-IsWell}
use openbsd_ldpd.Discovery.View.Adopt.{adopt_link, join-IsWell, adopt_ptr}
use openbsd_ldpd.Discovery.View.Accept.{
  same_view-IsWell, id_of, view-find_adj, found_adj, find_adj_nbrs, view-nbr_create, finish-IsWell,
}

pub no_key :
    (ns : List Neighbor) (id : ℕ)
    → nbr_find_ldpid ns id ≡ none
    → (k : Key) → Has k (map key_of ns)
    → k.id ≢ id
no_key ns id h k m e =
    let f = find_key ns k m in
    let g : nbr_find_ldpid ns id ≡ some f.0 =
      subst (λ (x : ℕ). nbr_find_ldpid ns x ≡ some f.0) e f.1 in
    cc

pub no_clash :
    (ns : List Neighbor) (af : Af) (addr : ℕ)
    → nbr_find_addr ns af addr ≡ none
    → (k : Key) → Has k (map key_of ns)
    → same_addr af addr k.af k.raddr ≡ false
unfolding nbr_find_addr
no_clash [] af addr h k m = elim m [ ]
no_clash (n ∷ ns) af addr h k m = elim (Bool-cases (same_addr af addr n.af n.raddr)) [
  | inl e ↦ let g : some n ≡ none = rw e at h in cc
  | inr e ↦ elim m [
    | inl q ↦ subst (λ (x : Key). same_addr af addr x.af x.raddr ≡ false) (sym q) e
    | inr r ↦ let g : nbr_find_addr ns af addr ≡ none = rw e at h in no_clash ns af addr g k r
  ]
]

-- A link of the view, as the pointer to an adjacency.
abbrev At : Disc → ℕ → Type 0
At d p = (l : Link) × Has l (view d).links × (l.ptr ≡ p)

find_nbr-IsWell :
    (c : LeConf) (d : Disc) (lsr : ℕ) (af : Af) (pref : Option ℕ) (addr scope : ℕ) (l : Link)
    → IsWell d
    → nbr_find_ldpid d.nbrs lsr ≡ none
    → nbr_find_addr d.nbrs af addr ≡ none
    → Has l (view d).links
    → l.lsr_id ≡ lsr
    → source_af l.source ≡ af
    → IsWell (find_nbr c d none lsr af pref addr scope)
      × At (find_nbr c d none lsr af pref addr scope) l.ptr
unfolding find_nbr
find_nbr-IsWell c d lsr af pref addr scope l w hi ha hl el fl =
    elim (Bool-cases (starts_session af pref)) [
      | inr e ↦ rw e (w, (l, hl, refl))
      | inl e ↦ rw e (
          let k : Key = record { id = lsr; af = af; raddr = addr } in
          let free : is_taken d.nbrs (fresh_nbr c lsr af (has_value pref) addr scope) ≡ false =
            rw (hi, ha) refl in
          let v = view-nbr_create c d lsr af (has_value pref) addr scope free in
          (
            subst IsWellView (sym v) (
                join-IsWell (view d) k w.0 (no_key d.nbrs lsr hi) (no_clash d.nbrs af addr ha) l hl
                  el fl w.1),
            (
              adopt_link lsr l,
              subst (λ (x : View). Has (adopt_link lsr l) x.links) (sym v)
                  (Has-map (adopt_link lsr) l (view d).links hl),
              adopt_ptr lsr l,
            ),
          ))
    ]

-- What a hello finds: the adjacency with its source is of its LSR id and family.
pub record Finds (d : Disc) (adj : Option Adj) (nbr : Option Neighbor) (lsr : ℕ) (af : Af)
    (s : HelloSource) : Type 0 where
  pub adj_in : (a : Adj) → adj ≡ some a → Has a d.adj_list
  pub own : (a : Adj) → adj ≡ some a → (a.lsr_id ≡ lsr) × (adj_get_af a ≡ af)
  pub new :
      adj ≡ none
      → (b : Link) (t : ℕ) → Has b (view d).links
      → target_of s ≡ some t
      → target_of b.source ≢ some t
  pub known : (t : ℕ) → target_of s ≡ some t → (m : Mark) × Has m (view d).marks × (m.ptr ≡ t)
  pub found : nbr_find_ldpid d.nbrs lsr ≡ nbr
  pub nbr_in : (n : Neighbor) → nbr ≡ some n → Has n d.nbrs × (n.id ≡ lsr)
  pub family : source_af s ≡ af

fits :
    (d : Disc) (nbr : Option Neighbor) (lsr : ℕ) (af : Af) (s : HelloSource)
    → IsWell d
    → Finds d none nbr lsr af s
    → Fits (view d) lsr (id_of nbr) s
fits d none lsr af s w f = record {
  named = λ id e. cc;
  owned = λ id e. cc;
  adopted = λ k h e. absurd (no_key d.nbrs lsr f.found k h e);
  clear = f.new refl;
  known = f.known;
}
fits d (some n) lsr af s w f =
    let r = f.nbr_in n refl in
    record {
      named = λ id e. sym r.1 ∙ some_inj e;
      owned = λ id e. (key_of n, Has-map key_of n d.nbrs r.0, some_inj e);
      adopted = λ k h e. ap some (r.1 ∙ sym e);
      clear = f.new refl;
      known = f.known;
    }

accept-IsWell :
    (c : LeConf) (d : Disc) (adj : Option Adj) (nbr : Option Neighbor) (lsr : ℕ) (af : Af)
    (s : HelloSource) (addr scope own : ℕ) (h : Heard) (k : Connect)
    → IsWell d
    → Finds d adj nbr lsr af s
    → (nbr ≡ none → nbr_find_addr d.nbrs af addr ≡ none)
    → IsWell (accept_hello c d adj nbr lsr af s addr scope own h k)
unfolding accept_hello find_adj find_nbr
accept-IsWell c d (some a) (some n) lsr af s addr scope own h k w f free =
    finish-IsWell d a lsr s own h k (link_of a) w (Has-map link_of a d.adj_list (f.adj_in a refl))
      refl
accept-IsWell c d (some a) none lsr af s addr scope own h k w f free =
    let r =
      find_nbr-IsWell c d lsr af h.pref addr scope (link_of a) w f.found (free refl)
        (Has-map link_of a d.adj_list (f.adj_in a refl)) (f.own a refl).0 (f.own a refl).1 in
    finish-IsWell (find_nbr c d none lsr af h.pref addr scope) a lsr s own h k r.1.0 r.0 r.1.1 r.1.2
accept-IsWell c d none (some n) lsr af s addr scope own h k w f free =
    let e = find_adj d none (some n) lsr s addr in
    let v = view-find_adj d (some n) lsr s addr w.0 in
    let we : IsWell e.0 =
      subst IsWellView (sym v)
        (insert-IsWell (view d) lsr (some n.id) s w.0 (fits d (some n) lsr af s w f) w.1) in
    let l = link_of e.1 in
    finish-IsWell e.0 e.1 lsr s own h k l we
      (subst (λ (x : View). Has l x.links) (sym v) (inl (found_adj d (some n) lsr s addr))) refl
accept-IsWell c d none none lsr af s addr scope own h k w f free =
    let e = find_adj d none none lsr s addr in
    let v = view-find_adj d none lsr s addr w.0 in
    let we : IsWell e.0 =
      subst IsWellView (sym v)
        (insert-IsWell (view d) lsr none s w.0 (fits d none lsr af s w f) w.1) in
    let l = link_of e.1 in
    let hl : Has l (view e.0).links =
      subst (λ (x : View). Has l x.links) (sym v) (inl (found_adj d none lsr s addr)) in
    let q = find_adj_nbrs d none lsr s addr in
    let r =
      find_nbr-IsWell c e.0 lsr af h.pref addr scope l we
        (ap (λ (ns : List Neighbor). nbr_find_ldpid ns lsr) q ∙ f.found)
        (ap (λ (ns : List Neighbor). nbr_find_addr ns af addr) q ∙ free refl) hl
        (ap (λ (x : Link). x.lsr_id) (found_adj d none lsr s addr))
        (ap (λ (x : Link). source_af x.source) (found_adj d none lsr s addr) ∙ f.family) in
    finish-IsWell (find_nbr c e.0 none lsr af h.pref addr scope) e.1 lsr s own h k r.1.0 r.0 r.1.1
      r.1.2

drop-IsWell :
    (d : Disc) (adj : Option Adj)
    → IsWell d
    → ((a : Adj) → adj ≡ some a → Has a d.adj_list)
    → IsWell (drop_adj d adj)
unfolding drop_adj
drop-IsWell d none w h = w
drop-IsWell d (some a) w h = adj_del-IsWell d a s_shutdown w (h a refl)

shut-IsWell :
    (d : Disc) (nbr : Option Neighbor) (status : ℕ)
    → IsWell d
    → IsWell (shut_down_nbr d nbr status) × ((shut_down_nbr d nbr status).adj_list ≡ d.adj_list)
unfolding on_nbr
shut-IsWell d none status w = (w, refl)
shut-IsWell d (some n) status w = (
  same_view-IsWell d (shut_down_nbr d (some n) status)
      (view-on_nbr d n (λ w. session_shutdown w status)) w,
  refl,
)

or_none : (a b : Bool) → (a || b) ≡ false → b ≡ false
or_none a b h = ground arith

unused :
    (d : Disc) (nbr : Option Neighbor) (af : Af) (addr : ℕ)
    → is_used d nbr af addr ≡ false
    → nbr ≡ none
    → nbr_find_addr d.nbrs af addr ≡ none
unused d (some n) af addr h e = cc
unused d none af addr h e = by_result (nbr_find_addr d.nbrs af addr) refl
  where
    by_result :
        (o : Option Neighbor)
        → nbr_find_addr d.nbrs af addr ≡ o
        → nbr_find_addr d.nbrs af addr ≡ none
    by_result none q = q
    by_result (some n) q = let z : true ≡ false = rw (q, is_used) at h in cc

pub judge-IsWell :
    (c : LeConf) (d : Disc) (adj : Option Adj) (nbr : Option Neighbor) (lsr : ℕ) (af : Af)
    (s : HelloSource) (addr scope own : ℕ) (h : Heard) (k : Connect)
    → IsWell d
    → Finds d adj nbr lsr af s
    → IsWell (judge_found c d adj nbr lsr af s addr scope own h k)
unfolding judge_found
judge-IsWell c d adj nbr lsr af s addr scope own h k w f =
    elim (Bool-cases (is_mismatch c h.pref)) [
      | inl a ↦ rw a (
          let r = shut-IsWell d nbr s_trans_mismtch w in
          drop-IsWell (shut_down_nbr d nbr s_trans_mismtch) adj r.0
            (λ x e. subst (λ (ys : List Adj). Has x ys) (sym r.1) (f.adj_in x e)))
      | inr a ↦ rw a (elim (Bool-cases (is_noncompliant d nbr af (has_value h.pref))) [
        | inl b ↦ rw b (shut-IsWell d nbr s_ds_noncmplnce w).0
        | inr b ↦ rw b (elim (Bool-cases (is_moved nbr af addr scope || is_used d nbr af addr)) [
          | inl e ↦ rw e (drop-IsWell d adj w f.adj_in)
          | inr e ↦ rw e (
              accept-IsWell c d adj nbr lsr af s addr scope own h k w f
                (unused d nbr af addr (or_none _ _ e)))
        ])
      ])
    ]
