-- ===== src/Discovery/View/Purge.antt =====
-- A neighbor that loses its last adjacency of its family goes, and adj_del keeps the invariant.
use openbsd_ldpd.Base.{
  ℕ, ◌≡◌, ◌≢◌, ◌∙◌, inl, inr, refl, sym, ap, Bool, true, false, not, Option, none, some, List, [],
  ◌∷◌, ◌==◌, map, if◌then◌else◌, Bool-cases, arith, for_each, ◌&&◌, ◌+◌,
}
use mathlib.Core.Path.{subst}
use openbsd_ldpd.Lde.{Af, af_eq}
use openbsd_ldpd.Nbr.{Engine, NbrEvent, nbr_fsm}
use openbsd_ldpd.Nbr.Events.{session_shutdown}
use openbsd_ldpd.Discovery.{
  Adj, Neighbor, Disc, on_nbr, nbr_find_ldpid, nbr_adj_count, points_to, source_af,
}
use openbsd_ldpd.Discovery.Adjacency.{
  adj_del, adj_del_single, nbr_purge, nbr_check, nbr_del, nbr_adjs, with_nbr, drop_pid, stop_timers,
}
use openbsd_ldpd.Discovery.Lists.{Has, filter, Has-filter, Has-of_filter, Has-map, Has-of_map}
use openbsd_ldpd.Discovery.View.{
  Link, Key, View, IsLinked, IsApart, IsAnchored, AllAnchored, view, link_of, key_of,
}
use openbsd_ldpd.Discovery.View.Unlink.{unlink-IsAnchored, some_inj}
use openbsd_ldpd.Discovery.View.Delete.{
  view_single, view-on_nbr, find_key, removed, single-IsLinked, points_iff, points_self, single_was,
}

and_left : (a b : Bool) → (a && b) ≡ true → a ≡ true
and_left a b h = ground arith

and_right : (a b : Bool) → (a && b) ≡ true → b ≡ true
and_right a b h = ground arith

af_eq_lem : (a b : Af) → af_eq a b ≡ true → a ≡ b
af_eq_lem Af.inet Af.inet h = refl
af_eq_lem Af.inet6 Af.inet6 h = refl
af_eq_lem Af.inet Af.inet6 h = cc
af_eq_lem Af.inet6 Af.inet h = cc

abbrev other_key : ℕ → Key → Bool
other_key id k = not (k.id == id)

abbrev pub unkey : View → ℕ → View
unkey v id = record v { keys = filter (other_key id) v.keys }

unkey-IsLinked :
    (v : View) (id : ℕ)
    → IsLinked v
    → ((b : Link) → Has b v.links → b.nbr ≢ some id)
    → IsLinked (unkey v id)
unkey-IsLinked v id i n = record {
  sound = i.sound;
  fresh = i.fresh;
  apart = i.apart;
  uniq = i.uniq;
  named = i.named;
  owned = λ a x h e.
      let o = i.owned a x h e in
      let f : x ≢ id = λ q. n a h (e ∙ ap some q) in
      (o.0, Has-filter (other_key id) o.0 v.keys o.1 (ground arith), o.2);
  adopted = λ a k h m. i.adopted a k h (Has-of_filter (other_key id) k v.keys m).0;
  id_uniq = λ k l h m.
      i.id_uniq k l (Has-of_filter (other_key id) k v.keys h).0
        (Has-of_filter (other_key id) l v.keys m).0;
  addr_uniq = λ k l h m.
      i.addr_uniq k l (Has-of_filter (other_key id) k v.keys h).0
        (Has-of_filter (other_key id) l v.keys m).0;
  held = i.held;
  holder = i.holder;
  mark_fresh = i.mark_fresh;
  mark_uniq = i.mark_uniq;
}

keys_filter :
    (id : ℕ) (ns : List Neighbor)
    → map key_of (filter (λ (m : Neighbor). not (m.id == id)) ns)
      ≡ filter (other_key id) (map key_of ns)
keys_filter id [] = refl
keys_filter id (n ∷ ns) = elim (Bool-cases (n.id == id)) [
  | inl e ↦ rw (e, keys_filter id ns) refl
  | inr e ↦ rw (e, keys_filter id ns) refl
]

view-nbr_del : (d : Disc) (n : Neighbor) → view (nbr_del d n) ≡ unkey (view d) n.id
unfolding nbr_del
view-nbr_del d n =
    let g : Engine → Engine = λ w. drop_pid (stop_timers (nbr_fsm w NbrEvent.close_session)) in
    let e = on_nbr d n g in
    let v = view-on_nbr d n g in
    let k : map key_of (filter (λ (m : Neighbor). not (m.id == n.id)) e.nbrs)
        ≡ filter (other_key n.id) (map key_of d.nbrs) =
      keys_filter n.id e.nbrs ∙ ap (λ (x : View). filter (other_key n.id) x.keys) v in
    ap (λ (x : List Key). record (view e) { keys = x }) k
    ∙ ap (λ (x : View). record x { keys = filter (other_key n.id) (map key_of d.nbrs) }) v

-- An operation on a neighbor that is there.
pub with_nbr_lem :
    (P : Disc → Type 0) (d : Disc) (id : ℕ) (k : Key) (g : Neighbor → Disc)
    → Has k (view d).keys
    → k.id ≡ id
    → ((n : Neighbor) → Has n d.nbrs → n.id ≡ id → P (g n))
    → P (with_nbr d id g)
with_nbr_lem P d id k g h e f =
    let r = find_key d.nbrs k h in
    let q : nbr_find_ldpid d.nbrs id ≡ some r.0 =
      subst (λ (x : ℕ). nbr_find_ldpid d.nbrs x ≡ some r.0) e r.1 in
    rw (q, with_nbr) (f r.0 r.2 (r.3 ∙ e))

links_of_nbr :
    (d : Disc) (id : ℕ) (b : Link)
    → Has b (view d).links
    → b.nbr ≡ some id
    → (x : Adj) × Has x (nbr_adjs id d.adj_list) × (b ≡ link_of x)
links_of_nbr d id b h e =
    let r = Has-of_map link_of b d.adj_list h in
    let o : r.0.nbr ≡ some id = ap (λ (x : Link). x.nbr) (sym r.2) ∙ e in
    let p : points_to id r.0.nbr ≡ true =
      subst (λ (x : Option ℕ). points_to id x ≡ true) (sym o) (points_self id) in
    (r.0, Has-filter (λ (a : Adj). points_to id a.nbr) r.0 d.adj_list r.1 p, r.2)

nbr_adjs-IsApart :
    (id : ℕ) (xs : List Adj) → IsApart (map link_of xs) → IsApart (map link_of (nbr_adjs id xs))
nbr_adjs-IsApart id [] h = h
nbr_adjs-IsApart id (x ∷ xs) (h, k) = elim (Bool-cases (points_to id x.nbr)) [
  | inl e ↦ rw e (
    λ b m.
        let r = Has-of_map link_of b (nbr_adjs id xs) m in
        let u = Has-of_filter (λ (a : Adj). points_to id a.nbr) r.0 xs r.1 in
        h b (subst (λ (y : Link). Has y (map link_of xs)) (sym r.2) (Has-map link_of r.0 xs u.0)),
    nbr_adjs-IsApart id xs k,
  )
  | inr e ↦ rw e (nbr_adjs-IsApart id xs k)
]

abbrev pub IsWellView : View → Type 0
IsWellView v = IsLinked v × AllAnchored v

abbrev pub IsWell : Disc → Type 0
IsWell d = IsWellView (view d)

-- An operation that removes links.
abbrev pub IsWithin : View → Disc → Type 0
IsWithin v e = IsWell e × ((b : Link) → Has b (view e).links → Has b v.links)

-- The neighbor `id` alone need not be anchored.
pub purge-IsWell :
    (d : Disc) (id status : ℕ) (k0 : Key)
    → IsLinked (view d)
    → Has k0 (view d).keys
    → k0.id ≡ id
    → ((k : Key) → Has k (view d).keys → k.id ≢ id → IsAnchored (view d).links k)
    → IsWithin (view d) (nbr_purge d id status)
unfolding nbr_purge
purge-IsWell d id status k0 i h0 e0 anchored =
    let xs = nbr_adjs id d.adj_list in
    let e = for_each xs adj_del_single d in
    let inside : (x : Adj) → Has x xs → Has x d.adj_list × (x.nbr ≡ some id) = λ x m.
      let u = Has-of_filter (λ (a : Adj). points_to id a.nbr) x d.adj_list m in
      (u.0, points_iff id x.nbr u.1) in
    let r = removed xs d i (nbr_adjs-IsApart id d.adj_list i.apart) (λ x m. (inside x m).0) in
    let gone : (b : Link) → Has b (view e).links → b.nbr ≢ some id = λ b m q.
      let w = r.was b m in
      let x = links_of_nbr d id b w.0 q in w.1 x.0 x.1 (ap (λ (y : Link). y.ptr) x.2) in
    let ke : Has k0 (view e).keys = subst (λ (ks : List Key). Has k0 ks) (sym r.same_keys) h0 in
    let final : (f : Disc) (n : Neighbor)
        → view f ≡ view e
        → n.id ≡ id
        → IsWithin (view d) (nbr_del f n) =
      λ f n v q.
        let w : view (nbr_del f n) ≡ unkey (view e) id =
          view-nbr_del f n ∙ ap (λ (x : View). unkey x n.id) v ∙ ap (unkey (view e)) q in
        (
          subst IsWellView (sym w) (
            unkey-IsLinked (view e) id r.linked gone,
            λ k m.
                let u = Has-of_filter (other_key id) k (view e).keys m in
                let old : Has k (view d).keys =
                  subst (λ (ks : List Key). Has k ks) r.same_keys u.0 in
                let ne : k.id ≢ id = λ z. ground arith in
                let (b, hb, eb, fb) = anchored k old ne in
                let far : (x : Adj) → Has x xs → b.ptr ≢ x.ptr = λ x hx z.
                  let s = inside x hx in
                  let same : b ≡ link_of x =
                    i.uniq b (link_of x) hb (Has-map link_of x d.adj_list s.0) z in
                  let o : some k.id ≡ some id = sym eb ∙ ap (λ (y : Link). y.nbr) same ∙ s.1 in
                  ne (cc) in
                (b, r.is b hb far, eb, fb),
          ),
          λ b m. (r.was b (subst (λ (x : View). Has b x.links) w m)).0,
        ) in
    with_nbr_lem (λ (f : Disc). IsWithin (view d) (with_nbr f id (λ n. nbr_del f n))) e id k0
      (λ n. on_nbr e n (λ w. session_shutdown w status)) ke e0
      λ n hn q.
        let f = on_nbr e n (λ w. session_shutdown w status) in
        let v = view-on_nbr e n (λ w. session_shutdown w status) in
        let kf : Has k0 (view f).keys = subst (λ (x : View). Has k0 x.keys) (sym v) ke in
        with_nbr_lem (IsWithin (view d)) f id k0 (λ n. nbr_del f n) kf e0 λ m hm p. final f m v p

-- With an adjacency of its family left, a neighbor is anchored.
counted :
    (as' : List Adj) (id : ℕ) (af : Af)
    → (nbr_adj_count as' id af == 0) ≡ false
    → (a : Link) × Has a (map link_of as') × (a.nbr ≡ some id) × (source_af a.source ≡ af)
unfolding nbr_adj_count
counted [] id af h = absurd (ground arith)
counted (a ∷ as') id af h =
    elim (Bool-cases (points_to id a.nbr && af_eq (source_af a.source) af)) [
      | inl e ↦ (
        link_of a,
        inl refl,
        points_iff id a.nbr (and_left _ _ e),
        af_eq_lem _ _ (and_right _ _ e),
      )
      | inr e ↦
          let k : (0 + nbr_adj_count as' id af == 0) ≡ false = rw e at h in
          let r = counted as' id af (ground arith) in (r.0, inr r.1, r.2, r.3)
    ]

single-IsAnchored :
    (d : Disc) (a : Adj) (k : Key)
    → IsLinked (view d)
    → Has a d.adj_list
    → a.nbr ≢ some k.id
    → IsAnchored (view d).links k
    → IsAnchored (view (adj_del_single d a)).links k
single-IsAnchored d a k i h n x =
    subst (λ (v : View). IsAnchored v.links k) (sym (view_single d a))
      (unlink-IsAnchored (view d) (link_of a) i (Has-map link_of a d.adj_list h) k n x)

single_keys : (d : Disc) (a : Adj) → (view (adj_del_single d a)).keys ≡ (view d).keys
unfolding adj_del_single
single_keys d a = refl

check-IsWell :
    (d : Disc) (o : Option ℕ) (status : ℕ)
    → IsLinked (view d)
    → ((id : ℕ) → o ≡ some id → (k : Key) × Has k (view d).keys × (k.id ≡ id))
    → ((k : Key) → Has k (view d).keys → o ≢ some k.id → IsAnchored (view d).links k)
    → IsWithin (view d) (nbr_check d o status)
unfolding nbr_check
check-IsWell d none status i known anchored = ((i, λ k h. anchored k h (λ e. cc)), λ b h. h)
check-IsWell d (some id) status i known anchored =
    let (k0, h0, e0) = known id refl in
    let rest : (k : Key) → Has k (view d).keys → k.id ≢ id → IsAnchored (view d).links k =
      λ k h n. anchored k h (λ e. n (sym (some_inj e))) in
    with_nbr_lem (IsWithin (view d)) d id k0
      (λ n. if nbr_adj_count d.adj_list id n.af == 0 then nbr_purge d id status else d) h0 e0
      λ n hn q. elim (Bool-cases (nbr_adj_count d.adj_list id n.af == 0)) [
        | inl z ↦ rw z (purge-IsWell d id status k0 i h0 e0 rest)
        | inr z ↦ rw z (
          (
            i,
            λ k h. elim (Bool-cases (k.id == id)) [
              | inl s ↦
                  let same : k ≡ key_of n =
                    i.id_uniq k (key_of n) h (Has-map key_of n d.nbrs hn) (ground arith) in
                  let c = counted d.adj_list id n.af z in
                  rw same (c.0, c.1, c.2 ∙ ap some (sym q), c.3)
              | inr s ↦ rest k h (λ t. ground arith)
            ],
          ),
          λ b h. h,
        )
      ]

pub adj_del-IsWithin :
    (d : Disc) (a : Adj) (status : ℕ)
    → IsWell d
    → Has a d.adj_list
    → IsWell (adj_del d a status)
      × ((b : Link)
          → Has b (view (adj_del d a status)).links
          → Has b (view d).links × (b.ptr ≢ a.ptr))
unfolding adj_del
adj_del-IsWithin d a status (i, w) h =
    let r =
      check-IsWell (adj_del_single d a) a.nbr status (single-IsLinked d a i h)
        (λ id e.
          let o = i.owned (link_of a) id (Has-map link_of a d.adj_list h) e in
          (o.0, subst (λ (ks : List Key). Has o.0 ks) (sym (single_keys d a)) o.1, o.2))
        (λ k m n.
          single-IsAnchored d a k i h n
            (w k (subst (λ (ks : List Key). Has k ks) (single_keys d a) m))) in
    (r.0, λ b m. single_was d a b (r.1 b m))

pub adj_del-IsWell :
    (d : Disc) (a : Adj) (status : ℕ) → IsWell d → Has a d.adj_list → IsWell (adj_del d a status)
adj_del-IsWell d a status w h = (adj_del-IsWithin d a status w h).0
