-- ===== src/Discovery/View/Delete.antt =====
-- adj_del keeps the invariant.
use openbsd_ldpd.Base.{
  ℕ, ◌≡◌, ◌≢◌, ◌∙◌, inl, inr, refl, sym, ap, true, Option, none, some, List, [], ◌∷◌, ◌==◌, map,
  Bool-cases, arith, for_each,
}
use mathlib.Core.Path.{subst}
use openbsd_ldpd.Nbr.{Engine, Nbr}
use openbsd_ldpd.Discovery.{
  HelloSource, Adj, Neighbor, Tnbr, Disc, on_nbr, set_session, nbr_find_ldpid, points_to,
}
use openbsd_ldpd.Discovery.Adjacency.{adj_del_single, other, link_target, set_target}
use openbsd_ldpd.Discovery.Lists.{Has, filter, Has-filter, Has-of_filter, Has-map}
use openbsd_ldpd.Discovery.View.{
  Link, Key, View, IsLinked, IsApart, target_of, mark_target, mark_source, other_link, unlink, view,
  link_of, key_of, mark_of,
}
use openbsd_ldpd.Discovery.View.Unlink.{unlink-IsLinked, remains, other_ne}

links_filter :
    (p : ℕ) (xs : List Adj)
    → map link_of (filter (other p) xs) ≡ filter (other_link p) (map link_of xs)
links_filter p [] = refl
links_filter p (x ∷ xs) = elim (Bool-cases (other p x)) [
  | inl e ↦ rw e (ap (◌∷◌ (link_of x)) (links_filter p xs))
  | inr e ↦ rw e (links_filter p xs)
]

marks_map :
    (t : ℕ) (a : Option ℕ) (ts : List Tnbr)
    → map mark_of (map (set_target t a) ts) ≡ map (mark_target t a) (map mark_of ts)
marks_map t a [] = refl
marks_map t a (x ∷ xs) = elim (Bool-cases (x.ptr == t)) [
  | inl e ↦ rw (e, marks_map t a xs) refl
  | inr e ↦ rw (e, marks_map t a xs) refl
]

pub marks_link :
    (s : HelloSource) (a : Option ℕ) (ts : List Tnbr)
    → map mark_of (link_target s a ts) ≡ mark_source (target_of s) a (map mark_of ts)
marks_link (HelloSource.link i af x) a ts = refl
marks_link (HelloSource.targeted af t) a ts = marks_map t a ts

pub view_single : (d : Disc) (a : Adj) → view (adj_del_single d a) ≡ unlink (view d) (link_of a)
unfolding adj_del_single
view_single d a = rw (links_filter a.ptr d.adj_list, marks_link a.source none d.tnbrs) refl

pub keys_map :
    (g : Neighbor → Neighbor) (ns : List Neighbor)
    → ((n : Neighbor) → key_of (g n) ≡ key_of n)
    → map key_of (map g ns) ≡ map key_of ns
keys_map g [] h = refl
keys_map g (n ∷ ns) h = rw (h n, keys_map g ns h) refl

set_session_key : (id : ℕ) (s : Nbr) (n : Neighbor) → key_of (set_session id s n) ≡ key_of n
set_session_key id s n = elim (Bool-cases (n.id == id)) [ inl e ↦ rw e refl | inr e ↦ rw e refl ]

pub view-on_nbr : (d : Disc) (n : Neighbor) (f : Engine → Engine) → view (on_nbr d n f) ≡ view d
unfolding on_nbr
view-on_nbr d n f = rw (keys_map (set_session n.id _) d.nbrs (set_session_key n.id _)) refl

pub find_key :
    (ns : List Neighbor) (k : Key)
    → Has k (map key_of ns)
    → (n : Neighbor) × (nbr_find_ldpid ns k.id ≡ some n) × Has n ns × (n.id ≡ k.id)
unfolding nbr_find_ldpid
find_key [] k h = elim h [ ]
find_key (n ∷ ns) k h = elim (Bool-cases (n.id == k.id)) [
  | inl e ↦ (n, rw e refl, inl refl, ground arith)
  | inr e ↦ elim h [
    | inl q ↦ let r : k.id ≡ n.id = ap (λ (x : Key). x.id) q in absurd (ground arith)
    | inr m ↦ let r = find_key ns k m in (r.0, rw e r.1, inr r.2, r.3)
  ]
]

pub points_iff : (id : ℕ) (o : Option ℕ) → points_to id o ≡ true → o ≡ some id
points_iff id none h = cc
points_iff id (some x) h = ap some (ground arith)

pub points_self : (id : ℕ) → points_to id (some id) ≡ true
points_self id = ground arith

-- The loop that removes the adjacencies `xs`.
module _ (xs : List Adj) (d : Disc) where
  pub record HasRemoved (e : Disc) : Type 0 where
    pub linked : IsLinked (view e)
    pub same_keys : map key_of e.nbrs ≡ map key_of d.nbrs
    pub was :
        (b : Link)
        → Has b (view e).links
        → Has b (view d).links × ((x : Adj) → Has x xs → b.ptr ≢ x.ptr)
    pub is :
        (b : Link)
        → Has b (view d).links
        → ((x : Adj) → Has x xs → b.ptr ≢ x.ptr)
        → Has b (view e).links

pub single-IsLinked :
    (d : Disc) (a : Adj)
    → IsLinked (view d)
    → Has a d.adj_list
    → IsLinked (view (adj_del_single d a))
single-IsLinked d a i h =
    rw (view_single d a) (unlink-IsLinked (view d) (link_of a) i (Has-map link_of a d.adj_list h))

pub single_nbrs : (d : Disc) (a : Adj) → (adj_del_single d a).nbrs ≡ d.nbrs
unfolding adj_del_single
single_nbrs d a = refl

pub single_was :
    (d : Disc) (a : Adj) (b : Link)
    → Has b (view (adj_del_single d a)).links
    → Has b (view d).links × (b.ptr ≢ a.ptr)
single_was d a b h =
    let k : Has b (unlink (view d) (link_of a)).links =
      subst (λ (v : View). Has b v.links) (view_single d a) h in
    let r = Has-of_filter (other_link a.ptr) b (view d).links k in (r.0, other_ne a.ptr b r.1)

pub single_is :
    (d : Disc) (a : Adj) (i : IsLinked (view d))
    → Has a d.adj_list
    → (b : Link) → Has b (view d).links
    → b.ptr ≢ a.ptr
    → Has b (view (adj_del_single d a)).links
single_is d a i h b k n =
    subst (λ (v : View). Has b v.links) (sym (view_single d a))
      (remains (view d) (link_of a) i (Has-map link_of a d.adj_list h) b k n)

single_keeps :
    (d : Disc) (a x : Adj) → Has x d.adj_list → x.ptr ≢ a.ptr → Has x (adj_del_single d a).adj_list
unfolding adj_del_single
single_keeps d a x h n = Has-filter (other a.ptr) x d.adj_list h (ground arith)

pub removed :
    (xs : List Adj) (d : Disc)
    → IsLinked (view d)
    → IsApart (map link_of xs)
    → ((x : Adj) → Has x xs → Has x d.adj_list)
    → HasRemoved xs d (for_each xs adj_del_single d)
removed [] d i p h = record {
  linked = i;
  same_keys = refl;
  was = λ b m. (m, λ x k. absurd k);
  is = λ b m n. m;
}
removed (a ∷ xs) d i p h =
    let d1 = adj_del_single d a in
    let i1 = single-IsLinked d a i (h a (inl refl)) in
    let far : (x : Adj) → Has x xs → x.ptr ≢ a.ptr =
      λ x k. p.0 (link_of x) (Has-map link_of x xs k) in
    let r = removed xs d1 i1 p.1 (λ x k. single_keeps d a x (h x (inr k)) (far x k)) in
    record {
      linked = r.linked;
      same_keys = r.same_keys ∙ ap (map key_of) (single_nbrs d a);
      was = λ b m.
          let w = r.was b m in
          let u = single_was d a b w.0 in
          (
            u.0,
            λ x k. elim k [ inl q ↦ λ e. u.1 (e ∙ ap (λ (y : Adj). y.ptr) q) | inr z ↦ w.1 x z ],
          );
      is = λ b m n.
          r.is b (single_is d a i (h a (inl refl)) b m (n a (inl refl))) (λ x k. n x (inr k));
    }
