-- ===== src/Discovery/View/Insert.antt =====
-- An adjacency that is made, and a neighbor that adopts adjacencies.
use openbsd_ldpd.Base.{
  ℕ, suc, ◌<◌, ◌≡◌, ◌≢◌, ◌∙◌, ◌⊎◌, inl, inr, refl, sym, ap, true, Option, none, some, ◌∷◌, ◌==◌,
  Bool-cases, arith,
}
use mathlib.Core.Path.{subst}
use openbsd_ldpd.Discovery.{HelloSource}
use openbsd_ldpd.Discovery.Lists.{Has, Has-map, Has-of_map}
use openbsd_ldpd.Discovery.View.{
  Link, Key, Mark, View, IsLinked, AllAnchored, target_of, mark_target, mark_source,
}
use openbsd_ldpd.Discovery.View.Unlink.{some_inj, keeps_mark, marks_ptr, marks_uniq}
use openbsd_ldpd.Discovery.View.Purge.{IsWellView}

abbrev pub new_link : View → ℕ → Option ℕ → HelloSource → Link
new_link v lsr o s = record { ptr = v.next; lsr_id = lsr; nbr = o; source = s }

abbrev pub insert : View → ℕ → Option ℕ → HelloSource → View
insert v lsr o s = record v {
  links = new_link v lsr o s ∷ v.links;
  marks = mark_source (target_of s) (some v.next) v.marks;
  next = suc v.next;
}

-- The new adjacency points to the neighbor with its LSR id, if there is one, and its source is known and
-- has no adjacency.
pub record Fits (v : View) (lsr : ℕ) (o : Option ℕ) (s : HelloSource) : Type 0 where
  pub named : (id : ℕ) → o ≡ some id → lsr ≡ id
  pub owned : (id : ℕ) → o ≡ some id → (k : Key) × Has k v.keys × (k.id ≡ id)
  pub adopted : (k : Key) → Has k v.keys → k.id ≡ lsr → o ≡ some k.id
  pub clear :
      (b : Link) (t : ℕ) → Has b v.links → target_of s ≡ some t → target_of b.source ≢ some t
  pub known : (t : ℕ) → target_of s ≡ some t → (m : Mark) × Has m v.marks × (m.ptr ≡ t)

module _ (v : View) (lsr : ℕ) (o : Option ℕ) (s : HelloSource) (i : IsLinked v)
    (f : Fits v lsr o s) where
  insert-fresh : (a : Link) → Has a (insert v lsr o s).links → a.ptr < suc v.next
  insert-fresh a (inl q) = let e : a.ptr ≡ v.next = ap (λ (x : Link). x.ptr) q in omega arith
  insert-fresh a (inr h) = let e = i.fresh a h in omega arith

  far : (b : Link) → Has b v.links → b.ptr ≢ v.next
  far b h = λ e. let l = i.fresh b h in absurd (omega arith)

  insert-uniq :
      (a b : Link)
      → Has a (insert v lsr o s).links
      → Has b (insert v lsr o s).links
      → a.ptr ≡ b.ptr
      → a ≡ b
  insert-uniq a b (inl p) (inl q) e = p ∙ sym q
  insert-uniq a b (inl p) (inr k) e = absurd (far b k (sym e ∙ ap (λ (x : Link). x.ptr) p))
  insert-uniq a b (inr h) (inl q) e = absurd (far a h (e ∙ ap (λ (x : Link). x.ptr) q))
  insert-uniq a b (inr h) (inr k) e = i.uniq a b h k e

  insert-named :
      (a : Link) (id : ℕ) → Has a (insert v lsr o s).links → a.nbr ≡ some id → a.lsr_id ≡ id
  insert-named a id (inl q) e =
      ap (λ (x : Link). x.lsr_id) q ∙ f.named id (sym (ap (λ (x : Link). x.nbr) q) ∙ e)
  insert-named a id (inr h) e = i.named a id h e

  insert-owned :
      (a : Link) (id : ℕ)
      → Has a (insert v lsr o s).links
      → a.nbr ≡ some id
      → (k : Key) × Has k v.keys × (k.id ≡ id)
  insert-owned a id (inl q) e = f.owned id (sym (ap (λ (x : Link). x.nbr) q) ∙ e)
  insert-owned a id (inr h) e = i.owned a id h e

  insert-adopted :
      (a : Link) (k : Key)
      → Has a (insert v lsr o s).links
      → Has k v.keys
      → k.id ≡ a.lsr_id
      → a.nbr ≡ some k.id
  insert-adopted a k (inl q) m e =
      ap (λ (x : Link). x.nbr) q ∙ f.adopted k m (e ∙ ap (λ (x : Link). x.lsr_id) q)
  insert-adopted a k (inr h) m e = i.adopted a k h m e

  -- A mark of the new state is an old one, or points to the new adjacency.
  new_mark :
      (t : Option ℕ) (m : Mark)
      → Has m (mark_source t (some v.next) v.marks)
      → Has m v.marks ⊎ ((m.adj ≡ some v.next) × (t ≡ some m.ptr))
  new_mark none m h = inl h
  new_mark (some t) m h =
      let r = Has-of_map (mark_target t (some v.next)) m v.marks h in
      elim (Bool-cases (r.0.ptr == t)) [
        | inl q ↦
            let g : mark_target t (some v.next) r.0 ≡ record (r.0) { adj = some v.next } =
              rw q refl in
            let e : m.ptr ≡ r.0.ptr = ap (λ (x : Mark). x.ptr) (r.2 ∙ g) in
            let z : t ≡ m.ptr = ground arith in inr (ap (λ (x : Mark). x.adj) (r.2 ∙ g), ap some z)
        | inr q ↦
            let g : mark_target t (some v.next) r.0 ≡ r.0 = rw q refl in inl (rw (r.2 ∙ g) r.1)
      ]

  insert-held :
      (m : Mark) (p : ℕ)
      → Has m (insert v lsr o s).marks
      → m.adj ≡ some p
      → (a : Link) × Has a (insert v lsr o s).links
        × (a.ptr ≡ p)
        × (target_of a.source ≡ some m.ptr)
  insert-held m p h e = elim (new_mark (target_of s) m h) [
    | inl k ↦ let r = i.held m p k e in (r.0, inr r.1, r.2, r.3)
    | inr (g, t) ↦ (new_link v lsr o s, inl refl, some_inj (sym g ∙ e), t)
  ]

  marked :
      (t : ℕ) (m : Mark)
      → Has m v.marks
      → m.ptr ≡ t
      → (n : Mark) × Has n (mark_source (some t) (some v.next) v.marks)
        × (n.ptr ≡ t)
        × (n.adj ≡ some v.next)
  marked t m h e =
      let q : (m.ptr == t) ≡ true = ground arith in
      (
        mark_target t (some v.next) m,
        Has-map (mark_target t (some v.next)) m v.marks h,
        rw q e,
        rw q refl,
      )

  insert-holder :
      (a : Link) (t : ℕ)
      → Has a (insert v lsr o s).links
      → target_of a.source ≡ some t
      → (m : Mark) × Has m (insert v lsr o s).marks × (m.ptr ≡ t) × (m.adj ≡ some a.ptr)
  insert-holder a t (inl q) e =
      let g : target_of s ≡ some t = ap (λ (x : Link). target_of x.source) (sym q) ∙ e in
      let k = f.known t g in
      let r = marked t k.0 k.1 k.2 in
      (
        r.0,
        subst (λ (x : Option ℕ). Has r.0 (mark_source x (some v.next) v.marks)) (sym g) r.1,
        r.2,
        r.3 ∙ ap some (ap (λ (x : Link). x.ptr) (sym q)),
      )
  insert-holder a t (inr h) e =
      let m = i.holder a t h e in
      let n : target_of s ≢ some m.0.ptr = λ q. f.clear a m.0.ptr h q (e ∙ ap some (sym m.2)) in
      (m.0, keeps_mark (target_of s) (some v.next) v.marks m.0 m.1 n, m.2, m.3)

  pub insert-IsLinked : IsLinked (insert v lsr o s)
  insert-IsLinked = record {
    sound = i.sound;
    fresh = insert-fresh;
    apart = (far, i.apart);
    uniq = insert-uniq;
    named = insert-named;
    owned = insert-owned;
    adopted = insert-adopted;
    id_uniq = i.id_uniq;
    addr_uniq = i.addr_uniq;
    held = insert-held;
    holder = insert-holder;
    mark_fresh = λ m k.
        let r = marks_ptr (target_of s) (some v.next) v.marks m k in
        let l = i.mark_fresh r.0 r.1 in omega (arith, r.3);
    mark_uniq = marks_uniq (target_of s) (some v.next) v.marks i.mark_uniq;
  }

  pub insert-IsWell : AllAnchored v → IsWellView (insert v lsr o s)
  insert-IsWell w = (insert-IsLinked, λ k h. let r = w k h in (r.0, inr r.1, r.2, r.3))
