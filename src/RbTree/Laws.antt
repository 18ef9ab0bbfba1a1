-- ===== src/RbTree/Laws.antt =====
-- The laws of the trees: what is found after an insertion, a removal and an assignment, and that the
-- order is kept.
use openbsd_ldpd.Base.{
  ◌≡◌, ◌↔◌, refl, Ordering, true, none, some, List, [], ◌∷◌, arith, if◌then◌else◌, Bool-cases, inl,
  inr,
}
use mathlib.Core.Option
use openbsd_ldpd.RbTree.{KeyOrder, same, find, insert, remove, update, Above, IsSorted}

module _ {K : Type 0} (o : KeyOrder K) where
  pub same_iff : (a b : K) → (same o a b ≡ true) ↔ (a ≡ b)
  unfolding same
  same_iff a b = (λ h. (o.eq_iff a b).0 (ground arith), λ e. ground (arith, (o.eq_iff a b).1 e))

  pub same_refl : (a : K) → same o a a ≡ true
  same_refl a = (same_iff a a).1 refl

  pub same_sym : (a b : K) → same o a b ≡ same o b a
  unfolding same
  same_sym a b = ground (arith, o.flips a b)

  module _ {ℓ} {V : Type ℓ} where
    pub find-insert :
        (t : List (K × V)) (f : K) (v : V) (g : K)
        → find o t f ≡ none
        → find o (insert o t f v) g ≡ (if same o f g then some v else find o t g)
    unfolding find insert
    find-insert [] f v g h = ground (arith, same_sym f g)
    find-insert ((k, w) ∷ t) f v g h = ground (
      arith,
      find-insert t f v g,
      same_sym f g,
      o.eq_iff f k,
      same_iff f k,
      same_iff f g,
      same_iff g k,
    )

    pub find-update :
        (t : List (K × V)) (f : K) (h : V → V) (g : K)
        → find o (update o t f h) g ≡ (if same o f g then Option.map h (find o t g) else find o t g)
    unfolding find update
    find-update [] f h g = ground arith
    find-update ((k, w) ∷ t) f h g =
        ground (arith, find-update t f h g, same_iff f g, same_iff f k, same_iff g k)

    pub Above-trans :
        (t : List (K × V)) (f g : K) → o.cmp f g ≡ Ordering.lt → Above o g t → Above o f t
    Above-trans [] f g h a = tt
    Above-trans ((k, w) ∷ t) f g h a = (o.trans f g k h a.0, a.1)

    -- A key below all keys of a tree is not in it.
    pub find-Above : (t : List (K × V)) (f : K) → Above o f t → find o t f ≡ none
    unfolding find same
    find-Above [] f a = refl
    find-Above ((k, w) ∷ t) f a = ground (arith, find-Above t f (Above-trans t f k a.0 a.1))

    pub Above-IsSorted : (t : List (K × V)) (f : K) → Above o f t → IsSorted o t
    Above-IsSorted [] f a = tt
    Above-IsSorted ((k, w) ∷ t) f a = a.1

    pub find-remove :
        (t : List (K × V)) (f g : K)
        → IsSorted o t
        → find o (remove o t f) g ≡ (if same o f g then none else find o t g)
    unfolding find remove
    find-remove [] f g s = ground arith
    find-remove ((k, w) ∷ t) f g s = ground (
      arith,
      find-remove t f g (Above-IsSorted t k s),
      same_iff f g,
      same_iff f k,
      same_iff g k,
      find-Above t k s,
    )

    insert-Above :
        (t : List (K × V)) (k f : K) (v : V)
        → o.cmp k f ≡ Ordering.lt
        → Above o k t
        → Above o k (insert o t f v)
    unfolding insert
    insert-Above [] k f v h a = (h, tt)
    insert-Above ((g, w) ∷ t) k f v h a =
        elim (o.cmp f g)
            as (λ c.
              o.cmp f g ≡ c
              → Above o k (elim c [
                | Ordering.lt ↦ (f, v) ∷ (g, w) ∷ t
                | Ordering.eq ↦ (g, w) ∷ t
                | Ordering.gt ↦ (g, w) ∷ insert o t f v
              ])) [
                | Ordering.lt ↦ λ e. (h, (e, a.1))
                | Ordering.eq ↦ λ e. a
                | Ordering.gt ↦ λ e. (a.0, insert-Above t g f v (ground (arith, o.flips f g)) a.1)
              ]
          refl

    pub insert-IsSorted :
        (t : List (K × V)) (f : K) (v : V) → IsSorted o t → IsSorted o (insert o t f v)
    unfolding insert
    insert-IsSorted [] f v s = tt
    insert-IsSorted ((g, w) ∷ t) f v s =
        elim (o.cmp f g)
            as (λ c.
              o.cmp f g ≡ c
              → IsSorted o (elim c [
                | Ordering.lt ↦ (f, v) ∷ (g, w) ∷ t
                | Ordering.eq ↦ (g, w) ∷ t
                | Ordering.gt ↦ (g, w) ∷ insert o t f v
              ])) [
                | Ordering.lt ↦ λ e. (e, s)
                | Ordering.eq ↦ λ e. s
                | Ordering.gt ↦ λ e. insert-Above t g f v (ground (arith, o.flips f g)) s
              ]
          refl

    update-Above :
        (t : List (K × V)) (k f : K) (h : V → V) → Above o k t → Above o k (update o t f h)
    unfolding update
    update-Above [] k f h a = tt
    update-Above ((g, w) ∷ t) k f h a = elim (Bool-cases (same o f g)) [
      | inl e ↦ rw e a
      | inr e ↦ rw e (a.0, update-Above t g f h a.1)
    ]

    pub update-IsSorted :
        (t : List (K × V)) (f : K) (h : V → V) → IsSorted o t → IsSorted o (update o t f h)
    unfolding update
    update-IsSorted [] f h s = tt
    update-IsSorted ((g, w) ∷ t) f h s = elim (Bool-cases (same o f g)) [
      | inl e ↦ rw e s
      | inr e ↦ rw e (update-Above t g f h s)
    ]

    remove-Above : (t : List (K × V)) (k f : K) → Above o k t → Above o k (remove o t f)
    unfolding remove
    remove-Above [] k f a = tt
    remove-Above ((g, w) ∷ t) k f a = elim (Bool-cases (same o f g)) [
      | inl e ↦ rw e (Above-trans t k g a.0 a.1)
      | inr e ↦ rw e (a.0, remove-Above t g f a.1)
    ]

    pub remove-IsSorted : (t : List (K × V)) (f : K) → IsSorted o t → IsSorted o (remove o t f)
    unfolding remove
    remove-IsSorted [] f s = tt
    remove-IsSorted ((g, w) ∷ t) f s = elim (Bool-cases (same o f g)) [
      | inl e ↦ rw e (Above-IsSorted t g s)
      | inr e ↦ rw e (remove-Above t g f s)
    ]
