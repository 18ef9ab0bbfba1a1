-- ===== src/RbTree.antt =====
-- The red-black trees of sys/tree.h, which are parametrised by the order of their keys. A tree is the
-- list of its entries in ascending order, which is also the order of RB_FOREACH.
pub mod Laws
use openbsd_ldpd.Base.{
  ℕ, ◌≡◌, ◌↔◌, Ordering, Bool, true, false, Option, none, some, List, [], ◌∷◌, if◌then◌else◌,
}

-- The outcome of a comparison with its arguments exchanged.
abbrev pub flip : Ordering → Ordering
flip Ordering.lt = Ordering.gt
flip Ordering.gt = Ordering.lt
flip Ordering.eq = Ordering.eq

-- What a comparison function must satisfy for RB_GENERATE: a total order. The sign of its result is
-- an `Ordering`.
pub record KeyOrder (K : Type 0) : Type 0 where
  pub cmp : K → K → Ordering
  pub eq_iff : (a b : K) → (cmp a b ≡ Ordering.eq) ↔ (a ≡ b)
  pub flips : (a b : K) → cmp b a ≡ flip (cmp a b)
  pub trans : (a b c : K) → cmp a b ≡ Ordering.lt → cmp b c ≡ Ordering.lt → cmp a c ≡ Ordering.lt

abbrev pub is_eq : Ordering → Bool
is_eq Ordering.eq = true
is_eq _ = false

module _ {K : Type 0} (o : KeyOrder K) where
  unfoldable pub same : K → K → Bool
  same a b = is_eq (o.cmp a b)

  module _ {ℓ} {V : Type ℓ} where
    -- RB_FIND
    unfoldable pub find : List (K × V) → K → Option V
    unfolding same
    find [] f = none
    find ((g, v) ∷ t) f = if same f g then some v else find t f

    -- RB_INSERT leaves the tree alone if the key is there.
    unfoldable pub insert : List (K × V) → K → V → List (K × V)
    insert [] f v = (f, v) ∷ []
    insert ((g, w) ∷ t) f v =
        let rest = (g, w) ∷ insert t f v in
        elim (o.cmp f g) [
          | Ordering.lt ↦ (f, v) ∷ (g, w) ∷ t
          | Ordering.eq ↦ (g, w) ∷ t
          | Ordering.gt ↦ rest
        ]

    -- RB_REMOVE of the entry with the key.
    unfoldable pub remove : List (K × V) → K → List (K × V)
    unfolding same
    remove [] f = []
    remove ((g, v) ∷ t) f = if same f g then t else (g, v) ∷ remove t f

    -- An assignment through the pointer that RB_FIND returns.
    unfoldable pub update : List (K × V) → K → (V → V) → List (K × V)
    unfolding same
    update [] f h = []
    update ((g, v) ∷ t) f h = if same f g then (g, h v) ∷ t else (g, v) ∷ update t f h

    -- Ascending keys, all above a bound.
    abbrev pub Above : K → List (K × V) → Type 0
    Above f [] = Unit
    Above f ((g, v) ∷ t) = (o.cmp f g ≡ Ordering.lt) × Above g t

    abbrev pub IsSorted : List (K × V) → Type 0
    IsSorted [] = Unit
    IsSorted ((g, v) ∷ t) = Above g t
