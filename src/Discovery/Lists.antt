-- ===== src/Discovery/Lists.antt =====
-- Membership in a list, as a predicate by recursion, and a filter by a Boolean test.
use openbsd_ldpd.Base.{
  ◌≡◌, ◌∙◌, ◌⊎◌, inl, inr, refl, ap, Bool, true, List, [], ◌∷◌, map, if◌then◌else◌, Bool-cases,
}

module _ {A : Type 0} where
  abbrev pub Has : A → List A → Type 0
  Has a [] = ⊥
  Has a (x ∷ xs) = (a ≡ x) ⊎ Has a xs

  abbrev pub filter : (A → Bool) → List A → List A
  filter p [] = []
  filter p (x ∷ xs) = if p x then x ∷ filter p xs else filter p xs

  pub Has-filter :
      (p : A → Bool) (a : A) (xs : List A) → Has a xs → p a ≡ true → Has a (filter p xs)
  Has-filter p a [] h e = h
  Has-filter p a (x ∷ xs) h e = elim (Bool-cases (p x)) [
    | inl t ↦ rw t (elim h [ inl q ↦ inl q | inr k ↦ inr (Has-filter p a xs k e) ])
    | inr t ↦ rw t (elim h [ inl q ↦ absurd (cc) | inr k ↦ Has-filter p a xs k e ])
  ]

  pub Has-of_filter :
      (p : A → Bool) (a : A) (xs : List A) → Has a (filter p xs) → Has a xs × (p a ≡ true)
  Has-of_filter p a [] h = absurd h
  Has-of_filter p a (x ∷ xs) h = elim (Bool-cases (p x)) [
    | inl t ↦
        let k : Has a (x ∷ filter p xs) = rw t at h in
        elim k [
          | inl q ↦ (inl q, ap p q ∙ t)
          | inr k ↦ let r = Has-of_filter p a xs k in (inr r.0, r.1)
        ]
    | inr t ↦
        let k : Has a (filter p xs) = rw t at h in let r = Has-of_filter p a xs k in (inr r.0, r.1)
  ]

-- What stands in a mapped list comes from the list.
pub Has-map : {A B : Type 0} (f : A → B) (a : A) (xs : List A) → Has a xs → Has (f a) (map f xs)
Has-map f a [] h = absurd h
Has-map f a (x ∷ xs) (inl q) = inl (ap f q)
Has-map f a (x ∷ xs) (inr k) = inr (Has-map f a xs k)

pub Has-of_map :
    {A B : Type 0} (f : A → B) (b : B) (xs : List A)
    → Has b (map f xs)
    → (a : A) × Has a xs × (b ≡ f a)
Has-of_map f b [] h = absurd h
Has-of_map f b (x ∷ xs) (inl q) = (x, inl refl, q)
Has-of_map f b (x ∷ xs) (inr k) = let r = Has-of_map f b xs k in (r.0, inr r.1, r.2)
