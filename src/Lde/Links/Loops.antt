-- ===== src/Lde/Links/Loops.antt =====
-- The loops over trees and lists keep what every round keeps.
use openbsd_ldpd.Base.{◌≡◌, true, List, [], ◌∷◌, arith, is_some, for_each}
use openbsd_ldpd.RbTree.{KeyOrder, find}
use openbsd_ldpd.RbTree.Laws.{same_refl}
use openbsd_ldpd.Lde.{Lde, keys}
use openbsd_ldpd.Lde.Links.{Inv, Keeps, Keeps-refl, Keeps-trans, Safe, Safe-refl, Safe-trans, Stays}

-- A loop keeps what every round keeps, under a condition that the rounds keep too.
pub for_each-Keeps {ℓ} :
    {A : Type ℓ} (P : Lde → Type 0) (xs : List A) (body : Lde → A → Lde)
    → ((s : Lde) (x : A) → P s → Keeps s (body s x) × P (body s x))
    → (s : Lde) → P s
    → Keeps s (for_each xs body s) × P (for_each xs body s)
for_each-Keeps P [] body keep s h = (Keeps-refl s, h)
for_each-Keeps P (x ∷ xs) body keep s h =
    let (k, h1) = keep s x h in
    let (k2, h2) = for_each-Keeps P xs body keep (body s x) h1 in (Keeps-trans k k2, h2)

pub for_each-Safe {ℓ} :
    {A : Type ℓ} (P : Lde → Type 0) (xs : List A) (body : Lde → A → Lde)
    → ((s t : Lde) → Stays s t → P s → P t)
    → ((s : Lde) (x : A) → Inv s → P s → Safe s (body s x))
    → (s : Lde) → Inv s
    → P s
    → Safe s (for_each xs body s)
for_each-Safe P [] body mono keep s v h = Safe-refl v
for_each-Safe P (x ∷ xs) body mono keep s v h =
    let one = keep s x v h in
    Safe-trans one
      (for_each-Safe P xs body mono keep (body s x) one.inv (mono s (body s x) one.stays h))

pub head_found {ℓ} :
    {K : Type 0} (o : KeyOrder K) {V : Type ℓ} (k : K) (v : V) (t : List (K × V))
    → is_some (find o ((k, v) ∷ t) k) ≡ true
unfolding find
head_found o k v t = ground (arith, same_refl o k)

pub tail_found {ℓ} :
    {K : Type 0} (o : KeyOrder K) {V : Type ℓ} (k : K) (v : V) (t : List (K × V)) (j : K)
    → is_some (find o t j) ≡ true
    → is_some (find o ((k, v) ∷ t) j) ≡ true
unfolding find
tail_found o k v t j h = ground arith

-- The same with a condition on each item.
abbrev pub All {ℓ κ} : {A : Type ℓ} → (A → Type κ) → List A → Type κ
All P [] = Unit
All P (x ∷ xs) = P x × All P xs

pub All-map {ℓ κ μ} :
    {A : Type ℓ} {P : A → Type κ} {Q : A → Type μ} (xs : List A)
    → ((x : A) → P x → Q x)
    → All P xs
    → All Q xs
All-map [] h a = tt
All-map (x ∷ xs) h a = (h x a.0, All-map xs h a.1)

pub for_each-Safe_items {ℓ} :
    {A : Type ℓ} (P : Lde → A → Type 0) (xs : List A) (body : Lde → A → Lde)
    → ((s t : Lde) → Stays s t → (x : A) → P s x → P t x)
    → ((s : Lde) (x : A) → Inv s → P s x → Safe s (body s x))
    → (s : Lde) → Inv s
    → All (P s) xs
    → Safe s (for_each xs body s)
for_each-Safe_items P [] body mono keep s v h = Safe-refl v
for_each-Safe_items P (x ∷ xs) body mono keep s v h =
    let one = keep s x v h.0 in
    Safe-trans one (
      for_each-Safe_items P xs body mono keep (body s x) one.inv
        (All-map xs (mono s (body s x) one.stays) h.1))

-- Every key of a tree is found.
pub keys-All {ℓ} :
    {K : Type 0} (o : KeyOrder K) {V : Type ℓ} (t : List (K × V))
    → All (λ k. is_some (find o t k) ≡ true) (keys t)
keys-All o [] = tt
keys-All o ((k, v) ∷ t) = (head_found o k v t, All-map (keys t) (tail_found o k v t) (keys-All o t))
