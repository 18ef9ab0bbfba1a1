-- ===== src/Base/Branch.antt =====
-- The conditional and the test of a pointer against NULL as functions that stay shut, with what
-- holds of their results: a proof follows the branches of a function by these lemmas.
use mathlib.Core.Path.{◌≡◌, refl}
use mathlib.Core.Bool.{Bool, true, false}
use mathlib.Core.Option.{Option, none, some}

infix 1 if◌then◌else◌
unfoldable pub if◌then◌else◌ {ℓ} : {A : Type ℓ} → Bool → A → A → A
if true then x else y = x
if false then x else y = y

unfoldable pub on {ℓ κ} : {A : Type ℓ} {B : Type κ} → Option A → B → (A → B) → B
on none x k = x
on (some a) x k = k a

pub at_if {ℓ κ} :
    {A : Type ℓ} (P : A → Type κ) {b : Bool} {x y : A}
    → (b ≡ true → P x)
    → (b ≡ false → P y)
    → P (if b then x else y)
unfolding if◌then◌else◌
at_if P {b = true} p q = p refl
at_if P {b = false} p q = q refl

pub at_on {ℓ κ μ} :
    {A : Type ℓ} {B : Type μ} (P : B → Type κ) {o : Option A} {x : B} {k : A → B}
    → (o ≡ none → P x)
    → ((a : A) → o ≡ some a → P (k a))
    → P (on o x k)
unfolding on
at_on P {o = none} p q = p refl
at_on P {o = some a} p q = q a refl
