-- ===== src/Wire/Tlv/Holds.antt =====
-- What holds of the result of a parser, if it has one, by the steps of the parser.
use openbsd_ldpd.Base.{
  ℕ, zero, suc, ◌+◌, ◌-◌, ◌≡◌, refl, Bool, true, false, List, [], ◌∷◌, ltb, if◌then◌else◌,
  Bool-cases, inl, inr, drop,
}
use openbsd_ldpd.Wire.{Parsed, ◌>>=◌, of16, s_bad_tlv_len}
use openbsd_ldpd.Wire.Tlv.{Noted, and_then, opt_tlvs, shut}

-- The parser's result, if there is one, has the property.
abbrev pub Holds {ℓ κ} : {A : Type ℓ} → (A → Type κ) → Parsed A → Type κ
Holds P (Parsed.ok a) = P a
Holds P _ = Unit

pub bind-Holds {ℓ κ μ ν} :
    {A : Type ℓ} {B : Type κ} (P : A → Type μ) (Q : B → Type ν) (x : Parsed A) (f : A → Parsed B)
    → Holds P x
    → ((a : A) → P a → Holds Q (f a))
    → Holds Q (x >>= f)
bind-Holds P Q (Parsed.ok a) f h k = k a h
bind-Holds P Q (Parsed.refused r) f h k = tt
bind-Holds P Q Parsed.overrun f h k = tt
bind-Holds P Q Parsed.hang f h k = tt

pub then-Holds {ℓ κ μ ν} :
    {A : Type ℓ} {B : Type κ} (P : A → Type μ) (Q : B → Type ν) (x : Noted A) (f : A → Noted B)
    → Holds P x.1
    → ((a : A) → P a → Holds Q (f a).1)
    → Holds Q (and_then x f).1
unfolding and_then
then-Holds P Q (ns, Parsed.ok a) f h k = k a h
then-Holds P Q (ns, Parsed.refused r) f h k = tt
then-Holds P Q (ns, Parsed.overrun) f h k = tt
then-Holds P Q (ns, Parsed.hang) f h k = tt

pub if_holds {ℓ κ} :
    {A : Type ℓ} (Q : A → Type κ) (b : Bool) (x y : A)
    → (b ≡ true → Q x)
    → (b ≡ false → Q y)
    → Q (if b then x else y)
if_holds Q true x y p q = p refl
if_holds Q false x y p q = q refl

pub short-Holds {ℓ κ} :
    {S : Type ℓ} (P : S → Type κ) (b : Bool)
    → Holds P (if b then shut {A = S} s_bad_tlv_len else ([], Parsed.overrun)).1
short-Holds P true = tt
short-Holds P false = tt

pub all_hold {ℓ κ} : {A : Type ℓ} (P : A → Type κ) → ((a : A) → P a) → (x : Parsed A) → Holds P x
all_hold P h (Parsed.ok a) = h a
all_hold P h (Parsed.refused r) = tt
all_hold P h Parsed.overrun = tt
all_hold P h Parsed.hang = tt

-- What every round of the loop over the optional TLVs keeps, the loop keeps.
pub opt_tlvs-Holds {ℓ κ} :
    {S : Type ℓ} (P : S → Type κ) (visit : S → ℕ → ℕ → List ℕ → Noted S) (f len : ℕ) (buf : List ℕ)
    (s : S)
    → ((s : S) (t l : ℕ) (v : List ℕ) → P s → Holds P (visit s t l v).1)
    → P s
    → Holds P (opt_tlvs visit f len buf s).1
unfolding opt_tlvs
opt_tlvs-Holds P visit zero len buf s k h = tt
opt_tlvs-Holds P visit (suc f) zero buf s k h = h
opt_tlvs-Holds P visit (suc f) (suc n) [] s k h = short-Holds P (ltb (suc n) 4)
opt_tlvs-Holds P visit (suc f) (suc n) (a ∷ []) s k h = short-Holds P (ltb (suc n) 4)
opt_tlvs-Holds P visit (suc f) (suc n) (a ∷ b ∷ []) s k h = short-Holds P (ltb (suc n) 4)
opt_tlvs-Holds P visit (suc f) (suc n) (a ∷ b ∷ c ∷ []) s k h = short-Holds P (ltb (suc n) 4)
opt_tlvs-Holds P visit (suc f) (suc n) (t1 ∷ t0 ∷ l1 ∷ l0 ∷ rest) s k h =
    elim (Bool-cases (ltb (suc n) 4)) [
      | inl b ↦ rw b tt
      | inr b ↦ rw b (elim (Bool-cases (ltb (suc n) (of16 l1 l0 + 4))) [
        | inl c ↦ rw c tt
        | inr c ↦ rw c (
            then-Holds P P (visit s (of16 t1 t0) (of16 l1 l0) rest) _
              (k s (of16 t1 t0) (of16 l1 l0) rest h)
              λ s2 h2.
                opt_tlvs-Holds P visit f (suc n - 4 - of16 l1 l0) (drop (of16 l1 l0) rest) s2 k h2)
      ])
    ]
