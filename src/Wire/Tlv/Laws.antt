-- ===== src/Wire/Tlv/Laws.antt =====
-- The bytes that the loop over the optional TLVs reads.
use openbsd_ldpd.Base.{
  ℕ, zero, suc, ◌+◌, ◌-◌, ◌≤◌, ◌<◌, ◌≢◌, refl, List, [], ◌∷◌, ltb, arith, length, drop, Bool-cases,
  inl, inr,
}
use openbsd_ldpd.Wire.{Parsed, of16}
use openbsd_ldpd.Wire.Tlv.{Noted, and_then, opt_tlvs}
use openbsd_ldpd.Wire.Fec.Bounds.{length-drop}

and_then_avoids {ℓ κ} :
    {A : Type ℓ} {B : Type κ} (x : Noted A) (f : A → Noted B)
    → x.1 ≢ Parsed.overrun
    → x.1 ≢ Parsed.hang
    → ((a : A) → ((f a).1 ≢ Parsed.overrun) × ((f a).1 ≢ Parsed.hang))
    → ((and_then x f).1 ≢ Parsed.overrun) × ((and_then x f).1 ≢ Parsed.hang)
unfolding and_then
and_then_avoids (ns, Parsed.ok a) f h1 h2 k = k a
and_then_avoids (ns, Parsed.refused r) f h1 h2 k = (λ e. cc, λ e. cc)
and_then_avoids (ns, Parsed.overrun) f h1 h2 k = absurd (h1 refl)
and_then_avoids (ns, Parsed.hang) f h1 h2 k = absurd (h2 refl)

-- With more fuel than bytes the loop ends, and it reads nothing past the message, when the reader of one
-- TLV reads nothing past its value.
pub opt_tlvs_inside {ℓ} :
    {S : Type ℓ} (visit : S → ℕ → ℕ → List ℕ → Noted S) (f len : ℕ) (buf : List ℕ) (s : S)
    → ((s : S) (t l : ℕ) (v : List ℕ)
        → l ≤ length v
        → ((visit s t l v).1 ≢ Parsed.overrun) × ((visit s t l v).1 ≢ Parsed.hang))
    → len < f
    → len ≤ length buf
    → ((opt_tlvs visit f len buf s).1 ≢ Parsed.overrun)
      × ((opt_tlvs visit f len buf s).1 ≢ Parsed.hang)
unfolding opt_tlvs
opt_tlvs_inside visit zero len buf s hv hf hb = absurd (omega arith)
opt_tlvs_inside visit (suc f) zero buf s hv hf hb = (λ e. cc, λ e. cc)
opt_tlvs_inside visit (suc f) (suc n) [] s hv hf hb = absurd (omega arith)
opt_tlvs_inside visit (suc f) (suc n) (a ∷ []) s hv hf hb = (λ e. ground arith, λ e. ground arith)
opt_tlvs_inside visit (suc f) (suc n) (a ∷ b ∷ []) s hv hf hb =
    (λ e. ground arith, λ e. ground arith)
opt_tlvs_inside visit (suc f) (suc n) (a ∷ b ∷ c ∷ []) s hv hf hb =
    (λ e. ground arith, λ e. ground arith)
opt_tlvs_inside visit (suc f) (suc n) (t1 ∷ t0 ∷ l1 ∷ l0 ∷ rest) s hv hf hb =
    elim (Bool-cases (ltb (suc n) 4)) [
      | inl b ↦ rw b (λ e. cc, λ e. cc)
      | inr b ↦ rw b (elim (Bool-cases (ltb (suc n) (of16 l1 l0 + 4))) [
        | inl c ↦ rw c (λ e. cc, λ e. cc)
        | inr c ↦ rw c (
            let fits : of16 l1 l0 ≤ length rest = ground arith in
            and_then_avoids (visit s (of16 t1 t0) (of16 l1 l0) rest) _
              (hv s (of16 t1 t0) (of16 l1 l0) rest fits).0
              (hv s (of16 t1 t0) (of16 l1 l0) rest fits).1
              λ s2.
                opt_tlvs_inside visit f (suc n - 4 - of16 l1 l0) (drop (of16 l1 l0) rest) s2 hv
                  (ground arith) (ground (arith, length-drop (of16 l1 l0) rest)))
      ])
    ]
