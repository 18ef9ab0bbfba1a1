-- ===== src/Wire/Framing/Chunks.antt =====
-- session_get_pdu of packet.c on a stream that arrives in parts.
use openbsd_ldpd.Base.{
  ℕ, zero, suc, ◌≤◌, ◌≡◌, refl, ap, false, none, some, List, [], ◌∷◌, ◌++◌, ltb, take, drop, length,
  length-append, arith, Bool-cases, inl, inr,
}
use openbsd_ldpd.Wire.Framing.{dlen, session_get_pdu}

-- More bytes at the end do not change a PDU that is complete.
dlen-append : (r s : List ℕ) → 4 ≤ length r → dlen (r ++ s) ≡ dlen r
dlen-append [] s h = absurd (omega arith)
dlen-append (a ∷ []) s h = absurd (omega arith)
dlen-append (a ∷ b ∷ []) s h = absurd (omega arith)
dlen-append (a ∷ b ∷ c ∷ []) s h = absurd (omega arith)
dlen-append (a ∷ b ∷ c ∷ d ∷ r) s h = refl

pub dlen_pos : (r : List ℕ) → 4 ≤ length r → 4 ≤ dlen r
dlen_pos [] h = absurd (omega arith)
dlen_pos (a ∷ []) h = absurd (omega arith)
dlen_pos (a ∷ b ∷ []) h = absurd (omega arith)
dlen_pos (a ∷ b ∷ c ∷ []) h = absurd (omega arith)
dlen_pos (a ∷ b ∷ c ∷ d ∷ r) h = omega arith

take_more {ℓ} : {A : Type ℓ} (k : ℕ) (r s : List A) → k ≤ length r → take k (r ++ s) ≡ take k r
take_more zero r s h = refl
take_more (suc k) [] s h = absurd (omega arith)
take_more (suc k) (x ∷ r) s h = ap (◌∷◌ x) (take_more k r s (omega arith))

drop_more {ℓ} : {A : Type ℓ} (k : ℕ) (r s : List A) → k ≤ length r → drop k (r ++ s) ≡ drop k r ++ s
drop_more zero r s h = refl
drop_more (suc k) [] s h = absurd (omega arith)
drop_more (suc k) (x ∷ r) s h = drop_more k r s (omega arith)

-- What session_get_pdu does with a buffer.
pub data Cut (r : List ℕ) : Type 0 where
  waits : session_get_pdu r ≡ none → Cut r
  gives :
      (10 ≤ length r)
      → (dlen r ≤ length r)
      → session_get_pdu r ≡ some (take (dlen r) r, drop (dlen r) r)
      → Cut r

pub cut : (r : List ℕ) → Cut r
unfolding session_get_pdu
cut r = elim (Bool-cases (ltb (length r) 10)) [
  | inl a ↦ Cut.waits (rw a refl)
  | inr a ↦ elim (Bool-cases (ltb (length r) (dlen r))) [
    | inl b ↦ Cut.waits (rw (a, b) refl)
    | inr b ↦ Cut.gives (ground arith) (ground arith) (rw (a, b) refl)
  ]
]

pub get_pdu_more :
    (r s : List ℕ)
    → 10 ≤ length r
    → dlen r ≤ length r
    → session_get_pdu (r ++ s) ≡ some (take (dlen r) r, drop (dlen r) r ++ s)
unfolding session_get_pdu
get_pdu_more r s h l =
    let n = length-append r s in
    let d = dlen-append r s (omega arith) in
    let a : ltb (length (r ++ s)) 10 ≡ false = ground (arith, n) in
    let b : ltb (length (r ++ s)) (dlen r) ≡ false = ground (arith, n) in
    rw (d, a, b, take_more (dlen r) r s l, drop_more (dlen r) r s l) refl
