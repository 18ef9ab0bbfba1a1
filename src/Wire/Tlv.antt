-- ===== src/Wire/Tlv.antt =====
-- The TLVs that follow the mandatory part of a message. recv_labelmessage, recv_init and
-- recv_notification walk over them with the same loop, which `visit` makes theirs: it gets the type of
-- a TLV, its length, and the bytes from its value on. A parser may send notifications and go on, so a
-- result comes with the status codes of those that it sent.
pub mod Laws
pub mod Holds
pub mod Inside
use openbsd_ldpd.Base.{
  ℕ, zero, suc, ◌+◌, ◌-◌, ◌/◌, ◌%◌, Bool, true, false, List, [], ◌∷◌, ◌++◌, ltb, leb, if◌then◌else◌,
  drop,
}
use openbsd_ldpd.Wire.{Parsed, Refusal, of16, s_bad_tlv_len, s_unknown_tlv}

abbrev pub Noted {ℓ} : Type ℓ → Type ℓ
Noted A = List ℕ × Parsed A

unfoldable pub and_then {ℓ κ} : {A : Type ℓ} {B : Type κ} → Noted A → (A → Noted B) → Noted B
and_then (ns, Parsed.ok a) f = (ns ++ (f a).0, (f a).1)
and_then (ns, Parsed.refused r) f = (ns, Parsed.refused r)
and_then (ns, Parsed.overrun) f = (ns, Parsed.overrun)
and_then (ns, Parsed.hang) f = (ns, Parsed.hang)

abbrev pub shut {ℓ} : {A : Type ℓ} → ℕ → Noted A
shut status = ([], Parsed.refused (Refusal.shutdown status))

abbrev pub quiet {ℓ} : {A : Type ℓ} → A → Noted A
quiet a = ([], Parsed.ok a)

-- !(type & UNKNOWN_FLAG): a TLV of an unknown type is announced unless its first bit is set.
abbrev pub unknown_tlv {ℓ} : {A : Type ℓ} → ℕ → A → Noted A
unknown_tlv t a = ((if leb 32768 t then [] else s_unknown_tlv ∷ []), Parsed.ok a)

-- while (len > 0), on fuel.
unfoldable pub opt_tlvs {ℓ} :
    {S : Type ℓ} → (S → ℕ → ℕ → List ℕ → Noted S) → ℕ → ℕ → List ℕ → S → Noted S
opt_tlvs visit zero len buf s = ([], Parsed.hang)
opt_tlvs visit (suc f) zero buf s = quiet s
opt_tlvs visit (suc f) (suc n) (t1 ∷ t0 ∷ l1 ∷ l0 ∷ rest) s =
    let l = of16 l1 l0 in
    let next = opt_tlvs visit f (suc n - 4 - l) (drop l rest) in
    if ltb (suc n) 4
    then shut s_bad_tlv_len
    else if ltb (suc n) (l + 4)
    then shut s_bad_tlv_len
    else and_then (visit s (of16 t1 t0) l rest) next
opt_tlvs visit (suc f) (suc n) buf s =
    if ltb (suc n) 4 then shut s_bad_tlv_len else ([], Parsed.overrun)
