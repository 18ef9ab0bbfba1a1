-- ===== src/Wire/Tlv/Inside.antt =====
-- The bytes that the optional TLVs of label and initialization messages read.
use openbsd_ldpd.Base.{ℕ, suc, ◌≤◌, ◌≢◌, List, [], ◌∷◌, arith, length}
use openbsd_ldpd.Wire.{Parsed}
use openbsd_ldpd.Wire.Tlv.{Noted, opt_tlvs}
use openbsd_ldpd.Wire.Tlv.Laws.{opt_tlvs_inside}
use openbsd_ldpd.Wire.Init.{init_opt}
use openbsd_ldpd.Wire.Label.{MsgType}
use openbsd_ldpd.Wire.Label.Recv.{Params, opt_param}

-- A parser that ends and reads nothing past its bytes.
abbrev pub IsInside {ℓ} : {A : Type ℓ} → Noted A → Type ℓ
IsInside x = (x.1 ≢ Parsed.overrun) × (x.1 ≢ Parsed.hang)

init_opt-IsInside :
    (s : Unit {0}) (t l : ℕ) (v : List ℕ) → l ≤ length v → IsInside (init_opt s t l v)
unfolding init_opt
init_opt-IsInside s t l v h = (λ e. ground arith, λ e. ground arith)

opt_param-IsInside :
    (type : MsgType) (s : Params) (t l : ℕ) (v : List ℕ)
    → l ≤ length v
    → IsInside (opt_param type s t l v)
unfolding opt_param
opt_param-IsInside type s t l [] h = (λ e. ground arith, λ e. ground arith)
opt_param-IsInside type s t l (a ∷ []) h = (λ e. ground arith, λ e. ground arith)
opt_param-IsInside type s t l (a ∷ b ∷ []) h = (λ e. ground arith, λ e. ground arith)
opt_param-IsInside type s t l (a ∷ b ∷ c ∷ []) h = (λ e. ground arith, λ e. ground arith)
opt_param-IsInside type s t l (a ∷ b ∷ c ∷ d ∷ v) h = (λ e. ground arith, λ e. ground arith)

-- The loops of recv_labelmessage and of recv_init over the optional TLVs end, and they read nothing past
-- the message, whatever its bytes and, for a label message, whatever its type and what was read before,
-- when the bytes that are left of the message are in the buffer.
pub opt_tlvs-IsInside :
    (type : MsgType) (s : Params) (len : ℕ) (buf : List ℕ)
    → len ≤ length buf
    → IsInside (opt_tlvs (opt_param type) (suc len) len buf s)
      × IsInside (opt_tlvs init_opt (suc len) len buf tt)
opt_tlvs-IsInside type s len buf h = (
  opt_tlvs_inside (opt_param type) (suc len) len buf s (opt_param-IsInside type) (omega arith) h,
  opt_tlvs_inside init_opt (suc len) len buf tt init_opt-IsInside (omega arith) h,
)
