-- ===== src/Wire/Init.antt =====
-- init.c: the initialization message, with keepalive.c's message, which has no body. A neighbor's LSR id
-- and the own router id are numbers; `local` is what nbr_get_keepalive returns.
pub mod Negotiation
use openbsd_ldpd.Base.{
  ℕ, zero, suc, ◌+◌, ◌-◌, ◌/◌, ◌%◌, ◌||◌, not, Bool, true, false, List, [], ◌∷◌, ◌++◌, ltb, leb,
  ◌==◌, if◌then◌else◌, drop,
}
use openbsd_ldpd.Nbr.{NbrEvent, Out, Engine, emit, nbr_fsm}
use openbsd_ldpd.Nbr.Events.{session_shutdown, init_accepted}
use openbsd_ldpd.Wire.{
  Parsed, Refusal, be16, be32, of16, of32, s_bad_tlv_len, s_bad_tlv_val, s_bad_msg_len,
}
use openbsd_ldpd.Wire.Tlv.{Noted, and_then, shut, quiet, unknown_tlv, opt_tlvs}
use openbsd_ldpd.Wire.Label.Send.{gen_ldp_hdr, next_msg_id}

abbrev pub min_keepalive : ℕ
min_keepalive = 3

abbrev pub s_bad_proto_ver : ℕ
s_bad_proto_ver = 0x80000002

abbrev pub s_no_hello : ℕ
s_no_hello = 0x80000010

abbrev pub s_keepalive_bad : ℕ
s_keepalive_bad = 0x80000018

abbrev pub gen_init_prms_tlv : ℕ → ℕ → List ℕ
gen_init_prms_tlv local nbr_id =
    be16 0x0500 ++ be16 14 ++ be16 1 ++ be16 local ++ 0 ∷ 0 ∷ be16 0 ++ be32 nbr_id ++ be16 0

-- The PDU of send_init, with the counter of gen_msg_hdr.
unfoldable pub send_init : ℕ → ℕ → ℕ → ℕ → List ℕ
send_init rtr_id local nbr_id cnt =
    gen_ldp_hdr rtr_id 36
    ++ (be16 0x0200 ++ be16 22 ++ be32 (next_msg_id cnt))
    ++ gen_init_prms_tlv local nbr_id

-- The switch over the type of an optional TLV.
unfoldable pub init_opt : Unit {0} → ℕ → ℕ → List ℕ → Noted (Unit {0})
init_opt s t l v = if t == 0x0501 || t == 0x0502 then shut s_bad_tlv_val else unknown_tlv t s

-- The checks of recv_init, up to the negotiation: the keepalive time and the PDU length of the message.
-- `len` counts from the session parameters on. The type of the TLV is not checked.
unfoldable pub read_prms : ℕ → ℕ → List ℕ → Noted (ℕ × ℕ)
unfolding init_opt
read_prms rtr_id len
      (_ ∷ _ ∷ l1 ∷ l0 ∷ v1 ∷ v0 ∷ k1 ∷ k0 ∷ _ ∷ _ ∷ p1 ∷ p0 ∷ i3 ∷ i2 ∷ i1 ∷ i0 ∷ s1 ∷ s0 ∷ rest) =
    if ltb len 18
    then shut s_bad_msg_len
    else if not (of16 l1 l0 == 14)
    then shut s_bad_tlv_len
    else if not (of16 v1 v0 == 1)
    then shut s_bad_proto_ver
    else if ltb (of16 k1 k0) min_keepalive
    then shut s_keepalive_bad
    else if not (of32 i3 i2 i1 i0 == rtr_id) || not (of16 s1 s0 == 0)
    then shut s_no_hello
    else and_then (opt_tlvs init_opt (suc (len - 18)) (len - 18) rest tt)
        λ _. quiet (of16 k1 k0, of16 p1 p0)
read_prms rtr_id len _ = if ltb len 18 then shut s_bad_msg_len else ([], Parsed.overrun)

-- send_notification_nbr of notification.c
abbrev pub send_notification_nbr : Engine → ℕ → Engine
send_notification_nbr w status = nbr_fsm (emit w (Out.send_notification status)) NbrEvent.pdu_sent

unfoldable pub send_notes : Engine → List ℕ → Engine
send_notes w [] = w
send_notes w (s ∷ ss) = send_notes (send_notification_nbr w s) ss

abbrev pub refuse : Engine → Refusal → Engine
refuse w (Refusal.shutdown s) = session_shutdown w s
refuse w (Refusal.notify s) = send_notification_nbr w s

-- The engine after a parser, with the notifications that it sent and what it returned: true is 0 and
-- false is -1.
unfoldable pub conclude {ℓ} :
    {A : Type ℓ} → Engine → Noted A → (Engine → A → Engine) → Engine × Bool
unfolding send_notes
conclude w (notes, Parsed.ok a) k = (k (send_notes w notes) a, true)
conclude w (notes, Parsed.refused r) k = (refuse (send_notes w notes) r, false)
conclude w (notes, Parsed.overrun) k = (send_notes w notes, false)
conclude w (notes, Parsed.hang) k = (send_notes w notes, false)

unfoldable pub recv_init : ℕ → ℕ → Engine → ℕ → List ℕ → Engine × Bool
unfolding read_prms conclude
recv_init rtr_id local w len buf =
    conclude w (read_prms rtr_id (len - 8) (drop 8 buf))
      λ w (peer, pdu_len). init_accepted w local peer pdu_len
