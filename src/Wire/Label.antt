-- ===== src/Wire/Label.antt =====
-- labelmapping.c: the label messages. Children: Send, the messages packed into PDUs
-- (send_labelmessage, with gen_ldp_hdr and gen_msg_hdr of packet.c), and Recv, a message read
-- (recv_labelmessage).
pub mod Send
pub mod Recv
pub use openbsd_ldpd.Lde.Routes.{label_reserved_max}
use openbsd_ldpd.Base.{
  ℕ, ◌+◌, ◌-◌, ◌%◌, ◌||◌, ◌&&◌, not, Bool, true, false, List, [], ◌∷◌, ◌++◌, ltb, leb, ◌==◌,
  if◌then◌else◌,
}
use openbsd_ldpd.Lde.{MapFec, LabelMap, no_label}
use openbsd_ldpd.Wire.{
  Parsed, Refusal, be16, be32, of16, of32, s_bad_tlv_len, s_bad_tlv_val, s_miss_msg,
}
use openbsd_ldpd.Wire.Fec.{prefix_size, opt_bytes, gen_fec_tlv}

pub data MsgType : Type 0 where
  mapping request withdraw release abort : MsgType

-- MSG_TYPE_LABEL*
abbrev pub msg_code : MsgType → ℕ
msg_code MsgType.mapping = 0x0400
msg_code MsgType.request = 0x0401
msg_code MsgType.withdraw = 0x0402
msg_code MsgType.release = 0x0403
msg_code MsgType.abort = 0x0404

abbrev pub gen_label_tlv : ℕ → List ℕ
gen_label_tlv label = be16 0x0200 ++ be16 4 ++ be32 label

abbrev pub gen_reqid_tlv : ℕ → List ℕ
gen_reqid_tlv reqid = be16 0x0600 ++ be16 4 ++ be32 reqid

abbrev pub gen_pw_status_tlv : ℕ → List ℕ
gen_pw_status_tlv status = be16 0x096A ++ be16 4 ++ be32 status

-- gen_status_tlv of notification.c; msg_id and msg_type are in network order in the source.
abbrev pub gen_status_tlv : ℕ → ℕ → ℕ → List ℕ
gen_status_tlv status_code msg_id msg_type =
    be16 0x0300 ++ be16 10 ++ be32 status_code ++ be32 msg_id ++ be16 msg_type

-- The TLVs of one message, in the order in which send_labelmessage appends them.
unfoldable pub msg_tlvs : LabelMap → List ℕ
msg_tlvs m =
    gen_fec_tlv m
    ++ opt_bytes (not (m.label == no_label)) (gen_label_tlv m.label)
    ++ opt_bytes m.flags.req_id (gen_reqid_tlv m.requestid)
    ++ opt_bytes m.flags.pw_status (gen_pw_status_tlv m.pw_status)
    ++ opt_bytes m.flags.status (gen_status_tlv m.st_code m.st_msg_id m.st_msg_type)

-- tlv_decode_label: the label and the size of its TLV. MPLS_LABEL_MAX is 2^20 - 1; of the reserved
-- labels only the two explicit nulls (0 and 2) and the implicit null (3) are accepted.
abbrev pub label_max : ℕ
label_max = 1048575

abbrev pub bad_label : ℕ → Bool
bad_label l =
    ltb label_max l || leb l label_reserved_max && not (l == 0) && not (l == 2) && not (l == 3)

-- !(type & TLV_TYPE_GENERICLABEL)
abbrev pub not_label : ℕ → Bool
not_label t = not (leb 512 (t % 1024))

unfoldable pub tlv_decode_label : ℕ → List ℕ → Parsed (ℕ × ℕ)
tlv_decode_label len (t1 ∷ t0 ∷ l1 ∷ l0 ∷ v3 ∷ v2 ∷ v1 ∷ v0 ∷ _) =
    if ltb len 8
    then Parsed.refused (Refusal.shutdown s_bad_tlv_len)
    else if not_label (of16 t1 t0)
    then Parsed.refused (Refusal.notify s_miss_msg)
    else if of16 t1 t0 == 0x0200
    then (if of16 l1 l0 == 4
        then (if bad_label (of32 v3 v2 v1 v0)
            then Parsed.refused (Refusal.shutdown s_bad_tlv_val)
            else Parsed.ok (of32 v3 v2 v1 v0, 8))
        else Parsed.refused (Refusal.shutdown s_bad_tlv_len))
    else Parsed.refused (Refusal.shutdown s_bad_tlv_val)
tlv_decode_label len _ =
    if ltb len 8 then Parsed.refused (Refusal.shutdown s_bad_tlv_len) else Parsed.overrun
