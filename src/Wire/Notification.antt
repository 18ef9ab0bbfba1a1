-- ===== src/Wire/Notification.antt =====
-- notification.c: the notification message, written and read. A FEC TLV is read over a zeroed class, as
-- the first one of a message is.
pub mod Backoff
use openbsd_ldpd.Base.{
  ℕ, suc, ◌+◌, ◌-◌, ◌%◌, ◌&&◌, ◌||◌, not, Bool, true, false, List, [], ◌∷◌, ◌++◌, ltb, leb, ◌==◌,
  if◌then◌else◌, drop,
}
use openbsd_ldpd.Lde.{MapFec, LabelMap}
use openbsd_ldpd.Nbr.{NbrState, NbrEvent, Engine, set_nbr, nbr_start_idtimer, nbr_fsm}
use openbsd_ldpd.Wire.{
  Parsed, Refusal, be16, be32, of16, of32, s_bad_tlv_len, s_bad_tlv_val, s_bad_msg_len, s_miss_msg,
}
use openbsd_ldpd.Wire.Fec.{blank, opt_bytes, gen_fec_tlv, tlv_decode_fec_elm}
use openbsd_ldpd.Wire.Tlv.{Noted, and_then, shut, quiet, unknown_tlv, opt_tlvs}
use openbsd_ldpd.Wire.Label.{gen_pw_status_tlv, gen_status_tlv}
use openbsd_ldpd.Wire.Label.Send.{gen_ldp_hdr, next_msg_id}
use openbsd_ldpd.Wire.Init.{conclude}

-- struct notify_msg, with F_NOTIF_PW_STATUS and F_NOTIF_FEC
pub record NotifyMsg : Type 0 where
  pub status_code : ℕ
  pub msg_id : ℕ
  pub msg_type : ℕ
  pub pw_status : ℕ
  pub fec : LabelMap
  pub pw_status_flag : Bool
  pub fec_flag : Bool

-- The switch of send_notification_full over the type of the class.
abbrev pub fec_room : LabelMap → ℕ
fec_room m = elim m.fec [ MapFec.pwid t p g mtu ↦ 8 + (if m.flags.pw_id then 4 else 0) | _ ↦ 0 ]

unfoldable pub notification_size : NotifyMsg → ℕ
notification_size nm =
    32 + (if nm.pw_status_flag then 8 else 0) + (if nm.fec_flag then 4 + fec_room nm.fec else 0)

-- The PDU of send_notification_full, with the counter of gen_msg_hdr. The length of the message is
-- computed from the size less the header of the PDU.
unfoldable pub send_notification_full : ℕ → ℕ → NotifyMsg → List ℕ
send_notification_full rtr_id cnt nm =
    let size = notification_size nm in
    gen_ldp_hdr rtr_id size
    ++ (be16 0x0001 ++ be16 ((size - 10 + 65536 - 4) % 65536) ++ be32 (next_msg_id cnt))
    ++ gen_status_tlv nm.status_code nm.msg_id nm.msg_type
    ++ opt_bytes nm.pw_status_flag (gen_pw_status_tlv nm.pw_status)
    ++ opt_bytes nm.fec_flag (gen_fec_tlv nm.fec)

abbrev with_status : List ℕ → NotifyMsg → Noted NotifyMsg
with_status (a ∷ b ∷ c ∷ d ∷ _) nm =
    quiet (record nm { pw_status = of32 a b c d; pw_status_flag = true })
with_status _ nm = ([], Parsed.overrun)

-- The one FEC element that is allowed.
abbrev pub with_fec : ℕ → List ℕ → NotifyMsg → Noted NotifyMsg
with_fec l v nm =
    and_then ([], tlv_decode_fec_elm (blank 0) l v)
      λ (m, tlen).
        if tlen == l then quiet (record nm { fec = m; fec_flag = true }) else shut s_bad_tlv_val

-- The switch over the type of an optional TLV.
unfoldable pub notify_opt : NotifyMsg → ℕ → ℕ → List ℕ → Noted NotifyMsg
notify_opt nm t l v =
    if t == 0x0301 || t == 0x0302 || t == 0x0303
    then quiet nm
    else if t == 0x096A
    then (if l == 4 then with_status v nm else shut s_bad_tlv_len)
    else if t == 0x0100
    then with_fec l v nm
    else unknown_tlv t nm

abbrev pub s_pw_status : ℕ
s_pw_status = 0x00000028

abbrev is_pwid_fec : MapFec → Bool
is_pwid_fec (MapFec.pwid t p g mtu) = true
is_pwid_fec _ = false

-- What a notification about a pseudowire must hold. As in the source, one of the two TLVs is enough.
unfoldable pub check_pw_status : NotifyMsg → Noted NotifyMsg
check_pw_status nm =
    if nm.status_code == s_pw_status
    then (if not (nm.pw_status_flag || nm.fec_flag)
        then ([], Parsed.refused (Refusal.notify s_miss_msg))
        else if is_pwid_fec nm.fec.fec
        then quiet nm
        else ([], Parsed.refused (Refusal.notify s_bad_tlv_val)))
    else quiet nm

abbrev pub notice : ℕ → NotifyMsg
notice status = record {
  status_code = status;
  msg_id = 0;
  msg_type = 0;
  pw_status = 0;
  fec = blank 0;
  pw_status_flag = false;
  fec_flag = false;
}

-- From the status TLV on; `len` is the length of the message from there.
unfoldable pub read_notification : ℕ → List ℕ → Noted NotifyMsg
unfolding notify_opt check_pw_status
read_notification len (_ ∷ _ ∷ l1 ∷ l0 ∷ c3 ∷ c2 ∷ c1 ∷ c0 ∷ _ ∷ _ ∷ _ ∷ _ ∷ _ ∷ _ ∷ rest) =
    if ltb len 14
    then shut s_bad_msg_len
    else if ltb 10 (of16 l1 l0) || ltb (len - 4) (of16 l1 l0)
    then shut s_bad_tlv_len
    else and_then (opt_tlvs notify_opt (suc (len - 14)) (len - 14) rest (notice (of32 c3 c2 c1 c0)))
        check_pw_status
read_notification len _ = if ltb len 14 then shut s_bad_msg_len else ([], Parsed.overrun)

abbrev is_opensent : NbrState → Bool
is_opensent NbrState.opensent = true
is_opensent _ = false

-- A fatal notification closes the session.
unfoldable pub close_if_fatal : Engine → NotifyMsg → Engine
close_if_fatal w nm =
    let v = if is_opensent w.nbr.state then set_nbr w (nbr_start_idtimer w.nbr) else w in
    if leb 0x80000000 nm.status_code then nbr_fsm v NbrEvent.close_session else w

-- What reaches the label decision engine: a notification about a pseudowire that is not fatal.
abbrev pub passed_on : Noted NotifyMsg → List NotifyMsg
passed_on (notes, Parsed.ok nm) =
    if leb 0x80000000 nm.status_code
    then []
    else if nm.status_code == s_pw_status
    then nm ∷ []
    else []
passed_on _ = []

abbrev is_fatal : Noted NotifyMsg → Bool
is_fatal (notes, Parsed.ok nm) = leb 0x80000000 nm.status_code
is_fatal _ = false

-- recv_notification: the engine, what is passed on, and whether it returned 0.
unfoldable pub recv_notification : Engine → ℕ → List ℕ → Engine × List NotifyMsg × Bool
unfolding read_notification conclude close_if_fatal
recv_notification w len buf =
    let parsed = read_notification (len - 8) (drop 8 buf) in
    let (v, good) = conclude w parsed close_if_fatal in
    (v, passed_on parsed, good && not (is_fatal parsed))
