-- ===== src/Wire/Label/Recv.antt =====
-- recv_labelmessage of labelmapping.c: a label message is read, and its maps are handed to the label
-- decision engine. `len` is the size of the message, `buf` its bytes and those that follow in the PDU.
-- What is already handed over when a later map is refused stays handed over.
pub mod Elements
pub mod Safe
pub mod RoundTrip
use openbsd_ldpd.Base.{
  ℕ, zero, suc, ◌+◌, ◌-◌, ◌%◌, ◌&&◌, ◌||◌, not, Bool, true, false, List, [], ◌∷◌, ◌++◌, ltb, leb,
  ◌==◌, if◌then◌else◌, drop,
}
use openbsd_ldpd.Lde.{Af, MapFec, MapFlags, LabelMap, zero_map, no_label}
use openbsd_ldpd.Wire.{
  Parsed, Refusal, ◌>>=◌, of16, of32, s_bad_tlv_len, s_bad_tlv_val, s_unknown_fec, s_miss_msg,
}
use openbsd_ldpd.Wire.Fec.{blank, tlv_decode_fec_elm}
use openbsd_ldpd.Wire.Tlv.{Noted, and_then, shut, quiet, unknown_tlv, opt_tlvs}
use openbsd_ldpd.Wire.Label.{MsgType, label_reserved_max, tlv_decode_label}

abbrev pub is_mapping : MsgType → Bool
is_mapping MsgType.mapping = true
is_mapping _ = false

-- The types of message that the switches of the source distinguish.
abbrev pub is_mapping_or_request : MsgType → Bool
is_mapping_or_request MsgType.mapping = true
is_mapping_or_request MsgType.request = true
is_mapping_or_request _ = false

abbrev pub is_withdraw_or_release : MsgType → Bool
is_withdraw_or_release MsgType.withdraw = true
is_withdraw_or_release MsgType.release = true
is_withdraw_or_release _ = false

-- What the loop over the FEC elements does about the map that it read, before it adds it to the list.
unfoldable pub check_elm : MsgType → ℕ → ℕ → LabelMap → Parsed LabelMap
check_elm type feclen tlen m = elim m.fec [
  | MapFec.pwid t p g mtu ↦
      if not m.flags.pw_id && not (is_withdraw_or_release type)
      then Parsed.refused (Refusal.notify s_miss_msg)
      else if not (is_mapping type) && not (tlen == feclen)
      then Parsed.refused (Refusal.shutdown s_bad_tlv_val)
      else Parsed.ok m
  | MapFec.wildcard ↦
      if is_withdraw_or_release type
      then (if tlen == feclen then Parsed.ok m else Parsed.refused (Refusal.shutdown s_bad_tlv_val))
      else Parsed.refused (Refusal.shutdown s_unknown_fec)
  | MapFec.prefix af a n ↦
      if not (is_mapping type) && not (tlen == feclen)
      then Parsed.refused (Refusal.shutdown s_bad_tlv_val)
      else Parsed.ok m
]

-- do { ... } while (feclen > 0), on fuel: the list mh, and the bytes after the TLV.
unfoldable pub fec_elms :
    ℕ → MsgType → ℕ → ℕ → List ℕ → List LabelMap → Parsed (List LabelMap × List ℕ)
fec_elms zero type id feclen buf mh = Parsed.hang
fec_elms (suc f) type id feclen buf mh = tlv_decode_fec_elm (blank id) feclen buf >>= λ (m, tlen).
    check_elm type feclen tlen m >>= λ m.
    let next = fec_elms f type id (feclen - tlen) (drop tlen buf) (mh ++ m ∷ []) in
    if feclen - tlen == 0 then Parsed.ok (mh ++ m ∷ [], drop tlen buf) else next

-- The variables that the optional parameters set; `flags` holds two of the F_MAP_* bits.
pub record Params : Type 0 where
  pub label : ℕ
  pub reqid : ℕ
  pub pw_status : ℕ
  pub req_id_flag : Bool
  pub pw_status_flag : Bool

-- The value of a TLV of four bytes.
abbrev pub with_u32 : List ℕ → (ℕ → Params) → Noted Params
with_u32 (a ∷ b ∷ c ∷ d ∷ _) k = quiet (k (of32 a b c d))
with_u32 _ k = ([], Parsed.overrun)

-- The switch over the type of an optional TLV.
unfoldable pub opt_param : MsgType → Params → ℕ → ℕ → List ℕ → Noted Params
opt_param type s t l v =
    if t == 0x0600
    then (if is_mapping_or_request type
        then (if l == 4
            then with_u32 v (λ n. record s { reqid = n; req_id_flag = true })
            else shut s_bad_tlv_len)
        else quiet s)
    else if t == 0x0103 || t == 0x0104
    then quiet s
    else if t == 0x0200
    then (if is_withdraw_or_release type
        then (if l == 4 then with_u32 v (λ n. record s { label = n }) else shut s_bad_tlv_len)
        else quiet s)
    else if t == 0x0201 || t == 0x0202
    then (if is_withdraw_or_release type then shut s_bad_tlv_val else quiet s)
    else if t == 0x0300
    then (if l == 10 then quiet s else shut s_bad_tlv_len)
    else if t == 0x096A
    then (if is_mapping type
        then (if l == 4
            then with_u32 v (λ n. record s { pw_status = n; pw_status_flag = true })
            else shut s_bad_tlv_len)
        else quiet s)
    else unknown_tlv t s

-- What the last loop makes of one map: `skip` is the jump to `next`.
pub data Verdict : Type 0 where
  hand : LabelMap → Verdict
  skip refuse : Verdict

-- The map with the flags, the label and the request id of the message.
abbrev pub finish : Params → LabelMap → ℕ → LabelMap
finish s m status =
    let req = m.flags.req_id || s.req_id_flag in
    record m {
      flags = record (m.flags) { req_id = req; pw_status = m.flags.pw_status || s.pw_status_flag };
      label = s.label;
      requestid = if req then s.reqid else m.requestid;
      pw_status = status;
    }

unfoldable pub judge : Bool → Bool → Params → LabelMap → Verdict
judge v4 v6 s m = elim m.fec [
  | MapFec.wildcard ↦ Verdict.hand (finish s m m.pw_status)
  | MapFec.prefix af a n ↦ elim af [
    | Af.inet ↦
        if s.label == 2
        then Verdict.refuse
        else if v4
        then Verdict.hand (finish s m m.pw_status)
        else Verdict.skip
    | Af.inet6 ↦
        if s.label == 0
        then Verdict.refuse
        else if v6
        then Verdict.hand (finish s m m.pw_status)
        else Verdict.skip
  ]
  | MapFec.pwid t p g mtu ↦
      if leb s.label label_reserved_max
      then Verdict.refuse
      else Verdict.hand
          (finish s m (if m.flags.pw_status || s.pw_status_flag then s.pw_status else m.pw_status))
]

-- A parser's end: what it handed to the label decision engine, the notifications that it sent, and how
-- it returned.
pub record Received : Type 0 where
  pub maps : List LabelMap
  pub notes : List ℕ
  pub result : Parsed (Unit {0})

unfoldable pub hand_over : Bool → Bool → Params → List LabelMap → List LabelMap × Parsed (Unit {0})
hand_over v4 v6 s [] = ([], Parsed.ok tt)
hand_over v4 v6 s (m ∷ mh) =
    let rest = hand_over v4 v6 s mh in
    elim (judge v4 v6 s m) [
      | Verdict.hand n ↦ (n ∷ rest.0, rest.1)
      | Verdict.skip ↦ rest
      | Verdict.refuse ↦ ([], Parsed.refused (Refusal.shutdown s_bad_tlv_val))
    ]

abbrev pub no_params : Params
no_params = record {
  label = no_label;
  reqid = 0;
  pw_status = 0;
  req_id_flag = false;
  pw_status_flag = false;
}

-- The mandatory label TLV of a mapping, with what is left of the message.
unfoldable pub mandatory_label : MsgType → ℕ → List ℕ → Parsed (ℕ × ℕ × List ℕ)
mandatory_label type len buf =
    if is_mapping type
    then (tlv_decode_label len buf >>= λ (label, n). Parsed.ok (label, len - n, drop n buf))
    else Parsed.ok (no_label, len, buf)

-- From the first FEC element on; `len` is what is left of the message there.
unfoldable pub read_body : MsgType → ℕ → ℕ → ℕ → List ℕ → Noted (Params × List LabelMap)
unfolding fec_elms mandatory_label opt_param
read_body type id len feclen buf =
    and_then ([], fec_elms (suc feclen) type id feclen buf [])
      λ (mh, rest).
        and_then ([], mandatory_label type (len - feclen) rest)
          λ (label, n, rest).
            and_then (opt_tlvs (opt_param type) (suc n) n rest (record no_params { label = label }))
              λ s. quiet (s, mh)

abbrev pub gives_up : Refusal → Received
gives_up r = record { maps = []; notes = []; result = Parsed.refused r }

abbrev pub finish_message : Bool → Bool → Noted (Params × List LabelMap) → Received
finish_message v4 v6 (notes, Parsed.ok (s, mh)) =
    let (maps, result) = hand_over v4 v6 s mh in
    record { maps = maps; notes = notes; result = result }
finish_message v4 v6 (notes, Parsed.refused r) = record {
  maps = [];
  notes = notes;
  result = Parsed.refused r;
}
finish_message v4 v6 (notes, Parsed.overrun) = record {
  maps = [];
  notes = notes;
  result = Parsed.overrun;
}
finish_message v4 v6 (notes, Parsed.hang) = record {
  maps = [];
  notes = notes;
  result = Parsed.hang;
}

-- The bytes from the FEC TLV on; `len` is the length of the message from there.
unfoldable pub read_fec_tlv : MsgType → Bool → Bool → ℕ → ℕ → List ℕ → Received
unfolding read_body hand_over
read_fec_tlv type v4 v6 id len (t1 ∷ t0 ∷ l1 ∷ l0 ∷ buf) =
    if ltb len 4
    then gives_up (Refusal.shutdown s_bad_tlv_len)
    else if not (of16 t1 t0 == 0x0100)
    then gives_up (Refusal.notify s_miss_msg)
    else if ltb (len - 4) (of16 l1 l0)
    then gives_up (Refusal.shutdown s_bad_tlv_len)
    else finish_message v4 v6 (read_body type id (len - 4) (of16 l1 l0) buf)
read_fec_tlv type v4 v6 id len _ =
    if ltb len 4
    then gives_up (Refusal.shutdown s_bad_tlv_len)
    else record { maps = []; notes = []; result = Parsed.overrun }

-- The caller has read the header: the message has at least 8 bytes.
unfoldable pub recv_labelmessage : MsgType → Bool → Bool → ℕ → List ℕ → Received
unfolding read_fec_tlv
recv_labelmessage type v4 v6 len (_ ∷ _ ∷ _ ∷ _ ∷ i3 ∷ i2 ∷ i1 ∷ i0 ∷ buf) =
    read_fec_tlv type v4 v6 (of32 i3 i2 i1 i0) (len - 8) buf
recv_labelmessage type v4 v6 len _ = record { maps = []; notes = []; result = Parsed.overrun }
