-- ===== src/Wire/Label/Send.antt =====
-- send_labelmessage of labelmapping.c: label messages are packed into PDUs. gen_ldp_hdr, gen_msg_hdr
-- and enqueue_pdu write the headers; `msgcnt` is the static counter of gen_msg_hdr. A buffer of ibuf_open
-- has a fixed capacity, and ibuf_add fails beyond it.
pub mod Sizes
pub mod Packing
use openbsd_ldpd.Base.{
  ℕ, zero, suc, ◌+◌, ◌-◌, ◌*◌, ◌%◌, Bool, true, false, not, Option, none, some, List, [], ◌∷◌, ◌++◌,
  ltb, ◌==◌, if◌then◌else◌, length, take, drop,
}
use openbsd_ldpd.Lde.{MapFec, MapFlags, LabelMap, no_label}
use openbsd_ldpd.Wire.{be16, be32}
use openbsd_ldpd.Wire.Fec.{prefix_size}
use openbsd_ldpd.Wire.Label.{MsgType, msg_code, msg_tlvs}

-- nbr->max_pdu_len and leconf->rtr_id
pub record Sender : Type 0 where
  pub max_pdu_len : ℕ
  pub rtr_id : ℕ

abbrev pub gen_ldp_hdr : ℕ → ℕ → List ℕ
gen_ldp_hdr rtr_id size = be16 1 ++ be16 ((size + 65536 - 4) % 65536) ++ be32 rtr_id ++ be16 0

-- The header of a message, with the counter after it.
abbrev pub next_msg_id : ℕ → ℕ
next_msg_id msgcnt = (msgcnt + 1) % 4294967296

abbrev pub gen_msg_hdr : MsgType → ℕ → ℕ → List ℕ
gen_msg_hdr type size id = be16 (msg_code type) ++ be16 ((size + 65536 - 4) % 65536) ++ be32 id

-- The length field of the PDU is written over the one of gen_ldp_hdr.
abbrev pub enqueue_pdu : List ℕ → ℕ → List ℕ
enqueue_pdu buf size = take 2 buf ++ be16 size ++ drop 4 buf

abbrev pub add_if : Bool → ℕ → ℕ
add_if b n = if b then n else 0

-- The switch over the type of the map, and the whole of msg_size.
unfoldable pub elm_size : MapFec → MapFlags → ℕ
elm_size MapFec.wildcard fl = 1
elm_size (MapFec.prefix af a n) fl = 4 + prefix_size n
elm_size (MapFec.pwid t p g mtu) fl =
    8 + add_if fl.pw_id 4 + add_if fl.pw_ifmtu 4 + add_if fl.pw_status 8

unfoldable pub msg_size : LabelMap → ℕ
msg_size m =
    12
    + elm_size m.fec m.flags
    + add_if (not (m.label == no_label)) 8
    + add_if m.flags.req_id 8
    + add_if m.flags.status 14

unfoldable pub label_msg : MsgType → ℕ → LabelMap → List ℕ
label_msg type id m = gen_msg_hdr type (msg_size m) id ++ msg_tlvs m

-- What is enqueued, the counter, and whether the loop came to its end and raised NBR_EVT_PDU_SENT.
pub record Sent : Type 0 where
  pub pdus : List (List ℕ)
  pub msgcnt : ℕ
  pub pdu_sent : Bool

abbrev pub start_buf : Sender → Option (List ℕ × ℕ) → List ℕ × ℕ
start_buf nbr none = (gen_ldp_hdr nbr.rtr_id 0, 6)
start_buf nbr (some b) = b

-- The loop on fuel, `none` when it runs out: the PDU that is open with its size (`first` is `none`),
-- and the PDUs enqueued so far.
unfoldable pub send_loop :
    ℕ → Sender → MsgType → ℕ → Option (List ℕ × ℕ) → List LabelMap → List (List ℕ) → Option Sent
send_loop zero nbr type cnt cur mh out = none
send_loop (suc f) nbr type cnt cur [] out =
    let (buf, size) = start_buf nbr cur in
    some (record { pdus = out ++ enqueue_pdu buf size ∷ []; msgcnt = cnt; pdu_sent = true })
send_loop (suc f) nbr type cnt cur (m ∷ mh) out =
    let (buf, size) = start_buf nbr cur in
    let n = msg_size m in
    let id = next_msg_id cnt in
    let added = buf ++ label_msg type id m in
    let again = send_loop f nbr type cnt none (m ∷ mh) (out ++ enqueue_pdu buf size ∷ []) in
    let next = send_loop f nbr type id (some (added, size + n)) mh out in
    if ltb nbr.max_pdu_len (size + n)
    then again
    else if ltb (nbr.max_pdu_len + 4) (length added)
    then some (record { pdus = out; msgcnt = id; pdu_sent = false })
    else next

-- Two rounds for each message, and one for the end of the list.
unfoldable pub send_labelmessage : Sender → MsgType → ℕ → List LabelMap → Option Sent
unfolding send_loop
send_labelmessage nbr type cnt [] = some (record { pdus = []; msgcnt = cnt; pdu_sent = false })
send_labelmessage nbr type cnt (m ∷ mh) =
    send_loop (suc (2 * length (m ∷ mh))) nbr type cnt none (m ∷ mh) []
