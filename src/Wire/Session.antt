-- ===== src/Wire/Session.antt =====
-- session_read of packet.c: the checks of a PDU's header, and its messages one by one. The handlers of
-- the messages are those of the other files of Wire.
pub mod Whole
pub mod Handshake
pub mod Chunks
use openbsd_ldpd.Base.{
  ℕ, zero, suc, ◌+◌, ◌-◌, ◌/◌, ◌%◌, ◌&&◌, ◌||◌, not, Bool, true, false, Option, none, some, List,
  [], ◌∷◌, ◌++◌, ltb, leb, ◌==◌, if◌then◌else◌, drop, take, length, map,
}
use openbsd_ldpd.Lde.{LabelMap, LdeAddr}
use openbsd_ldpd.Nbr.{NbrState, NbrEvent, Engine, is_oper, nbr_fsm}
use openbsd_ldpd.Nbr.Events.{session_shutdown, recv_keepalive, awaits_init, s_shutdown, ldp_max_len}
use openbsd_ldpd.Wire.{Parsed, of16, of32, s_bad_tlv_len, s_bad_pdu_len}
use openbsd_ldpd.Wire.Framing.{session_get_pdu}
use openbsd_ldpd.Wire.Init.{
  recv_init, send_notification_nbr, send_notes, refuse, s_bad_proto_ver, conclude,
}
use openbsd_ldpd.Wire.Notification.{NotifyMsg, recv_notification}
use openbsd_ldpd.Wire.Label.{MsgType}
use openbsd_ldpd.Wire.Label.Recv.{Received, recv_labelmessage}
use openbsd_ldpd.Wire.Address.{recv_address}

-- What the session hands to the label decision engine.
pub data ToLde : Type 0 where
  label : MsgType → LabelMap → ToLde
  address : (withdraw : Bool) → LdeAddr → ToLde
  notification : NotifyMsg → ToLde

-- The neighbor, what was handed on, and the constants of the session: the own router id, the LSR id of
-- the neighbor, and its configured keepalive time.
pub record Session : Type 0 where
  pub engine : Engine
  pub to_lde : List ToLde
  pub rtr_id : ℕ
  pub nbr_id : ℕ
  pub local : ℕ

abbrev pub label_type : ℕ → Option MsgType
label_type t =
    if t == 0x0400
    then some MsgType.mapping
    else if t == 0x0401
    then some MsgType.request
    else if t == 0x0402
    then some MsgType.withdraw
    else if t == 0x0403
    then some MsgType.release
    else if t == 0x0404
    then some MsgType.abort
    else none

abbrev pub is_label : ℕ → Bool
is_label t = leb 0x0400 t && leb t 0x0404

abbrev pub is_address : ℕ → Bool
is_address t = t == 0x0300 || t == 0x0301

-- "check for error conditions earlier": the type of a message that the state does not allow.
unfoldable pub out_of_place : ℕ → NbrState → Bool
out_of_place t st =
    if t == 0x0200
    then not (awaits_init st)
    else if t == 0x0201
    then awaits_init st
    else if is_address t || is_label t
    then not (is_oper st)
    else false

abbrev step : Session → Engine → List ToLde → Session
step s w out = record s { engine = w; to_lde = s.to_lde ++ out }

-- A handler's result with what it hands on.
abbrev pub finish_handler : Session → List ToLde → List ℕ → Parsed (Unit {0}) → Session × Bool
finish_handler s out notes r =
    let (w, good) = conclude s.engine (notes, r) (λ w _. w) in (step s w out, good)

-- "switch LDP packet type": the session, and whether the handler returned 0.
unfoldable pub recv_msg : Session → ℕ → ℕ → List ℕ → Session × Bool
recv_msg s t size buf =
    let w = s.engine in
    if t == 0x0001
    then (let (v, out, good) = recv_notification w size buf in
        (step s v (map ToLde.notification out), good))
    else if t == 0x0200
    then (let (v, good) = recv_init s.rtr_id s.local w size buf in (step s v [], good))
    else if t == 0x0201
    then (step s (recv_keepalive w size) [], size == 8)
    else if is_address t
    then (let (out, r) = recv_address w.nbr.v4_enabled w.nbr.v6_enabled size buf in
        finish_handler s (map (ToLde.address (t == 0x0301)) out) [] r)
    else elim (label_type t) [
      | some type ↦
          let r = recv_labelmessage type w.nbr.v4_enabled w.nbr.v6_enabled size buf in
          finish_handler s (map (ToLde.label type) r.maps) r.notes r.result
      | none ↦ (step s (if leb 32768 t then w else send_notification_nbr w 0x00000004) [], true)
    ]

-- How the loop over the messages ends: behind the last message with the bytes that are left, by a return
-- of session_read, or not at all.
pub data Loop : Type 0 where
  ended : (left : ℕ) → Session → Loop
  returned : Session → Loop
  hung : Loop

abbrev shut_down : Session → ℕ → Session
shut_down s status = record s { engine = session_shutdown s.engine status }

-- The fields type and length of the header of a message.
abbrev pub type_field : List ℕ → ℕ
type_field (a ∷ b ∷ _) = of16 a b
type_field _ = 0

abbrev pub length_field : List ℕ → ℕ
length_field (_ ∷ _ ∷ a ∷ b ∷ _) = of16 a b
length_field _ = 0

-- while (len >= LDP_MSG_SIZE), on fuel, with the handler as an argument; `pdu_len` is kept beside `len`.
unfoldable pub read_messages :
    (Session → ℕ → ℕ → List ℕ → Session × Bool) → ℕ → ℕ → ℕ → List ℕ → Session → Loop
read_messages recv zero pdu_len len buf s = Loop.hung
read_messages recv (suc f) pdu_len len buf s =
    let t = type_field buf in
    let n = length_field buf in
    let (v, good) = recv s t (n + 4) buf in
    let next = read_messages recv f (pdu_len - (n + 4)) (len - (n + 4)) (drop (n + 4) buf) v in
    if ltb len 8
    then Loop.ended len s
    else if ltb n 4 || ltb pdu_len (n + 4)
    then Loop.returned (shut_down s s_bad_tlv_len)
    else if out_of_place t s.engine.nbr.state
    then Loop.returned (shut_down s s_shutdown)
    else if good
    then next
    else Loop.returned v

-- The rest of the loop over the PDUs for one PDU: true when session_read goes on with the next.
abbrev pub after_messages : Session → Loop → Session × Bool
after_messages s (Loop.ended left v) =
    if left == 0 then (v, true) else (shut_down v s_bad_pdu_len, false)
after_messages s (Loop.returned v) = (v, false)
after_messages s Loop.hung = (s, false)

abbrev pub pdu_limit : Engine → ℕ
pdu_limit w = if is_oper w.nbr.state then w.nbr.max_pdu_len else ldp_max_len

-- One PDU, complete as session_get_pdu gives it. The checks are in the order of the source; a PDU of
-- less than 10 bytes is refused by its length.
unfoldable pub read_pdu : Session → List ℕ → Session × Bool
unfolding read_messages recv_msg
read_pdu s (v1 ∷ v0 ∷ l1 ∷ l0 ∷ rest) =
    let n = of16 l1 l0 in
    if not (of16 v1 v0 == 1)
    then (shut_down s s_bad_proto_ver, false)
    else if ltb n 14 || ltb (pdu_limit s.engine) n
    then (shut_down s s_bad_pdu_len, false)
    else elim rest [
      | i3 ∷ i2 ∷ i1 ∷ i0 ∷ p1 ∷ p0 ∷ body ↦
          if not (of32 i3 i2 i1 i0 == s.nbr_id) || not (of16 p1 p0 == 0)
          then (shut_down s 0x80000001, false)
          else (let v = record s { engine = nbr_fsm s.engine NbrEvent.pdu_rcvd } in
              after_messages v
                (read_messages recv_msg (suc (length body)) (n - 6) (length body) body v))
      | _ ↦ (s, false)
    ]
read_pdu s _ = (s, false)

-- while ((len = session_get_pdu(...)) > 0), on fuel: the session, what stays in the read buffer, and
-- whether the loop came to an incomplete PDU. After a PDU that is refused session_read returns, and the
-- PDUs behind it stay in the buffer until the next read.
unfoldable pub read_pdus : ℕ → Session → List ℕ → Session × List ℕ × Bool
unfolding read_pdu session_get_pdu
read_pdus zero s rbuf = (s, rbuf, false)
read_pdus (suc f) s rbuf = elim (session_get_pdu rbuf) [
  | none ↦ (s, rbuf, true)
  | some (p, left) ↦
      let x = read_pdu s p in
      let next = read_pdus f (x.0) left in if x.1 then next else (x.0, left, false)
]

-- What read() finds: nothing yet (EINTR, EAGAIN), another error, or the bytes that have arrived, none when
-- the connection is closed.
pub data Readable : Type 0 where
  retry failed : Readable
  arrived : List ℕ → Readable

-- read() gives what there is room for in the buffer.
abbrev pub given : ℕ → List ℕ → List ℕ → List ℕ
given capacity rbuf bytes = take (capacity - length rbuf) bytes

abbrev pub close : Session → Session
close s = record s { engine = nbr_fsm s.engine NbrEvent.close_session }

-- The bytes of one read(), with more fuel than bytes; every PDU that is taken out has 4 bytes at least.
unfoldable pub read_bytes : Session → List ℕ → List ℕ → Session × List ℕ × Bool
unfolding read_pdus
read_bytes s rbuf [] = (close s, rbuf, false)
read_bytes s rbuf (x ∷ xs) = read_pdus (suc (length (rbuf ++ x ∷ xs))) s (rbuf ++ x ∷ xs)

-- session_read, for a read buffer of the given size (that of struct ibuf_read).
unfoldable pub session_read : ℕ → Session → List ℕ → Readable → Session × List ℕ
unfolding read_bytes
session_read capacity s rbuf Readable.retry = (s, rbuf)
session_read capacity s rbuf Readable.failed = (close s, rbuf)
session_read capacity s rbuf (Readable.arrived bytes) =
    let r = read_bytes s rbuf (given capacity rbuf bytes) in (r.0, r.1)
