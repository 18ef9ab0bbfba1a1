-- ===== src/Nbr/Events.antt =====
-- What the event loop of the LDP engine does with a neighbor: session_shutdown and session_accept of
-- packet.c, the callbacks of neighbor.c, recv_keepalive of keepalive.c, the end of recv_init of init.c,
-- and the guards of session_read of packet.c.
use openbsd_ldpd.Base.{
  ℕ, zero, suc, Bool, true, false, Option, none, some, List, [], ◌∷◌, leb, ◌==◌, if◌then◌else◌,
}
use openbsd_ldpd.Nbr.{
  NbrState, NbrEvent, NbrEvent, Out, Engine, emit, set_nbr, nbr_start_ktimer, nbr_stop_ktimer,
  nbr_stop_ktimeout, nbr_stop_itimeout, is_oper, nbr_fsm,
}

-- session_shutdown of packet.c.
unfoldable pub session_shutdown : Engine → ℕ → Engine
session_shutdown w status = elim w.nbr.state [
  | NbrState.present ↦ set_nbr w (record (w.nbr) { ev_connect = false })
  | _ ↦ nbr_fsm (emit w (Out.send_notification status)) NbrEvent.close_session
]

-- The timer callbacks.
pub nbr_ktimer : Engine → Engine
nbr_ktimer w = let w1 = emit w Out.send_keepalive in set_nbr w1 (nbr_start_ktimer w1.nbr)

abbrev pub s_keepalive_tmr : ℕ
s_keepalive_tmr = 0x80000014

pub nbr_ktimeout : Engine → Engine
unfolding session_shutdown
nbr_ktimeout w = session_shutdown w s_keepalive_tmr

pub nbr_itimeout : Engine → Engine
unfolding nbr_fsm
nbr_itimeout w = nbr_fsm w NbrEvent.close_session

-- nbr_connect_cb, by the error that getsockopt reports: `none` when getsockopt itself fails.
pub nbr_connect_cb : Engine → Option ℕ → Engine
unfolding nbr_fsm
nbr_connect_cb w none = w
nbr_connect_cb w (some zero) = nbr_fsm w NbrEvent.connect_up
nbr_connect_cb w (some (suc e)) = w

-- The end of session_accept for a known neighbor: a second connection, or one to a neighbor that
-- has the active role, is closed. `checked` is the result of the GTSM and MD5 checks of
-- session_accept_nbr.
pub session_accept : Engine → Bool → Bool → Engine
unfolding nbr_fsm
session_accept w active checked = if active then w else elim w.nbr.state [
  | NbrState.present ↦
      if checked
      then nbr_fsm (emit (set_nbr w (record (w.nbr) { tcp = true })) Out.tcp_new) NbrEvent.match_adj
      else w
  | _ ↦ w
]

abbrev pub s_bad_msg_len : ℕ
s_bad_msg_len = 0x80000005

-- recv_keepalive of keepalive.c, by the length of the message.
unfoldable pub recv_keepalive : Engine → ℕ → Engine
unfolding nbr_fsm session_shutdown
recv_keepalive w len =
    if len == 8
    then (if is_oper w.nbr.state then w else nbr_fsm w NbrEvent.keepalive_rcvd)
    else session_shutdown w s_bad_msg_len

-- recv_init of init.c once the message is validated: `local` is nbr_get_keepalive, `peer` and
-- `pdu_len` the fields of the message.
abbrev pub ldp_max_len : ℕ
ldp_max_len = 4096

unfoldable pub negotiated_pdu_len : ℕ → ℕ
negotiated_pdu_len pdu_len =
    let n = if leb pdu_len 255 then ldp_max_len else pdu_len in
    if leb n ldp_max_len then n else ldp_max_len

unfoldable pub init_accepted : Engine → ℕ → ℕ → ℕ → Engine
unfolding nbr_fsm negotiated_pdu_len
init_accepted w local peer pdu_len =
    nbr_fsm
      (set_nbr w (record (w.nbr) {
        keepalive = if leb local peer then local else peer;
        max_pdu_len = negotiated_pdu_len pdu_len;
      }))
      NbrEvent.init_rcvd

-- What the engine's event loop hands to a neighbor. An armed timer is disarmed when it fires; a
-- timer that is not armed does not fire. session_read lets an initialization message through in
-- the states INITIAL and OPENSENT, a keepalive in the others but those.
pub data Input : Type 0 where
  accepts : Bool → Bool → Input
  connects : Option ℕ → Input
  itimer ktimer ktimeout pdu_read pdu_written : Input
  init_msg : ℕ → ℕ → ℕ → Input
  keepalive_msg : ℕ → Input
  shutdown : ℕ → Input

abbrev pub s_shutdown : ℕ
s_shutdown = 0x8000000A

abbrev pub awaits_init : NbrState → Bool
awaits_init NbrState.initial = true
awaits_init NbrState.opensent = true
awaits_init _ = false

unfoldable pub handle : Engine → Input → Engine
unfolding session_accept nbr_connect_cb nbr_itimeout nbr_ktimer nbr_ktimeout init_accepted
    recv_keepalive
handle w (Input.accepts a c) = session_accept w a c
handle w (Input.connects e) =
    if w.nbr.ev_connect
    then nbr_connect_cb (set_nbr w (record (w.nbr) { ev_connect = false })) e
    else w
handle w Input.itimer = elim w.nbr.init_timeout [
  | none ↦ w
  | some _ ↦ nbr_itimeout (set_nbr w (nbr_stop_itimeout w.nbr))
]
handle w Input.ktimer = elim w.nbr.keepalive_timer [
  | none ↦ w
  | some _ ↦ nbr_ktimer (set_nbr w (nbr_stop_ktimer w.nbr))
]
handle w Input.ktimeout = elim w.nbr.keepalive_timeout [
  | none ↦ w
  | some _ ↦ nbr_ktimeout (set_nbr w (nbr_stop_ktimeout w.nbr))
]
handle w Input.pdu_read = if w.nbr.tcp then nbr_fsm w NbrEvent.pdu_rcvd else w
handle w Input.pdu_written = if w.nbr.tcp then nbr_fsm w NbrEvent.pdu_sent else w
handle w (Input.init_msg l p n) =
    if w.nbr.tcp
    then (if awaits_init w.nbr.state then init_accepted w l p n else session_shutdown w s_shutdown)
    else w
handle w (Input.keepalive_msg len) =
    if w.nbr.tcp
    then (if awaits_init w.nbr.state then session_shutdown w s_shutdown else recv_keepalive w len)
    else w
handle w (Input.shutdown status) = session_shutdown w status

unfoldable pub run : Engine → List Input → Engine
run w [] = w
run w (i ∷ is) = run (handle w i) is
