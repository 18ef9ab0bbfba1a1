-- ===== src/Nbr/Timers.antt =====
-- The connection and the timers of a neighbor in each state.
use openbsd_ldpd.Base.{◌/◌, ◌≡◌, Bool, true, false, none, some, List, [], ◌∷◌, arith}
use openbsd_ldpd.Nbr.{
  NbrState, NbrEvent, Nbr, Engine, settled, set_itimeout, enter, nbr_act_session_operational,
  nbr_update_peerid, nbr_new, init_fsm_timeout, keepalive_per_period,
}
use openbsd_ldpd.Nbr.Events.{Input, handle, run}
use openbsd_ldpd.Nbr.Fsm.{fsm_lookup-found}

-- No connection and no timer in PRESENT, a connection elsewhere; the initialization is guarded by
-- its timeout; an operational session sends keepalives and waits for those of the peer.
pub record Inv (n : Nbr) : Type 0 where
  pub idle_tcp : n.state ≡ NbrState.present → n.tcp ≡ false
  pub idle_ktimer : n.state ≡ NbrState.present → n.keepalive_timer ≡ none
  pub idle_ktimeout : n.state ≡ NbrState.present → n.keepalive_timeout ≡ none
  pub live : n.tcp ≡ false → n.state ≡ NbrState.present
  pub guarded : settled n.state ≡ false → n.init_timeout ≡ some init_fsm_timeout
  pub unguarded : settled n.state ≡ true → n.init_timeout ≡ none
  pub oper_ktimer :
      n.state ≡ NbrState.oper → n.keepalive_timer ≡ some (n.keepalive / keepalive_per_period)
  pub oper_ktimeout : n.state ≡ NbrState.oper → n.keepalive_timeout ≡ some n.keepalive

-- A new neighbor is idle.
pub nbr_new-Inv : (v4 v6 : Bool) → Inv (nbr_new v4 v6)
nbr_new-Inv v4 v6 = ground arith

-- Becoming operational sets the peer id and clears the count of delays, and no more.
record Frame (m n : Nbr) : Type 0 where
  state : m.state ≡ n.state
  tcp : m.tcp ≡ n.tcp
  keepalive : m.keepalive ≡ n.keepalive
  keepalive_timer : m.keepalive_timer ≡ n.keepalive_timer
  keepalive_timeout : m.keepalive_timeout ≡ n.keepalive_timeout
  init_timeout : m.init_timeout ≡ n.init_timeout

operational-Frame : (w : Engine) → Frame (nbr_act_session_operational w).nbr w.nbr
unfolding nbr_act_session_operational nbr_update_peerid
operational-Frame w = ground arith

handle-Inv : (w : Engine) (i : Input) → Inv w.nbr → Inv (handle w i).nbr
unfolding handle
handle-Inv w (Input.accepts a c) v =
    ground (arith, fsm_lookup-found NbrState.present NbrEvent.match_adj)
handle-Inv w (Input.connects e) v = ground (
  arith,
  fsm_lookup-found w.nbr.state NbrEvent.connect_up,
  fsm_lookup-found NbrState.initial NbrEvent.init_sent,
)
handle-Inv w Input.itimer v = ground (arith, fsm_lookup-found w.nbr.state NbrEvent.close_session)
handle-Inv w Input.ktimer v = ground arith
handle-Inv w Input.ktimeout v = ground (arith, fsm_lookup-found w.nbr.state NbrEvent.close_session)
handle-Inv w Input.pdu_read v = ground (arith, fsm_lookup-found w.nbr.state NbrEvent.pdu_rcvd)
handle-Inv w Input.pdu_written v = ground (arith, fsm_lookup-found w.nbr.state NbrEvent.pdu_sent)
handle-Inv w (Input.init_msg l p n) v = ground (
  arith,
  fsm_lookup-found w.nbr.state NbrEvent.init_rcvd,
  fsm_lookup-found w.nbr.state NbrEvent.close_session,
)
handle-Inv w (Input.keepalive_msg len) v = ground (
  arith,
  fsm_lookup-found w.nbr.state NbrEvent.keepalive_rcvd,
  fsm_lookup-found w.nbr.state NbrEvent.close_session,
  operational-Frame (set_itimeout (enter w (some NbrState.oper))),
)
handle-Inv w (Input.shutdown s) v =
    ground (arith, fsm_lookup-found w.nbr.state NbrEvent.close_session)

-- A neighbor whose connection and timers agree with its state, as those of a new one do, keeps this
-- agreement whatever it is handed, in any order: idle in PRESENT, guarded by the initialization
-- timeout until the session is operational,
-- and with both keepalive timers armed for the negotiated time while it is.
pub run-Inv : (is : List Input) (w : Engine) → Inv w.nbr → Inv (run w is).nbr
unfolding run
run-Inv [] w v = v
run-Inv (i ∷ is) w v = run-Inv is (handle w i) (handle-Inv w i v)
