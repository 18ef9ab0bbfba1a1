-- ===== src/Nbr.antt =====
-- neighbor.c: the neighbor record of the LDP engine, its timers and the session state machine.
-- The timers are the seconds for which libevent has them armed; what the engine sends, and its
-- messages to the label decision engine, are appended to `out`. `pids` is the tree nbrs_by_pid,
-- `peercnt` the static counter of nbr_update_peerid, and `now` what gettimeofday returns.
pub mod Events
pub mod Fsm
pub mod Timers
pub mod Backoff
pub mod Trace
pub mod PeerId
pub mod Order
pub mod Negotiation
pub mod Tests
use openbsd_ldpd.Base.{
  ℕ, zero, suc, ◌+◌, ◌*◌, ◌/◌, ◌%◌, ◌^◌, ◌||◌, ◌&&◌, Bool, true, false, not, Option, none, some,
  List, [], ◌∷◌, ◌++◌, bit_and, leb, ◌==◌, if◌then◌else◌, length,
}

pub data NbrState : Type 0 where
  present initial openrec opensent oper : NbrState

-- NBR_STA_*: one bit for each state.
abbrev pub bits : NbrState → ℕ
bits NbrState.present = 0x01
bits NbrState.initial = 0x02
bits NbrState.openrec = 0x04
bits NbrState.opensent = 0x08
bits NbrState.oper = 0x10

-- NBR_STA_SESSION
abbrev pub session_bits : ℕ
session_bits = 0x1e

pub data NbrEvent : Type 0 where
  nothing match_adj connect_up close_session init_rcvd keepalive_rcvd pdu_rcvd pdu_sent : NbrEvent
  init_sent : NbrEvent

pub data NbrAction : Type 0 where
  nothing rst_ktimeout session_est rst_ktimer connect_setup passive_init keepalive_send : NbrAction
  close_session : NbrAction

-- Equality of the enum's codes.
abbrev pub event_code : NbrEvent → ℕ
event_code NbrEvent.nothing = 0
event_code NbrEvent.match_adj = 1
event_code NbrEvent.connect_up = 2
event_code NbrEvent.close_session = 3
event_code NbrEvent.init_rcvd = 4
event_code NbrEvent.keepalive_rcvd = 5
event_code NbrEvent.pdu_rcvd = 6
event_code NbrEvent.pdu_sent = 7
event_code NbrEvent.init_sent = 8

-- A row of nbr_fsm_tbl; a resulting state of 0 is `none`.
pub record FsmRow : Type 0 where
  pub state : ℕ
  pub event : NbrEvent
  pub action : NbrAction
  pub new_state : Option NbrState

abbrev pub row : ℕ → NbrEvent → NbrAction → Option NbrState → FsmRow
row m e a n = record { state = m; event = e; action = a; new_state = n }

-- nbr_fsm_tbl without its end mark.
abbrev pub nbr_fsm_tbl : List FsmRow
nbr_fsm_tbl =
    row 0x01 NbrEvent.match_adj NbrAction.nothing (some NbrState.initial)
    ∷ row 0x02 NbrEvent.init_rcvd NbrAction.passive_init (some NbrState.openrec)
    ∷ row 0x04 NbrEvent.keepalive_rcvd NbrAction.session_est (some NbrState.oper)
    ∷ row 0x01 NbrEvent.connect_up NbrAction.connect_setup (some NbrState.initial)
    ∷ row 0x02 NbrEvent.init_sent NbrAction.nothing (some NbrState.opensent)
    ∷ row 0x08 NbrEvent.init_rcvd NbrAction.keepalive_send (some NbrState.openrec)
    ∷ row 0x10 NbrEvent.pdu_rcvd NbrAction.rst_ktimeout none
    ∷ row session_bits NbrEvent.pdu_rcvd NbrAction.nothing none
    ∷ row 0x10 NbrEvent.pdu_sent NbrAction.rst_ktimer none
    ∷ row session_bits NbrEvent.pdu_sent NbrAction.nothing none
    ∷ row 0x01 NbrEvent.close_session NbrAction.nothing none
    ∷ row session_bits NbrEvent.close_session NbrAction.close_session (some NbrState.present)
    ∷ []

-- The search loop of nbr_fsm: the first row whose mask has the state and whose event is the event.
pub fsm_lookup : List FsmRow → NbrState → NbrEvent → Option FsmRow
fsm_lookup [] st e = none
fsm_lookup (r ∷ rs) st e =
    if not (bit_and r.state (bits st) == 0) && (event_code r.event == event_code e)
    then some r
    else fsm_lookup rs st e

-- What the engine sends to the peer, to the label decision engine or to the socket layer.
pub data Out : Type 0 where
  tcp_new tcp_close send_init send_keepalive : Out
  send_address_v4 send_address_v6 : Out
  send_notification : ℕ → Out
  neighbor_up neighbor_down label_mapping_full : ℕ → Out
  connect : Out

pub record Nbr : Type 0 where
  pub state : NbrState
  pub peerid : ℕ
  pub tcp : Bool  -- nbr->tcp is not NULL
  pub v4_enabled : Bool
  pub v6_enabled : Bool
  pub keepalive : ℕ  -- uint16_t, seconds
  pub max_pdu_len : ℕ
  pub idtimer_cnt : ℕ
  pub uptime : ℕ
  pub ev_connect : Bool  -- a pending connect
  pub keepalive_timer : Option ℕ
  pub keepalive_timeout : Option ℕ
  pub init_timeout : Option ℕ
  pub initdelay_timer : Option ℕ

pub record Engine : Type 0 where
  pub nbr : Nbr
  pub pids : List ℕ
  pub peercnt : ℕ
  pub now : ℕ
  pub out : List Out

abbrev pub keepalive_per_period : ℕ
keepalive_per_period = 3

abbrev pub init_fsm_timeout : ℕ
init_fsm_timeout = 15

abbrev pub init_delay_tmr : ℕ
init_delay_tmr = 15

abbrev pub max_delay_tmr : ℕ
max_delay_tmr = 120

abbrev pub emit : Engine → Out → Engine
emit w o = record w { out = w.out ++ o ∷ [] }

abbrev pub set_nbr : Engine → Nbr → Engine
set_nbr w n = record w { nbr = n }

-- Three keepalives in each period.
abbrev pub nbr_start_ktimer : Nbr → Nbr
nbr_start_ktimer n = record n { keepalive_timer = some (n.keepalive / keepalive_per_period) }

abbrev pub nbr_stop_ktimer : Nbr → Nbr
nbr_stop_ktimer n = record n { keepalive_timer = none }

abbrev pub nbr_start_ktimeout : Nbr → Nbr
nbr_start_ktimeout n = record n { keepalive_timeout = some n.keepalive }

abbrev pub nbr_stop_ktimeout : Nbr → Nbr
nbr_stop_ktimeout n = record n { keepalive_timeout = none }

abbrev pub nbr_start_itimeout : Nbr → Nbr
nbr_start_itimeout n = record n { init_timeout = some init_fsm_timeout }

abbrev pub nbr_stop_itimeout : Nbr → Nbr
nbr_stop_itimeout n = record n { init_timeout = none }

-- The switch of nbr_start_idtimer: the delay, and the counter that follows.
pub idtimer_delay : ℕ → ℕ × ℕ
idtimer_delay zero = (init_delay_tmr, 1)
idtimer_delay (suc zero) = (init_delay_tmr * 2, 2)
idtimer_delay (suc (suc zero)) = (init_delay_tmr * 2 * 2, 3)
idtimer_delay (suc (suc (suc n))) = (max_delay_tmr, suc (suc (suc n)))

pub nbr_start_idtimer : Nbr → Nbr
unfolding idtimer_delay
nbr_start_idtimer n =
    let (delay, cnt) = idtimer_delay n.idtimer_cnt in
    record n { idtimer_cnt = cnt; initdelay_timer = some delay }

abbrev pub nbr_stop_idtimer : Nbr → Nbr
nbr_stop_idtimer n = record n { initdelay_timer = none }

-- Membership in the tree nbrs_by_pid (nbr_find_peerid), and removal from it.
abbrev pub elem : ℕ → List ℕ → Bool
elem x [] = false
elem x (y ∷ ys) = (x == y) || elem x ys

pub remove_pid : ℕ → List ℕ → List ℕ
remove_pid x [] = []
remove_pid x (y ∷ ys) = if x == y then ys else y ∷ remove_pid x ys

abbrev pub u32_mod : ℕ
u32_mod = 4294967296

-- while (nbr_find_peerid(++peercnt)); on fuel, `none` when it runs out.
pub next_peerid : ℕ → ℕ → List ℕ → Option ℕ
next_peerid zero cnt pids = none
next_peerid (suc f) cnt pids =
    let c = (cnt + 1) % u32_mod in
    let rest = next_peerid f c pids in if elem c pids then rest else some c

-- Fuel for one more round than there are peer ids in use.
pub nbr_update_peerid : Engine → Engine
unfolding next_peerid remove_pid
nbr_update_peerid w =
    let pids = if w.nbr.peerid == 0 then w.pids else remove_pid w.nbr.peerid w.pids in
    elim (next_peerid (suc (length pids)) w.peercnt pids) [
      | none ↦ w
      | some c ↦ record w { nbr = record (w.nbr) { peerid = c }; pids = c ∷ pids; peercnt = c }
    ]

pub nbr_act_session_operational : Engine → Engine
nbr_act_session_operational w =
    let w1 = nbr_update_peerid (set_nbr w (record (w.nbr) { idtimer_cnt = 0 })) in
    emit w1 (Out.neighbor_up w1.nbr.peerid)

-- session_close of packet.c, with the tcp_close that it makes.
abbrev pub session_close : Engine → Engine
session_close w =
    emit
      (set_nbr w
        (nbr_stop_itimeout (nbr_stop_ktimeout (nbr_stop_ktimer (record (w.nbr) { tcp = false })))))
      Out.tcp_close

abbrev emit_if : Bool → Engine → Out → Engine
emit_if true w o = emit w o
emit_if false w o = w

-- The switch over the action, up to the recursive call of CONNECT_SETUP.
abbrev pub nbr_act : NbrAction → Engine → Engine
nbr_act NbrAction.nothing w = w
nbr_act NbrAction.rst_ktimeout w = set_nbr w (nbr_start_ktimeout w.nbr)
nbr_act NbrAction.rst_ktimer w = set_nbr w (nbr_start_ktimer w.nbr)
nbr_act NbrAction.session_est w =
    let w1 = nbr_act_session_operational w in
    let w2 = set_nbr w1 (nbr_start_ktimeout (nbr_start_ktimer w1.nbr)) in
    let w3 = emit_if w2.nbr.v4_enabled w2 Out.send_address_v4 in
    let w4 = emit_if w3.nbr.v6_enabled w3 Out.send_address_v6 in
    emit w4 (Out.label_mapping_full w4.nbr.peerid)
nbr_act NbrAction.connect_setup w =
    emit (emit (set_nbr w (record (w.nbr) { tcp = true })) Out.tcp_new) Out.send_init
nbr_act NbrAction.passive_init w = emit (emit w Out.send_init) Out.send_keepalive
nbr_act NbrAction.keepalive_send w = emit (set_nbr w (nbr_start_ktimeout w.nbr)) Out.send_keepalive
nbr_act NbrAction.close_session w = session_close (emit w (Out.neighbor_down w.nbr.peerid))

-- The action that is followed by the event INIT_SENT.
abbrev pub is_connect_setup : NbrAction → Bool
is_connect_setup NbrAction.connect_setup = true
is_connect_setup _ = false

abbrev pub is_oper : NbrState → Bool
is_oper NbrState.oper = true
is_oper _ = false

abbrev pub settled : NbrState → Bool
settled NbrState.oper = true
settled NbrState.present = true
settled _ = false

-- The assignment of the new state, with the uptime of a session that becomes operational.
abbrev pub enter : Engine → Option NbrState → Engine
enter w none = w
enter w (some st) =
    let up = if is_oper st && not (is_oper w.nbr.state) then w.now else w.nbr.uptime in
    set_nbr w (record (w.nbr) { state = st; uptime = up })

abbrev pub set_itimeout : Engine → Engine
set_itimeout w =
    if settled w.nbr.state
    then set_nbr w (nbr_stop_itimeout w.nbr)
    else set_nbr w (nbr_start_itimeout w.nbr)

-- nbr_fsm on fuel: it calls itself once, from CONNECT_SETUP, with the event INIT_SENT.
pub fsm_fuel : ℕ → Engine → NbrEvent → Engine
fsm_fuel zero w e = w
fsm_fuel (suc f) w e = elim (fsm_lookup nbr_fsm_tbl w.nbr.state e) [
  | none ↦ w
  | some r ↦
      let v = nbr_act r.action (set_itimeout (enter w r.new_state)) in
      let next = fsm_fuel f v NbrEvent.init_sent in if is_connect_setup r.action then next else v
]

pub nbr_fsm : Engine → NbrEvent → Engine
unfolding fsm_fuel
nbr_fsm = fsm_fuel 2

-- nbr_new: no connection, no timer, peer id 0.
abbrev pub nbr_new : Bool → Bool → Nbr
nbr_new v4 v6 = record {
  state = NbrState.present;
  peerid = 0;
  tcp = false;
  v4_enabled = v4;
  v6_enabled = v6;
  keepalive = 0;
  max_pdu_len = 0;
  idtimer_cnt = 0;
  uptime = 0;
  ev_connect = false;
  keepalive_timer = none;
  keepalive_timeout = none;
  init_timeout = none;
  initdelay_timer = none;
}
