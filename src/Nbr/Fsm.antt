-- ===== src/Nbr/Fsm.antt =====
-- The table and the function nbr_fsm against the session state machine of RFC 5036, section 2.5.4.
use openbsd_ldpd.Base.{ℕ, suc, ◌≡◌, refl, Option, none, some, arith}
use openbsd_ldpd.Nbr.{
  NbrState, NbrEvent, NbrAction, Engine, FsmRow, fsm_lookup, nbr_fsm_tbl, nbr_fsm, fsm_fuel,
  nbr_act_session_operational, nbr_update_peerid, set_itimeout, enter,
}

-- The target that the state machine prescribes; every other event leaves the state.
abbrev pub target : NbrState → NbrEvent → NbrState
target NbrState.present NbrEvent.match_adj = NbrState.initial
target NbrState.present NbrEvent.connect_up = NbrState.opensent
target NbrState.initial NbrEvent.init_rcvd = NbrState.openrec
target NbrState.initial NbrEvent.init_sent = NbrState.opensent
target NbrState.opensent NbrEvent.init_rcvd = NbrState.openrec
target NbrState.openrec NbrEvent.keepalive_rcvd = NbrState.oper
target s NbrEvent.close_session = NbrState.present
target s _ = s

-- Peer ids are chosen without touching the state.
update_state : (w : Engine) → (nbr_update_peerid w).nbr.state ≡ w.nbr.state
unfolding nbr_update_peerid
update_state w = ground arith

pub operational_state : (w : Engine) → (nbr_act_session_operational w).nbr.state ≡ w.nbr.state
unfolding nbr_act_session_operational
operational_state w = update_state _

-- What the search of the table finds, by state and event.
abbrev pub found : NbrState → NbrEvent → Option (NbrAction × Option NbrState)
found NbrState.present NbrEvent.match_adj = some (NbrAction.nothing, some NbrState.initial)
found NbrState.present NbrEvent.connect_up = some (NbrAction.connect_setup, some NbrState.initial)
found NbrState.present NbrEvent.close_session = some (NbrAction.nothing, none)
found NbrState.present _ = none
found NbrState.initial NbrEvent.init_rcvd = some (NbrAction.passive_init, some NbrState.openrec)
found NbrState.initial NbrEvent.init_sent = some (NbrAction.nothing, some NbrState.opensent)
found NbrState.opensent NbrEvent.init_rcvd = some (NbrAction.keepalive_send, some NbrState.openrec)
found NbrState.openrec NbrEvent.keepalive_rcvd = some (NbrAction.session_est, some NbrState.oper)
found NbrState.oper NbrEvent.pdu_rcvd = some (NbrAction.rst_ktimeout, none)
found NbrState.oper NbrEvent.pdu_sent = some (NbrAction.rst_ktimer, none)
found _ NbrEvent.pdu_rcvd = some (NbrAction.nothing, none)
found _ NbrEvent.pdu_sent = some (NbrAction.nothing, none)
found _ NbrEvent.close_session = some (NbrAction.close_session, some NbrState.present)
found _ _ = none

abbrev pub pair_of : Option FsmRow → Option (NbrAction × Option NbrState)
pair_of none = none
pair_of (some r) = some (r.action, r.new_state)

pub fsm_lookup-found :
    (s : NbrState) (e : NbrEvent) → pair_of (fsm_lookup nbr_fsm_tbl s e) ≡ found s e
unfolding fsm_lookup
fsm_lookup-found NbrState.present e =
    elim e
      as (λ x. pair_of (fsm_lookup nbr_fsm_tbl NbrState.present x) ≡ found NbrState.present x) [
        | NbrEvent.nothing ↦ refl
        | _ ↦ refl
      ]
fsm_lookup-found NbrState.initial e =
    elim e
      as (λ x. pair_of (fsm_lookup nbr_fsm_tbl NbrState.initial x) ≡ found NbrState.initial x) [
        | NbrEvent.nothing ↦ refl
        | _ ↦ refl
      ]
fsm_lookup-found NbrState.openrec e =
    elim e
      as (λ x. pair_of (fsm_lookup nbr_fsm_tbl NbrState.openrec x) ≡ found NbrState.openrec x) [
        | NbrEvent.nothing ↦ refl
        | _ ↦ refl
      ]
fsm_lookup-found NbrState.opensent e =
    elim e
      as (λ x. pair_of (fsm_lookup nbr_fsm_tbl NbrState.opensent x) ≡ found NbrState.opensent x) [
        | NbrEvent.nothing ↦ refl
        | _ ↦ refl
      ]
fsm_lookup-found NbrState.oper e =
    elim e as (λ x. pair_of (fsm_lookup nbr_fsm_tbl NbrState.oper x) ≡ found NbrState.oper x) [
      | NbrEvent.nothing ↦ refl
      | _ ↦ refl
    ]

-- The state after an event is the one that the session state machine prescribes for the state and the
-- event; where it prescribes none, the state stays.
pub fsm_target : (w : Engine) (e : NbrEvent) → (nbr_fsm w e).nbr.state ≡ target w.nbr.state e
unfolding nbr_fsm
fsm_target w e = ground (
  arith,
  fsm_lookup-found w.nbr.state e,
  fsm_lookup-found NbrState.initial NbrEvent.init_sent,
  operational_state (set_itimeout (enter w (some NbrState.oper))),
)

-- An event that the table does not list for the state changes nothing at all.
pub fsm_ignored : (w : Engine) (e : NbrEvent) → found w.nbr.state e ≡ none → nbr_fsm w e ≡ w
unfolding nbr_fsm
fsm_ignored w e h = ground (arith, fsm_lookup-found w.nbr.state e)

-- nbr_fsm calls itself at most once: more fuel than two changes nothing.
pub fsm_fuel_enough : (n : ℕ) (w : Engine) (e : NbrEvent) → fsm_fuel (suc (suc n)) w e ≡ nbr_fsm w e
unfolding nbr_fsm
fsm_fuel_enough n w e =
    ground
      (arith, fsm_lookup-found w.nbr.state e, fsm_lookup-found NbrState.initial NbrEvent.init_sent)
