-- ===== src/Nbr/Tests.antt =====
-- Runs of the session state machine and of the engine of a neighbor.
use openbsd_ldpd.Nbr.Order.{int_min, nbr_id_compare, id_compare_window, id_compare_cycle}
use openbsd_ldpd.Base.{
  ℕ, ◌↔◌, ◌≤◌, Ordering, compare, ◌+◌, ◌<◌, ◌≡◌, refl, true, false, some, List, [], ◌∷◌, arith,
}
use openbsd_ldpd.Nbr.{
  NbrState, NbrEvent, Nbr, Engine, Out, nbr_new, nbr_fsm, fsm_fuel, nbr_update_peerid,
  idtimer_delay,
}
use openbsd_ldpd.Nbr.Events.{Input, run, handle}
use openbsd_ldpd.Nbr.Fsm.{fsm_target, fsm_ignored, fsm_fuel_enough}
use openbsd_ldpd.Nbr.Timers.{Inv, run-Inv}
use openbsd_ldpd.Nbr.Trace.{handshake, oper_needs_handshake, handshake_opens}

-- A new neighbor among three others, just before the counter of peer ids meets theirs.
abbrev idle : Engine
idle = record {
  nbr = record (nbr_new true false) { ev_connect = true };
  pids = 5 ∷ 6 ∷ 8 ∷ [];
  peercnt = 4;
  now = 1000;
  out = [];
}

abbrev passive : List Input
passive = Input.accepts false true ∷ Input.init_msg 180 60 4096 ∷ Input.keepalive_msg 8 ∷ []

-- The passive side of a session: the keepalive time is the lower one, the peer id a new one.
passive_handshake :
    ((run idle passive).nbr.state ≡ NbrState.oper)
    × ((run idle passive).nbr.keepalive_timer ≡ some 20)
    × ((run idle passive).nbr.peerid ≡ 7)
    × ((run idle passive).out
        ≡ Out.tcp_new
          ∷ Out.send_init
          ∷ Out.send_keepalive
          ∷ Out.neighbor_up 7
          ∷ Out.send_address_v4
          ∷ Out.label_mapping_full 7
          ∷ [])
unfolding run handle openbsd_ldpd.Nbr.fsm_lookup openbsd_ldpd.Nbr.nbr_act_session_operational
    nbr_update_peerid
passive_handshake = (refl, refl, refl, refl)

fsm_target_example : (nbr_fsm idle NbrEvent.connect_up).nbr.state ≡ NbrState.opensent
fsm_target_example = fsm_target idle NbrEvent.connect_up

fsm_ignored_example : nbr_fsm idle NbrEvent.keepalive_rcvd ≡ idle
fsm_ignored_example = fsm_ignored idle NbrEvent.keepalive_rcvd refl

fsm_fuel_enough_example : fsm_fuel 5 idle NbrEvent.connect_up ≡ nbr_fsm idle NbrEvent.connect_up
fsm_fuel_enough_example = fsm_fuel_enough 3 idle NbrEvent.connect_up

idle-Inv : Inv idle.nbr
idle-Inv = record {
  idle_tcp = λ h. refl;
  idle_ktimer = λ h. refl;
  idle_ktimeout = λ h. refl;
  live = λ h. refl;
  guarded = λ h. cc;
  unguarded = λ h. refl;
  oper_ktimer = λ h. cc;
  oper_ktimeout = λ h. cc;
}

run-Inv_example : Inv (run idle passive).nbr
run-Inv_example = run-Inv passive idle idle-Inv

oper_needs_handshake_example : handshake false passive ≡ true
oper_needs_handshake_example = oper_needs_handshake passive idle refl (passive_handshake.0)

handshake_opens_example :
    ((run idle passive).nbr.state ≡ NbrState.oper)
    × (true ≡ true
        → (run idle (
            Input.connects (some 0)
            ∷ Input.init_msg 180 60 4096
            ∷ Input.keepalive_msg 8
            ∷ [])).nbr.state
          ≡ NbrState.oper)
handshake_opens_example = handshake_opens idle 180 60 4096 refl

-- Ids on both sides of the window, 1.0.0.0 and 200.0.0.0.
id_compare_window_example :
    (nbr_id_compare 16777216 3355443200 ≡ compare 16777216 3355443200)
    ↔ ((16777216 < 3355443200 + int_min) × (3355443200 ≤ 16777216 + int_min))
id_compare_window_example = id_compare_window 16777216 3355443200 (omega arith) (omega arith)

id_compare_cycle_example :
    (b : ℕ) × (c : ℕ) × (nbr_id_compare 16777216 b ≡ Ordering.lt)
    × (nbr_id_compare b c ≡ Ordering.lt)
    × (nbr_id_compare c 16777216 ≡ Ordering.lt)
id_compare_cycle_example = id_compare_cycle 16777216 (omega arith)
