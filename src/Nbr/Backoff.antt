-- ===== src/Nbr/Backoff.antt =====
-- The delay timer and its counter through the session state machine.
use openbsd_ldpd.Base.{ℕ, zero, suc, ◌+◌, ◌*◌, ◌^◌, ◌≤◌, ◌≡◌, refl, arith, leb, if◌then◌else◌, some}
use openbsd_ldpd.Nbr.{NbrState, NbrEvent, Engine, nbr_fsm, nbr_start_idtimer, idtimer_delay}
use openbsd_ldpd.Nbr.Fsm.{fsm_lookup-found}

pub record KeepsDelay (w v : Engine) : Type 0 where
  pub timer : v.nbr.initdelay_timer ≡ w.nbr.initdelay_timer
  pub counter : v.nbr.idtimer_cnt ≡ w.nbr.idtimer_cnt

pub connect_up-KeepsDelay :
    (w : Engine)
    → w.nbr.state ≡ NbrState.present
    → ((nbr_fsm w NbrEvent.connect_up).nbr.state ≡ NbrState.opensent)
      × KeepsDelay w (nbr_fsm w NbrEvent.connect_up)
unfolding nbr_fsm
connect_up-KeepsDelay w p = ground (
  arith,
  fsm_lookup-found NbrState.present NbrEvent.connect_up,
  fsm_lookup-found NbrState.initial NbrEvent.init_sent,
)

pub close_session-KeepsDelay :
    (w : Engine)
    → w.nbr.state ≡ NbrState.opensent
    → ((nbr_fsm w NbrEvent.close_session).nbr.state ≡ NbrState.present)
      × KeepsDelay w (nbr_fsm w NbrEvent.close_session)
unfolding nbr_fsm
close_session-KeepsDelay w p =
    ground (arith, fsm_lookup-found NbrState.opensent NbrEvent.close_session)

-- nbr_start_idtimer in closed form.
pub start_idtimer_timer :
    (w : Engine)
    → (nbr_start_idtimer w.nbr).initdelay_timer
      ≡ some (15 * 2 ^ (if leb w.nbr.idtimer_cnt 3 then w.nbr.idtimer_cnt else 3))
unfolding nbr_start_idtimer idtimer_delay
start_idtimer_timer w = delay w.nbr.idtimer_cnt
  where
    delay : (n : ℕ) → some (idtimer_delay n).0 ≡ some (15 * 2 ^ (if leb n 3 then n else 3))
    delay zero = refl
    delay (suc zero) = refl
    delay (suc (suc zero)) = refl
    delay (suc (suc (suc zero))) = refl
    delay (suc (suc (suc (suc n)))) = ground arith

pub start_idtimer_counter :
    (w : Engine)
    → w.nbr.idtimer_cnt ≤ 3
    → (nbr_start_idtimer w.nbr).idtimer_cnt
      ≡ (if leb w.nbr.idtimer_cnt 2 then w.nbr.idtimer_cnt + 1 else 3)
unfolding nbr_start_idtimer idtimer_delay
start_idtimer_counter w = counted w.nbr.idtimer_cnt
  where
    counted : (n : ℕ) → n ≤ 3 → (idtimer_delay n).1 ≡ (if leb n 2 then n + 1 else 3)
    counted zero h = refl
    counted (suc zero) h = refl
    counted (suc (suc zero)) h = refl
    counted (suc (suc (suc n))) h = ground arith

pub start_idtimer_state : (w : Engine) → (nbr_start_idtimer w.nbr).state ≡ w.nbr.state
unfolding nbr_start_idtimer
start_idtimer_state w = refl
