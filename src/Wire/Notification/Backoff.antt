-- ===== src/Wire/Notification/Backoff.antt =====
-- Attempts to open a session that the neighbor refuses with a fatal notification.
use openbsd_ldpd.Base.{
  ℕ, zero, suc, ◌*◌, ◌^◌, ◌≤◌, ◌≡◌, ◌∙◌, refl, ap, true, some, arith, leb, if◌then◌else◌,
}
use openbsd_ldpd.Nbr.{NbrState, NbrEvent, Engine, nbr_fsm, nbr_start_idtimer, set_nbr}
use openbsd_ldpd.Nbr.Backoff.{
  connect_up-KeepsDelay, close_session-KeepsDelay, start_idtimer_timer, start_idtimer_counter,
  start_idtimer_state,
}
use openbsd_ldpd.Wire.Notification.{NotifyMsg, close_if_fatal}

-- The connection comes up, and the notification of the neighbor closes it.
abbrev pub refused_attempt : NotifyMsg → Engine → Engine
refused_attempt nm w = close_if_fatal (nbr_fsm w NbrEvent.connect_up) nm

abbrev pub refused_attempts : NotifyMsg → ℕ → Engine → Engine
refused_attempts nm zero w = w
refused_attempts nm (suc k) w = refused_attempt nm (refused_attempts nm k w)

-- The state, the delay and the counter after `k` refusals, of which there was one at least.
abbrev pub counts : ℕ → ℕ
counts k = if leb k 3 then k else 3

abbrev pub waits_for : ℕ → ℕ
waits_for k = 15 * 2 ^ counts k

counts_again : (k : ℕ) → counts (counts k) ≡ counts k
counts_again k = ground arith

counts_next : (k : ℕ) → counts (suc (counts k)) ≡ counts (suc k)
counts_next k = ground arith

one_attempt :
    (nm : NotifyMsg) (w : Engine)
    → leb 0x80000000 nm.status_code ≡ true
    → w.nbr.state ≡ NbrState.present
    → w.nbr.idtimer_cnt ≤ 3
    → let v = refused_attempt nm w in
      (v.nbr.state ≡ NbrState.present)
      × (v.nbr.initdelay_timer ≡ some (waits_for w.nbr.idtimer_cnt))
      × (v.nbr.idtimer_cnt ≡ counts (suc w.nbr.idtimer_cnt))
unfolding close_if_fatal
one_attempt nm w h p l =
    let u = nbr_fsm w NbrEvent.connect_up in
    let c = connect_up-KeepsDelay w p in
    let v = set_nbr u (nbr_start_idtimer u.nbr) in
    let d = close_session-KeepsDelay v (start_idtimer_state u ∙ c.0) in
    let small : u.nbr.idtimer_cnt ≤ 3 = omega (arith, c.1.counter) in
    let e : refused_attempt nm w ≡ nbr_fsm v NbrEvent.close_session = rw (c.0, h) refl in
    rw e (
      d.0,
      d.1.timer ∙ start_idtimer_timer u ∙ ap (λ n. some (waits_for n)) c.1.counter,
      d.1.counter ∙ start_idtimer_counter u small ∙ ground (arith, c.1.counter),
    )

-- A neighbor in PRESENT with the counter at 0 refuses one attempt to open a session after another with a
-- fatal notification: after the last, it is in PRESENT again, the timer that delays the next attempt is
-- armed, for 15 seconds after the first refusal, twice as long after each further one up to 120 seconds,
-- and the counter is the number of the refusals up to 3.
pub idtimer_backoff :
    (nm : NotifyMsg) (w : Engine) (k : ℕ)
    → leb 0x80000000 nm.status_code ≡ true
    → w.nbr.state ≡ NbrState.present
    → w.nbr.idtimer_cnt ≡ 0
    → let v = refused_attempts nm (suc k) w in
      (v.nbr.state ≡ NbrState.present)
      × (v.nbr.initdelay_timer ≡ some (waits_for k))
      × (v.nbr.idtimer_cnt ≡ counts (suc k))
idtimer_backoff nm w zero h p z =
    let r = one_attempt nm w h p (omega arith) in
    (r.0, r.1 ∙ ap (λ n. some (waits_for n)) z, r.2 ∙ ap (λ n. counts (suc n)) z)
idtimer_backoff nm w (suc k) h p z =
    let ih = idtimer_backoff nm w k h p z in
    let r = one_attempt nm (refused_attempts nm (suc k) w) h ih.0 (ground (arith, ih.2)) in
    (
      r.0,
      r.1 ∙ ap (λ n. some (15 * 2 ^ n)) (ap counts ih.2 ∙ counts_again (suc k)),
      r.2 ∙ ap (λ n. counts (suc n)) ih.2 ∙ counts_next (suc k),
    )
