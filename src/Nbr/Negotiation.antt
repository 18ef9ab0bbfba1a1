-- ===== src/Nbr/Negotiation.antt =====
-- The values that init_accepted settles are those of the neighbor afterwards: the state machine does
-- not change them.
use openbsd_ldpd.Base.{ℕ, ◌≤◌, ◌≡◌, refl, leb, if◌then◌else◌, arith}
use openbsd_ldpd.Nbr.{NbrState, NbrEvent, Engine, nbr_fsm, fsm_fuel, fsm_lookup}
use openbsd_ldpd.Nbr.Events.{negotiated_pdu_len, init_accepted}

-- What has been settled.
abbrev Settled : ℕ → ℕ → Engine → Type 0
Settled k n w = (w.nbr.keepalive ≡ k) × (w.nbr.max_pdu_len ≡ n)

init_rcvd-Settled :
    (w : Engine) (st : NbrState) (k n : ℕ)
    → w.nbr.state ≡ st
    → Settled k n w
    → Settled k n (nbr_fsm w NbrEvent.init_rcvd)
unfolding nbr_fsm fsm_fuel fsm_lookup
init_rcvd-Settled w NbrState.present k n e h = rw e h
init_rcvd-Settled w NbrState.initial k n e h = rw e h
init_rcvd-Settled w NbrState.openrec k n e h = rw e h
init_rcvd-Settled w NbrState.opensent k n e h = rw e h
init_rcvd-Settled w NbrState.oper k n e h = rw e h

pub init_accepted_settles :
    (w : Engine) (local peer pdu_len : ℕ)
    → ((init_accepted w local peer pdu_len).nbr.keepalive
        ≡ (if leb local peer then local else peer))
      × ((init_accepted w local peer pdu_len).nbr.max_pdu_len ≡ negotiated_pdu_len pdu_len)
unfolding init_accepted
init_accepted_settles w local peer pdu_len = init_rcvd-Settled _ _ _ _ refl (refl, refl)

pub negotiated_pdu_len_bounds :
    (n : ℕ) → (256 ≤ negotiated_pdu_len n) × (negotiated_pdu_len n ≤ 4096)
unfolding negotiated_pdu_len
negotiated_pdu_len_bounds n = ground arith
