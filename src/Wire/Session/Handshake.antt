-- ===== src/Wire/Session/Handshake.antt =====
-- The messages that session_read handles while the neighbor is not operational.
use openbsd_ldpd.Base.{
  ℕ, ◌≡◌, refl, ap, false, ◌⊎◌, inl, inr, none, List, [], ◌∷◌, ◌++◌, leb, ◌==◌, ◌-◌, drop,
  if◌then◌else◌, map, append-nil, arith, Bool-cases,
}
use openbsd_ldpd.Nbr.{NbrState, NbrEvent, Engine, Out, emit, is_oper, event_code, nbr_fsm}
use openbsd_ldpd.Nbr.Events.{session_shutdown, init_accepted, recv_keepalive}
use openbsd_ldpd.Nbr.Fsm.{target, fsm_target}
use openbsd_ldpd.Wire.{Parsed, Refusal}
use openbsd_ldpd.Wire.Tlv.{Noted}
use openbsd_ldpd.Wire.Init.{recv_init, read_prms, conclude, send_notes, send_notification_nbr}
use openbsd_ldpd.Wire.Notification.{NotifyMsg, recv_notification, close_if_fatal, read_notification}
use openbsd_ldpd.Wire.Session.{Session, ToLde, out_of_place, is_address, label_type, recv_msg}

abbrev NotOper : Engine → Type 0
NotOper w = is_oper w.nbr.state ≡ false

target_not :
    (st : NbrState) (e : NbrEvent)
    → is_oper st ≡ false
    → (event_code e == 5) ≡ false
    → is_oper (target st e) ≡ false
target_not st e h k = grind arith

fsm-NotOper :
    (w : Engine) (e : NbrEvent) → NotOper w → (event_code e == 5) ≡ false → NotOper (nbr_fsm w e)
fsm-NotOper w e h k = rw (fsm_target w e) (target_not w.nbr.state e h k)

session_shutdown-NotOper :
    (w : Engine) (status : ℕ) → NotOper w → NotOper (session_shutdown w status)
unfolding session_shutdown
session_shutdown-NotOper w status h =
    ground (arith, fsm-NotOper (emit w (Out.send_notification status)) NbrEvent.close_session)

notification-NotOper :
    (w : Engine) (status : ℕ) → NotOper w → NotOper (send_notification_nbr w status)
notification-NotOper w status h =
    fsm-NotOper (emit w (Out.send_notification status)) NbrEvent.pdu_sent h refl

send_notes-NotOper : (w : Engine) (ss : List ℕ) → NotOper w → NotOper (send_notes w ss)
unfolding send_notes
send_notes-NotOper w [] h = h
send_notes-NotOper w (s ∷ ss) h =
    send_notes-NotOper (send_notification_nbr w s) ss (notification-NotOper w s h)

conclude-NotOper {ℓ} :
    {A : Type ℓ} (w : Engine) (x : Noted A) (k : Engine → A → Engine)
    → NotOper w
    → ((v : Engine) (a : A) → NotOper v → NotOper (k v a))
    → NotOper (conclude w x k).0
unfolding conclude
conclude-NotOper w (ns, Parsed.ok a) k h g = g (send_notes w ns) a (send_notes-NotOper w ns h)
conclude-NotOper w (ns, Parsed.refused (Refusal.shutdown s)) k h g =
    session_shutdown-NotOper (send_notes w ns) s (send_notes-NotOper w ns h)
conclude-NotOper w (ns, Parsed.refused (Refusal.notify s)) k h g =
    notification-NotOper (send_notes w ns) s (send_notes-NotOper w ns h)
conclude-NotOper w (ns, Parsed.overrun) k h g = send_notes-NotOper w ns h
conclude-NotOper w (ns, Parsed.hang) k h g = send_notes-NotOper w ns h

init-NotOper : (w : Engine) (a b c : ℕ) → NotOper w → NotOper (init_accepted w a b c)
unfolding init_accepted
init-NotOper w a b c h = fsm-NotOper _ NbrEvent.init_rcvd h refl

closed-NotOper : (w : Engine) → NotOper (nbr_fsm w NbrEvent.close_session)
closed-NotOper w = rw (fsm_target w NbrEvent.close_session) (to_present w.nbr.state)
  where
    to_present : (st : NbrState) → is_oper (target st NbrEvent.close_session) ≡ false
    to_present NbrState.present = refl
    to_present NbrState.initial = refl
    to_present NbrState.openrec = refl
    to_present NbrState.opensent = refl
    to_present NbrState.oper = refl

close-NotOper : (w : Engine) (nm : NotifyMsg) → NotOper w → NotOper (close_if_fatal w nm)
unfolding close_if_fatal
close-NotOper w nm h = elim (Bool-cases (leb 0x80000000 nm.status_code)) [
  | inl e ↦ rw e (closed-NotOper _)
  | inr e ↦ rw e h
]

-- The labels and the addresses among what has been handed on.
abbrev pub routing : List ToLde → List ToLde
routing [] = []
routing (ToLde.label t m ∷ out) = ToLde.label t m ∷ routing out
routing (ToLde.address w a ∷ out) = ToLde.address w a ∷ routing out
routing (ToLde.notification nm ∷ out) = routing out

routing_notices :
    (out : List ToLde) (ns : List NotifyMsg)
    → routing (out ++ map ToLde.notification ns) ≡ routing out
routing_notices [] [] = refl
routing_notices [] (n ∷ ns) = routing_notices [] ns
routing_notices (ToLde.label t m ∷ out) ns = ap (◌∷◌ (ToLde.label t m)) (routing_notices out ns)
routing_notices (ToLde.address w a ∷ out) ns = ap (◌∷◌ (ToLde.address w a)) (routing_notices out ns)
routing_notices (ToLde.notification n ∷ out) ns = routing_notices out ns

-- What a message leaves behind that is handled before the session is operational.
abbrev pub IsQuiet : Session → ℕ → ℕ → Session → Type 0
IsQuiet s t n v =
    (routing v.to_lde ≡ routing s.to_lde)
    × (NotOper v.engine ⊎ ((t ≡ 0x0201) × (n ≡ 8) × (s.engine.nbr.state ≡ NbrState.openrec)))

keepalive_opens_from :
    (w : Engine) (n : ℕ)
    → NotOper w
    → NotOper (recv_keepalive w n) ⊎ ((n ≡ 8) × (w.nbr.state ≡ NbrState.openrec))
unfolding recv_keepalive
keepalive_opens_from w n h = elim (Bool-cases (n == 8)) [
  | inr e ↦ inl (rw e (session_shutdown-NotOper w 0x80000005 h))
  | inl e ↦
      rw (e, h) (by_state w.nbr.state h refl (ground arith) (fsm_target w NbrEvent.keepalive_rcvd))
]
  where
    by_state :
        (st : NbrState)
        → is_oper st ≡ false
        → w.nbr.state ≡ st
        → n ≡ 8
        → (nbr_fsm w NbrEvent.keepalive_rcvd).nbr.state ≡ target st NbrEvent.keepalive_rcvd
        → NotOper (nbr_fsm w NbrEvent.keepalive_rcvd) ⊎ ((n ≡ 8) × (w.nbr.state ≡ NbrState.openrec))
    by_state NbrState.openrec h q k e = inr (k, q)
    by_state NbrState.present h q k e = inl (rw e refl)
    by_state NbrState.initial h q k e = inl (rw e refl)
    by_state NbrState.opensent h q k e = inl (rw e refl)
    by_state NbrState.oper h q k e = absurd (ground (arith, h))

-- Before the session is operational no message of the other types is let through.
elsewhere :
    (t : ℕ) (st : NbrState)
    → is_oper st ≡ false
    → out_of_place t st ≡ false
    → (t == 0x0200) ≡ false
    → (t == 0x0201) ≡ false
    → (is_address t ≡ false) × (label_type t ≡ none)
unfolding out_of_place
elsewhere t st h o a b = ground arith

recv_notification-NotOper :
    (w : Engine) (n : ℕ) (buf : List ℕ) → NotOper w → NotOper (recv_notification w n buf).0
unfolding recv_notification
recv_notification-NotOper w n buf h =
    conclude-NotOper w (read_notification (n - 8) (drop 8 buf)) close_if_fatal h close-NotOper

recv_init-NotOper :
    (w : Engine) (rtr_id local n : ℕ) (buf : List ℕ)
    → NotOper w
    → NotOper (recv_init rtr_id local w n buf).0
unfolding recv_init
recv_init-NotOper w rtr_id local n buf h =
    conclude-NotOper w (read_prms rtr_id (n - 8) (drop 8 buf))
      (λ v (peer, pdu_len). init_accepted v local peer pdu_len) h
      λ v (peer, pdu_len) k. init-NotOper v local peer pdu_len k

other-NotOper :
    (w : Engine) (t : ℕ)
    → NotOper w
    → NotOper (if leb 32768 t then w else send_notification_nbr w 0x00000004)
other-NotOper w t h = elim (Bool-cases (leb 32768 t)) [
  | inl e ↦ rw e h
  | inr e ↦ rw e (notification-NotOper w 0x00000004 h)
]

-- While the neighbor is not operational, a message that session_read lets through hands no label and no
-- address to the label decision engine, whatever its bytes, and only a keepalive message of 8 bytes that
-- comes in OPENREC makes the neighbor operational.
pub recv_msg_before_oper :
    (s : Session) (t n : ℕ) (buf : List ℕ)
    → NotOper s.engine
    → out_of_place t s.engine.nbr.state ≡ false
    → IsQuiet s t n (recv_msg s t n buf).0
unfolding recv_msg out_of_place
recv_msg_before_oper s t n buf h o = elim (Bool-cases (t == 0x0001)) [
  | inl a ↦ rw a (routing_notices s.to_lde _, inl (recv_notification-NotOper s.engine n buf h))
  | inr a ↦ elim (Bool-cases (t == 0x0200)) [
    | inl b ↦
        rw (a, b)
          (
            ap routing (append-nil s.to_lde),
            inl (recv_init-NotOper s.engine s.rtr_id s.local n buf h),
          )
    | inr b ↦ elim (Bool-cases (t == 0x0201)) [
      | inl c ↦
          let e : t ≡ 0x0201 = ground arith in
          rw (a, b, c)
            (
              ap routing (append-nil s.to_lde),
              elim (keepalive_opens_from s.engine n h) [
                | inl k ↦ inl k
                | inr k ↦ inr (e, k.0, k.1)
              ],
            )
      | inr c ↦
          let k = elsewhere t s.engine.nbr.state h o b c in
          rw (a, b, c, k.0, k.1)
            (ap routing (append-nil s.to_lde), inl (other-NotOper s.engine t h))
    ]
  ]
]
