-- ===== src/Nbr/Trace.antt =====
-- What the peer must have sent before a session is operational.
use openbsd_ldpd.Base.{
  ℕ, ◌≡◌, ◌⊎◌, inl, inr, Bool, true, false, List, [], ◌∷◌, some, arith, ◌==◌, if◌then◌else◌,
}
use openbsd_ldpd.Nbr.{NbrState, NbrEvent, Engine, set_itimeout, enter}
use openbsd_ldpd.Nbr.Events.{Input, handle, run}
use openbsd_ldpd.Nbr.Fsm.{fsm_lookup-found, operational_state}

-- An initialization message, and after it a keepalive message of the right length.
abbrev pub handshake : Bool → List Input → Bool
handshake b [] = false
handshake false (Input.init_msg l p n ∷ is) = handshake true is
handshake true (Input.keepalive_msg len ∷ is) = if len == 8 then true else handshake true is
handshake b (i ∷ is) = handshake b is

abbrev is_openrec : NbrState → Bool
is_openrec NbrState.openrec = true
is_openrec _ = false

-- A message that has come once stays so.
handshake_mono : (is : List Input) → handshake false is ≡ true → handshake true is ≡ true
handshake_mono [] h = h
handshake_mono (Input.accepts a c ∷ is) h = handshake_mono is h
handshake_mono (Input.connects e ∷ is) h = handshake_mono is h
handshake_mono (Input.itimer ∷ is) h = handshake_mono is h
handshake_mono (Input.ktimer ∷ is) h = handshake_mono is h
handshake_mono (Input.ktimeout ∷ is) h = handshake_mono is h
handshake_mono (Input.pdu_read ∷ is) h = handshake_mono is h
handshake_mono (Input.pdu_written ∷ is) h = handshake_mono is h
handshake_mono (Input.init_msg l p n ∷ is) h = h
handshake_mono (Input.keepalive_msg len ∷ is) h = ground (arith, handshake_mono is h)
handshake_mono (Input.shutdown s ∷ is) h = handshake_mono is h

-- One input: how a session comes to OPENREC and to OPER.
abbrev Step : NbrState → Input → NbrState → Type 0
Step s i NbrState.oper =
    (s ≡ NbrState.oper) ⊎ ((s ≡ NbrState.openrec) × (i ≡ Input.keepalive_msg 8))
Step s (Input.init_msg l p n) t = Unit
Step s i NbrState.openrec = s ≡ NbrState.openrec
Step s i t = Unit

handle-Step : (w : Engine) (i : Input) → Step w.nbr.state i (handle w i).nbr.state
unfolding handle
handle-Step w (Input.accepts a c) =
    ground (arith, fsm_lookup-found NbrState.present NbrEvent.match_adj)
handle-Step w (Input.connects e) = ground (
  arith,
  fsm_lookup-found w.nbr.state NbrEvent.connect_up,
  fsm_lookup-found NbrState.initial NbrEvent.init_sent,
)
handle-Step w Input.itimer = ground (arith, fsm_lookup-found w.nbr.state NbrEvent.close_session)
handle-Step w Input.ktimer = ground arith
handle-Step w Input.ktimeout = ground (arith, fsm_lookup-found w.nbr.state NbrEvent.close_session)
handle-Step w Input.pdu_read = ground (arith, fsm_lookup-found w.nbr.state NbrEvent.pdu_rcvd)
handle-Step w Input.pdu_written = ground (arith, fsm_lookup-found w.nbr.state NbrEvent.pdu_sent)
handle-Step w (Input.init_msg l p n) = ground (
  arith,
  fsm_lookup-found w.nbr.state NbrEvent.init_rcvd,
  fsm_lookup-found w.nbr.state NbrEvent.close_session,
)
handle-Step w (Input.keepalive_msg len) = ground (
  arith,
  fsm_lookup-found w.nbr.state NbrEvent.keepalive_rcvd,
  fsm_lookup-found w.nbr.state NbrEvent.close_session,
  operational_state (set_itimeout (enter w (some NbrState.oper))),
)
handle-Step w (Input.shutdown s) =
    ground (arith, fsm_lookup-found w.nbr.state NbrEvent.close_session)

handshake-Step :
    (s t : NbrState) (i : Input) (is : List Input)
    → Step s i t
    → handshake (is_openrec t) is ≡ true
    → (s ≡ NbrState.oper) ⊎ (handshake (is_openrec s) (i ∷ is) ≡ true)
handshake-Step s t (Input.accepts a c) is st h = ground (arith, handshake_mono is)
handshake-Step s t (Input.init_msg l p n) is st h = ground (arith, handshake_mono is)
handshake-Step s t (Input.keepalive_msg len) is st h = ground (arith, handshake_mono is)
handshake-Step s t i is st h = ground (arith, handshake_mono is)

run_oper :
    (is : List Input) (w : Engine)
    → (run w is).nbr.state ≡ NbrState.oper
    → (w.nbr.state ≡ NbrState.oper) ⊎ (handshake (is_openrec w.nbr.state) is ≡ true)
unfolding run
run_oper [] w h = inl h
run_oper (i ∷ is) w h = elim (run_oper is (handle w i) h) [
  | inl o ↦ ground (arith, handle-Step w i)
  | inr k ↦ handshake-Step w.nbr.state (handle w i).nbr.state i is (handle-Step w i) k
]

-- A neighbor that is in PRESENT becomes operational only if the inputs hold an initialization
-- message and, after it, a keepalive message of the exact length.
pub oper_needs_handshake :
    (is : List Input) (w : Engine)
    → w.nbr.state ≡ NbrState.present
    → (run w is).nbr.state ≡ NbrState.oper
    → handshake false is ≡ true
oper_needs_handshake is w p h = ground (arith, run_oper is w h)

-- The rounds of the two handshakes.
accept_opens :
    (w : Engine)
    → w.nbr.state ≡ NbrState.present
    → ((handle w (Input.accepts false true)).nbr.state ≡ NbrState.initial)
      × ((handle w (Input.accepts false true)).nbr.tcp ≡ true)
unfolding handle
accept_opens w h = ground (arith, fsm_lookup-found NbrState.present NbrEvent.match_adj)

connect_opens :
    (w : Engine)
    → w.nbr.state ≡ NbrState.present
    → w.nbr.ev_connect ≡ true
    → ((handle w (Input.connects (some 0))).nbr.state ≡ NbrState.opensent)
      × ((handle w (Input.connects (some 0))).nbr.tcp ≡ true)
unfolding handle
connect_opens w h c = ground (
  arith,
  fsm_lookup-found NbrState.present NbrEvent.connect_up,
  fsm_lookup-found NbrState.initial NbrEvent.init_sent,
)

init_opens :
    (w : Engine) (l p n : ℕ)
    → (w.nbr.state ≡ NbrState.initial) ⊎ (w.nbr.state ≡ NbrState.opensent)
    → w.nbr.tcp ≡ true
    → ((handle w (Input.init_msg l p n)).nbr.state ≡ NbrState.openrec)
      × ((handle w (Input.init_msg l p n)).nbr.tcp ≡ true)
unfolding handle
init_opens w l p n h c = ground (
  arith,
  fsm_lookup-found NbrState.initial NbrEvent.init_rcvd,
  fsm_lookup-found NbrState.opensent NbrEvent.init_rcvd,
)

keepalive_opens :
    (w : Engine)
    → w.nbr.state ≡ NbrState.openrec
    → w.nbr.tcp ≡ true
    → (handle w (Input.keepalive_msg 8)).nbr.state ≡ NbrState.oper
unfolding handle
keepalive_opens w h c = ground (
  arith,
  fsm_lookup-found NbrState.openrec NbrEvent.keepalive_rcvd,
  operational_state (set_itimeout (enter w (some NbrState.oper))),
)

messages_open :
    (w : Engine) (l p n : ℕ)
    → (w.nbr.state ≡ NbrState.initial) ⊎ (w.nbr.state ≡ NbrState.opensent)
    → w.nbr.tcp ≡ true
    → (run w (Input.init_msg l p n ∷ Input.keepalive_msg 8 ∷ [])).nbr.state ≡ NbrState.oper
unfolding run
messages_open w l p n h c =
    let (s, t) = init_opens w l p n h c in keepalive_opens (handle w (Input.init_msg l p n)) s t

-- A neighbor in PRESENT becomes operational by either handshake, whatever the parameters of the
-- initialization message: as the passive side by an accepted connection, an initialization
-- message and a keepalive; as the active side by a connection of its own and the same messages.
pub handshake_opens :
    (w : Engine) (local peer pdu_len : ℕ)
    → w.nbr.state ≡ NbrState.present
    → ((run w (
          Input.accepts false true
          ∷ Input.init_msg local peer pdu_len
          ∷ Input.keepalive_msg 8
          ∷ [])).nbr.state
        ≡ NbrState.oper)
      × (w.nbr.ev_connect ≡ true
          → (run w (
              Input.connects (some 0)
              ∷ Input.init_msg local peer pdu_len
              ∷ Input.keepalive_msg 8
              ∷ [])).nbr.state
            ≡ NbrState.oper)
unfolding run
handshake_opens w local peer pdu_len h = (
  (let (s, t) = accept_opens w h in messages_open _ local peer pdu_len (inl s) t),
  λ c. let (s, t) = connect_opens w h c in messages_open _ local peer pdu_len (inr s) t,
)
