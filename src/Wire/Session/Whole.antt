-- ===== src/Wire/Session/Whole.antt =====
-- The loop of session_read over the messages of a PDU, for any handler.
use openbsd_ldpd.Base.{
  ℕ, zero, suc, ◌+◌, ◌-◌, ◌≤◌, ◌<◌, ◌≡◌, ◌≢◌, refl, Bool, ◌||◌, List, ltb, drop, length, arith,
  Bool-cases, inl, inr,
}
use openbsd_ldpd.Wire.Fec.Bounds.{length-drop}
use openbsd_ldpd.Wire.Session.{Session, Loop, read_messages, type_field, length_field}

-- Two handlers that do the same with every message that lies whole in the bytes that are left.
abbrev pub AgreeOnWhole :
    (Session → ℕ → ℕ → List ℕ → Session × Bool)
    → (Session → ℕ → ℕ → List ℕ → Session × Bool)
    → Type 0
AgreeOnWhole recv other =
    (s : Session) (t n : ℕ) (buf : List ℕ)
    → 8 ≤ n
    → n ≤ length buf
    → recv s t n buf ≡ other s t n buf

-- The loop hands its handler only messages of 8 bytes at least that lie whole in the PDU: what a handler
-- does with others makes no difference.
pub read_messages_whole :
    (recv other : Session → ℕ → ℕ → List ℕ → Session × Bool) (f len : ℕ) (buf : List ℕ)
    (s : Session)
    → AgreeOnWhole recv other
    → len ≡ length buf
    → read_messages recv f len len buf s ≡ read_messages other f len len buf s
unfolding read_messages
read_messages_whole recv other zero len buf s h e = refl
read_messages_whole recv other (suc f) len buf s h e =
    let n = length_field buf in
    let t = type_field buf in
    elim (Bool-cases (ltb len 8)) [
      | inl a ↦ rw a refl
      | inr a ↦ elim (Bool-cases (ltb n 4 || ltb len (n + 4))) [
        | inl b ↦ rw (a, b) refl
        | inr b ↦
            let g = h s t (n + 4) buf (ground (arith, b)) (ground (arith, b)) in
            let ih =
              read_messages_whole recv other f (len - (n + 4)) (drop (n + 4) buf)
                (other s t (n + 4) buf).0 h (omega (arith, length-drop (n + 4) buf, e)) in
            rw (a, b, g, ih) refl
      ]
    ]

-- With more fuel than bytes the loop comes to an end, whatever the handler does.
pub read_messages_end :
    (recv : Session → ℕ → ℕ → List ℕ → Session × Bool) (f len : ℕ) (buf : List ℕ) (s : Session)
    → len < f
    → read_messages recv f len len buf s ≢ Loop.hung
unfolding read_messages
read_messages_end recv zero len buf s h = absurd (omega arith)
read_messages_end recv (suc f) len buf s h =
    let n = length_field buf in
    λ e. ground (
      arith,
      read_messages_end recv f (len - (n + 4)) (drop (n + 4) buf)
          (recv s (type_field buf) (n + 4) buf).0,
    )
