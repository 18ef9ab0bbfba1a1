-- ===== src/Wire/Session/Chunks.antt =====
-- session_read on a stream that arrives in parts.
use openbsd_ldpd.Base.{
  ℕ, zero, suc, ◌-◌, ◌≤◌, ◌<◌, ◌≡◌, ◌∙◌, refl, ap, sym, Bool, true, false, none, some, List, [],
  ◌∷◌, ◌++◌, take, drop, length, length-append, append_assoc, arith, Bool-cases, inl, inr,
  if◌then◌else◌,
}
use openbsd_ldpd.Wire.Fec.Bounds.{length-drop}
use openbsd_ldpd.Wire.Framing.{dlen, session_get_pdu}
use openbsd_ldpd.Wire.Framing.Chunks.{Cut, cut, get_pdu_more, dlen_pos}
use openbsd_ldpd.Wire.Session.{
  Session, Readable, read_pdu, read_pdus, given, read_bytes, session_read,
}

waits_pdus :
    (f : ℕ) (s : Session) (r : List ℕ)
    → session_get_pdu r ≡ none
    → read_pdus (suc f) s r ≡ (s, r, true)
unfolding read_pdus
waits_pdus f s r e = rw (e, read_pdus) refl

-- What the loop does behind a PDU.
abbrev behind : ℕ → Session × Bool → List ℕ → Session × List ℕ × Bool
behind f x left = if x.1 then read_pdus f (x.0) left else (x.0, left, false)

gives_pdus :
    (f : ℕ) (s : Session) (r p left : List ℕ)
    → session_get_pdu r ≡ some (p, left)
    → read_pdus (suc f) s r ≡ behind f (read_pdu s p) left
unfolding read_pdus read_pdu
gives_pdus f s r p left e = rw (e, read_pdus) refl

-- More fuel than bytes changes nothing.
enough :
    (f g : ℕ) (s : Session) (r : List ℕ)
    → length r < f
    → length r < g
    → read_pdus f s r ≡ read_pdus g s r
enough zero g s r hf hg = absurd (omega arith)
enough (suc f) zero s r hf hg = absurd (omega arith)
enough (suc f) (suc g) s r hf hg = elim (cut r) [
  | Cut.waits e ↦ waits_pdus f s r e ∙ sym (waits_pdus g s r e)
  | Cut.gives h l e ↦
      let p = take (dlen r) r in
      let left = drop (dlen r) r in
      let x = read_pdu s p in
      let ih =
        enough f g (x.0) left (omega (arith, length-drop (dlen r) r, dlen_pos r (omega arith)))
          (omega (arith, length-drop (dlen r) r, dlen_pos r (omega arith))) in
      gives_pdus f s r p left e
      ∙ ap (λ y. if x.1 then y else (x.0, left, false)) ih
      ∙ sym (gives_pdus g s r p left e)
]

left_le : (f : ℕ) (s : Session) (r : List ℕ) → length (read_pdus f s r).1 ≤ length r
unfolding read_pdus
left_le zero s r = omega arith
left_le (suc f) s r = elim (cut r) [
  | Cut.waits e ↦ rw (waits_pdus f s r e) (omega arith)
  | Cut.gives h l e ↦
      let p = take (dlen r) r in
      let left = drop (dlen r) r in
      let x = read_pdu s p in
      let n = length-drop (dlen r) r in
      let ih = left_le f (x.0) left in
      rw (gives_pdus f s r p left e)
        (elim (Bool-cases x.1) [ inl b ↦ rw b (omega arith) | inr b ↦ rw b (omega arith) ])
]

-- A buffer that is taken up to an incomplete PDU, and what comes after it.
split :
    (f g : ℕ) (s : Session) (r t : List ℕ)
    → length r < f
    → length (r ++ t) < g
    → (read_pdus f s r).2 ≡ true
    → read_pdus g s (r ++ t) ≡ read_pdus g (read_pdus f s r).0 ((read_pdus f s r).1 ++ t)
split zero g s r t hf hg ok = absurd (omega arith)
split (suc f) zero s r t hf hg ok = absurd (omega arith)
split (suc f) (suc g) s r t hf hg ok = elim (cut r) [
  | Cut.waits e ↦ rw (waits_pdus f s r e) refl
  | Cut.gives h l e ↦
      let p = take (dlen r) r in
      let left = drop (dlen r) r in
      let x = read_pdu s p in
      let y = read_pdus f (x.0) left in
      let more = read_pdus g (x.0) (left ++ t) in
      let first = gives_pdus f s r p left e in
      let all = gives_pdus g s (r ++ t) p (left ++ t) (get_pdu_more r t h l) in
      let d = dlen_pos r (omega arith) in
      let n = length-drop (dlen r) r in
      elim (Bool-cases x.1) [
        | inl b ↦
            let u : read_pdus (suc f) s r ≡ y =
              first ∙ ap (λ c. if c then y else (x.0, left, false)) b in
            let w : read_pdus (suc g) s (r ++ t) ≡ more =
              all ∙ ap (λ c. if c then more else (x.0, left ++ t, false)) b in
            let small : length (left ++ t) < g =
              omega (arith, length-append r t, length-append left t, n, d) in
            w
            ∙ split f g (x.0) left t (omega (arith, n, d)) small (sym (ap (λ z. z.2) u) ∙ ok)
            ∙ enough g (suc g) (y.0) (y.1 ++ t)
                (omega
                  (arith, small, length-append left t, length-append y.1 t, left_le f (x.0) left))
                (omega
                  (arith, small, length-append left t, length-append y.1 t, left_le f (x.0) left))
            ∙ sym (ap (λ z. read_pdus (suc g) z.0 (z.1 ++ t)) u)
        | inr b ↦
            let u : read_pdus (suc f) s r ≡ (x.0, left, false) =
              first ∙ ap (λ c. if c then y else (x.0, left, false)) b in
            let z : false ≡ true = sym (ap (λ z. z.2) u) ∙ ok in absurd (cc)
      ]
]

-- What there is room for is all of it.
given_all :
    (capacity : ℕ) (rbuf bytes : List ℕ)
    → length (rbuf ++ bytes) ≤ capacity
    → given capacity rbuf bytes ≡ bytes
given_all capacity rbuf bytes h =
    take_all (capacity - length rbuf) bytes (omega (arith, length-append rbuf bytes))
  where
    take_all : (n : ℕ) (xs : List ℕ) → length xs ≤ n → take n xs ≡ xs
    take_all zero [] h = refl
    take_all zero (x ∷ xs) h = absurd (omega arith)
    take_all (suc n) [] h = refl
    take_all (suc n) (x ∷ xs) h = ap (◌∷◌ x) (take_all n xs (omega arith))

-- The loop of session_read comes to an incomplete PDU on these bytes.
abbrev pub takes_all : Session → List ℕ → List ℕ → Bool
takes_all s rbuf bytes = (read_bytes s rbuf bytes).2

bytes_le : (s : Session) (rbuf a : List ℕ) → length (read_bytes s rbuf a).1 ≤ length (rbuf ++ a)
unfolding read_bytes
bytes_le s rbuf [] = omega (arith, length-append rbuf [])
bytes_le s rbuf (x ∷ a) = left_le (suc (length (rbuf ++ x ∷ a))) s (rbuf ++ x ∷ a)

read_bytes-append :
    (s : Session) (rbuf a b : List ℕ)
    → 1 ≤ length b
    → takes_all s rbuf a ≡ true
    → read_bytes s rbuf (a ++ b) ≡ read_bytes (read_bytes s rbuf a).0 (read_bytes s rbuf a).1 b
unfolding read_bytes
read_bytes-append s rbuf a [] hb ok = absurd (omega arith)
read_bytes-append s rbuf [] (y ∷ b) hb ok = cc
read_bytes-append s rbuf (x ∷ a) (y ∷ b) hb ok =
    let r = rbuf ++ x ∷ a in
    let t = y ∷ b in
    let f = suc (length r) in
    let g = suc (length (r ++ t)) in
    let v = read_pdus f s r in
    let le = left_le f s r in
    ap (λ z. read_pdus (suc (length z)) s z) (sym (append_assoc rbuf (x ∷ a) t))
    ∙ split f g s r t (omega arith) (omega arith) ok
    ∙ enough g (suc (length (v.1 ++ t))) (v.0) (v.1 ++ t)
        (omega (arith, le, length-append r t, length-append v.1 t)) (omega arith)

-- What session_read makes of the bytes of two reads, the second with one byte at least, is the same when they
-- come in one, wherever the cut is and whatever the buffer holds: the same session, after the same
-- messages, and the same bytes in the buffer. The buffer has room for all of them, and the loop over the
-- PDUs of the first read comes to an incomplete PDU, that is, none of them makes it return.
pub session_read-append :
    (capacity : ℕ) (s : Session) (rbuf a b : List ℕ)
    → length (rbuf ++ a ++ b) ≤ capacity
    → 1 ≤ length b
    → takes_all s rbuf a ≡ true
    → let first = session_read capacity s rbuf (Readable.arrived a) in
      session_read capacity s rbuf (Readable.arrived (a ++ b))
      ≡ session_read capacity first.0 first.1 (Readable.arrived b)
unfolding session_read
session_read-append capacity s rbuf a b hc hb ok =
    let v = read_bytes s rbuf a in
    let pair : Session × List ℕ × Bool → Session × List ℕ = λ x. (x.0, x.1) in
    let n = length-append rbuf a in
    let m = length-append (rbuf ++ a) b in
    let all : given capacity rbuf (a ++ b) ≡ a ++ b =
      given_all capacity rbuf (a ++ b)
        (omega (arith, hc, n, m, length-append rbuf (a ++ b), length-append a b)) in
    let some_first : given capacity rbuf a ≡ a =
      given_all capacity rbuf a (omega (arith, hc, n, m)) in
    let then_rest : given capacity v.1 b ≡ b =
      given_all capacity v.1 b (omega (arith, hc, n, m, length-append v.1 b, bytes_le s rbuf a)) in
    ap (λ z. pair (read_bytes s rbuf z)) all
    ∙ ap pair (read_bytes-append s rbuf a b hb ok)
    ∙ sym (
        ap
          (λ z. let x = read_bytes s rbuf z in pair (read_bytes (x.0) (x.1) (given capacity x.1 b)))
          some_first
        ∙ ap (λ z. pair (read_bytes (v.0) (v.1) z)) then_rest)
