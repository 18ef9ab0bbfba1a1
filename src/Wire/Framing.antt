-- ===== src/Wire/Framing.antt =====
-- session_get_pdu of packet.c, which cuts PDUs out of the read buffer.
-- The buffer is the list of the bytes that it holds (rbuf->buf up to wpos); malloc does not fail.
pub mod Chunks
use openbsd_ldpd.Base.{
  ℕ, zero, suc, ◌+◌, Option, none, some, List, [], ◌∷◌, ◌++◌, ltb, if◌then◌else◌, take, drop,
  length,
}
use openbsd_ldpd.Wire.{of16}

-- dlen, by the length field of the header.
abbrev pub dlen : List ℕ → ℕ
dlen (_ ∷ _ ∷ l1 ∷ l0 ∷ _) = of16 l1 l0 + 4
dlen _ = 0

-- session_get_pdu: the PDU and what stays in the buffer, `none` when the PDU is not complete.
unfoldable pub session_get_pdu : List ℕ → Option (List ℕ × List ℕ)
session_get_pdu r =
    if ltb (length r) 10
    then none
    else if ltb (length r) (dlen r)
    then none
    else some (take (dlen r) r, drop (dlen r) r)
