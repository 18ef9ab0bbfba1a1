-- ===== src/Wire.antt =====
-- The bytes of LDP messages: fields of several bytes in network order, and what reading a message can
-- come to. A buffer is the list of the bytes from a pointer to the end of what was received; advancing
-- the pointer drops bytes of the list, and a read past its end is the result `overrun`. The
-- constants are those of ldp.h.
pub mod Bytes
pub mod Mask
pub mod Fec
pub mod Tlv
pub mod Label
pub mod Address
pub mod Framing
pub mod Init
pub mod Notification
pub mod Hello
pub mod Session
pub mod Tests
pub use openbsd_ldpd.Nbr.Events.{s_bad_msg_len}
use openbsd_ldpd.Base.{ℕ, ◌+◌, ◌*◌, ◌/◌, ◌%◌, ◌≡◌, Bool, List, [], ◌∷◌, refl}

-- What a parser does about a message that it refuses, beside returning -1: the session is shut down,
-- or the neighbor is sent a notification.
pub data Refusal : Type 0 where
  shutdown notify : (status : ℕ) → Refusal

-- `overrun` is a read past the end of the buffer, `hang` a loop that did not end on its fuel.
pub data Parsed {ℓ} (A : Type ℓ) : Type ℓ where
  ok : A → Parsed A
  refused : Refusal → Parsed A
  overrun hang : Parsed A

infixl 5 ◌>>=◌
abbrev pub ◌>>=◌ {ℓ κ} : {A : Type ℓ} {B : Type κ} → Parsed A → (A → Parsed B) → Parsed B
Parsed.ok a >>= f = f a
Parsed.refused r >>= f = Parsed.refused r
Parsed.overrun >>= f = Parsed.overrun
Parsed.hang >>= f = Parsed.hang

-- htons and htonl into a buffer, ntohs and ntohl out of it.
abbrev pub be16 : ℕ → List ℕ
be16 n = (n / 256 % 256) ∷ (n % 256) ∷ []

abbrev pub be32 : ℕ → List ℕ
be32 n = (n / 16777216 % 256) ∷ (n / 65536 % 256) ∷ (n / 256 % 256) ∷ (n % 256) ∷ []

abbrev pub of16 : ℕ → ℕ → ℕ
of16 a b = a * 256 + b

abbrev pub of32 : ℕ → ℕ → ℕ → ℕ → ℕ
of32 a b c d = a * 16777216 + b * 65536 + c * 256 + d

abbrev pub s_bad_tlv_len : ℕ
s_bad_tlv_len = 0x80000007

abbrev pub s_bad_tlv_val : ℕ
s_bad_tlv_val = 0x80000008

abbrev pub s_bad_pdu_len : ℕ
s_bad_pdu_len = 0x80000003

abbrev pub s_unknown_fec : ℕ
s_unknown_fec = 0x0000000C

abbrev pub s_unknown_tlv : ℕ
s_unknown_tlv = 0x00000006

abbrev pub s_miss_msg : ℕ
s_miss_msg = 0x00000016

abbrev pub s_unsup_addr : ℕ
s_unsup_addr = 0x00000017
