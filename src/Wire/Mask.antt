-- ===== src/Wire/Mask.antt =====
-- util.c: network masks, and the comparison of prefixes. An address is the list of its bytes, as they
-- stand in union ldpd_addr; `none` is behaviour that C leaves undefined, a shift by more than the width
-- or a write past the mask.
pub mod Laws
use openbsd_ldpd.Base.{
  ℕ, zero, suc, ◌+◌, ◌-◌, ◌*◌, ◌/◌, ◌%◌, ◌^◌, Bool, true, false, Option, none, some, List, [], ◌∷◌,
  ◌++◌, Ordering, compare, bit_and, leb, ◌==◌, if◌then◌else◌, take, drop,
}
use openbsd_ldpd.Lde.{Af}
use openbsd_ldpd.Wire.Bytes.{to_bytes, of_bytes}

-- prefixlen2mask, in host order.
unfoldable pub prefixlen2mask : ℕ → ℕ
prefixlen2mask n = if n == 0 then 0 else (4294967295 * 2 ^ (32 - n)) % 4294967296

-- The first k bytes of prefixlen2mask6: whole bytes, then 0xff00 >> i, then zeros.
unfoldable pub mask6_bytes : ℕ → ℕ → List ℕ
mask6_bytes zero n = []
mask6_bytes (suc k) n = (if leb 8 n then 255 else 65280 / 2 ^ n % 256) ∷ mask6_bytes k (n - 8)

abbrev pub prefixlen2mask6 : ℕ → List ℕ
prefixlen2mask6 n = mask6_bytes 16 n

-- `&` of two words, byte by byte.
unfoldable pub and_bytes : List ℕ → List ℕ → List ℕ
and_bytes (a ∷ as') (b ∷ bs) = bit_and a b ∷ and_bytes as' bs
and_bytes as' bs = []

-- ldp_applymask
unfoldable pub ldp_applymask : Af → List ℕ → ℕ → Option (List ℕ)
ldp_applymask Af.inet src n =
    if leb n 32
    then some (and_bytes (take 4 src) (to_bytes 4 (prefixlen2mask n)) ++ drop 4 src)
    else none
ldp_applymask Af.inet6 src n = if leb n 128 then some (and_bytes src (prefixlen2mask6 n)) else none

-- The loop and the last byte of ldp_prefixcmp for AF_INET6: the sign of the first difference.
unfoldable pub prefixcmp6 : List ℕ → List ℕ → ℕ → Ordering
prefixcmp6 (a ∷ as') (b ∷ bs) n =
    let rest = prefixcmp6 as' bs (n - 8) in
    if leb 8 n
    then (if a == b then rest else compare a b)
    else compare (bit_and a (65280 / 2 ^ n % 256)) (bit_and b (65280 / 2 ^ n % 256))
prefixcmp6 as' bs n = Ordering.eq

-- The sign of the int that holds the difference of two uint32_t.
abbrev pub diff_sign : ℕ → ℕ → Ordering
diff_sign a b =
    let d = (a + 4294967296 - b) % 4294967296 in
    if d == 0 then Ordering.eq else if leb 2147483648 d then Ordering.lt else Ordering.gt

-- ldp_prefixcmp; `none` is its fatalx on a prefix length that is too large.
unfoldable pub ldp_prefixcmp : Af → List ℕ → List ℕ → ℕ → Option Ordering
ldp_prefixcmp Af.inet a b n =
    if n == 0
    then some Ordering.eq
    else if leb n 32
    then some (
        diff_sign (of_bytes (and_bytes (take 4 a) (to_bytes 4 (prefixlen2mask n))))
          (of_bytes (and_bytes (take 4 b) (to_bytes 4 (prefixlen2mask n)))))
    else none
ldp_prefixcmp Af.inet6 a b n =
    if n == 0 then some Ordering.eq else if leb n 128 then some (prefixcmp6 a b n) else none

-- One byte of a contiguous mask: its length, and whether the loop of mask2prefixlen6 goes on; `none` is
-- its fatalx.
unfoldable pub mask_byte_len : ℕ → Option (ℕ × Bool)
mask_byte_len b =
    if b == 0xff
    then some (8, true)
    else if b == 0xfe
    then some (7, false)
    else if b == 0xfc
    then some (6, false)
    else if b == 0xf8
    then some (5, false)
    else if b == 0xf0
    then some (4, false)
    else if b == 0xe0
    then some (3, false)
    else if b == 0xc0
    then some (2, false)
    else if b == 0x80
    then some (1, false)
    else if b == 0x00
    then some (0, false)
    else none

-- mask2prefixlen6, over the bytes of the possibly truncated address.
unfoldable pub mask2prefixlen6 : List ℕ → ℕ → Option ℕ
mask2prefixlen6 [] l = some l
mask2prefixlen6 (b ∷ bs) l =
    let go : Option ℕ = mask2prefixlen6 bs (l + 8) in
    elim (mask_byte_len b) [ none ↦ none | some (k, more) ↦ if more then go else some (l + k) ]
