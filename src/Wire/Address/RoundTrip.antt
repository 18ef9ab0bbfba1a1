-- ===== src/Wire/Address/RoundTrip.antt =====
-- One PDU of send_address as recv_address reads it.
use mathlib.Core.Path.{subst}
use openbsd_ldpd.Base.{
  drop-append, append-nil, ℕ, zero, suc, ◌+◌, ◌-◌, ◌*◌, ◌/◌, ◌%◌, ◌^◌, ◌≤◌, ◌<◌, ◌≡◌, refl, sym,
  Bool, true, false, List, [], ◌∷◌, ◌++◌, ltb, ◌==◌, take, drop, length, replicate, arith,
  length-append, append_assoc,
}
use openbsd_ldpd.Lde.{Af, LdeAddr}
use openbsd_ldpd.Wire.{Parsed, of16}
use openbsd_ldpd.Wire.Bytes.{to_bytes, length-to_bytes, of_bytes-to_bytes}
use openbsd_ldpd.Wire.Fec.Prefix.{take_of, length-take_lem}
use openbsd_ldpd.Wire.Label.Send.{Sender}
use openbsd_ldpd.Wire.Address.{
  addr_size, addr_bytes, gen_address_list_tlv, address_pdu, read_addrs, enabled, read_list,
  recv_address,
}

-- An address of the family: its bytes beyond the size of the family are zero.
abbrev pub IsAddr : Af → ℕ → Type 0
IsAddr af a =
    (a < 256 ^ 16)
    × (take (addr_size af) (to_bytes 16 a) ++ replicate (16 - addr_size af) 0 ≡ to_bytes 16 a)

abbrev pub AllAddrs : Af → List ℕ → Type 0
AllAddrs af [] = Unit
AllAddrs af (a ∷ as') = IsAddr af a × AllAddrs af as'

abbrev pub lde_addrs : Af → List ℕ → List LdeAddr
lde_addrs af [] = []
lde_addrs af (a ∷ as') = record { af = af; addr = a } ∷ lde_addrs af as'

size_le : (af : Af) → (1 ≤ addr_size af) × (addr_size af ≤ 16)
size_le Af.inet = (omega arith, omega arith)
size_le Af.inet6 = (omega arith, omega arith)

length_one : (af : Af) (a : ℕ) → length (take (addr_size af) (to_bytes 16 a)) ≡ addr_size af
length_one af a =
    length-take_lem (addr_size af) (to_bytes 16 a) (omega (arith, length-to_bytes 16 a, size_le af))

size_zero : (af : Af) → 0 * addr_size af ≡ 0
size_zero Af.inet = refl
size_zero Af.inet6 = refl

size_suc : (af : Af) (n : ℕ) → suc n * addr_size af ≡ addr_size af + n * addr_size af
size_suc Af.inet n = omega arith
size_suc Af.inet6 n = omega arith

length-addr_bytes :
    (af : Af) (as' : List ℕ) → length (addr_bytes af as') ≡ length as' * addr_size af
unfolding addr_bytes
length-addr_bytes af [] = sym (size_zero af)
length-addr_bytes af (a ∷ as') = omega (
  arith,
  length-append (take (addr_size af) (to_bytes 16 a)) (addr_bytes af as'),
  length_one af a,
  length-addr_bytes af as',
  size_suc af (length as'),
)

-- The loop of the reader over the addresses of the writer.
pub read_back :
    (af : Af) (as' rest : List ℕ) (f len : ℕ)
    → AllAddrs af as'
    → len ≡ length as' * addr_size af
    → length as' < f
    → read_addrs f af len (addr_bytes af as' ++ rest) ≡ (lde_addrs af as', Parsed.ok tt)
unfolding addr_bytes read_addrs
read_back af as' rest zero len h e hf = absurd (omega arith)
read_back af [] rest (suc f) zero h e hf = refl
read_back af [] rest (suc f) (suc n) h e hf = absurd (omega (arith, size_zero af))
read_back af (a ∷ as') rest (suc f) zero h e hf =
    absurd (omega (arith, size_suc af (length as'), size_le af))
read_back af (a ∷ as') rest (suc f) (suc n) h e hf =
    let k = addr_size af in
    let one = take k (to_bytes 16 a) in
    let more = addr_bytes af as' ++ rest in
    let l : length one ≡ k = length_one af a in
    let assoc = append_assoc one (addr_bytes af as') rest in
    let c1 : ltb (suc n) k ≡ false = ground (arith, size_suc af (length as'), size_le af) in
    let c2 : ltb (length (one ++ more)) k ≡ false = ground (arith, length-append one more, l) in
    let t : take k (one ++ more) ≡ one =
      take_of k (to_bytes 16 a) more (omega (arith, length-to_bytes 16 a, size_le af)) in
    let d : drop k (one ++ more) ≡ more =
      subst (λ j. drop j (one ++ more) ≡ more) l (drop-append one more) in
    rw
      (
        assoc,
        c1,
        c2,
        t,
        h.0.1,
        of_bytes-to_bytes 16 a h.0.0,
        d,
        read_back af as' rest f (suc n - k) h.1 (omega (arith, size_suc af (length as'), e))
            (omega arith),
      )
      refl

-- One PDU: the message in it has the length of the PDU less its header.
pub length-address_pdu :
    (nbr : Sender) (af : Af) (w : Bool) (id : ℕ) (as' : List ℕ)
    → length (address_pdu nbr af w id as') ≡ 24 + length as' * addr_size af
unfolding address_pdu gen_address_list_tlv
length-address_pdu nbr af w id as' = omega (arith, length-addr_bytes af as')

size_field :
    (n : ℕ)
    → 24 + n < 65536
    → of16 ((24 + n - 18 + 65536 - 4) % 65536 / 256 % 256) ((24 + n - 18 + 65536 - 4) % 65536 % 256)
      ≡ 2 + n
size_field n h = omega arith

whole_list :
    (af : Af) (as' : List ℕ) (f : ℕ)
    → AllAddrs af as'
    → length as' < f
    → read_addrs f af (length as' * addr_size af) (addr_bytes af as')
      ≡ (lde_addrs af as', Parsed.ok tt)
whole_list af as' f h hf =
    subst (λ x. read_addrs f af (length as' * addr_size af) x ≡ (lde_addrs af as', Parsed.ok tt))
      (append-nil (addr_bytes af as')) (read_back af as' [] f (length as' * addr_size af) h refl hf)

pub pdu_back :
    (v4 v6 : Bool) (nbr : Sender) (af : Af) (w : Bool) (id : ℕ) (as' : List ℕ)
    → enabled af v4 v6 ≡ true
    → AllAddrs af as'
    → 24 + length as' * addr_size af < 65536
    → recv_address v4 v6 (14 + length as' * addr_size af) (drop 10 (address_pdu nbr af w id as'))
      ≡ (lde_addrs af as', Parsed.ok tt)
unfolding recv_address read_list address_pdu gen_address_list_tlv
pdu_back v4 v6 nbr Af.inet w id as' e h l =
    let n = length as' * 4 in
    let c1 : ltb (14 + n - 8) 6 ≡ false = ground arith in
    let c2 : (of16 ((24 + n - 18 + 65536 - 4) % 65536 / 256 % 256)
            ((24 + n - 18 + 65536 - 4) % 65536 % 256)
          == 14 + n - 8 - 4)
        ≡ true =
      ground (arith, size_field n l) in
    let z : 14 + n - 8 - 6 ≡ n = omega arith in
    rw (c1, c2, e, z) (whole_list Af.inet as' (suc n) h (omega arith))
pdu_back v4 v6 nbr Af.inet6 w id as' e h l =
    let n = length as' * 16 in
    let c1 : ltb (14 + n - 8) 6 ≡ false = ground arith in
    let c2 : (of16 ((24 + n - 18 + 65536 - 4) % 65536 / 256 % 256)
            ((24 + n - 18 + 65536 - 4) % 65536 % 256)
          == 14 + n - 8 - 4)
        ≡ true =
      ground (arith, size_field n l) in
    let z : 14 + n - 8 - 6 ≡ n = omega arith in
    rw (c1, c2, e, z) (whole_list Af.inet6 as' (suc n) h (omega arith))
