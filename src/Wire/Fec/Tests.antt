-- ===== src/Wire/Fec/Tests.antt =====
-- FEC elements and masks at concrete bytes.
use openbsd_ldpd.Base.{
  ℕ, zero, suc, ◌≤◌, ◌<◌, ◌≡◌, ◌≢◌, ◌↔◌, refl, true, some, List, [], ◌∷◌, ◌++◌, Ordering, arith,
  replicate,
}
use openbsd_ldpd.Lde.{Af, MapFec, LabelMap, no_flags, zero_map}
use openbsd_ldpd.Wire.{Parsed}
use openbsd_ldpd.Wire.Bytes.{to_bytes}
use openbsd_ldpd.Wire.Mask.{mask6_bytes, and_bytes, ldp_prefixcmp, ldp_applymask}
use openbsd_ldpd.Wire.Mask.Laws.{AreBytes, prefixcmp-applymask}
use openbsd_ldpd.Wire.Fec.{blank, gen_fec_elm, fec_tlv_len, sub_tlvs, tlv_decode_fec_elm}
use openbsd_ldpd.Wire.Fec.Bounds.{decode_stays_inside, decode_length, zero_sub_tlv_hangs}
use openbsd_ldpd.Wire.Fec.RoundTrip.{IsWireFec, carried, tlv_decode_fec_elm-gen_fec_elm}

-- A mapping for 10.0.0.0/8, and one for the pseudowire 100.
abbrev pub net : LabelMap
net = record (zero_map (MapFec.prefix Af.inet 13292279957849158729038070602803445760 8)) {
  label = 17;
}

abbrev pub wire_map : LabelMap
wire_map = record (zero_map (MapFec.pwid 5 100 7 1500)) {
  label = 100;
  pw_status = 1;
  flags = record no_flags { pw_cword = true; pw_id = true; pw_ifmtu = true; pw_status = true };
}

-- The element of the first, as bytes.
abbrev net_elm : List ℕ
net_elm = 2 ∷ 0 ∷ 1 ∷ 8 ∷ 10 ∷ []

net_bytes : gen_fec_elm net ≡ net_elm
net_bytes = unfold gen_fec_elm to_bytes in refl

pub net-IsWireFec : IsWireFec net.fec net.flags
net-IsWireFec = (omega arith, omega arith, unfold to_bytes and_bytes mask6_bytes in refl)

pub wire_map-IsWireFec : IsWireFec wire_map.fec wire_map.flags
wire_map-IsWireFec = (
  omega arith,
  omega arith,
  omega arith,
  omega arith,
  λ e. (absurd (ground arith)),
  λ e. (absurd (ground arith)),
)

tlv_decode_fec_elm-gen_fec_elm_example :
    tlv_decode_fec_elm (blank 9) (fec_tlv_len wire_map) (gen_fec_elm wire_map ++ 2 ∷ 0 ∷ [])
    ≡ Parsed.ok (carried 9 wire_map, fec_tlv_len wire_map)
tlv_decode_fec_elm-gen_fec_elm_example =
    tlv_decode_fec_elm-gen_fec_elm 9 (fec_tlv_len wire_map) wire_map (2 ∷ 0 ∷ []) wire_map-IsWireFec
      refl

decode_stays_inside_example : tlv_decode_fec_elm (blank 9) 5 net_elm ≢ Parsed.overrun
decode_stays_inside_example =
    decode_stays_inside (blank 9) 5 net_elm (omega arith) (omega arith) refl

decode_length_example : (1 ≤ 1) × (1 ≤ 1)
decode_length_example =
    decode_length (blank 9) (blank 9) 1 1 (1 ∷ []) (unfold tlv_decode_fec_elm in refl)

zero_sub_tlv_hangs_example : sub_tlvs 12 4 (9 ∷ 0 ∷ 0 ∷ 0 ∷ []) wire_map ≡ Parsed.hang
zero_sub_tlv_hangs_example = zero_sub_tlv_hangs 12 2 9 (0 ∷ 0 ∷ []) wire_map (λ e. ground arith)

-- 2001:: and 2002::, which have the same 14 first bits.
abbrev one : List ℕ
one = 32 ∷ 1 ∷ replicate 14 0

abbrev two : List ℕ
two = 32 ∷ 2 ∷ replicate 14 0

one_bytes : (b : ℕ) → b < 256 → AreBytes (32 ∷ b ∷ replicate 14 0)
one_bytes b h = (omega arith, (h, zeros 14))
  where
    zeros : (k : ℕ) → AreBytes (replicate k 0)
    zeros zero = tt
    zeros (suc k) = (omega arith, zeros k)

prefixcmp-applymask_example :
    (ldp_prefixcmp Af.inet6 one two 14 ≡ some Ordering.eq)
    ↔ (ldp_applymask Af.inet6 one 14 ≡ ldp_applymask Af.inet6 two 14)
prefixcmp-applymask_example =
    prefixcmp-applymask one two 14 (one_bytes 1 (omega arith)) (one_bytes 2 (omega arith)) refl refl
      (omega arith)
