-- ===== src/Wire/Fec/RoundTrip.antt =====
-- gen_fec_tlv and tlv_decode_fec_elm of labelmapping.c, one after the other.
use openbsd_ldpd.Base.{
  ℕ, ◌+◌, ◌-◌, ◌/◌, ◌%◌, ◌^◌, ◌≤◌, ◌<◌, ◌≡◌, refl, Bool, true, false, List, ◌∷◌, ◌++◌, length,
  arith, leb, ltb, if◌then◌else◌,
}
use openbsd_ldpd.Lde.{Af, MapFec, MapFlags, LabelMap, no_flags}
use openbsd_ldpd.Wire.{Parsed, of16, be16, be32}
use openbsd_ldpd.Wire.Bytes.{to_bytes, of16_lem, of32_lem}
use openbsd_ldpd.Wire.Fec.{
  blank, prefix_size, pw_info_len, gen_fec_elm, fec_tlv_len, decode_family, decode_pwid,
  decode_pw_info, sub_tlvs, tlv_decode_fec_elm, opt_bytes, set_cword,
}
use openbsd_ldpd.Wire.Fec.Bounds.{max_len}
use openbsd_ldpd.Wire.Fec.Prefix.{IsMasked, byte_back, length-take_lem, room}

-- What a FEC element can carry.
abbrev IsPwid : MapFlags → ℕ → ℕ → ℕ → ℕ → Type 0
IsPwid fl t p g mtu =
    (t < 32768)
    × (p < 4294967296)
    × (g < 4294967296)
    × (mtu < 65536)
    × (fl.pw_id ≡ false → (p ≡ 0) × (fl.pw_ifmtu ≡ false))
    × (fl.pw_ifmtu ≡ false → mtu ≡ 0)

abbrev pub IsWireFec : MapFec → MapFlags → Type 0
IsWireFec MapFec.wildcard fl = Unit
IsWireFec (MapFec.prefix af a n) fl = (a < 256 ^ 16) × (n ≤ max_len af) × IsMasked (to_bytes 16 a) n
IsWireFec (MapFec.pwid t p g mtu) fl = IsPwid fl t p g mtu

-- The flags that the element of a map carries.
abbrev pub elm_flags : MapFec → MapFlags → MapFlags
elm_flags (MapFec.pwid t p g mtu) fl = record no_flags {
  pw_cword = fl.pw_cword;
  pw_id = fl.pw_id;
  pw_ifmtu = fl.pw_ifmtu;
}
elm_flags _ fl = no_flags

-- The map that the reader makes of it.
abbrev pub carried : ℕ → LabelMap → LabelMap
carried i m = record (blank i) { fec = m.fec; flags = elm_flags (m.fec) (m.flags) }

cword_set : (t : ℕ) → t < 32768 → of16 (set_cword t / 256 % 256) (set_cword t % 256) ≡ t + 32768
cword_set t h = let e : set_cword t ≡ t + 32768 = ground arith in rw e (omega arith)

with_cword : (t : ℕ) → leb 32768 (t + 32768) ≡ true
with_cword t = ground arith

without_cword : (t : ℕ) → t + 32768 - 32768 ≡ t
without_cword t = omega arith

no_cword : (t : ℕ) → t < 32768 → leb 32768 t ≡ false
no_cword t h = ground arith

pwid_back :
    (i t p g mtu : ℕ) (c d e : Bool) (rest : List ℕ)
    → (t < 32768)
    → (p < 4294967296)
    → (g < 4294967296)
    → (mtu < 65536)
    → (d ≡ false → (p ≡ 0) × (e ≡ false))
    → (e ≡ false → mtu ≡ 0)
    → decode_pwid (blank i) (8 + pw_info_len d e) (
        be16 (if c then set_cword t else t)
        ++ pw_info_len d e ∷ be32 g
        ++ (opt_bytes d (be32 p) ++ opt_bytes e (0x01 ∷ 0x04 ∷ be16 mtu))
        ++ rest)
      ≡ Parsed.ok (
        record (blank i) {
          fec = MapFec.pwid t p g mtu;
          flags = record no_flags { pw_cword = c; pw_id = d; pw_ifmtu = e };
        },
        8 + pw_info_len d e,
      )
unfolding decode_pwid decode_pw_info sub_tlvs
pwid_back i t p g mtu c false true rest ht hp hg hm h1 h2 = ground arith
pwid_back i t p g mtu true false false rest ht hp hg hm h1 h2 =
    rw (cword_set t ht, with_cword t, without_cword t, of32_lem g hg, (h1 refl).0, h2 refl) refl
pwid_back i t p g mtu true true false rest ht hp hg hm h1 h2 =
    rw (cword_set t ht, with_cword t, without_cword t, of32_lem g hg, of32_lem p hp, h2 refl) refl
pwid_back i t p g mtu true true true rest ht hp hg hm h1 h2 =
    rw
      (cword_set t ht, with_cword t, without_cword t, of32_lem g hg, of32_lem p hp, of16_lem mtu hm)
      refl
pwid_back i t p g mtu false false false rest ht hp hg hm h1 h2 =
    rw (of16_lem t (omega arith), no_cword t ht, of32_lem g hg, (h1 refl).0, h2 refl) refl
pwid_back i t p g mtu false true false rest ht hp hg hm h1 h2 =
    rw (of16_lem t (omega arith), no_cword t ht, of32_lem g hg, of32_lem p hp, h2 refl) refl
pwid_back i t p g mtu false true true rest ht hp hg hm h1 h2 =
    rw (of16_lem t (omega arith), no_cword t ht, of32_lem g hg, of32_lem p hp, of16_lem mtu hm) refl

pw_info_len_lem :
    (d e : Bool) (p mtu : ℕ)
    → length (opt_bytes d (be32 p) ++ opt_bytes e (0x01 ∷ 0x04 ∷ be16 mtu)) ≡ pw_info_len d e
pw_info_len_lem false false p mtu = refl
pw_info_len_lem false true p mtu = refl
pw_info_len_lem true false p mtu = refl
pw_info_len_lem true true p mtu = refl

-- The length field of the FEC TLV is the number of bytes of its element.
pub length-gen_fec_elm :
    (m : LabelMap) → IsWireFec (m.fec) (m.flags) → length (gen_fec_elm m) ≡ fec_tlv_len m
unfolding gen_fec_elm fec_tlv_len
length-gen_fec_elm m h = at_fec (m.fec) (m.flags) h
  where
    at_fec :
        (f : MapFec) (fl : MapFlags)
        → IsWireFec f fl
        → length (gen_fec_elm (record m { fec = f; flags = fl }))
          ≡ fec_tlv_len (record m { fec = f; flags = fl })
    at_fec MapFec.wildcard fl h = refl
    at_fec (MapFec.prefix af a n) fl h =
        omega (arith, length-take_lem (prefix_size n) (to_bytes 16 a) (room af a n h.1))
    at_fec (MapFec.pwid t p g mtu) fl h =
        omega (arith, pw_info_len_lem (fl.pw_id) (fl.pw_ifmtu) p mtu)

-- A FEC element that gen_fec_tlv writes is read back by tlv_decode_fec_elm, whatever follows it in the
-- message: the map has the class and the pseudowire flags of the one that was written, and the length
-- is that of the element. The addresses are masked, the fields fit their widths, and a pseudowire has
-- no PW ID and no MTU unless its flags say so.
pub tlv_decode_fec_elm-gen_fec_elm :
    (i len : ℕ) (m : LabelMap) (rest : List ℕ)
    → IsWireFec (m.fec) (m.flags)
    → len ≡ fec_tlv_len m
    → tlv_decode_fec_elm (blank i) len (gen_fec_elm m ++ rest)
      ≡ Parsed.ok (carried i m, fec_tlv_len m)
unfolding gen_fec_elm fec_tlv_len tlv_decode_fec_elm decode_family
tlv_decode_fec_elm-gen_fec_elm i len m rest h e = at_fec (m.fec) (m.flags) h e
  where
    at_fec :
        (f : MapFec) (fl : MapFlags)
        → IsWireFec f fl
        → len ≡ fec_tlv_len (record m { fec = f; flags = fl })
        → tlv_decode_fec_elm (blank i) len (gen_fec_elm (record m { fec = f; flags = fl }) ++ rest)
          ≡ Parsed.ok (
            carried i (record m { fec = f; flags = fl }),
            fec_tlv_len (record m { fec = f; flags = fl }),
          )
    at_fec MapFec.wildcard fl h e = rw e refl
    at_fec (MapFec.prefix Af.inet a n) fl h e =
        let c : ltb len 4 ≡ false = ground arith in
        rw c (byte_back (blank i) Af.inet a n len rest h.0 h.1 h.2 (omega arith))
    at_fec (MapFec.prefix Af.inet6 a n) fl h e =
        let c : ltb len 4 ≡ false = ground arith in
        rw c (byte_back (blank i) Af.inet6 a n len rest h.0 h.1 h.2 (omega arith))
    at_fec (MapFec.pwid t p g mtu) fl (ht, hp, hg, hm, h1, h2) e =
        let c : ltb len 8 ≡ false = ground arith in
        rw (c, e)
          (pwid_back i t p g mtu (fl.pw_cword) (fl.pw_id) (fl.pw_ifmtu) rest ht hp hg hm h1 h2)
