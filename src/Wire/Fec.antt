-- ===== src/Wire/Fec.antt =====
-- labelmapping.c: the FEC TLV, gen_fec_tlv and tlv_decode_fec_elm. The prefix length of a map that is
-- written is at most 128: beyond it the code reads past union ldpd_addr.
pub mod Prefix
pub mod RoundTrip
pub mod Bounds
pub mod Tests
use openbsd_ldpd.Base.{
  ℕ, zero, suc, ◌+◌, ◌-◌, ◌*◌, ◌/◌, ◌%◌, Bool, true, false, Option, none, some, List, [], ◌∷◌, ◌++◌,
  ltb, leb, ◌==◌, if◌then◌else◌, take, drop, length, replicate,
}
use openbsd_ldpd.Lde.{Af, MapFec, LabelMap, zero_map}
use openbsd_ldpd.Wire.{
  Parsed, Refusal, ◌>>=◌, be16, be32, of16, of32, s_bad_tlv_len, s_bad_tlv_val, s_unknown_fec,
  s_unsup_addr,
}
use openbsd_ldpd.Wire.Bytes.{to_bytes, of_bytes}
use openbsd_ldpd.Wire.Mask.{ldp_applymask}

-- PREFIX_SIZE
abbrev pub prefix_size : ℕ → ℕ
prefix_size n = (n + 7) / 8

abbrev pub family_code : Af → ℕ
family_code Af.inet = 1
family_code Af.inet6 = 2

-- pw_type |= CONTROL_WORD_FLAG
abbrev pub set_cword : ℕ → ℕ
set_cword t = if leb 32768 (t % 65536) then t else t + 32768

abbrev pub opt_bytes : Bool → List ℕ → List ℕ
opt_bytes true bs = bs
opt_bytes false bs = []

-- pw_len
abbrev pub pw_info_len : Bool → Bool → ℕ
pw_info_len id mtu = (if id then 4 else 0) + (if mtu then 4 else 0)

-- The FEC element, without the header of its TLV.
unfoldable pub gen_fec_elm : LabelMap → List ℕ
gen_fec_elm m = elim m.fec [
  | MapFec.wildcard ↦ 0x01 ∷ []
  | MapFec.prefix af a n ↦
      0x02 ∷ be16 (family_code af) ++ (n % 256) ∷ take (prefix_size n) (to_bytes 16 a)
  | MapFec.pwid t p g mtu ↦
      0x80 ∷ be16 (if m.flags.pw_cword then set_cword t else t)
      ++ pw_info_len m.flags.pw_id m.flags.pw_ifmtu ∷ be32 g
      ++ opt_bytes m.flags.pw_id (be32 p)
      ++ opt_bytes m.flags.pw_ifmtu (0x01 ∷ 0x04 ∷ be16 mtu)
]

-- ft.length
unfoldable pub fec_tlv_len : LabelMap → ℕ
fec_tlv_len m = elim m.fec [
  | MapFec.wildcard ↦ 1
  | MapFec.prefix af a n ↦ 4 + prefix_size n
  | MapFec.pwid t p g mtu ↦ 8 + pw_info_len m.flags.pw_id m.flags.pw_ifmtu
]

unfoldable pub gen_fec_tlv : LabelMap → List ℕ
gen_fec_tlv m = be16 0x0100 ++ be16 (fec_tlv_len m) ++ gen_fec_elm m

abbrev pub family_of : ℕ → Option Af
family_of f = if f == 1 then some Af.inet else if f == 2 then some Af.inet6 else none

-- MAP_TYPE_PREFIX from the prefix length on: `body` is what follows it. The copy into the union
-- overruns it above 128 bits, and the mask of an IPv4 address is undefined above 32.
unfoldable pub decode_addr : LabelMap → Af → ℕ → ℕ → List ℕ → Parsed (LabelMap × ℕ)
decode_addr m af n len body =
    if ltb len (4 + prefix_size n)
    then Parsed.refused (Refusal.shutdown s_bad_tlv_len)
    else if ltb (length body) (prefix_size n)
    then Parsed.overrun
    else if ltb 16 (prefix_size n)
    then Parsed.overrun
    else elim (ldp_applymask af (take (prefix_size n) body ++ replicate (16 - prefix_size n) 0) n) [
      | none ↦ Parsed.overrun
      | some bs ↦ Parsed.ok (record m { fec = MapFec.prefix af (of_bytes bs) n }, 4 + prefix_size n)
    ]

unfoldable pub decode_family : LabelMap → ℕ → List ℕ → Parsed (LabelMap × ℕ)
unfolding decode_addr
decode_family m len (f1 ∷ f0 ∷ rest) = elim (family_of (of16 f1 f0)) [
  | none ↦ Parsed.refused (Refusal.notify s_unsup_addr)
  | some af ↦ elim rest [ [] ↦ Parsed.overrun | n ∷ body ↦ decode_addr m af n len body ]
]
decode_family m len _ = Parsed.overrun

abbrev pub set_ifmtu : LabelMap → ℕ → LabelMap
set_ifmtu m v = elim m.fec [
  | MapFec.pwid t p g old ↦ record m {
    fec = MapFec.pwid t p g v;
    flags = record (m.flags) { pw_ifmtu = true };
  }
  | _ ↦ m
]

-- One sub-TLV of type `t` and length `l`, with its value before it.
abbrev pub sub_tlv : LabelMap → ℕ → ℕ → List ℕ → Parsed LabelMap
sub_tlv m t l value =
    if t == 1
    then (if l == 4
        then elim value [
          | [] ↦ Parsed.overrun
          | a ∷ more ↦ elim more [
            | [] ↦ Parsed.overrun
            | b ∷ _ ↦ Parsed.ok (set_ifmtu m (of16 a b))
          ]
        ]
        else Parsed.refused (Refusal.shutdown s_bad_tlv_len))
    else Parsed.ok m

-- The loop over the sub-TLVs, on fuel; a sub-TLV of length 0 does not advance it.
unfoldable pub sub_tlvs : ℕ → ℕ → List ℕ → LabelMap → Parsed LabelMap
sub_tlvs zero left buf m = Parsed.hang
sub_tlvs (suc f) zero buf m = Parsed.ok m
sub_tlvs (suc f) (suc zero) buf m = Parsed.refused (Refusal.shutdown s_bad_tlv_len)
sub_tlvs (suc f) (suc (suc k)) (t ∷ l ∷ rest) m =
    let next : LabelMap → Parsed LabelMap = sub_tlvs f (suc (suc k) - l) (drop l (t ∷ l ∷ rest)) in
    if ltb (suc (suc k)) l
    then Parsed.refused (Refusal.shutdown s_bad_tlv_len)
    else (sub_tlv m t l rest >>= next)
sub_tlvs (suc f) (suc (suc k)) _ m = Parsed.overrun

abbrev pub set_pwid : LabelMap → ℕ → LabelMap
set_pwid m v = elim m.fec [
  | MapFec.pwid t old g mtu ↦ record m {
    fec = MapFec.pwid t v g mtu;
    flags = record (m.flags) { pw_id = true };
  }
  | _ ↦ m
]

-- From the PW ID on: `pw_len` bytes are left of the element.
unfoldable pub decode_pw_info : LabelMap → ℕ → List ℕ → Parsed LabelMap
unfolding sub_tlvs
decode_pw_info m pw_len buf =
    if pw_len == 0
    then Parsed.ok m
    else if ltb pw_len 4
    then Parsed.refused (Refusal.shutdown s_bad_tlv_len)
    else elim buf [
      | a ∷ b ∷ c ∷ d ∷ rest ↦ sub_tlvs pw_len (pw_len - 4) rest (set_pwid m (of32 a b c d))
      | _ ↦ Parsed.overrun
    ]

-- MAP_TYPE_PWID
unfoldable pub decode_pwid : LabelMap → ℕ → List ℕ → Parsed (LabelMap × ℕ)
unfolding decode_pw_info
decode_pwid m len (t1 ∷ t0 ∷ pw_len ∷ g3 ∷ g2 ∷ g1 ∷ g0 ∷ rest) =
    let t = of16 t1 t0 in
    let cword = leb 32768 t in
    let start = record m {
      fec = MapFec.pwid (if cword then t - 32768 else t) 0 (of32 g3 g2 g1 g0) 0;
      flags = record (m.flags) { pw_cword = if cword then true else m.flags.pw_cword };
    } in
    if len == 8 + pw_len
    then (decode_pw_info start pw_len rest >>= λ r. Parsed.ok (r, 8 + pw_len))
    else Parsed.refused (Refusal.shutdown s_bad_tlv_len)
decode_pwid m len _ = Parsed.overrun

-- memset of a map, with its msg_id.
abbrev pub blank : ℕ → LabelMap
blank i = record (zero_map MapFec.wildcard) { msg_id = i }

-- tlv_decode_fec_elm: the map, and the length of the element.
unfoldable pub tlv_decode_fec_elm : LabelMap → ℕ → List ℕ → Parsed (LabelMap × ℕ)
unfolding decode_family decode_pwid
tlv_decode_fec_elm m len [] = Parsed.overrun
tlv_decode_fec_elm m len (type ∷ rest) =
    if type == 0x01
    then (if len == 1
        then Parsed.ok (record m { fec = MapFec.wildcard }, 1)
        else Parsed.refused (Refusal.shutdown s_bad_tlv_val))
    else if type == 0x02
    then (if ltb len 4
        then Parsed.refused (Refusal.shutdown s_bad_tlv_len)
        else decode_family m len rest)
    else if type == 0x80
    then (if ltb len 8
        then Parsed.refused (Refusal.shutdown s_bad_tlv_len)
        else decode_pwid m len rest)
    else Parsed.refused (Refusal.notify s_unknown_fec)
