-- ===== src/Wire/Label/Send/Sizes.antt =====
-- msg_size of send_labelmessage counts the bytes that the message gets.
use openbsd_ldpd.Base.{
  ℕ, ◌+◌, ◌≤◌, ◌≡◌, refl, Bool, true, false, not, List, [], ◌∷◌, ◌++◌, ◌==◌, length, length-append,
  arith,
}
use openbsd_ldpd.Lde.{Af, MapFec, MapFlags, LabelMap, no_label}
use openbsd_ldpd.Wire.Fec.{opt_bytes, gen_fec_tlv, fec_tlv_len}
use openbsd_ldpd.Wire.Fec.RoundTrip.{IsWireFec, length-gen_fec_elm}
use openbsd_ldpd.Wire.Label.{
  MsgType, msg_tlvs, gen_label_tlv, gen_reqid_tlv, gen_pw_status_tlv, gen_status_tlv,
}
use openbsd_ldpd.Wire.Label.Send.{add_if, elm_size, msg_size, label_msg}

-- A map that can be written; only a pseudowire has a status.
abbrev pub HasStatus : MapFec → Bool → Type 0
HasStatus (MapFec.pwid t p g mtu) b = Unit
HasStatus _ b = b ≡ false

abbrev pub IsWireMap : LabelMap → Type 0
IsWireMap m = IsWireFec m.fec m.flags × HasStatus m.fec m.flags.pw_status

abbrev pub AllWire : List LabelMap → Type 0
AllWire [] = Unit
AllWire (m ∷ mh) = IsWireMap m × AllWire mh

length-opt_bytes : (b : Bool) (xs : List ℕ) → length (opt_bytes b xs) ≡ add_if b (length xs)
length-opt_bytes true xs = refl
length-opt_bytes false xs = refl

length_five :
    (a b c d e : List ℕ)
    → length (a ++ b ++ c ++ d ++ e) ≡ length a + length b + length c + length d + length e
length_five a b c d e = omega (
  arith,
  length-append (a ++ b ++ c ++ d) e,
  length-append (a ++ b ++ c) d,
  length-append (a ++ b) c,
  length-append a b,
)

-- The size that is counted for the class has the pseudowire status in it.
elm_size_lem :
    (m : LabelMap) (f : MapFec) (fl : MapFlags)
    → m.fec ≡ f
    → m.flags ≡ fl
    → HasStatus f fl.pw_status
    → elm_size f fl ≡ fec_tlv_len m + add_if fl.pw_status 8
unfolding elm_size fec_tlv_len
elm_size_lem m MapFec.wildcard fl e e2 h = rw (e, h) refl
elm_size_lem m (MapFec.prefix af a n) fl e e2 h = rw (e, h) (omega arith)
elm_size_lem m (MapFec.pwid t p g mtu) fl e e2 h = rw (e, e2) (omega arith)

fec_size : (m : LabelMap) → IsWireFec (m.fec) (m.flags) → length (gen_fec_tlv m) ≡ 4 + fec_tlv_len m
unfolding gen_fec_tlv
fec_size m h = omega (arith, length-gen_fec_elm m h)

-- msg_size is the number of bytes of the message.
pub length-label_msg :
    (type : MsgType) (id : ℕ) (m : LabelMap)
    → IsWireMap m
    → length (label_msg type id m) ≡ msg_size m
unfolding label_msg msg_tlvs msg_size
length-label_msg type id m h = omega (
  arith,
  length_five (gen_fec_tlv m) (opt_bytes (not (m.label == no_label)) (gen_label_tlv m.label))
      (opt_bytes m.flags.req_id (gen_reqid_tlv m.requestid))
      (opt_bytes m.flags.pw_status (gen_pw_status_tlv m.pw_status))
      (opt_bytes m.flags.status (gen_status_tlv m.st_code m.st_msg_id m.st_msg_type)),
  fec_size m h.0,
  elm_size_lem m m.fec m.flags refl refl h.1,
  length-opt_bytes (not (m.label == no_label)) (gen_label_tlv m.label),
  length-opt_bytes m.flags.req_id (gen_reqid_tlv m.requestid),
  length-opt_bytes m.flags.pw_status (gen_pw_status_tlv m.pw_status),
  length-opt_bytes m.flags.status (gen_status_tlv m.st_code m.st_msg_id m.st_msg_type),
)

add_if_le : (b : Bool) (n : ℕ) → add_if b n ≤ n
add_if_le true n = omega arith
add_if_le false n = omega arith

elm_size_bound : (f : MapFec) (fl : MapFlags) → IsWireFec f fl → elm_size f fl ≤ 24
unfolding elm_size
elm_size_bound MapFec.wildcard fl h = omega arith
elm_size_bound (MapFec.prefix Af.inet a n) fl h = omega (arith, h.1)
elm_size_bound (MapFec.prefix Af.inet6 a n) fl h = omega (arith, h.1)
elm_size_bound (MapFec.pwid t p g mtu) fl h =
    omega (arith, add_if_le fl.pw_id 4, add_if_le fl.pw_ifmtu 4, add_if_le fl.pw_status 8)

-- The size of a message with a label, by its TLVs.
pub msg_size_lem :
    (m : LabelMap)
    → IsWireMap m
    → (m.label == no_label) ≡ false
    → msg_size m
      ≡ 20
        + fec_tlv_len m
        + (add_if m.flags.req_id 8 + add_if m.flags.pw_status 8 + add_if m.flags.status 14)
unfolding msg_size
msg_size_lem m h e = rw e (omega (arith, elm_size_lem m m.fec m.flags refl refl h.1))

pub msg_size_bound : (m : LabelMap) → IsWireMap m → msg_size m ≤ 66
unfolding msg_size
msg_size_bound m h = omega (
  arith,
  elm_size_bound m.fec m.flags h.0,
  add_if_le (not (m.label == no_label)) 8,
  add_if_le m.flags.req_id 8,
  add_if_le m.flags.status 14,
)
