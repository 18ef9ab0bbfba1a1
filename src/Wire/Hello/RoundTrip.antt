-- ===== src/Wire/Hello/RoundTrip.antt =====
-- Hello messages that are written and read back.
use openbsd_ldpd.Base.{
  ℕ, ◌∙◌, suc, sym, take-append, drop-append, length-append, ◌+◌, ◌-◌, ◌*◌, ◌/◌, ◌%◌, ◌≤◌, ◌<◌, ◌≡◌,
  ◌⊎◌, inl, inr, refl, ap, Bool, true, false, not, ◌&&◌, ◌||◌, List, [], ◌++◌, ltb, ◌==◌,
  if◌then◌else◌, arith, Bool-cases, drop, take, length,
}
use openbsd_ldpd.Lde.{Af}
use openbsd_ldpd.Wire.{be32, of16}
use openbsd_ldpd.Wire.Bytes.{of16_lem}
use openbsd_ldpd.Wire.Hello.{
  is_targeted, go_on, whole, HelloConf, HelloType, HelloOpts, Hello, Decoded, ldp_is_dual_stack,
  hello_holdtime, hello_flags, hello_size, hello_prms, send_hello, read_hello, ds_value,
  tlv_decode_opt_hello_prms, hello_tlv, hello_ds, hello_conf, hello_addr, no_opts,
  gen_ds_hello_prms_tlv, gen_opt_hello_prms_tlv, gen_trans_addr,
}

abbrev pub is_link : HelloType → Bool
is_link (HelloType.link holdtime) = true
is_link (HelloType.targeted holdtime configured pw_count) = false

abbrev pub trans_addr : HelloConf → Af → List ℕ
trans_addr c Af.inet = c.trans_addr4
trans_addr c Af.inet6 = c.trans_addr6

abbrev pub addr_len : Af → ℕ
addr_len Af.inet = 4
addr_len Af.inet6 = 16

-- What a receiver makes of the optional parameters.
abbrev pub told : HelloConf → HelloConf → Af → HelloOpts
told c r af = record {
  rcvd_addr = true;
  rcvd_conf = true;
  rcvd_ds = ldp_is_dual_stack c && ldp_is_dual_stack r;
  addr = trans_addr c af;
  conf_number = be32 c.conf_seqnum;
  trans_pref = if ldp_is_dual_stack c && ldp_is_dual_stack r then c.trans_pref else 0;
}

take_own : (n : ℕ) (xs ys : List ℕ) → length xs ≡ n → take n (xs ++ ys) ≡ xs
take_own n xs ys h = rw (sym h) (take-append xs ys)

drop_own : (n : ℕ) (xs ys : List ℕ) → length xs ≡ n → drop n (xs ++ ys) ≡ ys
drop_own n xs ys h = rw (sym h) (drop-append xs ys)

long_enough : (n : ℕ) (xs ys : List ℕ) → length xs ≡ n → ltb (length (xs ++ ys)) n ≡ false
long_enough n xs ys h = ground (arith, length-append xs ys, h)

pref4 :
    (p : ℕ)
    → p < 16
    → of16 (p * 268435456 % 4294967296 / 16777216 % 256) (p * 268435456 % 4294967296 / 65536 % 256)
        / 4096
      ≡ p
pref4 p h = omega arith

pref16 : (p : ℕ) → p < 16 → of16 (p / 256 % 256) (p % 256) ≡ p
pref16 p h = of16_lem p (omega arith)

-- The dual-stack TLV.
ds_read :
    (c r : HelloConf) (s : HelloOpts)
    → c.trans_pref < 16
    → c.cisco_interop ≡ r.cisco_interop
    → ldp_is_dual_stack r ≡ true
    → hello_ds r 4 (ds_value c) s
      ≡ Decoded.opts 0 (record s { trans_pref = c.trans_pref; rcvd_ds = true })
unfolding hello_ds ds_value ldp_is_dual_stack
ds_read c r s h k d = elim (Bool-cases c.cisco_interop) [
  | inl e ↦ let q : r.cisco_interop ≡ true = cc in rw (e, q, d, pref16 c.trans_pref h) refl
  | inr e ↦ let q : r.cisco_interop ≡ false = cc in rw (e, q, d, pref4 c.trans_pref h) refl
]

flags_lem :
    (c : HelloConf) (af : Af) (type : HelloType)
    → of16 (hello_flags c af type / 256 % 256) (hello_flags c af type % 256) ≡ hello_flags c af type
unfolding hello_flags
flags_lem c Af.inet (HelloType.link h) = elim (Bool-cases c.no_gtsm) [
  | inl e ↦ rw e refl
  | inr e ↦ rw e refl
]
flags_lem c Af.inet6 (HelloType.link h) = refl
flags_lem c Af.inet (HelloType.targeted h q n) = elim (Bool-cases (q || not (n == 0))) [
  | inl e ↦ rw e refl
  | inr e ↦ rw e refl
]
flags_lem c Af.inet6 (HelloType.targeted h q n) = elim (Bool-cases (q || not (n == 0))) [
  | inl e ↦ rw e refl
  | inr e ↦ rw e refl
]

targeted_lem :
    (c : HelloConf) (af : Af) (type : HelloType)
    → is_targeted (hello_flags c af type) ≡ not (is_link type)
unfolding hello_flags
targeted_lem c Af.inet (HelloType.link h) = elim (Bool-cases c.no_gtsm) [
  | inl e ↦ rw e refl
  | inr e ↦ rw e refl
]
targeted_lem c Af.inet6 (HelloType.link h) = refl
targeted_lem c Af.inet (HelloType.targeted h q n) = elim (Bool-cases (q || not (n == 0))) [
  | inl e ↦ rw e refl
  | inr e ↦ rw e refl
]
targeted_lem c Af.inet6 (HelloType.targeted h q n) = elim (Bool-cases (q || not (n == 0))) [
  | inl e ↦ rw e refl
  | inr e ↦ rw e refl
]

-- What follows the transport address.
abbrev tail_tlvs : HelloConf → Bool → List ℕ
tail_tlvs c d =
    gen_opt_hello_prms_tlv 0x0402 4 (be32 c.conf_seqnum)
    ++ (if d then gen_ds_hello_prms_tlv c else [])

abbrev tail_size : Bool → ℕ
tail_size d = if d then 16 else 8

abbrev with_addr : HelloConf → Af → HelloOpts
with_addr c af = record no_opts { addr = trans_addr c af; rcvd_addr = true }

addr_read :
    (c r : HelloConf) (af : Af) (d : Bool) (f : ℕ)
    → length (trans_addr c af) ≡ addr_len af
    → tlv_decode_opt_hello_prms r af
        (suc f)
        (4 + addr_len af + tail_size d)
        (gen_trans_addr c af ++ tail_tlvs c d)
        no_opts
      ≡ tlv_decode_opt_hello_prms r af f (tail_size d) (tail_tlvs c d) (with_addr c af)
unfolding tlv_decode_opt_hello_prms hello_tlv hello_addr
addr_read c r Af.inet true f h =
    rw (long_enough 4 c.trans_addr4 _ h, take_own 4 c.trans_addr4 _ h, drop_own 4 c.trans_addr4 _ h)
      refl
addr_read c r Af.inet false f h =
    rw (long_enough 4 c.trans_addr4 _ h, take_own 4 c.trans_addr4 _ h, drop_own 4 c.trans_addr4 _ h)
      refl
addr_read c r Af.inet6 true f h =
    rw
      (
        long_enough 16 c.trans_addr6 _ h,
        take_own 16 c.trans_addr6 _ h,
        drop_own 16 c.trans_addr6 _ h,
      )
      refl
addr_read c r Af.inet6 false f h =
    rw
      (
        long_enough 16 c.trans_addr6 _ h,
        take_own 16 c.trans_addr6 _ h,
        drop_own 16 c.trans_addr6 _ h,
      )
      refl

-- A receiver with one family ignores the TLV.
ds_ignored :
    (c r : HelloConf) (s : HelloOpts)
    → ldp_is_dual_stack r ≡ false
    → hello_ds r 4 (ds_value c) s ≡ Decoded.opts 0 s
unfolding hello_ds ds_value
ds_ignored c r s d = elim (Bool-cases c.cisco_interop) [
  | inl e ↦ rw (e, d) refl
  | inr e ↦ rw (e, d) refl
]

-- The last TLV of a message.
last_read :
    (c r : HelloConf) (af : Af) (f : ℕ) (s : HelloOpts)
    → tlv_decode_opt_hello_prms r af (suc (suc f)) 8 (gen_ds_hello_prms_tlv c) s
      ≡ go_on (hello_ds r 4 (ds_value c) s) (Decoded.opts 0)
unfolding tlv_decode_opt_hello_prms hello_tlv ds_value
last_read c r af f s = elim (Bool-cases c.cisco_interop) [ inl e ↦ rw e refl | inr e ↦ rw e refl ]

abbrev with_conf : HelloConf → Af → HelloOpts
with_conf c af = record (with_addr c af) { conf_number = be32 c.conf_seqnum; rcvd_conf = true }

-- What a sender with `d` for both families tells.
abbrev told_by : HelloConf → Bool → HelloConf → Af → HelloOpts
told_by c d r af = record {
  rcvd_addr = true;
  rcvd_conf = true;
  rcvd_ds = d && ldp_is_dual_stack r;
  addr = trans_addr c af;
  conf_number = be32 c.conf_seqnum;
  trans_pref = if d && ldp_is_dual_stack r then c.trans_pref else 0;
}

conf_read :
    (c r : HelloConf) (af : Af) (f : ℕ)
    → tlv_decode_opt_hello_prms r af (suc (suc (suc f))) 16 (tail_tlvs c true) (with_addr c af)
      ≡ tlv_decode_opt_hello_prms r af (suc (suc f)) 8 (gen_ds_hello_prms_tlv c) (with_conf c af)
unfolding tlv_decode_opt_hello_prms hello_tlv hello_conf ds_value
conf_read c r af f = elim (Bool-cases c.cisco_interop) [ inl e ↦ rw e refl | inr e ↦ rw e refl ]

tail_read :
    (c r : HelloConf) (af : Af) (d : Bool) (f : ℕ)
    → c.trans_pref < 16
    → c.cisco_interop ≡ r.cisco_interop
    → tlv_decode_opt_hello_prms r af
        (suc (suc (suc f)))
        (tail_size d)
        (tail_tlvs c d)
        (with_addr c af)
      ≡ Decoded.opts 0 (told_by c d r af)
unfolding tlv_decode_opt_hello_prms hello_tlv hello_conf
tail_read c r af false f h k = refl
tail_read c r af true f h k =
    conf_read c r af f
    ∙ last_read c r af f (with_conf c af)
    ∙ elim (Bool-cases (ldp_is_dual_stack r)) [
      | inl d ↦ rw (ds_read c r (with_conf c af) h k d, d) refl
      | inr d ↦ rw (ds_ignored c r (with_conf c af) d, d) refl
    ]

opts_read :
    (c r : HelloConf) (af : Af) (d : Bool) (f : ℕ)
    → length (trans_addr c af) ≡ addr_len af
    → c.trans_pref < 16
    → c.cisco_interop ≡ r.cisco_interop
    → tlv_decode_opt_hello_prms r af
        (suc (suc (suc (suc f))))
        (4 + addr_len af + tail_size d)
        (gen_trans_addr c af ++ tail_tlvs c d)
        no_opts
      ≡ Decoded.opts 0 (told_by c d r af)
opts_read c r af d f l h k = addr_read c r af d (suc (suc (suc f))) l ∙ tail_read c r af d f h k

abbrev size : Bool → Af → ℕ
size d af = 4 + addr_len af + tail_size d

all_read :
    (c r : HelloConf) (af : Af) (d : Bool)
    → length (trans_addr c af) ≡ addr_len af
    → c.trans_pref < 16
    → c.cisco_interop ≡ r.cisco_interop
    → tlv_decode_opt_hello_prms r af
        (suc (size d af))
        (size d af)
        (gen_trans_addr c af ++ tail_tlvs c d)
        no_opts
      ≡ Decoded.opts 0 (told_by c d r af)
all_read c r Af.inet true l h k = opts_read c r Af.inet true 21 l h k
all_read c r Af.inet false l h k = opts_read c r Af.inet false 13 l h k
all_read c r Af.inet6 true l h k = opts_read c r Af.inet6 true 33 l h k
all_read c r Af.inet6 false l h k = opts_read c r Af.inet6 false 25 l h k

hello_size_lem :
    (c : HelloConf) (af : Af)
    → (hello_size c af - 18 - 8 ≡ size (ldp_is_dual_stack c) af)
      × (ltb (hello_size c af - 18) 8 ≡ false)
hello_size_lem c Af.inet = elim (Bool-cases (ldp_is_dual_stack c)) [
  | inl e ↦ rw e (refl, refl)
  | inr e ↦ rw e (refl, refl)
]
hello_size_lem c Af.inet6 = elim (Bool-cases (ldp_is_dual_stack c)) [
  | inl e ↦ rw e (refl, refl)
  | inr e ↦ rw e (refl, refl)
]

time_lem : (h : ℕ) → (h ≡ 0) ⊎ (3 ≤ h) → (not (h == 0) && ltb h 3) ≡ false
time_lem h k = ground arith

-- A hello message that send_hello writes, for either family and either type, is not discarded by the first
-- checks of recv_hello, when it comes by multicast exactly if it is a link hello: the receiver gets the
-- holdtime, the flags, the transport address, the bytes of the sequence number and, when both run both
-- families, the transport preference of the sender. The holdtime is 0 or at least 3 and below 2^16, the
-- preference is below 16, and both write the dual-stack TLV in the same way.
pub read_hello-send_hello :
    (c r : HelloConf) (af : Af) (type : HelloType) (cnt : ℕ)
    → (hello_holdtime type ≡ 0) ⊎ (3 ≤ hello_holdtime type)
    → hello_holdtime type < 65536
    → length (trans_addr c af) ≡ addr_len af
    → c.trans_pref < 16
    → c.cisco_interop ≡ r.cisco_interop
    → read_hello r af (is_link type) (hello_size c af - 18) (drop 18 (send_hello c af type cnt))
      ≡ Hello.read (hello_holdtime type) (hello_flags c af type) (told c r af)
unfolding read_hello send_hello hello_prms ldp_is_dual_stack
read_hello-send_hello c r af type cnt h l n p k =
    let a =
      ap (whole (hello_holdtime type) (hello_flags c af type))
        (all_read c r af (ldp_is_dual_stack c) n p k) in
    let t = of16_lem (hello_holdtime type) l in
    let u = time_lem (hello_holdtime type) h in
    let v = hello_size_lem c af in
    elim (Bool-cases (is_link type)) [
      | inl e ↦ rw (flags_lem c af type, t, u, v.1, v.0, targeted_lem c af type, e) a
      | inr e ↦ rw (flags_lem c af type, t, u, v.1, v.0, targeted_lem c af type, e) a
    ]
