-- ===== src/Wire/Fec/Bounds.antt =====
-- The bytes that tlv_decode_fec_elm reads, and the length that it returns.
use mathlib.Core.Path.{subst}
use openbsd_ldpd.Base.{
  ℕ, zero, suc, ◌+◌, ◌-◌, ◌≤◌, ◌≡◌, ◌≢◌, refl, Bool, false, ◌&&◌, Option, none, some, List, [], ◌∷◌,
  ltb, ◌==◌, drop, length, arith, Bool-cases, inl, inr,
}
use openbsd_ldpd.Lde.{Af, LabelMap}
use openbsd_ldpd.Wire.{Refusal, s_unsup_addr, Parsed, ◌>>=◌, of16, of32}
use openbsd_ldpd.Wire.Mask.{ldp_applymask}
use openbsd_ldpd.Wire.Fec.{
  family_of, decode_addr, decode_family, sub_tlv, sub_tlvs, decode_pw_info, decode_pwid,
  tlv_decode_fec_elm, set_pwid,
}

pub length-drop {ℓ} : {A : Type ℓ} (n : ℕ) (xs : List A) → length (drop n xs) ≡ length xs - n
length-drop zero xs = omega arith
length-drop (suc n) [] = omega arith
length-drop (suc n) (x ∷ xs) = omega (arith, length-drop n xs)

sub_tlv_in :
    (m : LabelMap) (t l : ℕ) (v : List ℕ) → l ≤ length v + 2 → sub_tlv m t l v ≢ Parsed.overrun
sub_tlv_in m t l [] h e = ground arith
sub_tlv_in m t l (a ∷ []) h e = ground arith
sub_tlv_in m t l (a ∷ b ∷ v) h e = ground arith

bind_in {ℓ κ} :
    {A : Type ℓ} {B : Type κ} (x : Parsed A) (f : A → Parsed B)
    → x ≢ Parsed.overrun
    → ((a : A) → f a ≢ Parsed.overrun)
    → (x >>= f) ≢ Parsed.overrun
bind_in (Parsed.ok a) f hx hf = hf a
bind_in (Parsed.refused r) f hx hf = λ e. cc
bind_in Parsed.overrun f hx hf = absurd (hx refl)
bind_in Parsed.hang f hx hf = λ e. cc

-- The loop over the sub-TLVs, whatever its fuel.
sub_tlvs_in :
    (f left : ℕ) (buf : List ℕ) (m : LabelMap)
    → left ≤ length buf
    → sub_tlvs f left buf m ≢ Parsed.overrun
unfolding sub_tlvs
sub_tlvs_in zero left buf m h = λ e. cc
sub_tlvs_in (suc f) zero buf m h = λ e. cc
sub_tlvs_in (suc f) (suc zero) buf m h = λ e. cc
sub_tlvs_in (suc f) (suc (suc k)) [] m h = absurd (omega arith)
sub_tlvs_in (suc f) (suc (suc k)) (t ∷ []) m h = absurd (omega arith)
sub_tlvs_in (suc f) (suc (suc k)) (t ∷ l ∷ rest) m h = elim (Bool-cases (ltb (suc (suc k)) l)) [
  | inl b ↦ rw b (λ e. cc)
  | inr b ↦ rw b (
      bind_in (sub_tlv m t l rest) _ (sub_tlv_in m t l rest (ground arith)) λ m2.
        sub_tlvs_in f (suc (suc k) - l) (drop l (t ∷ l ∷ rest)) m2
          (omega (arith, length-drop l (t ∷ l ∷ rest))))
]

decode_pw_info_in :
    (m : LabelMap) (n : ℕ) (buf : List ℕ) → n ≤ length buf → decode_pw_info m n buf ≢ Parsed.overrun
unfolding decode_pw_info
decode_pw_info_in m n [] h = λ e. ground arith
decode_pw_info_in m n (a ∷ []) h = λ e. ground arith
decode_pw_info_in m n (a ∷ b ∷ []) h = λ e. ground arith
decode_pw_info_in m n (a ∷ b ∷ c ∷ []) h = λ e. ground arith
decode_pw_info_in m n (a ∷ b ∷ c ∷ d ∷ rest) h =
    λ e. ground (arith, sub_tlvs_in n (n - 4) rest (set_pwid m (of32 a b c d)))

decode_pwid_in :
    (m : LabelMap) (len : ℕ) (buf : List ℕ)
    → 8 ≤ len
    → len ≤ length buf + 1
    → decode_pwid m len buf ≢ Parsed.overrun
unfolding decode_pwid
decode_pwid_in m len (t1 ∷ t0 ∷ n ∷ g3 ∷ g2 ∷ g1 ∷ g0 ∷ rest) h k =
    elim (Bool-cases (len == 8 + n)) [
      | inr b ↦ rw b (λ e. cc)
      | inl b ↦ rw b (bind_in _ _ (decode_pw_info_in _ n rest (ground arith)) (λ r. λ e. cc))
    ]
decode_pwid_in m len [] h k = absurd (omega arith)
decode_pwid_in m len (a ∷ []) h k = absurd (omega arith)
decode_pwid_in m len (a ∷ b ∷ []) h k = absurd (omega arith)
decode_pwid_in m len (a ∷ b ∷ c ∷ []) h k = absurd (omega arith)
decode_pwid_in m len (a ∷ b ∷ c ∷ d ∷ []) h k = absurd (omega arith)
decode_pwid_in m len (a ∷ b ∷ c ∷ d ∷ e ∷ []) h k = absurd (omega arith)
decode_pwid_in m len (a ∷ b ∷ c ∷ d ∷ e ∷ f ∷ []) h k = absurd (omega arith)

-- A prefix element whose prefix is longer than an address of its family.
abbrev pub max_len : Af → ℕ
max_len Af.inet = 32
max_len Af.inet6 = 128

abbrev too_long_for : Option Af → ℕ → Bool
too_long_for none n = false
too_long_for (some af) n = ltb (max_len af) n

abbrev pub too_long : List ℕ → Bool
too_long (type ∷ f1 ∷ f0 ∷ n ∷ body) = (type == 2) && too_long_for (family_of (of16 f1 f0)) n
too_long _ = false

decode_addr_in :
    (m : LabelMap) (af : Af) (n len : ℕ) (body : List ℕ)
    → len ≤ length body + 4
    → ltb (max_len af) n ≡ false
    → decode_addr m af n len body ≢ Parsed.overrun
unfolding decode_addr ldp_applymask
decode_addr_in m Af.inet n len body h k = λ e. ground arith
decode_addr_in m Af.inet6 n len body h k = λ e. ground arith

decode_family_in :
    (m : LabelMap) (len : ℕ) (buf : List ℕ)
    → 4 ≤ len
    → len ≤ length buf + 1
    → too_long (2 ∷ buf) ≡ false
    → decode_family m len buf ≢ Parsed.overrun
unfolding decode_family
decode_family_in m len [] h k b = absurd (omega arith)
decode_family_in m len (f1 ∷ []) h k b = absurd (omega arith)
decode_family_in m len (f1 ∷ f0 ∷ []) h k b = absurd (omega arith)
decode_family_in m len (f1 ∷ f0 ∷ n ∷ body) h k b = at_family (family_of (of16 f1 f0)) b
  where
    at_family :
        (o : Option Af)
        → too_long_for o n ≡ false
        → (elim o [
          | none ↦ Parsed.refused (Refusal.notify s_unsup_addr)
          | some af ↦ decode_addr m af n len body
        ])
          ≢ Parsed.overrun
    at_family none c = λ e. cc
    at_family (some af) c = decode_addr_in m af n len body (omega arith) c

-- tlv_decode_fec_elm reads nothing past the TLV, whatever the bytes, as long as the TLV is not empty and lies
-- in the message and no prefix is longer than the addresses of its family.
pub decode_stays_inside :
    (m : LabelMap) (len : ℕ) (buf : List ℕ)
    → 1 ≤ len
    → len ≤ length buf
    → too_long buf ≡ false
    → tlv_decode_fec_elm m len buf ≢ Parsed.overrun
unfolding tlv_decode_fec_elm
decode_stays_inside m len [] h k b = absurd (omega arith)
decode_stays_inside m len (type ∷ rest) h k b =
    λ e. ground (arith, decode_pwid_in m len rest, decode_family_in m len rest, too_long_type)
  where
    too_long_type : type ≡ 2 → too_long (2 ∷ rest) ≡ false
    too_long_type e = subst (λ t. too_long (t ∷ rest) ≡ false) e b

decode_addr_length :
    (m n : LabelMap) (af : Af) (p len used : ℕ) (body : List ℕ)
    → decode_addr m af p len body ≡ Parsed.ok (n, used)
    → (1 ≤ used) × (used ≤ len)
unfolding decode_addr ldp_applymask
decode_addr_length m n Af.inet p len used body e = ground arith
decode_addr_length m n Af.inet6 p len used body e = ground arith

decode_family_length :
    (m n : LabelMap) (len used : ℕ) (buf : List ℕ)
    → decode_family m len buf ≡ Parsed.ok (n, used)
    → (1 ≤ used) × (used ≤ len)
unfolding decode_family
decode_family_length m n len used [] e = cc
decode_family_length m n len used (f1 ∷ []) e = cc
decode_family_length m n len used (f1 ∷ f0 ∷ rest) e = at_family (family_of (of16 f1 f0)) rest e
  where
    at_family :
        (o : Option Af) (rest : List ℕ)
        → (elim o [
          | none ↦ Parsed.refused (Refusal.notify s_unsup_addr)
          | some af ↦ elim rest [ [] ↦ Parsed.overrun | p ∷ body ↦ decode_addr m af p len body ]
        ])
          ≡ Parsed.ok (n, used)
        → (1 ≤ used) × (used ≤ len)
    at_family none rest e = cc
    at_family (some af) [] e = cc
    at_family (some af) (p ∷ body) e = decode_addr_length m n af p len used body e

bind_length :
    (x : Parsed LabelMap) (k used : ℕ) (n : LabelMap)
    → (◌>>=◌ {B = LabelMap × ℕ} x (λ r. Parsed.ok (r, k))) ≡ Parsed.ok (n, used)
    → used ≡ k
bind_length (Parsed.ok a) k used n e = ground arith
bind_length (Parsed.refused r) k used n e = cc
bind_length Parsed.overrun k used n e = cc
bind_length Parsed.hang k used n e = cc

decode_pwid_length :
    (m n : LabelMap) (len used : ℕ) (buf : List ℕ)
    → decode_pwid m len buf ≡ Parsed.ok (n, used)
    → (1 ≤ used) × (used ≤ len)
unfolding decode_pwid
decode_pwid_length m n len used (t1 ∷ t0 ∷ k ∷ g3 ∷ g2 ∷ g1 ∷ g0 ∷ rest) e =
    elim (Bool-cases (len == 8 + k)) [
      | inr b ↦ absurd (ground (arith, b))
      | inl b ↦ ground (arith, b, bind_length _ (8 + k) used n (rw b at e))
    ]
decode_pwid_length m n len used [] e = cc
decode_pwid_length m n len used (a ∷ []) e = cc
decode_pwid_length m n len used (a ∷ b ∷ []) e = cc
decode_pwid_length m n len used (a ∷ b ∷ c ∷ []) e = cc
decode_pwid_length m n len used (a ∷ b ∷ c ∷ d ∷ []) e = cc
decode_pwid_length m n len used (a ∷ b ∷ c ∷ d ∷ x ∷ []) e = cc
decode_pwid_length m n len used (a ∷ b ∷ c ∷ d ∷ x ∷ f ∷ []) e = cc

-- The length that tlv_decode_fec_elm returns is at least 1 and at most that of the TLV.
pub decode_length :
    (m n : LabelMap) (len used : ℕ) (buf : List ℕ)
    → tlv_decode_fec_elm m len buf ≡ Parsed.ok (n, used)
    → (1 ≤ used) × (used ≤ len)
unfolding tlv_decode_fec_elm
decode_length m n len used [] e = cc
decode_length m n len used (type ∷ rest) e =
    ground (arith, decode_family_length m n len used rest, decode_pwid_length m n len used rest)

-- A sub-TLV of length 0, of any type but that of the MTU, never ends the loop over the sub-TLVs: however much
-- fuel it is given, it uses it up.
pub zero_sub_tlv_hangs :
    (f k t : ℕ) (rest : List ℕ) (m : LabelMap)
    → t ≢ 1
    → sub_tlvs f (suc (suc k)) (t ∷ 0 ∷ rest) m ≡ Parsed.hang
unfolding sub_tlvs
zero_sub_tlv_hangs zero k t rest m h = refl
zero_sub_tlv_hangs (suc f) k t rest m h = ground (arith, zero_sub_tlv_hangs f k t rest m h)
