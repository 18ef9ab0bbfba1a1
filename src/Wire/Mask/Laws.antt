-- ===== src/Wire/Mask/Laws.antt =====
-- The masks of util.c, byte by byte.
use openbsd_ldpd.Base.{
  ℕ, zero, suc, ◌-◌, ◌≤◌, ◌<◌, ◌≡◌, ◌↔◌, refl, Bool, true, false, ◌&&◌, Option, none, some, List,
  [], ◌∷◌, Ordering, bit_and, leb, ◌==◌, arith, length, Bool-cases, inl, inr,
}
use openbsd_ldpd.Lde.{Af}
use openbsd_ldpd.Base.Finite.{all_below, all_below-lt}
use openbsd_ldpd.Wire.Bytes.{to_bytes}
use openbsd_ldpd.Wire.Mask.{
  prefixlen2mask, mask6_bytes, prefixlen2mask6, and_bytes, prefixcmp6, mask_byte_len,
  mask2prefixlen6, ldp_prefixcmp, ldp_applymask,
}

-- Equality of lists of bytes.
abbrev same_bytes : List ℕ → List ℕ → Bool
same_bytes [] [] = true
same_bytes (a ∷ as') (b ∷ bs) = (a == b) && same_bytes as' bs
same_bytes _ _ = false

same_bytes_eq : (as' bs : List ℕ) → same_bytes as' bs ≡ true → as' ≡ bs
same_bytes_eq [] [] h = refl
same_bytes_eq [] (b ∷ bs) h = cc
same_bytes_eq (a ∷ as') [] h = cc
same_bytes_eq (a ∷ as') (b ∷ bs) h = ground (arith, same_bytes_eq as' bs)

-- For every prefix length of IPv4, prefixlen2mask in network order is the start of the IPv6 mask of that
-- length.
pub prefixlen2mask_bytes : (n : ℕ) → n ≤ 32 → to_bytes 4 (prefixlen2mask n) ≡ mask6_bytes 4 n
prefixlen2mask_bytes n h = same_bytes_eq _ _ (
    all_below-lt 33 (λ k. same_bytes (to_bytes 4 (prefixlen2mask k)) (mask6_bytes 4 k)) n
      (unfold all_below to_bytes prefixlen2mask mask6_bytes in refl) (omega arith))

abbrev is_len : Option ℕ → ℕ → Bool
is_len none n = false
is_len (some k) n = k == n

is_len_eq : (o : Option ℕ) (n : ℕ) → is_len o n ≡ true → o ≡ some n
is_len_eq none n h = cc
is_len_eq (some k) n h = ground arith

-- mask2prefixlen6 reads the length back from the mask that prefixlen2mask6 makes, up to 128.
pub mask2prefixlen6-prefixlen2mask6 :
    (n : ℕ) → n ≤ 128 → mask2prefixlen6 (prefixlen2mask6 n) 0 ≡ some n
mask2prefixlen6-prefixlen2mask6 n h = is_len_eq _ n (
    all_below-lt 129 (λ k. is_len (mask2prefixlen6 (prefixlen2mask6 k) 0) k) n
      (unfold all_below mask6_bytes mask2prefixlen6 mask_byte_len in refl) (omega arith))

-- `&` with the two constant bytes of a mask.
pub byte_and_all : (b : ℕ) → b < 256 → bit_and b 255 ≡ b
byte_and_all b h =
    ground (arith, all_below-lt 256 (λ k. bit_and k 255 == k) b (unfold all_below in refl) h)

pub byte_and_none : (b : ℕ) → b < 256 → bit_and b 0 ≡ 0
byte_and_none b h =
    ground (arith, all_below-lt 256 (λ k. bit_and k 0 == 0) b (unfold all_below in refl) h)

-- Every element is a byte.
abbrev pub AreBytes : List ℕ → Type 0
AreBytes [] = Unit
AreBytes (b ∷ bs) = (b < 256) × AreBytes bs

-- Once the length is used up, the mask is zero.
pub and_bytes-zero :
    (k : ℕ) (as' bs : List ℕ)
    → AreBytes as'
    → AreBytes bs
    → length as' ≡ length bs
    → and_bytes as' (mask6_bytes k 0) ≡ and_bytes bs (mask6_bytes k 0)
unfolding and_bytes mask6_bytes
and_bytes-zero zero [] [] ha hb e = refl
and_bytes-zero zero [] (b ∷ bs) ha hb e = refl
and_bytes-zero zero (a ∷ as') [] ha hb e = refl
and_bytes-zero zero (a ∷ as') (b ∷ bs) ha hb e = refl
and_bytes-zero (suc k) [] [] ha hb e = refl
and_bytes-zero (suc k) [] (b ∷ bs) ha hb e = absurd (omega arith)
and_bytes-zero (suc k) (a ∷ as') [] ha hb e = absurd (omega arith)
and_bytes-zero (suc k) (a ∷ as') (b ∷ bs) ha hb e = ground (
  arith,
  byte_and_none a ha.0,
  byte_and_none b hb.0,
  and_bytes-zero k as' bs ha.1 hb.1 (omega arith),
)

prefixcmp6_step :
    (a b n : ℕ) (as' bs : List ℕ) (k : ℕ)
    → a < 256
    → b < 256
    → (and_bytes as' (mask6_bytes k 0) ≡ and_bytes bs (mask6_bytes k 0))
    → ((prefixcmp6 as' bs (n - 8) ≡ Ordering.eq)
        ↔ (and_bytes as' (mask6_bytes k (n - 8)) ≡ and_bytes bs (mask6_bytes k (n - 8))))
    → (prefixcmp6 (a ∷ as') (b ∷ bs) n ≡ Ordering.eq)
      ↔ (and_bytes (a ∷ as') (mask6_bytes (suc k) n) ≡ and_bytes (b ∷ bs) (mask6_bytes (suc k) n))
unfolding prefixcmp6 and_bytes mask6_bytes
prefixcmp6_step a b n as' bs k ha hb z ih = elim (Bool-cases (leb 8 n)) [
  | inl h ↦ ground (arith, h, ih, byte_and_all a ha, byte_and_all b hb)
  | inr h ↦
      let e : n - 8 ≡ 0 = ground (arith, h) in
      let z2 : and_bytes as' (mask6_bytes k (n - 8)) ≡ and_bytes bs (mask6_bytes k (n - 8)) =
        rw e z in
      ground (arith, h, z2)
]

prefixcmp6_eq :
    (as' bs : List ℕ) (n : ℕ)
    → AreBytes as'
    → AreBytes bs
    → length as' ≡ length bs
    → (prefixcmp6 as' bs n ≡ Ordering.eq)
      ↔ (and_bytes as' (mask6_bytes (length as') n) ≡ and_bytes bs (mask6_bytes (length as') n))
prefixcmp6_eq [] [] n ha hb e = unfold prefixcmp6 and_bytes in (λ h. refl, λ h. refl)
prefixcmp6_eq [] (b ∷ bs) n ha hb e = absurd (omega arith)
prefixcmp6_eq (a ∷ as') [] n ha hb e = absurd (omega arith)
prefixcmp6_eq (a ∷ as') (b ∷ bs) n ha hb e =
    let e1 : length as' ≡ length bs = omega arith in
    prefixcmp6_step a b n as' bs (length as') ha.0 hb.0
      (and_bytes-zero (length as') as' bs ha.1 hb.1 e1) (prefixcmp6_eq as' bs (n - 8) ha.1 hb.1 e1)

-- Two IPv6 addresses have the same prefix for ldp_prefixcmp exactly when ldp_applymask makes them equal,
-- at every prefix length up to 128.
pub prefixcmp-applymask :
    (as' bs : List ℕ) (n : ℕ)
    → AreBytes as'
    → AreBytes bs
    → length as' ≡ 16
    → length bs ≡ 16
    → n ≤ 128
    → (ldp_prefixcmp Af.inet6 as' bs n ≡ some Ordering.eq)
      ↔ (ldp_applymask Af.inet6 as' n ≡ ldp_applymask Af.inet6 bs n)
unfolding ldp_prefixcmp ldp_applymask
prefixcmp-applymask as' bs n ha hb la lb h =
    let m = rw la at (prefixcmp6_eq as' bs n ha hb (omega arith)) in ground (arith, m, zero_len)
  where
    zero_len : n ≡ 0 → and_bytes as' (prefixlen2mask6 n) ≡ and_bytes bs (prefixlen2mask6 n)
    zero_len e = rw e (and_bytes-zero 16 as' bs ha hb (omega arith))
