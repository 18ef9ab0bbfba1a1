-- ===== src/Wire/Fec/Prefix.antt =====
-- A prefix element as gen_fec_tlv writes it: the bytes that it leaves out are zero, and the mask of the
-- reader changes nothing.
use mathlib.Core.Path.{subst}
use openbsd_ldpd.Base.{
  ℕ, zero, suc, ◌+◌, ◌-◌, ◌/◌, ◌%◌, ◌^◌, ◌≤◌, ◌<◌, ◌≡◌, ◌∙◌, refl, ap, sym, false, some, List, [],
  ◌∷◌, ◌++◌, take, drop, length, replicate, arith, ltb, length-append,
}
use openbsd_ldpd.Lde.{Af, MapFec, LabelMap}
use openbsd_ldpd.Wire.{Parsed}
use openbsd_ldpd.Wire.Bytes.{to_bytes, length-to_bytes, of_bytes-to_bytes}
use openbsd_ldpd.Wire.Mask.{mask6_bytes, and_bytes, ldp_applymask, prefixlen2mask}
use openbsd_ldpd.Wire.Mask.Laws.{AreBytes, byte_and_none, prefixlen2mask_bytes}
use openbsd_ldpd.Wire.Fec.{prefix_size, decode_addr}
use openbsd_ldpd.Wire.Fec.Bounds.{max_len}

AreBytes-append : (xs ys : List ℕ) → AreBytes xs → AreBytes ys → AreBytes (xs ++ ys)
AreBytes-append [] ys hx hy = hy
AreBytes-append (x ∷ xs) ys hx hy = (hx.0, AreBytes-append xs ys hx.1 hy)

pub AreBytes-to_bytes : (k n : ℕ) → AreBytes (to_bytes k n)
unfolding to_bytes
AreBytes-to_bytes zero n = tt
AreBytes-to_bytes (suc k) n = AreBytes-append _ _ (AreBytes-to_bytes k (n / 256)) (omega arith, tt)

-- The bytes of an address have no bit set beyond the prefix.
abbrev pub IsMasked : List ℕ → ℕ → Type 0
IsMasked bs n = and_bytes bs (mask6_bytes (length bs) n) ≡ bs

cons_head {ℓ} : {A : Type ℓ} {x y : A} {xs ys : List A} → (x ∷ xs) ≡ (y ∷ ys) → x ≡ y
cons_head e = ground (arith, e)

cons_tail {ℓ} : {A : Type ℓ} {x y : A} {xs ys : List A} → (x ∷ xs) ≡ (y ∷ ys) → xs ≡ ys
cons_tail e = ground (arith, e)

minus_zero : (n : ℕ) → n - 0 ≡ n
minus_zero n = omega arith

max_len_le : (af : Af) → max_len af ≤ 128
max_len_le Af.inet = omega arith
max_len_le Af.inet6 = omega arith

-- The bytes beyond the prefix are zero, so padding restores them.
masked_pad :
    (bs : List ℕ) (n k : ℕ)
    → k ≡ prefix_size n
    → AreBytes bs
    → IsMasked bs n
    → take k bs ++ replicate (length bs - k) 0 ≡ bs
unfolding and_bytes mask6_bytes
masked_pad [] n zero e hb h = refl
masked_pad [] n (suc k) e hb h = let z : 0 - suc k ≡ 0 = omega arith in rw z refl
masked_pad (b ∷ bs) n zero e hb h =
    let z : n ≡ 0 = omega arith in
    let h0 : IsMasked (b ∷ bs) 0 = rw z at h in
    let t : replicate (length bs) 0 ≡ bs =
      rw (minus_zero (length bs)) at (masked_pad bs 0 0 (omega arith) hb.1 (cons_tail h0)) in
    let b0 : b ≡ 0 = sym (cons_head h0) ∙ byte_and_none b hb.0 in
    rw (minus_zero (suc (length bs)), t, b0) refl
masked_pad (b ∷ bs) n (suc k) e hb h =
    let z : suc (length bs) - suc k ≡ length bs - k = omega arith in
    rw z (ap (◌∷◌ b) (masked_pad bs (n - 8) k (omega arith) hb.1 (cons_tail h)))

-- Only the first bytes need the mask.
masked_take :
    (j m : ℕ) (bs : List ℕ) (n : ℕ)
    → j ≤ m
    → and_bytes bs (mask6_bytes m n) ≡ bs
    → and_bytes (take j bs) (mask6_bytes j n) ++ drop j bs ≡ bs
unfolding and_bytes mask6_bytes
masked_take zero m bs n l h = refl
masked_take (suc j) m [] n l h = refl
masked_take (suc j) zero (b ∷ bs) n l h = absurd (omega arith)
masked_take (suc j) (suc m) (b ∷ bs) n l h =
    ground (arith, cons_head h, masked_take j m bs (n - 8) (omega arith) (cons_tail h))

-- The mask leaves such an address as it is.
masked_apply :
    (af : Af) (bs : List ℕ) (n : ℕ)
    → length bs ≡ 16
    → n ≤ max_len af
    → IsMasked bs n
    → ldp_applymask af bs n ≡ some bs
unfolding ldp_applymask
masked_apply Af.inet bs n l h m =
    let t : and_bytes (take 4 bs) (mask6_bytes 4 n) ++ drop 4 bs ≡ bs =
      masked_take 4 16 bs n (omega arith) (rw l at m) in
    let u : and_bytes (take 4 bs) (to_bytes 4 (prefixlen2mask n)) ++ drop 4 bs ≡ bs =
      rw (prefixlen2mask_bytes n h) t in
    ground (arith, u)
masked_apply Af.inet6 bs n l h m =
    let t : and_bytes bs (mask6_bytes 16 n) ≡ bs = rw l at m in ground (arith, t)

pub take_of {ℓ} :
    {A : Type ℓ} (k : ℕ) (xs ys : List A) → k ≤ length xs → take k (take k xs ++ ys) ≡ take k xs
take_of zero xs ys h = refl
take_of (suc k) [] ys h = absurd (omega arith)
take_of (suc k) (x ∷ xs) ys h = ap (◌∷◌ x) (take_of k xs ys (omega arith))

pub length-take_lem {ℓ} :
    {A : Type ℓ} (k : ℕ) (xs : List A) → k ≤ length xs → length (take k xs) ≡ k
length-take_lem zero xs h = refl
length-take_lem (suc k) [] h = absurd (omega arith)
length-take_lem (suc k) (x ∷ xs) h = ap suc (length-take_lem k xs (omega arith))

pub room : (af : Af) (a n : ℕ) → n ≤ max_len af → prefix_size n ≤ length (to_bytes 16 a)
room af a n h = omega (arith, max_len_le af, length-to_bytes 16 a)

-- The part of the element after its prefix length.
addr_back :
    (m : LabelMap) (af : Af) (a n len : ℕ) (rest : List ℕ)
    → a < 256 ^ 16
    → n ≤ max_len af
    → IsMasked (to_bytes 16 a) n
    → 4 + prefix_size n ≤ len
    → decode_addr m af n len (take (prefix_size n) (to_bytes 16 a) ++ rest)
      ≡ Parsed.ok (record m { fec = MapFec.prefix af a n }, 4 + prefix_size n)
unfolding decode_addr
addr_back m af a n len rest ha hn hm hl =
    let l16 : length (to_bytes 16 a) ≡ 16 = length-to_bytes 16 a in
    let p16 : prefix_size n ≤ 16 = omega (arith, max_len_le af) in
    let fits : prefix_size n ≤ length (to_bytes 16 a) = omega (arith, l16) in
    let pad : take (prefix_size n) (to_bytes 16 a) ++ replicate (16 - prefix_size n) 0
        ≡ to_bytes 16 a =
      rw l16 at (masked_pad (to_bytes 16 a) n (prefix_size n) refl (AreBytes-to_bytes 16 a) hm) in
    let long : prefix_size n ≤ length (take (prefix_size n) (to_bytes 16 a) ++ rest) = omega (
      arith,
      length-append (take (prefix_size n) (to_bytes 16 a)) rest,
      length-take_lem (prefix_size n) (to_bytes 16 a) fits,
    ) in
    let c1 : ltb len (4 + prefix_size n) ≡ false = ground arith in
    let c2 : ltb (length (take (prefix_size n) (to_bytes 16 a) ++ rest)) (prefix_size n) ≡ false =
      ground (arith, long) in
    let c3 : ltb 16 (prefix_size n) ≡ false = ground arith in
    rw
      (
        c1,
        c2,
        c3,
        take_of (prefix_size n) (to_bytes 16 a) rest fits,
        pad,
        masked_apply af (to_bytes 16 a) n l16 hn hm,
        of_bytes-to_bytes 16 a ha,
      )
      refl

-- The same with the byte that holds the prefix length.
pub byte_back :
    (m : LabelMap) (af : Af) (a n len : ℕ) (rest : List ℕ)
    → a < 256 ^ 16
    → n ≤ max_len af
    → IsMasked (to_bytes 16 a) n
    → 4 + prefix_size n ≤ len
    → decode_addr m af (n % 256) len (take (prefix_size n) (to_bytes 16 a) ++ rest)
      ≡ Parsed.ok (record m { fec = MapFec.prefix af a n }, 4 + prefix_size n)
byte_back m af a n len rest ha hn hm hl =
    let b : n ≡ n % 256 = omega (arith, max_len_le af) in
    subst
      (λ k.
        decode_addr m af k len (take (prefix_size n) (to_bytes 16 a) ++ rest)
        ≡ Parsed.ok (record m { fec = MapFec.prefix af a n }, 4 + prefix_size n))
      b (addr_back m af a n len rest ha hn hm hl)
