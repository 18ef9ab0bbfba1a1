-- ===== src/Wire/Bytes.antt =====
-- Numbers as lists of bytes: what is written is read back.
use openbsd_ldpd.Base.{
  ℕ, zero, suc, ◌+◌, ◌*◌, ◌/◌, ◌%◌, ◌^◌, ◌<◌, ◌≡◌, ◌∙◌, refl, List, [], ◌∷◌, ◌++◌, arith, length,
  length-append,
}
use openbsd_ldpd.Wire.{of16, of32}

pub of16_lem : (n : ℕ) → n < 65536 → of16 (n / 256 % 256) (n % 256) ≡ n
of16_lem n h = omega arith

pub of32_lem :
    (n : ℕ)
    → n < 4294967296
    → of32 (n / 16777216 % 256) (n / 65536 % 256) (n / 256 % 256) (n % 256) ≡ n
of32_lem n h = omega arith

-- The k lowest bytes of a number, the most significant first, and the number of a list of bytes.
unfoldable pub to_bytes : ℕ → ℕ → List ℕ
to_bytes zero n = []
to_bytes (suc k) n = to_bytes k (n / 256) ++ n % 256 ∷ []

unfoldable pub of_bytes_from : ℕ → List ℕ → ℕ
of_bytes_from acc [] = acc
of_bytes_from acc (b ∷ bs) = of_bytes_from (acc * 256 + b) bs

abbrev pub of_bytes : List ℕ → ℕ
of_bytes bs = of_bytes_from 0 bs

of_bytes-append :
    (acc b : ℕ) (xs : List ℕ) → of_bytes_from acc (xs ++ b ∷ []) ≡ of_bytes_from acc xs * 256 + b
unfolding of_bytes_from
of_bytes-append acc b [] = refl
of_bytes-append acc b (x ∷ xs) = of_bytes-append (acc * 256 + x) b xs

pub length-to_bytes : (k n : ℕ) → length (to_bytes k n) ≡ k
unfolding to_bytes
length-to_bytes zero n = refl
length-to_bytes (suc k) n =
    omega (arith, length-append (to_bytes k (n / 256)) (n % 256 ∷ []), length-to_bytes k (n / 256))

-- A number of k bytes is read back.
pub of_bytes-to_bytes : (k n : ℕ) → n < 256 ^ k → of_bytes (to_bytes k n) ≡ n
unfolding to_bytes of_bytes_from
of_bytes-to_bytes zero n h = omega arith
of_bytes-to_bytes (suc k) n h =
    of_bytes-append 0 (n % 256) (to_bytes k (n / 256))
    ∙ omega (arith, of_bytes-to_bytes k (n / 256) (omega arith))
