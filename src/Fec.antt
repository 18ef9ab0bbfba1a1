-- ===== src/Fec.antt =====
-- lde.h and lde_lib.c: forwarding equivalence classes, their order, and the trees keyed by them.
-- An in_addr is the number ntohl gives, an in6_addr the number whose 16 bytes, the most significant
-- first, it holds, so memcmp of two of them is the order of the numbers. The trees
-- keyed by classes are those of RbTree, at the order fec_compare.
pub mod Order
pub mod Tests
use openbsd_ldpd.Base.{ℕ, compare, Ordering}

pub data Fec : Type 0 where
  ipv4 : (prefix : ℕ) (prefixlen : ℕ) → Fec
  ipv6 : (prefix : ℕ) (prefixlen : ℕ) → Fec
  pwid : (type : ℕ) (pwid : ℕ) (lsr_id : ℕ) → Fec

-- enum fec_type
abbrev pub fec_type : Fec → ℕ
fec_type (Fec.ipv4 p l) = 0
fec_type (Fec.ipv6 p l) = 1
fec_type (Fec.pwid t p r) = 2

-- `if (a < b) return (-1); if (a > b) return (1);` and what follows.
abbrev pub then_compare : ℕ → ℕ → Ordering → Ordering
then_compare a b rest = elim (compare a b) [
  | Ordering.lt ↦ Ordering.lt
  | Ordering.gt ↦ Ordering.gt
  | Ordering.eq ↦ rest
]

-- The sign of fec_compare: -1, 0 and 1 are `lt`, `eq` and `gt`.
pub fec_compare : Fec → Fec → Ordering
fec_compare (Fec.ipv4 p l) (Fec.ipv4 q m) = then_compare p q (then_compare l m Ordering.eq)
fec_compare (Fec.ipv6 p l) (Fec.ipv6 q m) = then_compare p q (then_compare l m Ordering.eq)
fec_compare (Fec.pwid t p r) (Fec.pwid u q s) =
    then_compare t u (then_compare p q (then_compare r s Ordering.eq))
fec_compare a b = then_compare (fec_type a) (fec_type b) Ordering.lt
