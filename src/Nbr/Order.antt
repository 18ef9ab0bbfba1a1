-- ===== src/Nbr/Order.antt =====
-- nbr_id_compare and nbr_pid_compare of neighbor.c, and lde_nbr_compare of lde.c: the difference of
-- two uint32_t, returned as an int. It is an order only for ids that lie close together.
use openbsd_ldpd.Base.{
  ℕ, ◌+◌, ◌-◌, ◌%◌, ◌≤◌, ◌<◌, ◌≡◌, ◌↔◌, Ordering, compare, arith, leb, ◌==◌, if◌then◌else◌,
}

abbrev pub int_min : ℕ
int_min = 2147483648

-- The sign of the int with the bits of `a - b`.
unfoldable pub nbr_id_compare : ℕ → ℕ → Ordering
nbr_id_compare a b =
    let d = (a + 4294967296 - b) % 4294967296 in
    if d == 0 then Ordering.eq else if leb int_min d then Ordering.lt else Ordering.gt

-- nbr_id_compare agrees with the order of two 32-bit ids exactly when the first is less than 2^31
-- above the second and the second at most 2^31 above the first.
pub id_compare_window :
    (a b : ℕ)
    → a < 4294967296
    → b < 4294967296
    → (nbr_id_compare a b ≡ compare a b) ↔ ((a < b + int_min) × (b ≤ a + int_min))
unfolding nbr_id_compare
id_compare_window a b ha hb = ground arith

-- nbr_id_compare is not transitive: every 32-bit id lies on a cycle of three ids, each below the
-- next.
pub id_compare_cycle :
    (a : ℕ)
    → a < 4294967296
    → (b : ℕ) × (c : ℕ) × (nbr_id_compare a b ≡ Ordering.lt)
      × (nbr_id_compare b c ≡ Ordering.lt)
      × (nbr_id_compare c a ≡ Ordering.lt)
unfolding nbr_id_compare
id_compare_cycle a ha = (
  (a + 2147483647) % 4294967296,
  (a + 4294967294) % 4294967296,
  ground arith,
  ground arith,
  ground arith,
)
