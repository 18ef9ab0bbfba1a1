-- ===== src/Fec/Order.antt =====
-- fec_compare is a total order: it is 0 on equal classes only, antisymmetric and transitive.
use openbsd_ldpd.Base.{◌≡◌, ◌↔◌, Ordering, arith}
use openbsd_ldpd.RbTree.{flip, KeyOrder}
use openbsd_ldpd.Fec.{Fec, fec_compare}

-- fec_compare returns 0 exactly on equal classes.
pub fec_compare-eq_iff : (a b : Fec) → (fec_compare a b ≡ Ordering.eq) ↔ (a ≡ b)
unfolding fec_compare
fec_compare-eq_iff a b = ground arith

-- Exchanging the arguments exchanges the signs.
pub fec_compare-flip : (a b : Fec) → fec_compare b a ≡ flip (fec_compare a b)
unfolding fec_compare
fec_compare-flip a b = ground arith

-- The order is transitive.
pub fec_compare_trans :
    (a b c : Fec)
    → fec_compare a b ≡ Ordering.lt
    → fec_compare b c ≡ Ordering.lt
    → fec_compare a c ≡ Ordering.lt
unfolding fec_compare
fec_compare_trans a b c h k = ground arith

-- The order of the trees keyed by classes.
abbrev pub fec_order : KeyOrder Fec
fec_order = record {
  cmp = fec_compare;
  eq_iff = fec_compare-eq_iff;
  flips = fec_compare-flip;
  trans = fec_compare_trans;
}
