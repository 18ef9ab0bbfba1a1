-- ===== src/Fec/Tests.antt =====
-- The order of classes at concrete classes.
use openbsd_ldpd.Base.{◌≡◌, ◌↔◌, refl, Ordering}
use openbsd_ldpd.RbTree.{flip}
use openbsd_ldpd.Fec.{Fec, fec_compare}
use openbsd_ldpd.Fec.Order.{fec_compare-eq_iff, fec_compare-flip, fec_compare_trans}

-- 10.0.0.0/8, ::/0 and a pseudowire.
abbrev ten : Fec
ten = Fec.ipv4 167772160 8

abbrev any6 : Fec
any6 = Fec.ipv6 0 0

abbrev wire : Fec
wire = Fec.pwid 5 100 1

fec_compare-eq_iff_example : (fec_compare ten any6 ≡ Ordering.eq) ↔ (ten ≡ any6)
fec_compare-eq_iff_example = fec_compare-eq_iff ten any6

fec_compare-flip_example : fec_compare any6 ten ≡ flip (fec_compare ten any6)
fec_compare-flip_example = fec_compare-flip ten any6

fec_compare_trans_example : fec_compare ten wire ≡ Ordering.lt
fec_compare_trans_example =
    fec_compare_trans ten any6 wire (unfold fec_compare in refl) (unfold fec_compare in refl)
