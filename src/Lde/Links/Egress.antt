-- ===== src/Lde/Links/Egress.antt =====
-- The labels of all classes: fec_snap and lde_change_egress_label keep the invariant.
use openbsd_ldpd.Base.{
  ℕ, ◌≡◌, ◌∙◌, refl, Bool, true, false, none, is_some, arith, ◌≢◌, ◌&&◌, leb, for_each, lost,
}
use openbsd_ldpd.Base.Branch.{at_if, at_on}
use openbsd_ldpd.Fec.{Fec}
use openbsd_ldpd.Fec.Order.{fec_order}
use openbsd_ldpd.Lde.{Af, Imsg, Lde, peer_order, get_fn, get_ln, emit, keys}
use openbsd_ldpd.Lde.Routes.{
  egress_label, snap_one, fec_snap, readvertise, withdraw_egress, lde_change_egress_label,
  is_af_fec, label_reserved_max,
}
use openbsd_ldpd.Lde.Links.{
  Inv, Keeps, Keeps-refl, Keeps-trans, Keeps-same, Safe, Keeps-Safe, Safe-refl, Safe-trans,
  Stays-present,
}
use openbsd_ldpd.Lde.Links.Loops.{for_each-Safe_items, keys-All, All-map}
use openbsd_ldpd.Lde.Links.Labels.{At, Safe-At}
use openbsd_ldpd.Lde.Links.Send.{send_labelmapping-Safe, withdraw_wildcard-Keeps}
use openbsd_ldpd.Lde.Links.Routes.{set_local-Keeps}

-- fec_snap
snap_one-Safe : (p : ℕ) (s : Lde) (f : Fec) → At s p f → Safe s (snap_one p s f)
unfolding snap_one
snap_one-Safe p s f a =
    at_on (Safe s) (λ e. absurd (lost e a.node))
      λ n _.
        at_if (Safe s) (λ _. Safe-refl a.inv)
          (λ _. send_labelmapping-Safe s p f false a.inv a.nbr a.node)

emit-Keeps : (s : Lde) (m : Imsg) → Keeps s (emit s m)
emit-Keeps s m = Keeps-same refl refl refl

-- A loop over all classes, for a neighbor.
each_class-Safe :
    (s : Lde) (p : ℕ) (body : Lde → Fec → Lde)
    → Inv s
    → is_some (get_ln s p) ≡ true
    → ((t : Lde) (f : Fec) → At t p f → Safe t (body t f))
    → Safe s (for_each (keys s.ft) body s)
each_class-Safe s p body v h keep =
    for_each-Safe_items (λ t f. (is_some (get_ln t p) ≡ true) × (is_some (get_fn t f) ≡ true))
      (keys s.ft) body (λ t u w f c. (Stays-present p w c.0, w.has f c.1))
      (λ t f i c. keep t f (record { inv = i; nbr = c.0; node = c.1 })) s v
      (All-map (keys s.ft) (λ f c. (h, c)) (keys-All fec_order s.ft))

pub fec_snap-Safe : (s : Lde) (p : ℕ) → Inv s → is_some (get_ln s p) ≡ true → Safe s (fec_snap s p)
unfolding fec_snap
fec_snap-Safe s p v h =
    let k = each_class-Safe s p (snap_one p) v h (snap_one-Safe p) in
    Safe-trans k (Keeps-Safe k.inv (emit-Keeps _ _))

-- lde_change_egress_label
readvertise-Safe : (af : Af) (p : ℕ) (s : Lde) (f : Fec) → At s p f → Safe s (readvertise af p s f)
unfolding readvertise egress_label
readvertise-Safe af p s f a =
    at_on (Safe s) (λ e. absurd (lost e a.node))
      λ n _.
        at_if (Safe s)
          (λ c.
            at_on (Safe s) (λ e. absurd (answered af f (leb n.local_label label_reserved_max) c e))
              λ label _.
                let k = Keeps-Safe a.inv (set_local-Keeps s f label) in
                let b = Safe-At a k in
                Safe-trans k (send_labelmapping-Safe _ p f false b.inv b.nbr b.node))
          (λ _. Safe-refl a.inv)
  where
    answered :
        (af : Af) (f : Fec) (b : Bool) → (b && is_af_fec af f) ≡ true → egress_label s f ≢ none
    answered af (Fec.ipv4 a l) b h = cc
    answered af (Fec.ipv6 a l) b h = cc
    answered Af.inet (Fec.pwid t a r) b h = ground arith
    answered Af.inet6 (Fec.pwid t a r) b h = ground arith

withdraw_egress-Keeps :
    (s : Lde) (p : ℕ) (b : Bool) → is_some (get_ln s p) ≡ true → Keeps s (withdraw_egress s p b)
unfolding withdraw_egress
withdraw_egress-Keeps s p b h =
    at_on (Keeps s) (λ e. absurd (lost e h))
      λ l _.
        at_if (Keeps s) (λ _. withdraw_wildcard-Keeps s p _)
          λ _.
            let k = at_if (Keeps s) (λ _. withdraw_wildcard-Keeps s p _) (λ _. Keeps-refl s) in
            at_if (Keeps s) (λ _. Keeps-trans k (withdraw_wildcard-Keeps _ p _)) (λ _. k)

pub change_egress_label-Safe :
    (s : Lde) (af : Af) (b : Bool) → Inv s → Safe s (lde_change_egress_label s af b)
unfolding lde_change_egress_label
change_egress_label-Safe s af b v =
    for_each-Safe_items (λ t p. is_some (get_ln t p) ≡ true) (keys s.nbrs) _
      (λ t u w p c. Stays-present p w c)
      (λ t p i c.
        let k = Keeps-Safe i (withdraw_egress-Keeps t p b c) in
        let loop =
          each_class-Safe _ p (readvertise af p) k.inv (k.stays.present p ∙ c)
            (readvertise-Safe af p) in
        Safe-trans k (Safe-trans loop (Keeps-Safe loop.inv (emit-Keeps _ _))))
      s v (keys-All peer_order s.nbrs)
