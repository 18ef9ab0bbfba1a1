-- ===== src/Lde/Links/Routes.antt =====
-- A route comes: lde_kernel_insert keeps the invariant.
use mathlib.Core.Option
use mathlib.Core.Path.{subst}
use openbsd_ldpd.Base.{
  ℕ, ◌≡◌, ◌∙◌, ap, refl, sym, Bool, true, false, Option, none, some, List, [], ◌∷◌, is_some, arith,
  ◌≢◌, if◌then◌else◌, lost, Bool-cases, inl, inr,
}
use openbsd_ldpd.Base.Branch.{at_if, at_on}
use openbsd_ldpd.RbTree.{find, same}
use openbsd_ldpd.RbTree.Laws.{find-update, update-IsSorted, same_iff, same_refl}
use openbsd_ldpd.Fec.{Fec}
use openbsd_ldpd.Fec.Order.{fec_order}
use openbsd_ldpd.Lde.{Af, FecNh, FecNode, LdeNbr, Lde, peer_order, get_fn, get_ln, set_fn, keys}
use openbsd_ldpd.Lde.Send.{lde_assign_label, lde_send_labelmapping}
use openbsd_ldpd.Lde.Check.{ensure_fec, is_pw_fec}
use openbsd_ldpd.Lde.Peers.{lde_nbr_find_by_lsrid, lde_nbr_find_by_addr}
use openbsd_ldpd.Lde.Routes.{
  egress_label, set_local, choose_label, distribute, label_route, attach_pw, new_nh, nexthop_nbr,
  take_up_mapping, add_nexthop, lde_kernel_insert,
}
use openbsd_ldpd.Lde.Links.{
  Inv, Keeps, Keeps-refl, Keeps-trans, Keeps-same, Inv-PwOk, Usable, Safe, Keeps-Safe, Safe-refl,
  Safe-trans, Stays-present, Stays-Usable, downs_of, ups_of, routed_of, pw_of,
}
use openbsd_ldpd.Lde.Links.Store.{set_fn-Keeps}
use openbsd_ldpd.Lde.Links.Loops.{for_each-Safe_items, keys-All, head_found, tail_found, All-map}
use openbsd_ldpd.Lde.Links.Check.{ensure_fec-Keeps, ensure_fec-has}
use openbsd_ldpd.Lde.Links.Kernel.{change_klabel-Keeps}
use openbsd_ldpd.Lde.Links.Labels.{check_mapping-Safe}
use openbsd_ldpd.Lde.Links.Send.{send_labelmapping-Safe}

pub set_local-Keeps : (s : Lde) (f : Fec) (label : ℕ) → Keeps s (set_local s f label)
set_local-Keeps s f label =
    set_fn-Keeps s f _
      λ n. record { downs = refl; ups = refl; has = λ h. h; routed = λ h. h; pws = λ h. h }

-- egress_label has an answer for a class of a prefix.
choose_label-Keeps :
    (s : Lde) (f : Fec) (connected : Bool)
    → (connected ≡ true → is_pw_fec f ≡ false)
    → Keeps s (choose_label s f connected)
unfolding choose_label lde_assign_label egress_label
choose_label-Keeps s f connected h =
    at_if (Keeps s)
      (λ c.
        at_on (Keeps s) (λ e. absurd (answered f (h c) e)) (λ label _. set_local-Keeps s f label))
      (λ _. Keeps-trans (Keeps-same refl refl refl) (set_local-Keeps _ f _))
  where
    answered : (f : Fec) → is_pw_fec f ≡ false → egress_label s f ≢ none
    answered (Fec.ipv4 a l) h = cc
    answered (Fec.ipv6 a l) h = cc
    answered (Fec.pwid t a r) h = cc

distribute-Safe :
    (s : Lde) (f : Fec) → Inv s → is_some (get_fn s f) ≡ true → Safe s (distribute s f)
unfolding distribute
distribute-Safe s f v h =
    for_each-Safe_items (λ t p. (is_some (get_ln t p) ≡ true) × (is_some (get_fn t f) ≡ true))
      (keys s.nbrs) (λ t p. lde_send_labelmapping t p f true)
      (λ t u w p c. (Stays-present p w c.0, w.has f c.1))
      (λ t p i c. send_labelmapping-Safe t p f true i c.0 c.1) s v
      (All-map (keys s.nbrs) (λ p c. (c, h)) (keys-All peer_order s.nbrs))

label_route-Safe :
    (s : Lde) (f : Fec) (connected : Bool)
    → Inv s
    → is_some (get_fn s f) ≡ true
    → (connected ≡ true → is_pw_fec f ≡ false)
    → Safe s (label_route s f connected)
unfolding label_route
label_route-Safe s f connected v h c =
    at_on (Safe s) (λ e. absurd (lost e h))
      λ n _.
        at_if (Safe s)
          (λ _.
            let k = Keeps-Safe v (choose_label-Keeps s f connected c) in
            Safe-trans k (distribute-Safe _ f k.inv (k.stays.has f h)))
          (λ _. Safe-refl v)

-- A pseudowire class gets its pseudowire.
attach_pw-Keeps :
    (s : Lde) (f : Fec) (i : Option ℕ)
    → (is_pw_fec f ≡ true → is_some i ≡ true)
    → Keeps s (attach_pw s f i)
unfolding attach_pw
attach_pw-Keeps s (Fec.ipv4 a l) i h = Keeps-refl s
attach_pw-Keeps s (Fec.ipv6 a l) i h = Keeps-refl s
attach_pw-Keeps s (Fec.pwid t a r) i h =
    set_fn-Keeps s _ _
      λ n. record { downs = refl; ups = refl; has = λ k. k; routed = λ k. k; pws = λ _. h refl }

attach_pw-has :
    (s : Lde) (i : Option ℕ) (f : Fec)
    → is_some (get_fn s f) ≡ true
    → (is_pw_fec f ≡ true → is_some i ≡ true)
    → is_pw_fec f ≡ true
    → pw_of (get_fn (attach_pw s f i) f) ≡ true
unfolding attach_pw
attach_pw-has s i (Fec.ipv4 a l) h k w = cc
attach_pw-has s i (Fec.ipv6 a l) h k w = cc
attach_pw-has s i (Fec.pwid t a r) h k w =
    rw
      (
        find-update fec_order s.ft (Fec.pwid t a r) (λ (n : FecNode). record n { pw = i })
            (Fec.pwid t a r),
        same_refl fec_order (Fec.pwid t a r),
      )
      (at_node (get_fn s (Fec.pwid t a r)) h)
  where
    at_node :
        (o : Option FecNode)
        → is_some o ≡ true
        → pw_of (Option.map (λ (n : FecNode). record n { pw = i }) o) ≡ true
    at_node none h = cc
    at_node (some n) h = k w

attach_pw-Usable :
    (s : Lde) (f : Fec) (i : Option ℕ)
    → is_some (get_fn s f) ≡ true
    → (is_pw_fec f ≡ true → is_some i ≡ true)
    → Usable (attach_pw s f i) f
attach_pw-Usable s f i h k = record {
  node = (attach_pw-Keeps s f i k).has f h;
  pw = attach_pw-has s i f h k;
}

-- A next hop more or fewer, or another pseudowire, for one class.
module _ (s : Lde) (f : Fec) (h : FecNode → FecNode)
    (downs : (n : FecNode) → (h n).downstream ≡ n.downstream)
    (ups : (n : FecNode) → (h n).upstream ≡ n.upstream) where
  changed_views :
      (g : Fec)
      → (downs_of (get_fn (set_fn s f h) g) ≡ downs_of (get_fn s g))
        × (ups_of (get_fn (set_fn s f h) g) ≡ ups_of (get_fn s g))
        × (is_some (get_fn (set_fn s f h) g) ≡ is_some (get_fn s g))
  changed_views g = rw (find-update fec_order s.ft f h g) (cases (same fec_order f g) (get_fn s g))
    where
      cases :
          (b : Bool) (o : Option FecNode)
          → (downs_of (if b then Option.map h o else o) ≡ downs_of o)
            × (ups_of (if b then Option.map h o else o) ≡ ups_of o)
            × (is_some (if b then Option.map h o else o) ≡ is_some o)
      cases true none = (refl, refl, refl)
      cases true (some n) = (downs n, ups n, refl)
      cases false o = (refl, refl, refl)

  pub changed-Inv :
      Inv s
      → (is_pw_fec f ≡ true
          → routed_of (get_fn (set_fn s f h) f) ≡ true
          → pw_of (get_fn (set_fn s f h) f) ≡ true)
      → Inv (set_fn s f h)
  changed-Inv v at_f = record {
    linked = λ g q. rw ((changed_views g).0) (v.linked g q);
    sent_linked = λ g q. rw ((changed_views g).1) (v.sent_linked g q);
    pw_attached = λ g w r. elim (Bool-cases (same fec_order f g)) [
      | inl e ↦
          let same_g = (same_iff fec_order f g).0 e in
          subst
            (λ x.
              is_pw_fec x ≡ true
              → routed_of (get_fn (set_fn s f h) x) ≡ true
              → pw_of (get_fn (set_fn s f h) x) ≡ true)
            same_g at_f w r
      | inr e ↦
          let eq : get_fn (set_fn s f h) g ≡ get_fn s g =
            rw (find-update fec_order s.ft f h g, e) refl in
          ap pw_of eq ∙ v.pw_attached g w (sym (ap routed_of eq) ∙ r)
    ];
    tidy = record {
      nodes = update-IsSorted fec_order s.ft f h v.tidy.nodes;
      nbrs = v.tidy.nbrs;
      maps = v.tidy.maps;
    };
    no_fault = v.no_fault;
  }

-- A next hop is added, and the kernel learns of it.
add_nh-Safe :
    (s : Lde) (f : Fec) (x : FecNh)
    → Inv s
    → Usable s f
    → Safe s (set_fn s f (λ n. record n { nexthops = x ∷ n.nexthops }))
add_nh-Safe s f x v u = record {
  inv = changed-Inv s f h (λ n. refl) (λ n. refl) v (λ w r. pws f ∙ u.pw w);
  stays = record {
    has = λ g k. (changed_views s f h (λ n. refl) (λ n. refl) g).2 ∙ k;
    pws = λ g k. pws g ∙ k;
    present = λ p. refl;
  };
}
  where
    h : FecNode → FecNode
    h n = record n { nexthops = x ∷ n.nexthops }

    cases : (b : Bool) (o : Option FecNode) → pw_of (if b then Option.map h o else o) ≡ pw_of o
    cases true none = refl
    cases true (some n) = refl
    cases false o = refl

    pws : (g : Fec) → pw_of (get_fn (set_fn s f h) g) ≡ pw_of (get_fn s g)
    pws g = rw (find-update fec_order s.ft f h g) (cases (same fec_order f g) (get_fn s g))

add_nexthop-Safe :
    (s : Lde) (f : Fec) (af : Af) (nexthop priority : ℕ)
    → Inv s
    → Usable s f
    → Safe s (add_nexthop s f af nexthop priority)
unfolding add_nexthop
add_nexthop-Safe s f af nexthop priority v u =
    let k = add_nh-Safe s f (new_nh af nexthop priority) v u in
    Safe-trans k
      (Keeps-Safe k.inv (change_klabel-Keeps _ f _ (Inv-PwOk k.inv) (Stays-Usable k.stays u)))

-- The neighbor of a next hop is one of the tree.
by_lsrid :
    (t : List (ℕ × LdeNbr)) (id p : ℕ)
    → lde_nbr_find_by_lsrid t id ≡ some p
    → is_some (find peer_order t p) ≡ true
unfolding lde_nbr_find_by_lsrid
by_lsrid [] id p h = cc
by_lsrid ((q, l) ∷ t) id p h =
    at_if (λ (o : Option ℕ). o ≡ some p → is_some (find peer_order ((q, l) ∷ t) p) ≡ true)
      (λ _ e. ground (arith, e, head_found peer_order q l t))
      (λ _ e. tail_found peer_order q l t p (by_lsrid t id p e)) h

by_addr :
    (t : List (ℕ × LdeNbr)) (af : Af) (a p : ℕ)
    → lde_nbr_find_by_addr t af a ≡ some p
    → is_some (find peer_order t p) ≡ true
unfolding lde_nbr_find_by_addr
by_addr [] af a p h = cc
by_addr ((q, l) ∷ t) af a p h =
    at_if (λ (o : Option ℕ). o ≡ some p → is_some (find peer_order ((q, l) ∷ t) p) ≡ true)
      (λ _ e. ground (arith, e, head_found peer_order q l t))
      (λ _ e. tail_found peer_order q l t p (by_addr t af a p e)) h

nexthop_nbr-present :
    (s : Lde) (f : Fec) (af : Af) (a p : ℕ)
    → nexthop_nbr s f af a ≡ some p
    → is_some (get_ln s p) ≡ true
unfolding nexthop_nbr
nexthop_nbr-present s (Fec.ipv4 x l) af a p h = by_addr s.nbrs af a p h
nexthop_nbr-present s (Fec.ipv6 x l) af a p h = by_addr s.nbrs af a p h
nexthop_nbr-present s (Fec.pwid t i r) af a p h = by_lsrid s.nbrs r p h

take_up_mapping-Safe :
    (s : Lde) (f : Fec) (af : Af) (nexthop : ℕ) → Inv s → Safe s (take_up_mapping s f af nexthop)
unfolding take_up_mapping
take_up_mapping-Safe s f af nexthop v =
    at_on (Safe s) (λ _. Safe-refl v)
      λ p e.
        let h = nexthop_nbr-present s f af nexthop p e in
        at_on (Safe s) (λ k. absurd (lost k h))
          λ l _. at_on (Safe s) (λ _. Safe-refl v) (λ me _. check_mapping-Safe s me p v h)

-- lde_kernel_insert: a pseudowire class comes with its pseudowire, and is not a connected route.
pub kernel_insert-Safe :
    (s : Lde) (f : Fec) (af : Af) (nexthop priority : ℕ) (connected : Bool) (i : Option ℕ)
    → Inv s
    → (is_pw_fec f ≡ true → is_some i ≡ true)
    → (connected ≡ true → is_pw_fec f ≡ false)
    → Safe s (lde_kernel_insert s f af nexthop priority connected i)
unfolding lde_kernel_insert
kernel_insert-Safe s f af nexthop priority connected i v hi hc =
    let k0 = Keeps-Safe v (ensure_fec-Keeps s f) in
    let h0 = ensure_fec-has s f in
    at_on (Safe s) (λ e. absurd (lost e h0))
      λ n _.
        at_if (Safe s) (λ _. k0)
          λ _.
            let k1 = Safe-trans k0 (Keeps-Safe k0.inv (attach_pw-Keeps (ensure_fec s f) f i hi)) in
            let u1 = attach_pw-Usable (ensure_fec s f) f i h0 hi in
            let k2 = label_route-Safe _ f connected k1.inv u1.node hc in
            let k3 = add_nexthop-Safe _ f af nexthop priority k2.inv (Stays-Usable k2.stays u1) in
            Safe-trans k1
              (Safe-trans k2 (Safe-trans k3 (take_up_mapping-Safe _ f af nexthop k3.inv)))
