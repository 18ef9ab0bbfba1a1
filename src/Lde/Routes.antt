-- ===== src/Lde/Routes.antt =====
-- Routes of the kernel, egress labels and the collector of dead nodes: lde_kernel_insert,
-- lde_kernel_remove, egress_label, fec_snap and lde_gc_timer of lde_lib.c, lde_change_egress_label
-- of lde.c, and l2vpn_pw_init, l2vpn_pw_exit and l2vpn_recv_pw_status of l2vpn.c.
use openbsd_ldpd.Base.{
  ℕ, ◌&&◌, not, Bool, true, false, Option, none, some, ◌∷◌, ◌==◌, leb, for_each, is_some,
}
use openbsd_ldpd.Base.Branch.{if◌then◌else◌, on}
use openbsd_ldpd.RbTree.{find, remove}
use openbsd_ldpd.Fec.{Fec}
use openbsd_ldpd.Fec.Order.{fec_order}
use openbsd_ldpd.Lde.{
  Af, LabelMap, no_label, of_v4, FecNh, FecNode, Imsg, Lde, get_fn, set_fn, with_fn, with_ln, emit,
  fail, set_pw, fec_nh_find, fec_nh_del, keys, is_nil,
}
use openbsd_ldpd.Lde.Convert.{lde_map2fec}
use openbsd_ldpd.Lde.Kernel.{
  lde_send_change_klabel, lde_send_delete_klabel, l2vpn_pw_fec, l2vpn_pw_ok,
}
use openbsd_ldpd.Lde.Send.{
  lde_assign_label, lde_send_labelmapping, lde_send_labelwithdraw_all, withdraw_wildcard,
}
use openbsd_ldpd.Lde.Check.{ensure_fec, lde_check_mapping}
use openbsd_ldpd.Lde.Peers.{lde_nbr_find_by_lsrid, lde_nbr_find_by_addr, l2vpn_pw_reset}

-- MPLS_LABEL_IPV4NULL, MPLS_LABEL_IPV6NULL, MPLS_LABEL_IMPLNULL and MPLS_LABEL_RESERVED_MAX of the
-- system's netmpls/mpls.h.
abbrev pub label_ipv4null : ℕ
label_ipv4null = 0

abbrev pub label_ipv6null : ℕ
label_ipv6null = 2

abbrev pub label_implnull : ℕ
label_implnull = 3

abbrev pub label_reserved_max : ℕ
label_reserved_max = 15

-- egress_label; fatalx at a pseudowire.
unfoldable pub egress_label : Lde → Fec → Option ℕ
egress_label s (Fec.ipv4 a l) = some (if s.exp_null_v4 then label_ipv4null else label_implnull)
egress_label s (Fec.ipv6 a l) = some (if s.exp_null_v6 then label_ipv6null else label_implnull)
egress_label s (Fec.pwid t a r) = none

abbrev pub set_local : Lde → Fec → ℕ → Lde
set_local s f label = set_fn s f (λ n. record n { local_label = label })

-- The local label of a class that has none, and its distribution to all neighbors (FEC.1).
unfoldable pub choose_label : Lde → Fec → Bool → Lde
choose_label s f connected =
    if connected
    then on (egress_label s f) (fail s) (λ label. set_local s f label)
    else (let (s1, label) = lde_assign_label s in set_local s1 f label)

unfoldable pub distribute : Lde → Fec → Lde
distribute s f = for_each (keys s.nbrs) (λ t p. lde_send_labelmapping t p f true) s

unfoldable pub label_route : Lde → Fec → Bool → Lde
label_route s f connected =
    with_fn s f
      λ n. if n.local_label == no_label then distribute (choose_label s f connected) f else s

-- fn->data = data, for a pseudowire.
unfoldable pub attach_pw : Lde → Fec → Option ℕ → Lde
attach_pw s (Fec.pwid t a r) i = set_fn s (Fec.pwid t a r) (λ n. record n { pw = i })
attach_pw s f i = s

abbrev pub new_nh : Af → ℕ → ℕ → FecNh
new_nh af nexthop priority = record {
  af = af;
  nexthop = nexthop;
  remote_label = no_label;
  priority = priority;
}

-- The neighbor that the next hop belongs to.
unfoldable pub nexthop_nbr : Lde → Fec → Af → ℕ → Option ℕ
nexthop_nbr s (Fec.pwid t a r) af nexthop = lde_nbr_find_by_lsrid s.nbrs r
nexthop_nbr s f af nexthop = lde_nbr_find_by_addr s.nbrs af nexthop

-- FEC.2 to FEC.5: a mapping that came before the route is taken up.
unfoldable pub take_up_mapping : Lde → Fec → Af → ℕ → Lde
take_up_mapping s f af nexthop =
    on (nexthop_nbr s f af nexthop) s
      (λ p. with_ln s p λ l. on (find fec_order l.recv_map f) s (λ me. lde_check_mapping s me p))

unfoldable pub add_nexthop : Lde → Fec → Af → ℕ → ℕ → Lde
add_nexthop s f af nexthop priority =
    let h = new_nh af nexthop priority in
    lde_send_change_klabel (set_fn s f (λ n. record n { nexthops = h ∷ n.nexthops })) f h

unfoldable pub lde_kernel_insert : Lde → Fec → Af → ℕ → ℕ → Bool → Option ℕ → Lde
lde_kernel_insert s f af nexthop priority connected i =
    let s1 = ensure_fec s f in
    with_fn s1 f λ n.
      if is_some (fec_nh_find n.nexthops af nexthop priority)
      then s1
      else take_up_mapping
          (add_nexthop (label_route (attach_pw s1 f i) f connected) f af nexthop priority) f af
          nexthop

-- When the last next hop is gone, the label is withdrawn and forgotten.
unfoldable pub retire_label : Lde → Fec → Lde
retire_label s f = attach_pw (set_local (lde_send_labelwithdraw_all s f) f no_label) f none

unfoldable pub lde_kernel_remove : Lde → Fec → Af → ℕ → ℕ → Lde
lde_kernel_remove s f af nexthop priority = on (get_fn s f) s (λ n.
    on (fec_nh_find n.nexthops af nexthop priority) s (λ h.
      let s1 =
        set_fn (lde_send_delete_klabel s f h) f
          (λ m. record m { nexthops = fec_nh_del h m.nexthops }) in
      with_fn s1 f (λ m. if is_nil m.nexthops then retire_label s1 f else s1)))

unfoldable pub l2vpn_pw_init : Lde → ℕ → Lde
l2vpn_pw_init s i =
    let s1 = set_pw s i l2vpn_pw_reset in
    lde_kernel_insert s1 (l2vpn_pw_fec (s1.pws i)) Af.inet (of_v4 (s1.pws i).lsr_id) 0 false
      (some i)

unfoldable pub l2vpn_pw_exit : Lde → ℕ → Lde
l2vpn_pw_exit s i = lde_kernel_remove s (l2vpn_pw_fec (s.pws i)) Af.inet (of_v4 (s.pws i).lsr_id) 0

unfoldable pub l2vpn_recv_pw_status : Lde → ℕ → LabelMap → ℕ → Lde
l2vpn_recv_pw_status s p m status =
    if not m.flags.pw_id
    then s
    else with_ln s p λ l.
      let f = lde_map2fec m.fec l.id in
      on (get_fn s f) s (λ n. on n.pw s (λ i.
        on (fec_nh_find n.nexthops Af.inet (of_v4 l.id) 0) s (λ h.
          if (s.pws i).remote_status == status
          then s
          else (let s1 = set_pw s i (λ w. record w { remote_status = status }) in
              if l2vpn_pw_ok s1 (s1.pws i) h
              then lde_send_change_klabel s1 f h
              else lde_send_delete_klabel s1 f h))))

-- fec_snap: the mappings of all classes with a label go to a neighbor.
unfoldable pub snap_one : ℕ → Lde → Fec → Lde
snap_one p s f =
    with_fn s f λ n. if n.local_label == no_label then s else lde_send_labelmapping s p f false

unfoldable pub fec_snap : Lde → ℕ → Lde
fec_snap s p = emit (for_each (keys s.ft) (snap_one p) s) (Imsg.mapping_add_end p)

-- lde_change_egress_label
abbrev pub is_af_fec : Af → Fec → Bool
is_af_fec Af.inet (Fec.ipv4 a l) = true
is_af_fec Af.inet6 (Fec.ipv6 a l) = true
is_af_fec af f = false

unfoldable pub readvertise : Af → ℕ → Lde → Fec → Lde
readvertise af p s f = with_fn s f λ n.
    if leb n.local_label label_reserved_max && is_af_fec af f
    then on (egress_label s f) (fail s)
        (λ label. lde_send_labelmapping (set_local s f label) p f false)
    else s

unfoldable pub withdraw_egress : Lde → ℕ → Bool → Lde
withdraw_egress s p was_implicit = with_ln s p λ l.
    if was_implicit
    then withdraw_wildcard s p label_implnull
    else (let s1 = if l.v4_enabled then withdraw_wildcard s p label_ipv4null else s in
        if l.v6_enabled then withdraw_wildcard s1 p label_ipv6null else s1)

unfoldable pub lde_change_egress_label : Lde → Af → Bool → Lde
lde_change_egress_label s af was_implicit =
    for_each (keys s.nbrs)
      (λ t p.
        let t1 = withdraw_egress t p was_implicit in
        emit (for_each (keys t1.ft) (readvertise af p) t1) (Imsg.mapping_add_end p))
      s

-- lde_gc_timer: a node with no next hop and no mapping is removed.
unfoldable pub is_dead : FecNode → Bool
is_dead n = is_nil n.nexthops && is_nil n.downstream && is_nil n.upstream

unfoldable pub gc_one : Lde → Fec → Lde
gc_one s f = with_fn s f λ n. if is_dead n then record s { ft = remove fec_order s.ft f } else s

unfoldable pub lde_gc_timer : Lde → Lde
lde_gc_timer s = for_each (keys s.ft) gc_one s
