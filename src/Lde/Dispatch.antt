-- ===== src/Lde/Dispatch.antt =====
-- The messages that the label decision engine receives, from the LDP engine and from the parent
-- (lde_dispatch_imsg and lde_dispatch_parent of lde.c), and its collector timer. A message about a
-- peer that is not known is dropped.
use openbsd_ldpd.Base.{ℕ, Bool, true, false, none, is_some}
use openbsd_ldpd.Base.Branch.{if◌then◌else◌}
use openbsd_ldpd.Fec.{Fec}
use openbsd_ldpd.Lde.{Af, MapFec, LabelMap, LdeAddr, Lde, get_ln}
use openbsd_ldpd.Lde.Check.{
  lde_check_mapping, lde_check_request, lde_check_release, lde_check_release_wcard,
  lde_check_withdraw, lde_check_withdraw_wcard,
}
use openbsd_ldpd.Lde.Peers.{lde_nbr_new, lde_nbr_del, lde_address_add, lde_address_del}
use openbsd_ldpd.Lde.Routes.{
  lde_kernel_insert, lde_kernel_remove, l2vpn_pw_init, l2vpn_pw_exit, l2vpn_recv_pw_status,
  fec_snap, lde_change_egress_label, lde_gc_timer,
}

pub data Event : Type 0 where
  label_mapping_full : (peerid : ℕ) → Event
  label_mapping label_request label_release label_withdraw : (peerid : ℕ) → LabelMap → Event
  address_add address_del : (peerid : ℕ) → LdeAddr → Event
  pw_status : (peerid : ℕ) → LabelMap → (status : ℕ) → Event
  neighbor_up : (peerid id : ℕ) (v4_enabled v6_enabled : Bool) → Event
  neighbor_down : (peerid : ℕ) → Event
  network_add network_del : (af : Af) (prefix prefixlen nexthop priority : ℕ) → Bool → Event
  pw_init pw_exit : ℕ → Event
  egress_label : Af → (was_implicit : Bool) → Event
  gc_timer : Event

-- The class of a kernel route.
abbrev pub route_fec : Af → ℕ → ℕ → Fec
route_fec Af.inet prefix l = Fec.ipv4 prefix l
route_fec Af.inet6 prefix l = Fec.ipv6 prefix l

-- `if (ln == NULL) break;`
abbrev pub for_peer : Lde → ℕ → Lde → Lde
for_peer s p t = if is_some (get_ln s p) then t else s

abbrev pub is_wildcard : MapFec → Bool
is_wildcard MapFec.wildcard = true
is_wildcard _ = false

unfoldable pub dispatch : Lde → Event → Lde
dispatch s (Event.label_mapping_full p) = for_peer s p (fec_snap s p)
dispatch s (Event.label_mapping p m) = for_peer s p (lde_check_mapping s m p)
dispatch s (Event.label_request p m) = for_peer s p (lde_check_request s m p)
dispatch s (Event.label_release p m) =
    for_peer s p
      (if is_wildcard m.fec then lde_check_release_wcard s m p else lde_check_release s m p)
dispatch s (Event.label_withdraw p m) =
    for_peer s p
      (if is_wildcard m.fec then lde_check_withdraw_wcard s m p else lde_check_withdraw s m p)
dispatch s (Event.address_add p a) = for_peer s p (lde_address_add s p a).0
dispatch s (Event.address_del p a) = for_peer s p (lde_address_del s p a).0
dispatch s (Event.pw_status p m status) = for_peer s p (l2vpn_recv_pw_status s p m status)
dispatch s (Event.neighbor_up p id v4 v6) = lde_nbr_new s p id v4 v6
dispatch s (Event.neighbor_down p) = lde_nbr_del s p
dispatch s (Event.network_add af a l nh prio connected) =
    lde_kernel_insert s (route_fec af a l) af nh prio connected none
dispatch s (Event.network_del af a l nh prio connected) =
    lde_kernel_remove s (route_fec af a l) af nh prio
dispatch s (Event.pw_init i) = l2vpn_pw_init s i
dispatch s (Event.pw_exit i) = l2vpn_pw_exit s i
dispatch s (Event.egress_label af was) = lde_change_egress_label s af was
dispatch s Event.gc_timer = lde_gc_timer s
