-- ===== src/Lde/Peers.antt =====
-- The neighbors of the label decision engine and their addresses: lde_nbr_* and lde_address_* of
-- lde.c, and l2vpn_pw_reset of l2vpn.c.
use openbsd_ldpd.Base.{
  ℕ, ◌&&◌, Bool, true, false, Option, none, some, List, [], ◌∷◌, ◌++◌, ◌==◌, for_each, is_some,
}
use openbsd_ldpd.Base.Branch.{if◌then◌else◌, on}
use openbsd_ldpd.RbTree.{insert, remove}
use openbsd_ldpd.Fec.{Fec}
use openbsd_ldpd.Lde.{
  Af, af_eq, addr_eq, LabelMap, FecNh, LdeAddr, LdeNbr, Pw, Lde, peer_order, get_ln, set_ln,
  with_fn, with_ln, fail, set_pw, lde_address_find, keys,
}
use openbsd_ldpd.Lde.Send.{lde_map_del}
use openbsd_ldpd.Lde.Check.{drop_label, learn_label, each_nexthop, concerns}

unfoldable pub l2vpn_pw_reset : Pw → Pw
l2vpn_pw_reset w = record w {
  remote_group = 0;
  remote_mtu = 0;
  remote_status = 0;
  cword = w.cword_conf;
  statustlv = w.statustlv_conf;
}

-- lde_nbr_new; RB_INSERT fails, and the program ends, if the peer id is taken.
unfoldable pub lde_nbr_new : Lde → ℕ → ℕ → Bool → Bool → Lde
lde_nbr_new s p id v4 v6 = if is_some (get_ln s p) then fail s else record s {
  nbrs = insert peer_order s.nbrs p (record {
    id = id;
    v4_enabled = v4;
    v6_enabled = v6;
    recv_req = [];
    sent_req = [];
    recv_map = [];
    sent_map = [];
    sent_wdraw = [];
    addr_list = [];
  });
}

-- The pseudowire of a class, if the neighbor is its end, loses what was negotiated.
abbrev pub reset_pw : LdeNbr → Lde → Fec → Lde
reset_pw l s (Fec.pwid t a r) =
    if r == l.id
    then with_fn s (Fec.pwid t a r) (λ n. on n.pw s (λ i. set_pw s i l2vpn_pw_reset))
    else s
reset_pw l s f = s

-- lde_nbr_del: the labels of one class that come from the neighbor are uninstalled.
unfoldable pub uninstall_one : ℕ → Lde → Fec → Lde
uninstall_one p s f =
    with_ln s p
      λ l. each_nexthop s f (λ u h. if concerns l f h then drop_label f (reset_pw l u f) h else u)

-- fec_clear of recv_map and of sent_map, with lde_map_free.
unfoldable pub clear_maps : Lde → ℕ → Lde
clear_maps s p = with_ln s p λ l.
    for_each (keys l.sent_map) (λ u f. lde_map_del u p f true)
      (for_each (keys l.recv_map) (λ u f. lde_map_del u p f false) s)

-- The lists of requests, withdraws and addresses are freed with the neighbor.
unfoldable pub lde_nbr_del : Lde → ℕ → Lde
lde_nbr_del s p =
    if is_some (get_ln s p)
    then (let s1 = clear_maps (for_each (keys s.ft) (uninstall_one p) s) p in
        record s1 { nbrs = remove peer_order s1.nbrs p })
    else s

unfoldable pub lde_nbr_find_by_lsrid : List (ℕ × LdeNbr) → ℕ → Option ℕ
lde_nbr_find_by_lsrid [] id = none
lde_nbr_find_by_lsrid ((p, l) ∷ t) id = if l.id == id then some p else lde_nbr_find_by_lsrid t id

unfoldable pub lde_nbr_find_by_addr : List (ℕ × LdeNbr) → Af → ℕ → Option ℕ
lde_nbr_find_by_addr [] af addr = none
lde_nbr_find_by_addr ((p, l) ∷ t) af addr =
    if lde_address_find l.addr_list af addr then some p else lde_nbr_find_by_addr t af addr

-- The first next hop with the address, which ends the inner loop of lde_nbr_addr_update.
unfoldable pub nh_at : List FecNh → ℕ → Option FecNh
nh_at [] addr = none
nh_at (h ∷ hs) addr = if addr_eq h.af h.nexthop addr then some h else nh_at hs addr

abbrev pub fec_has_af : Fec → Af → Bool
fec_has_af (Fec.ipv4 a l) Af.inet = true
fec_has_af (Fec.ipv6 a l) Af.inet6 = true
fec_has_af f af = false

-- The body of lde_nbr_addr_update for a class and the mapping received for it.
unfoldable pub addr_update_one : LdeAddr → Bool → Lde → Fec × LabelMap → Lde
addr_update_one a removed s (f, me) =
    if fec_has_af f a.af
    then with_fn s f (λ n.
      on (nh_at n.nexthops a.addr) s
        (λ h. if removed then drop_label f s h else learn_label f me.label s h))
    else s

unfoldable pub lde_nbr_addr_update : Lde → ℕ → LdeAddr → Bool → Lde
lde_nbr_addr_update s p a removed =
    with_ln s p λ l. for_each l.recv_map (addr_update_one a removed) s

unfoldable pub address_del : LdeAddr → List LdeAddr → List LdeAddr
address_del a [] = []
address_del a (b ∷ bs) =
    if af_eq b.af a.af && addr_eq a.af b.addr a.addr then bs else b ∷ address_del a bs

-- An address that is there already is refused (-1).
unfoldable pub lde_address_add : Lde → ℕ → LdeAddr → Lde × Bool
lde_address_add s p a =
    on (get_ln s p) (fail s, false)
      (λ l.
        if lde_address_find l.addr_list a.af a.addr
        then (s, false)
        else (let s1 = set_ln s p (λ k. record k { addr_list = k.addr_list ++ a ∷ [] }) in
            (lde_nbr_addr_update s1 p a false, true)))

-- An address that is not there is refused (-1).
unfoldable pub lde_address_del : Lde → ℕ → LdeAddr → Lde × Bool
lde_address_del s p a =
    on (get_ln s p) (fail s, false)
      (λ l.
        if lde_address_find l.addr_list a.af a.addr
        then (let s1 = lde_nbr_addr_update s p a true in
            (set_ln s1 p (λ k. record k { addr_list = address_del a k.addr_list }), true))
        else (s, false))
