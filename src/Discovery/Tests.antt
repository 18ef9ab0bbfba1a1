-- ===== src/Discovery/Tests.antt =====
-- Discovery at concrete inputs: a first hello, a router that changes its LSR id, an interface that goes down.
use openbsd_ldpd.Base.{
  ℕ, ◌≡◌, ◌≢◌, inl, inr, refl, ap, true, false, none, some, [], ◌∷◌, length, arith,
}
use openbsd_ldpd.Lde.{Af, of_v4}
use openbsd_ldpd.Nbr.{nbr_new}
use openbsd_ldpd.Discovery.{
  HelloSource, Adj, Neighbor, AfConf, LeConf, Disc, nbr_find_ldpid, nbr_find_addr,
}
use openbsd_ldpd.Discovery.Adjacency.{adj_find}
use openbsd_ldpd.Discovery.Hello.{Heard, Connect, process_hello, bad_addr}
use openbsd_ldpd.Discovery.Interface.{Iface, if_new, if_update_af}
use openbsd_ldpd.Discovery.Interface.States.{Runs, if_update_af-Runs}
use openbsd_ldpd.Discovery.Lists.{Has}
use openbsd_ldpd.Discovery.Tree.{IdTree}
use openbsd_ldpd.Discovery.View.{view}
use openbsd_ldpd.Discovery.Safety.{Reachable, disc_start, Reachable-IsWell}
use openbsd_ldpd.Discovery.Orphans.{IsOrphan, new_id_orphans}

abbrev af_conf : AfConf
af_conf = record {
  thello_accept = true;
  thello_holdtime = 45;
  thello_interval = 5;
  trans_addr = of_v4 16843009;
  disc_socket = true;
  edisc_socket = true;
}

abbrev conf : LeConf
conf = record { rtr_id = 16843009; ipv4 = af_conf; ipv6 = af_conf; trans_pref = 6 }

abbrev source : ℕ
source = of_v4 167772162

-- A link hello with the transport address 2.2.2.2.
abbrev first_hello : Heard
first_hello = record {
  holdtime = 15;
  targeted = false;
  req_targ = false;
  gtsm = true;
  addr = some (of_v4 33686018);
  seqnum = some 1;
  pref = none;
}

abbrev one_neighbor : Disc
one_neighbor = process_hello conf disc_start 33686018 Af.inet source 1 15 first_hello Connect.unable

abbrev the_adj : Adj
the_adj = record {
  ptr = 1;
  lsr_id = 33686018;
  nbr = some 33686018;
  source = HelloSource.link 1 Af.inet source;
  holdtime = 15;
  inactivity_timer = some 15;
  trans_addr = of_v4 33686018;
}

one_neighbor_adj : one_neighbor.adj_list ≡ the_adj ∷ []
unfolding process_hello
one_neighbor_adj = refl

first_reached : Reachable one_neighbor
unfolding process_hello
first_reached =
    Reachable.hello conf disc_start 33686018 Af.inet source 1 15 first_hello Connect.unable
      Reachable.start (λ s a e f. absurd (cc)) (λ n m. absurd m)

-- The same source, as 3.3.3.3.
abbrev renamed_hello : Heard
renamed_hello = record first_hello { addr = some (of_v4 50529027) }

other_id : (n : ℕ) → n ≡ 33686018 → n ≢ 50529027
other_id n e f = absurd (omega (arith, e, f))

no_such_id : (b : Adj) → Has b one_neighbor.adj_list → b.lsr_id ≢ 50529027
unfolding process_hello
no_such_id b (inl e) q = other_id b.lsr_id (ap (λ (x : Adj). x.lsr_id) e) q
no_such_id b (inr h) q = absurd h

new_id_orphans_example :
    IsOrphan
      (view
        (process_hello conf one_neighbor 50529027 Af.inet source 1 15 renamed_hello Connect.unable))
      50529027
unfolding process_hello adj_find nbr_find_ldpid nbr_find_addr bad_addr
new_id_orphans_example =
    new_id_orphans conf one_neighbor the_adj 50529027 Af.inet source 1 15 (of_v4 50529027)
      renamed_hello Connect.unable (Reachable-IsWell first_reached) refl refl refl refl refl refl
      refl no_such_id

-- An interface that runs, with a link that went down.
abbrev unplugged : Iface
unplugged =
    let x = if_new 1 true false in
    record x {
      addr_list = record { af = Af.inet; addr = source; prefixlen = 24; dstbrd = 0 } ∷ [];
      ipv4 = record {
        enabled = true;
        active = true;
        uptime = 0;
        hello_timer = some 5;
        hello_holdtime = 15;
        hello_interval = 5;
      };
    }

if_update_af-Runs_example :
    Runs conf Af.inet true (if_update_af conf (λ i af. true) one_neighbor unplugged Af.inet)
if_update_af-Runs_example = if_update_af-Runs conf (λ i af. true) one_neighbor unplugged Af.inet

-- The neighbor goes with its last adjacency.
unplugged_nbrs :
    let r = if_update_af conf (λ i af. true) one_neighbor unplugged Af.inet in
    (length r.0.adj_list ≡ 0) × (length r.0.nbrs ≡ 0) × (r.1.ipv4.active ≡ false)
unfolding process_hello if_update_af
unplugged_nbrs = (refl, refl, refl)

-- 10.0.0.2 in a tree of its own.
abbrev neighbor : Neighbor
neighbor = record {
  id = 167772162;
  af = Af.inet;
  ds_tlv = false;
  laddr = 0;
  raddr = source;
  raddr_scope = 0;
  conf_seqnum = 0;
  gtsm_negotiated = false;
  session = nbr_new true false;
}

abbrev a_tree : IdTree
a_tree = IdTree.node IdTree.leaf neighbor IdTree.leaf
