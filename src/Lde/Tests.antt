-- ===== src/Lde/Tests.antt =====
-- Runs of the label decision engine: a neighbor, its address, a route through it, and its label.
use openbsd_ldpd.Base.{none, Option, ◌≡◌, refl, true, false, some, [], is_some}
use openbsd_ldpd.Base.Branch.{if◌then◌else◌, on}
use openbsd_ldpd.Base.Branch
use openbsd_ldpd.RbTree.{find, insert}
use openbsd_ldpd.Fec.{Fec}
use openbsd_ldpd.Lde.{
  LdeNbr, Af, MapFec, LabelMap, zero_map, of_v4, no_label, Pw, Lde, get_fn, get_ln,
}
use openbsd_ldpd.Lde.Convert.{lde_map2fec, lde_fec2map, lsr_of, map2fec-fec2map}
use openbsd_ldpd.Lde.Dispatch.{Event, dispatch}
use openbsd_ldpd.Lde.Peers.{lde_nbr_new}
use openbsd_ldpd.Lde.Steps.{lde_start, Reachable}
use openbsd_ldpd.Lde.Links.{Inv, recv, count, downs_of, ups_of}
use openbsd_ldpd.Lde.Links.Stores.{recorded}
use openbsd_ldpd.Lde.Links.Collect.{live}
use openbsd_ldpd.Lde.Safety.{
  Reachable-Inv, down_leaves_no_mapping, mapping_is_recorded, withdraw_forgets, gc_removes_the_dead,
}

abbrev no_pw : Pw
no_pw = record {
  lsr_id = 0;
  af = Af.inet;
  addr = 0;
  pwid = 0;
  mtu = 0;
  pw_type = 0;
  remote_group = 0;
  remote_mtu = 0;
  remote_status = 0;
  statustlv_conf = false;
  statustlv = false;
  cword_conf = false;
  cword = false;
  status_up = false;
}

-- The engine with no pseudowire, before and after neighbor 1 comes up.
abbrev empty : Lde
empty = lde_start (λ i. no_pw) [] false false

abbrev up : Lde
up = dispatch empty (Event.neighbor_up 1 7 true false)

-- A mapping of label 100 for 10.0.0.0/8.
abbrev ten_map : LabelMap
ten_map = record (zero_map (MapFec.prefix Af.inet (of_v4 167772160) 8)) { label = 100 }

abbrev learnt : Lde
learnt = dispatch up (Event.label_mapping 1 ten_map)

up-Reachable : Reachable up
unfolding find
up-Reachable =
    Reachable.step empty (Event.neighbor_up 1 7 true false)
      (Reachable.start (λ i. no_pw) [] false false) refl

learnt-Reachable : Reachable learnt
learnt-Reachable = Reachable.step up (Event.label_mapping 1 ten_map) up-Reachable tt

one_is_up : is_some (get_ln up 1) ≡ true
unfolding dispatch lde_nbr_new find insert Branch.if◌then◌else◌
one_is_up = refl

Reachable-Inv_example : Inv learnt
Reachable-Inv_example = Reachable-Inv learnt learnt-Reachable

down_leaves_no_mapping_example :
    (count 1 (downs_of (get_fn (dispatch learnt (Event.neighbor_down 1)) (Fec.ipv4 167772160 8)))
      ≡ 0)
    × (count 1 (ups_of (get_fn (dispatch learnt (Event.neighbor_down 1)) (Fec.ipv4 167772160 8)))
        ≡ 0)
    × ((dispatch learnt (Event.neighbor_down 1)).fault ≡ false)
down_leaves_no_mapping_example =
    down_leaves_no_mapping learnt 1 (Fec.ipv4 167772160 8) learnt-Reachable

mapping_is_recorded_example : recorded (get_ln learnt 1) (lde_map2fec ten_map.fec 0) ≡ some ten_map
mapping_is_recorded_example =
    mapping_is_recorded up 1 ten_map Af.inet (of_v4 167772160) 8 up-Reachable one_is_up refl

map2fec-fec2map_example :
    lde_map2fec (lde_fec2map (Fec.pwid 5 100 7)).fec (lsr_of (Fec.pwid 5 100 7) 0)
    ≡ Fec.pwid 5 100 7
map2fec-fec2map_example = map2fec-fec2map (Fec.pwid 5 100 7) 0

-- The withdraw of that mapping.
abbrev ten_withdraw : LabelMap
ten_withdraw = record ten_map { label = no_label }

recorded_is_up :
    (o : Option LdeNbr) (f : Fec) (m : LabelMap) → recorded o f ≡ some m → is_some o ≡ true
recorded_is_up none f m h = cc
recorded_is_up (some l) f m h = refl

one_stays_up : is_some (get_ln learnt 1) ≡ true
one_stays_up =
    recorded_is_up (get_ln learnt 1) _ ten_map
      (mapping_is_recorded up 1 ten_map Af.inet (of_v4 167772160) 8 up-Reachable one_is_up refl)

withdraw_forgets_example :
    recv (dispatch learnt (Event.label_withdraw 1 ten_withdraw)) 1 (lde_map2fec ten_withdraw.fec 0)
    ≡ false
withdraw_forgets_example =
    withdraw_forgets learnt 1 ten_withdraw Af.inet (of_v4 167772160) 8 learnt-Reachable one_stays_up
      refl refl

gc_removes_the_dead_example :
    get_fn (dispatch learnt Event.gc_timer) (Fec.ipv4 167772160 8)
    ≡ live (get_fn learnt (Fec.ipv4 167772160 8))
gc_removes_the_dead_example = gc_removes_the_dead learnt (Fec.ipv4 167772160 8) learnt-Reachable
