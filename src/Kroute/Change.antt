-- ===== src/Kroute/Change.antt =====
-- kroute.c: the messages to the kernel, the labels of routes, and the removal of routes. `write` says what
-- writev does with a message.
use openbsd_ldpd.Base.{
  ℕ, Bool, true, false, not, Option, none, some, List, [], ◌∷◌, ◌++◌, map, if◌then◌else◌, ◌&&◌,
  ◌||◌, ◌==◌, ltb, for_each,
}
use mathlib.Core.Option
use openbsd_ldpd.Lde.{Af, af_eq, v4_of, no_label}
use openbsd_ldpd.Kroute.{
  Kroute, KroutePriority, KroutePrefix, RtAction, KrOut, KrState, kr_redist_remove, find_prefix,
  kroute_find_prefix, drop_prefix, put_prefix, kroute_find_prio, kroute_find_gw, is_gw, at_prio,
  redistribute, kroute_insert,
}

-- writev succeeds, or fails with ESRCH or another error.
pub data Written : Type 0 where
  written missing refused : Written

abbrev pub is_written : Written → Bool
is_written Written.written = true
is_written _ = false

-- What is written, and whether the call succeeds. The message of a change of an MPLS route that the kernel
-- does not have is sent again as an addition.
unfoldable pub write_rtmsg : (KrOut → Written) → RtAction → Bool → Kroute → List KrOut × Bool
write_rtmsg write action mpls kr =
    let m = KrOut.rtmsg action mpls kr in
    let n = KrOut.rtmsg RtAction.add mpls kr in
    elim (write m) [
      | Written.written ↦ (m ∷ [], true)
      | Written.refused ↦ ([], false)
      | Written.missing ↦ elim action [
        | RtAction.change ↦ if mpls && is_written (write n) then (n ∷ [], true) else ([], false)
        | _ ↦ ([], false)
      ]
    ]

abbrev pub is_kept : RtAction → Bool
is_kept RtAction.delete = false
is_kept _ = true

-- Routes of IPv6 are not sent, nor are reserved local labels and implicit null remote ones.
unfoldable pub send_rtmsg_v4 :
    (KrOut → Written) → Bool → RtAction → Kroute → Bool → List KrOut × Bool
unfolding write_rtmsg
send_rtmsg_v4 write fib_sync action kr mpls =
    if not fib_sync || (mpls && ltb kr.local_label 15)
    then ([], true)
    else if not mpls && is_kept action && kr.remote_label == 3
    then ([], true)
    else write_rtmsg write action mpls kr

unfoldable pub send_rtmsg : (KrOut → Written) → KrState → RtAction → Kroute → Bool → KrState × Bool
unfolding send_rtmsg_v4
send_rtmsg write s action kr mpls =
    let x : List KrOut × Bool =
      if af_eq kr.af Af.inet6 then ([], true) else send_rtmsg_v4 write s.fib_sync action kr mpls in
    (record s { out = s.out ++ x.0 }, x.1)

abbrev pub ldp_addrisset : Af → ℕ → Bool
ldp_addrisset Af.inet a = not (v4_of a == 0)
ldp_addrisset Af.inet6 a = not (a == 0)

-- The route has a next hop and a label to push.
abbrev pub is_labelled : Kroute → Bool
is_labelled r = ldp_addrisset r.af r.nexthop && not (r.remote_label == no_label)

-- An assignment to the route that kroute_find_gw finds, and its removal.
abbrev pub at_gw : Af → ℕ → (Kroute → Kroute) → List Kroute → List Kroute
at_gw af nh f [] = []
at_gw af nh f (r ∷ rs) = if is_gw af nh r then f r ∷ rs else r ∷ at_gw af nh f rs

abbrev pub drop_gw : Af → ℕ → List Kroute → List Kroute
drop_gw af nh [] = []
drop_gw af nh (r ∷ rs) = if is_gw af nh r then rs else r ∷ drop_gw af nh rs

abbrev pub set_route : KroutePrefix → Kroute → (Kroute → Kroute) → KroutePrefix
set_route kp kr f = record kp {
  priorities = at_prio kp.priorities kr.priority (at_gw kp.af kr.nexthop f);
}

-- The three lookups of kr_change, kr_delete, kroute_remove and rtmsg_process_route.
unfoldable pub find_route : KrState → Kroute → Option (KroutePrefix × Kroute)
unfolding find_prefix kroute_find_prio kroute_find_gw
find_route s kr = Option.bind (kroute_find_prefix s.krt kr) λ kp.
    Option.bind (kroute_find_prio kp.priorities kr.priority)
      λ p. Option.map (λ r. (kp, r)) (kroute_find_gw kp.af p.nexthops kr.nexthop)

abbrev pub label_with : Kroute → Kroute → Kroute
label_with kr r = record r {
  local_label = kr.local_label;
  remote_label = kr.remote_label;
  inserted = true;
}

-- kr_change; false is -1.
unfoldable pub kr_change : (KrOut → Written) → KrState → Kroute → KrState × Bool
unfolding find_route put_prefix send_rtmsg
kr_change write s kr = elim (find_route s kr) [
  | none ↦ (s, false)
  | some (kp, r) ↦
      let t = label_with kr r in
      let a = record s { krt = put_prefix s.krt (set_route kp kr (label_with kr)) } in
      let b = send_rtmsg write a (if r.inserted then RtAction.change else RtAction.add) t true in
      if b.1 && is_labelled t then send_rtmsg write b.0 RtAction.change t false else b
]

abbrev pub unlabel : Kroute → Kroute
unlabel r = record r { inserted = false; local_label = no_label; remote_label = no_label }

-- kr_delete.
unfoldable pub kr_delete : (KrOut → Written) → KrState → Kroute → KrState × Bool
unfolding find_route put_prefix send_rtmsg
kr_delete write s kr = elim (find_route s kr) [
  | none ↦ (s, true)
  | some (kp, r) ↦
      let b = send_rtmsg write s RtAction.delete r true in
      let c = record (b.0) { krt = put_prefix s.krt (set_route kp kr unlabel) } in
      if not r.inserted
      then (s, true)
      else if not b.1
      then b
      else if is_labelled r
      then send_rtmsg write c RtAction.change (unlabel r) false
      else (c, true)
]

-- kr_change_egress_label.
abbrev pub null_label : Bool → Af → ℕ
null_label false af = 3
null_label true Af.inet = 0
null_label true Af.inet6 = 2

abbrev pub egress : Bool → Kroute → Kroute
egress was_implicit r =
    if ltb 15 r.local_label then r else record r { local_label = null_label was_implicit r.af }

abbrev pub each_route : (Kroute → Kroute) → KroutePrefix → KroutePrefix
each_route f kp = record kp {
  priorities = map (λ (p : KroutePriority). record p { nexthops = map f p.nexthops }) kp.priorities;
}

unfoldable pub kr_change_egress_label : KrState → Af → Bool → KrState
kr_change_egress_label s af was_implicit = record s {
  krt =
      map
        (λ (kp : KroutePrefix). if af_eq kp.af af then each_route (egress was_implicit) kp else kp)
        s.krt;
}

-- kroute_remove; the message of kroute_uninstall may fail.
abbrev pub is_empty : List Kroute → Bool
is_empty [] = true
is_empty (r ∷ rs) = false

abbrev pub head : List Kroute → Option Kroute
head [] = none
head (r ∷ rs) = some r

-- The next hop goes, and its priority when that was the last.
abbrev pub keep_prio : KroutePriority → List Kroute → List KroutePriority → List KroutePriority
keep_prio p rs ps = if is_empty rs then ps else record p { nexthops = rs } ∷ ps

abbrev pub drop_at : Af → Kroute → List KroutePriority → List KroutePriority
drop_at af kr [] = []
drop_at af kr (p ∷ ps) =
    if kr.priority == 0 || p.priority == kr.priority
    then keep_prio p (drop_gw af kr.nexthop p.nexthops) ps
    else p ∷ drop_at af kr ps

abbrev pub drop_route : KroutePrefix → Kroute → List KroutePriority
drop_route kp kr = drop_at kp.af kr kp.priorities

unfoldable pub kroute_uninstall : (KrOut → Written) → KrState → Kroute → KrState
unfolding send_rtmsg
kroute_uninstall write s r = if r.inserted then (send_rtmsg write s RtAction.delete r true).0 else s

unfoldable pub leave : KrState → KroutePrefix → List KroutePriority → KrState
unfolding redistribute drop_prefix
leave s kp [] = record s { krt = drop_prefix s.krt kp }
leave s kp (p ∷ ps) = redistribute s kp (p ∷ ps)

unfoldable pub kroute_remove : (KrOut → Written) → KrState → Kroute → KrState × Bool
unfolding find_route kr_redist_remove kroute_uninstall leave
kroute_remove write s kr = elim (find_route s kr) [
  | none ↦ (s, false)
  | some (kp, r) ↦
      let x = kr_redist_remove r in
      let a = kroute_uninstall write (record s { out = s.out ++ x.1 }) x.0 in
      (leave a kp (drop_route kp kr), true)
]

-- rtmsg_process_route on the route that it makes of a message: a change of the only next hop, a deletion,
-- an update or an insertion.
pub data RtmType : Type 0 where
  rtm_change rtm_delete rtm_other : RtmType

abbrev pub first_gw : KrState → Kroute → Option Kroute
first_gw s kr =
    Option.bind (kroute_find_prefix s.krt kr)
      λ kp. Option.bind (kroute_find_prio kp.priorities kr.priority) λ p. head p.nexthops

unfoldable pub replace_first : (KrOut → Written) → KrState → RtmType → Kroute → KrState
unfolding find_prefix kroute_find_prio kroute_remove
replace_first write s RtmType.rtm_change kr = elim (first_gw s kr) [
  | none ↦ s
  | some r ↦ (kroute_remove write s r).0
]
replace_first write s _ kr = s

unfoldable pub take_route : KrState → Kroute → KrState
unfolding find_route redistribute kroute_insert
take_route s kr = elim (find_route s kr) [
  | none ↦ kroute_insert s (record kr { local_label = no_label; remote_label = no_label })
  | some (kp, r) ↦ redistribute s kp (set_route kp kr (λ q. kr)).priorities
]

abbrev pub is_found : Option (KroutePrefix × Kroute) → Bool
is_found none = false
is_found (some x) = true

-- memset, before the fields of the message are read: no labels and no flags of the daemon.
abbrev pub of_message : Kroute → Kroute
of_message kr = record kr {
  local_label = 0;
  remote_label = 0;
  inserted = false;
  redistributed = false;
}

abbrev pub process_route : (KrOut → Written) → KrState → RtmType → Kroute → KrState × Bool
process_route write s RtmType.rtm_delete kr =
    if is_found (find_route s kr) then kroute_remove write s kr else (s, true)
process_route write s type kr =
    let t = replace_first write s type kr in
    if not (ldp_addrisset kr.af kr.nexthop) && not kr.connected
    then (t, false)
    else (take_route t kr, true)

unfoldable pub rtmsg_process_route : (KrOut → Written) → KrState → RtmType → Kroute → KrState × Bool
unfolding replace_first find_route kroute_remove take_route
rtmsg_process_route write s type kr = process_route write s type (of_message kr)

-- kr_fib_couple and kr_fib_decouple, less the pseudowire interfaces.
abbrev pub first_routes : KroutePrefix → List Kroute
first_routes kp = elim kp.priorities [ [] ↦ [] | p ∷ ps ↦ p.nexthops ]

abbrev pub couple_route : (KrOut → Written) → KrState → Kroute → KrState
couple_route write s r =
    let a = (send_rtmsg write s RtAction.add r true).0 in
    if not r.inserted
    then s
    else if is_labelled r
    then (send_rtmsg write a RtAction.change r false).0
    else a

abbrev pub decouple_route : (KrOut → Written) → KrState → Kroute → KrState
decouple_route write s r =
    let a = (send_rtmsg write s RtAction.delete r true).0 in
    if not r.inserted
    then s
    else if is_labelled r
    then (send_rtmsg write a RtAction.change (record r { remote_label = no_label }) false).0
    else a

abbrev pub each_first : (KrState → Kroute → KrState) → KrState → KrState
each_first f s = for_each s.krt (λ t kp. for_each (first_routes kp) f t) s

unfoldable pub kr_fib_couple : (KrOut → Written) → KrState → KrState
unfolding send_rtmsg
kr_fib_couple write s =
    if s.fib_sync then s else each_first (couple_route write) (record s { fib_sync = true })

unfoldable pub kr_fib_decouple : (KrOut → Written) → KrState → KrState
unfolding send_rtmsg
kr_fib_decouple write s =
    if s.fib_sync then record (each_first (decouple_route write) s) { fib_sync = false } else s
