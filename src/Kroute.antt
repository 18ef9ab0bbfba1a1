-- ===== src/Kroute.antt =====
-- kroute.c: the routing table of the parent process, and which of its routes the label decision engine
-- learns of. A prefix holds its priorities, lowest first, and a priority its next hops. The tree krt is the
-- list of its prefixes in the order of kroute_compare; that writev takes a routing message is an input.
pub mod Change
pub mod Settled
pub mod Announced
pub mod Labels
pub mod Runs
pub mod Tests
use openbsd_ldpd.Base.{
  ℕ, compare, Ordering, Bool, true, false, not, Option, none, some, List, [], ◌∷◌, ◌++◌,
  if◌then◌else◌, ◌&&◌, ◌||◌, ◌==◌, ltb,
}
use openbsd_ldpd.Lde.{Af, addr_eq, ldp_addrcmp, v4_of}
use openbsd_ldpd.Discovery.Hello.{bad_addr, is_scope_embed}

-- struct kroute, with its flags.
pub record Kroute : Type 0 where
  pub af : Af
  pub prefix : ℕ
  pub prefixlen : ℕ
  pub nexthop : ℕ
  pub local_label : ℕ
  pub remote_label : ℕ
  pub ifindex : ℕ
  pub priority : ℕ
  pub inserted : Bool
  pub connected : Bool
  pub dynamic : Bool
  pub reject : Bool
  pub blackhole : Bool
  pub redistributed : Bool

pub record KroutePriority : Type 0 where
  pub priority : ℕ
  pub nexthops : List Kroute

pub record KroutePrefix : Type 0 where
  pub af : Af
  pub prefix : ℕ
  pub prefixlen : ℕ
  pub priorities : List KroutePriority

pub data RtAction : Type 0 where
  add change delete : RtAction

-- Messages to the label decision engine, and to the kernel: of the MPLS family or of the route's own.
pub data KrOut : Type 0 where
  network_add network_del : Kroute → KrOut
  rtmsg : RtAction → (mpls : Bool) → Kroute → KrOut

pub record KrState : Type 0 where
  pub krt : List KroutePrefix
  pub fib_sync : Bool
  pub out : List KrOut

-- kr_redist_eval, without its effects: a prefix that may be announced, whose next hop is no loopback
-- address unless the route rejects or drops what it matches.
abbrev pub is_loopback : Af → ℕ → Bool
is_loopback Af.inet a = v4_of a == 2130706433
is_loopback Af.inet6 a = a == 1

abbrev pub is_scoped : Af → ℕ → Bool
is_scoped Af.inet a = false
is_scoped Af.inet6 a = is_scope_embed a

unfoldable pub is_redistributable : Kroute → Bool
unfolding bad_addr is_scope_embed
is_redistributable kr =
    not kr.dynamic
    && not (bad_addr kr.af kr.prefix || is_scoped kr.af kr.prefix)
    && not (kr.prefixlen == 0)
    && not (is_loopback kr.af kr.nexthop && not (kr.blackhole || kr.reject))

unfoldable pub kr_redist_eval : Kroute → Kroute × List KrOut
unfolding is_redistributable
kr_redist_eval kr =
    let r = record kr { redistributed = true } in
    if not kr.redistributed && is_redistributable kr
    then (r, KrOut.network_add r ∷ [])
    else (kr, [])

unfoldable pub kr_redist_remove : Kroute → Kroute × List KrOut
kr_redist_remove kr =
    let r = record kr { redistributed = false } in
    if kr.redistributed then (r, KrOut.network_del r ∷ []) else (kr, [])

-- A loop over next hops.
abbrev pub each : (Kroute → Kroute × List KrOut) → List Kroute → List Kroute × List KrOut
each f [] = ([], [])
each f (r ∷ rs) = let x = f r in let rest = each f rs in (x.0 ∷ rest.0, x.1 ++ rest.1)

-- The priorities but the first, from the last.
abbrev pub remove_rest : List KroutePriority → List KroutePriority × List KrOut
remove_rest [] = ([], [])
remove_rest (p ∷ ps) =
    let rest = remove_rest ps in
    let x = each kr_redist_remove p.nexthops in
    (record p { nexthops = x.0 } ∷ rest.0, rest.1 ++ x.1)

unfoldable pub kr_redistribute : List KroutePriority → List KroutePriority × List KrOut
kr_redistribute [] = ([], [])
kr_redistribute (p ∷ ps) =
    let rest = remove_rest ps in
    let x = each kr_redist_eval p.nexthops in (record p { nexthops = x.0 } ∷ rest.0, rest.1 ++ x.1)

-- The tree.
abbrev pub af_code : Af → ℕ
af_code Af.inet = 2
af_code Af.inet6 = 24

unfoldable pub kroute_compare : KroutePrefix → KroutePrefix → Ordering
kroute_compare a b = elim (compare (af_code a.af) (af_code b.af)) [
  | Ordering.lt ↦ Ordering.lt
  | Ordering.gt ↦ Ordering.gt
  | Ordering.eq ↦ elim (ldp_addrcmp a.af a.prefix b.prefix) [
    | Ordering.lt ↦ Ordering.lt
    | Ordering.gt ↦ Ordering.gt
    | Ordering.eq ↦ compare a.prefixlen b.prefixlen
  ]
]

abbrev pub prefix_of : Kroute → KroutePrefix
prefix_of kr = record { af = kr.af; prefix = kr.prefix; prefixlen = kr.prefixlen; priorities = [] }

unfoldable pub find_prefix : List KroutePrefix → KroutePrefix → Option KroutePrefix
unfolding kroute_compare
find_prefix [] k = none
find_prefix (x ∷ xs) k = elim (kroute_compare k x) [ Ordering.eq ↦ some x | _ ↦ find_prefix xs k ]

abbrev pub kroute_find_prefix : List KroutePrefix → Kroute → Option KroutePrefix
kroute_find_prefix t kr = find_prefix t (prefix_of kr)

-- RB_INSERT, or an assignment to the prefix that is in the tree, and RB_REMOVE.
unfoldable pub put_prefix : List KroutePrefix → KroutePrefix → List KroutePrefix
unfolding kroute_compare
put_prefix [] k = k ∷ []
put_prefix (x ∷ xs) k =
    let rest = put_prefix xs k in
    elim (kroute_compare k x) [
      | Ordering.lt ↦ k ∷ x ∷ xs
      | Ordering.eq ↦ k ∷ xs
      | Ordering.gt ↦ x ∷ rest
    ]

unfoldable pub drop_prefix : List KroutePrefix → KroutePrefix → List KroutePrefix
unfolding kroute_compare
drop_prefix [] k = []
drop_prefix (x ∷ xs) k =
    let rest = drop_prefix xs k in elim (kroute_compare k x) [ Ordering.eq ↦ xs | _ ↦ x ∷ rest ]

-- kroute_find_prio, where the priority 0 (RTP_ANY) is any, and kroute_find_gw.
unfoldable pub kroute_find_prio : List KroutePriority → ℕ → Option KroutePriority
kroute_find_prio [] prio = none
kroute_find_prio (p ∷ ps) prio =
    if prio == 0 || p.priority == prio then some p else kroute_find_prio ps prio

abbrev pub is_gw : Af → ℕ → Kroute → Bool
is_gw af nh r = addr_eq af r.nexthop nh

unfoldable pub kroute_find_gw : Af → List Kroute → ℕ → Option Kroute
kroute_find_gw af [] nh = none
kroute_find_gw af (r ∷ rs) nh = if is_gw af nh r then some r else kroute_find_gw af rs nh

-- A change of the priority that kroute_find_prio finds.
abbrev pub at_prio : List KroutePriority → ℕ → (List Kroute → List Kroute) → List KroutePriority
at_prio [] prio f = []
at_prio (p ∷ ps) prio f =
    if prio == 0 || p.priority == prio
    then record p { nexthops = f p.nexthops } ∷ ps
    else p ∷ at_prio ps prio f

-- Lower priorities first.
abbrev pub insert_prio : List KroutePriority → ℕ → List KroutePriority
insert_prio [] prio = record { priority = prio; nexthops = [] } ∷ []
insert_prio (p ∷ ps) prio =
    let rest = insert_prio ps prio in
    if ltb prio p.priority then record { priority = prio; nexthops = [] } ∷ p ∷ ps else p ∷ rest

abbrev pub add_gw : Af → Kroute → List Kroute → List Kroute
add_gw af kr rs = elim (kroute_find_gw af rs kr.nexthop) [ none ↦ rs ++ kr ∷ [] | some _ ↦ rs ]

unfoldable pub add_route : List KroutePriority → Kroute → List KroutePriority
unfolding kroute_find_prio kroute_find_gw
add_route ps kr =
    let qs : List KroutePriority = elim (kroute_find_prio ps kr.priority) [
      | none ↦ insert_prio ps kr.priority
      | some _ ↦ ps
    ] in
    at_prio qs kr.priority (add_gw kr.af kr)

-- kr_redistribute on a prefix of the tree.
unfoldable pub redistribute : KrState → KroutePrefix → List KroutePriority → KrState
unfolding kr_redistribute put_prefix
redistribute s kp ps =
    let r = kr_redistribute ps in
    record s { krt = put_prefix s.krt (record kp { priorities = r.0 }); out = s.out ++ r.1 }

unfoldable pub kroute_insert : KrState → Kroute → KrState
unfolding find_prefix add_route redistribute
kroute_insert s kr =
    let kp : KroutePrefix = elim (kroute_find_prefix s.krt kr) [
      | none ↦ prefix_of kr
      | some x ↦ x
    ] in
    redistribute s kp (add_route kp.priorities kr)
