-- ===== src/Kroute/Announced.antt =====
-- The tree of prefixes, and the changes of the routes of a priority.
use openbsd_ldpd.Base.{ℕ, inl, inr, Option, none, some, List, [], ◌∷◌, ◌++◌, Bool-cases, Ordering}
use mathlib.Core.Option
use openbsd_ldpd.Lde.{Af}
use openbsd_ldpd.Kroute.{
  Kroute, KroutePriority, KroutePrefix, KrState, kr_redistribute, find_prefix, put_prefix,
  drop_prefix, kroute_compare, prefix_of, at_prio, insert_prio, add_route, add_gw, kroute_find_prio,
  kroute_find_gw, kroute_find_prefix, is_gw, redistribute, kroute_insert,
}
use openbsd_ldpd.Kroute.Change.{at_gw, drop_gw, find_route}
use openbsd_ldpd.Kroute.Settled.{
  All, IsSound, IsReady, IsFine, redistribute-IsFine, fine-IsReady, at_prio-All,
  at_prio-IsAscending, insert-IsAscending, insert-IsSoundAt,
}

abbrev pub IsFinePrefix : KroutePrefix → Type 0
IsFinePrefix kp = IsFine kp.priorities

abbrev pub IsFineTable : List KroutePrefix → Type 0
IsFineTable t = All IsFinePrefix t

-- The tree.
pub put_prefix-All :
    (t : List KroutePrefix) (k : KroutePrefix)
    → IsFineTable t
    → IsFinePrefix k
    → IsFineTable (put_prefix t k)
unfolding put_prefix
put_prefix-All [] k h g = (g, tt)
put_prefix-All (x ∷ xs) k h g =
    elim (kroute_compare k x)
      as (λ c. IsFineTable (elim c [
        | Ordering.lt ↦ k ∷ x ∷ xs
        | Ordering.eq ↦ k ∷ xs
        | Ordering.gt ↦ x ∷ put_prefix xs k
      ])) [
        | Ordering.lt ↦ (g, h)
        | Ordering.eq ↦ (g, h.1)
        | Ordering.gt ↦ (h.0, put_prefix-All xs k h.1 g)
      ]

pub drop_prefix-All :
    (t : List KroutePrefix) (k : KroutePrefix) → IsFineTable t → IsFineTable (drop_prefix t k)
unfolding drop_prefix
drop_prefix-All [] k h = tt
drop_prefix-All (x ∷ xs) k h =
    elim (kroute_compare k x)
      as (λ c. IsFineTable (elim c [ Ordering.eq ↦ xs | _ ↦ x ∷ drop_prefix xs k ])) [
        | Ordering.lt ↦ (h.0, drop_prefix-All xs k h.1)
        | Ordering.eq ↦ h.1
        | Ordering.gt ↦ (h.0, drop_prefix-All xs k h.1)
      ]

-- What is true of the prefix that is found, if there is one.
abbrev pub Maybe : Option KroutePrefix → Type 0
Maybe none = Unit
Maybe (some k) = IsFinePrefix k

pub find_prefix-All :
    (t : List KroutePrefix) (k : KroutePrefix) → IsFineTable t → Maybe (find_prefix t k)
unfolding find_prefix
find_prefix-All [] k h = tt
find_prefix-All (x ∷ xs) k h =
    elim (kroute_compare k x)
      as (λ c. Maybe (elim c [ Ordering.eq ↦ some x | _ ↦ find_prefix xs k ])) [
        | Ordering.lt ↦ find_prefix-All xs k h.1
        | Ordering.eq ↦ h.0
        | Ordering.gt ↦ find_prefix-All xs k h.1
      ]

abbrev pub MaybeRoute : Option (KroutePrefix × Kroute) → Type 0
MaybeRoute none = Unit
MaybeRoute (some x) = IsFinePrefix x.0

pub routed :
    (o : Option KroutePrefix) (f : KroutePrefix → Option KroutePriority)
    (g : KroutePrefix → KroutePriority → Option Kroute)
    → Maybe o
    → MaybeRoute (Option.bind o λ kp. Option.bind (f kp) λ p. Option.map (λ r. (kp, r)) (g kp p))
unfolding Option.bind
routed none f g h = tt
routed (some kp) f g h =
    elim (f kp) as (λ o. MaybeRoute (Option.bind o λ p. Option.map (λ r. (kp, r)) (g kp p))) [
      | none ↦ tt
      | some p ↦ elim (g kp p) as (λ o. MaybeRoute (Option.map (λ r. (kp, r)) o)) [
        | none ↦ tt
        | some r ↦ h
      ]
    ]

pub find_route-All : (s : KrState) (kr : Kroute) → IsFineTable s.krt → MaybeRoute (find_route s kr)
unfolding find_route
find_route-All s kr h =
    routed (kroute_find_prefix s.krt kr) (λ kp. kroute_find_prio kp.priorities kr.priority)
      (λ kp p. kroute_find_gw kp.af p.nexthops kr.nexthop) (find_prefix-All s.krt (prefix_of kr) h)

-- Changes of the routes of a priority.
pub snoc-All :
    (rs : List Kroute) (r : Kroute) → All IsSound rs → IsSound r → All IsSound (rs ++ r ∷ [])
snoc-All [] r h g = (g, tt)
snoc-All (x ∷ rs) r h g = (h.0, snoc-All rs r h.1 g)

pub add_gw-All :
    (af : Af) (kr : Kroute)
    → IsSound kr
    → (rs : List Kroute) → All IsSound rs
    → All IsSound (add_gw af kr rs)
add_gw-All af kr g rs h =
    elim (kroute_find_gw af rs kr.nexthop)
      as (λ o. All IsSound (elim o [ none ↦ rs ++ kr ∷ [] | some _ ↦ rs ])) [
        | none ↦ snoc-All rs kr h g
        | some x ↦ h
      ]

pub at_gw-All :
    (P : Kroute → Type 0) (f : Kroute → Kroute) (af : Af) (nh : ℕ)
    → ((r : Kroute) → P r → P (f r))
    → (rs : List Kroute) → All P rs
    → All P (at_gw af nh f rs)
at_gw-All P f af nh k [] h = tt
at_gw-All P f af nh k (r ∷ rs) h = elim (Bool-cases (is_gw af nh r)) [
  | inl e ↦ rw e (k r h.0, h.1)
  | inr e ↦ rw e (h.0, at_gw-All P f af nh k rs h.1)
]

pub drop_gw-All :
    (af : Af) (nh : ℕ) (rs : List Kroute) → All IsSound rs → All IsSound (drop_gw af nh rs)
drop_gw-All af nh [] h = tt
drop_gw-All af nh (r ∷ rs) h = elim (Bool-cases (is_gw af nh r)) [
  | inl e ↦ rw e (h.1)
  | inr e ↦ rw e (h.0, drop_gw-All af nh rs h.1)
]

pub add_route-IsReady :
    (ps : List KroutePriority) (kr : Kroute) → IsSound kr → IsReady ps → IsReady (add_route ps kr)
unfolding add_route
add_route-IsReady ps kr g h =
    let f = add_gw kr.af kr in
    let k = add_gw-All kr.af kr g in
    let n = kr.priority in
    elim (kroute_find_prio ps n)
      as (λ o.
        let qs : List KroutePriority = elim o [ none ↦ insert_prio ps n | some _ ↦ ps ] in
        IsReady (at_prio qs n f)) [
          | none ↦ (
            at_prio-All IsSound f k (insert_prio ps n) n (insert-IsSoundAt ps n h.0),
            at_prio-IsAscending f (insert_prio ps n) n (insert-IsAscending ps n h.1),
          )
          | some x ↦ (at_prio-All IsSound f k ps n h.0, at_prio-IsAscending f ps n h.1)
        ]

-- The operations.
pub redistribute-IsFineTable :
    (s : KrState) (kp : KroutePrefix) (ps : List KroutePriority)
    → IsFineTable s.krt
    → IsReady ps
    → IsFineTable (redistribute s kp ps).krt
unfolding redistribute
redistribute-IsFineTable s kp ps h g =
    put_prefix-All s.krt (record kp { priorities = (kr_redistribute ps).0 }) h
      (redistribute-IsFine ps g)

pub insert-IsFineTable :
    (s : KrState) (kr : Kroute)
    → IsSound kr
    → IsFineTable s.krt
    → IsFineTable (kroute_insert s kr).krt
unfolding kroute_insert
insert-IsFineTable s kr g h =
    elim (kroute_find_prefix s.krt kr)
        as (λ o.
          Maybe o
          → let kp : KroutePrefix = elim o [ none ↦ prefix_of kr | some x ↦ x ] in
            IsFineTable (redistribute s kp (add_route kp.priorities kr)).krt) [
              | none ↦ λ f.
                  redistribute-IsFineTable s (prefix_of kr) (add_route [] kr) h
                    (add_route-IsReady [] kr g (tt, tt))
              | some kp ↦ λ f.
                  redistribute-IsFineTable s kp (add_route kp.priorities kr) h
                    (add_route-IsReady kp.priorities kr g (fine-IsReady kp.priorities f))
            ]
      (find_prefix-All s.krt (prefix_of kr) h)
