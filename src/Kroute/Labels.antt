-- ===== src/Kroute/Labels.antt =====
-- Changes of labels leave the announcements alone.
use openbsd_ldpd.Base.{
  ℕ, inl, inr, Bool, true, false, List, [], ◌∷◌, map, if◌then◌else◌, Bool-cases, ◌==◌, ◌||◌, not,
  ◌&&◌, ltb,
}
use mathlib.Core.Path.{subst}
use openbsd_ldpd.Lde.{Af, af_eq}
use openbsd_ldpd.Discovery.Interface.States.{Option-cases}
use openbsd_ldpd.Kroute.{
  Kroute, KroutePriority, KroutePrefix, RtAction, KrOut, KrState, put_prefix, at_prio,
  is_redistributable,
}
use openbsd_ldpd.Kroute.Change.{
  Written, at_gw, set_route, find_route, label_with, unlabel, kr_change, kr_delete, egress,
  null_label, each_route, send_rtmsg, is_labelled,
}
use openbsd_ldpd.Kroute.Settled.{
  All, IsAnnounced, IsSilent, IsSilentAt, IsSettled, IsFrom, IsAscending, IsFine, at_prio-All,
  at_prio-IsAscending,
}
use openbsd_ldpd.Kroute.Announced.{
  IsFinePrefix, IsFineTable, put_prefix-All, MaybeRoute, find_route-All, at_gw-All,
}

-- Labels.
pub either-IsFineTable :
    (b : Bool) (x y : KrState × Bool)
    → IsFineTable x.0.krt
    → IsFineTable y.0.krt
    → IsFineTable (if b then x else y).0.krt
either-IsFineTable true x y h g = h
either-IsFineTable false x y h g = g

pub set_route-IsFine :
    (f : Kroute → Kroute) (kp : KroutePrefix) (kr : Kroute)
    → ((r : Kroute) → IsAnnounced r → IsAnnounced (f r))
    → ((r : Kroute) → IsSilent r → IsSilent (f r))
    → IsFinePrefix kp
    → IsFinePrefix (set_route kp kr f)
set_route-IsFine f kp kr a b h = (
  settled kp.priorities h.0,
  at_prio-IsAscending (at_gw kp.af kr.nexthop f) kp.priorities kr.priority h.1,
)
  where
    settled :
        (ps : List KroutePriority)
        → IsSettled ps
        → IsSettled (at_prio ps kr.priority (at_gw kp.af kr.nexthop f))
    settled [] h = tt
    settled (p ∷ ps) h = elim (Bool-cases (kr.priority == 0 || p.priority == kr.priority)) [
      | inl e ↦ rw e (at_gw-All IsAnnounced f kp.af kr.nexthop a p.nexthops h.0, h.1)
      | inr e ↦ rw e (
        h.0,
        at_prio-All IsSilent (at_gw kp.af kr.nexthop f) (at_gw-All IsSilent f kp.af kr.nexthop b) ps
            kr.priority h.1,
      )
    ]

pub label_with-IsAnnounced : (kr r : Kroute) → IsAnnounced r → IsAnnounced (label_with kr r)
unfolding is_redistributable
label_with-IsAnnounced kr r h = h

pub unlabel-IsAnnounced : (r : Kroute) → IsAnnounced r → IsAnnounced (unlabel r)
unfolding is_redistributable
unlabel-IsAnnounced r h = h

pub change-IsFineTable :
    (write : KrOut → Written) (s : KrState) (kr : Kroute)
    → IsFineTable s.krt
    → IsFineTable (kr_change write s kr).0.krt
unfolding kr_change send_rtmsg
change-IsFineTable write s kr h = elim (Option-cases (find_route s kr)) [
  | inl e ↦ rw (e, kr_change) h
  | inr (x, e) ↦
      let f : IsFinePrefix x.0 = subst MaybeRoute e (find_route-All s kr h) in
      let k =
        put_prefix-All s.krt (set_route x.0 kr (label_with kr)) h
          (set_route-IsFine (label_with kr) x.0 kr (label_with-IsAnnounced kr) (λ r g. g) f) in
      let t = label_with kr x.1 in
      let a = record s { krt = put_prefix s.krt (set_route x.0 kr (label_with kr)) } in
      let b = send_rtmsg write a (if x.1.inserted then RtAction.change else RtAction.add) t true in
      rw (e, kr_change)
        (either-IsFineTable (b.1 && is_labelled t) (send_rtmsg write b.0 RtAction.change t false) b
          k k)
]

pub delete-IsFineTable :
    (write : KrOut → Written) (s : KrState) (kr : Kroute)
    → IsFineTable s.krt
    → IsFineTable (kr_delete write s kr).0.krt
unfolding kr_delete send_rtmsg
delete-IsFineTable write s kr h = elim (Option-cases (find_route s kr)) [
  | inl e ↦ rw (e, kr_delete) h
  | inr (x, e) ↦
      let f : IsFinePrefix x.0 = subst MaybeRoute e (find_route-All s kr h) in
      let k =
        put_prefix-All s.krt (set_route x.0 kr unlabel) h
          (set_route-IsFine unlabel x.0 kr unlabel-IsAnnounced (λ r g. g) f) in
      let b = send_rtmsg write s RtAction.delete x.1 true in
      let c = record (b.0) { krt = put_prefix s.krt (set_route x.0 kr unlabel) } in
      let d = send_rtmsg write c RtAction.change (unlabel x.1) false in
      let l : KrState × Bool = if is_labelled x.1 then d else (c, true) in
      rw (e, kr_delete)
        (either-IsFineTable (not x.1.inserted) (s, true) (if not b.1 then b else l) h
          (either-IsFineTable (not b.1) b l h
            (either-IsFineTable (is_labelled x.1) d (c, true) k k)))
]

pub relabelled-IsAnnounced :
    (r : Kroute) (n : ℕ) → IsAnnounced r → IsAnnounced (record r { local_label = n })
unfolding is_redistributable
relabelled-IsAnnounced r n h = h

pub egress-IsAnnounced : (b : Bool) (r : Kroute) → IsAnnounced r → IsAnnounced (egress b r)
egress-IsAnnounced b r h =
    elim (ltb 15 r.local_label)
      as (λ c. IsAnnounced (if c then r else record r { local_label = null_label b r.af })) [
        | true ↦ h
        | false ↦ relabelled-IsAnnounced r (null_label b r.af) h
      ]

pub egress-IsSilent : (b : Bool) (r : Kroute) → IsSilent r → IsSilent (egress b r)
egress-IsSilent b r h =
    elim (ltb 15 r.local_label)
      as (λ c. IsSilent (if c then r else record r { local_label = null_label b r.af })) [
        | true ↦ h
        | false ↦ h
      ]

pub each_routes-All :
    (P : Kroute → Type 0) (f : Kroute → Kroute)
    → ((r : Kroute) → P r → P (f r))
    → (rs : List Kroute) → All P rs
    → All P (map f rs)
each_routes-All P f k [] h = tt
each_routes-All P f k (r ∷ rs) h = (k r h.0, each_routes-All P f k rs h.1)

abbrev relabel_at : Bool → KroutePriority → KroutePriority
relabel_at b p = record p { nexthops = map (egress b) p.nexthops }

pub each_route-IsFrom :
    (b : Bool) (n : ℕ) (ps : List KroutePriority)
    → All (IsFrom n) ps
    → All (IsFrom n) (map (relabel_at b) ps)
each_route-IsFrom b n [] h = tt
each_route-IsFrom b n (p ∷ ps) h = (h.0, each_route-IsFrom b n ps h.1)

pub each_route-IsAscending :
    (b : Bool) (ps : List KroutePriority) → IsAscending ps → IsAscending (map (relabel_at b) ps)
each_route-IsAscending b [] h = tt
each_route-IsAscending b (p ∷ ps) h =
    (each_route-IsFrom b p.priority ps h.0, each_route-IsAscending b ps h.1)

pub each_route-IsSilentAt :
    (b : Bool) (ps : List KroutePriority)
    → All IsSilentAt ps
    → All IsSilentAt (map (relabel_at b) ps)
each_route-IsSilentAt b [] h = tt
each_route-IsSilentAt b (p ∷ ps) h = (
  each_routes-All IsSilent (egress b) (egress-IsSilent b) p.nexthops h.0,
  each_route-IsSilentAt b ps h.1,
)

pub each_route-IsFine :
    (b : Bool) (ps : List KroutePriority) → IsFine ps → IsFine (map (relabel_at b) ps)
each_route-IsFine b [] h = h
each_route-IsFine b (p ∷ ps) h = (
  (
    each_routes-All IsAnnounced (egress b) (egress-IsAnnounced b) p.nexthops h.0.0,
    each_route-IsSilentAt b ps h.0.1,
  ),
  each_route-IsAscending b (p ∷ ps) h.1,
)

pub egress-IsFineTable :
    (t : List KroutePrefix) (af : Af) (b : Bool)
    → IsFineTable t
    → IsFineTable
        (map (λ (kp : KroutePrefix). if af_eq kp.af af then each_route (egress b) kp else kp) t)
egress-IsFineTable [] af b h = tt
egress-IsFineTable (kp ∷ t) af b h = (
  elim (af_eq kp.af af) as (λ c. IsFinePrefix (if c then each_route (egress b) kp else kp)) [
    | true ↦ each_route-IsFine b kp.priorities h.0
    | false ↦ h.0
  ],
  egress-IsFineTable t af b h.1,
)
