-- ===== src/Kroute/Runs.antt =====
-- The routing table of the parent through any sequence of its operations.
use openbsd_ldpd.Base.{
  ℕ, ◌≡◌, inl, inr, refl, sym, Bool, true, false, List, [], ◌∷◌, ◌++◌, if◌then◌else◌, Bool-cases,
  ◌==◌, ◌||◌, for_each_inv, for_each, not, ◌&&◌,
}
use mathlib.Core.Path.{subst}
use openbsd_ldpd.Lde.{Af, no_label}
use openbsd_ldpd.Discovery.Interface.States.{Option-cases}
use openbsd_ldpd.Kroute.{
  Kroute, KroutePriority, KroutePrefix, RtAction, KrOut, KrState, at_prio, kr_redist_remove,
}
use openbsd_ldpd.Kroute.Change.{
  Written, RtmType, at_gw, drop_gw, find_route, kr_change, kr_delete, kr_change_egress_label,
  drop_at, drop_route, is_empty, kroute_uninstall, leave, kroute_remove, first_gw, replace_first,
  take_route, is_found, of_message, process_route, rtmsg_process_route, couple_route,
  decouple_route, first_routes, each_first, kr_fib_couple, kr_fib_decouple, send_rtmsg, is_labelled,
  ldp_addrisset,
}
use openbsd_ldpd.Kroute.Settled.{
  All, IsSound, IsFrom, IsReady, fine-IsReady, at_prio-All, at_prio-IsAscending,
}
use openbsd_ldpd.Kroute.Announced.{
  IsFinePrefix, IsFineTable, drop_prefix-All, MaybeRoute, find_route-All, at_gw-All, drop_gw-All,
  redistribute-IsFineTable, insert-IsFineTable,
}
use openbsd_ldpd.Kroute.Labels.{
  either-IsFineTable, change-IsFineTable, delete-IsFineTable, egress-IsFineTable,
}

-- Removal.
pub drop_at-IsFrom :
    (af : Af) (kr : Kroute) (n : ℕ) (ps : List KroutePriority)
    → All (IsFrom n) ps
    → All (IsFrom n) (drop_at af kr ps)
drop_at-IsFrom af kr n [] h = tt
drop_at-IsFrom af kr n (p ∷ ps) h =
    elim (Bool-cases (kr.priority == 0 || p.priority == kr.priority)) [
      | inl e ↦
          rw e
            (elim (is_empty (drop_gw af kr.nexthop p.nexthops))
              as (λ c.
                All (IsFrom n) (
                  if c
                  then ps
                  else record p { nexthops = drop_gw af kr.nexthop p.nexthops } ∷ ps)) [
                    | true ↦ h.1
                    | false ↦ h
                  ])
      | inr e ↦ rw e (h.0, drop_at-IsFrom af kr n ps h.1)
    ]

pub drop_at-IsReady :
    (af : Af) (kr : Kroute) (ps : List KroutePriority) → IsReady ps → IsReady (drop_at af kr ps)
drop_at-IsReady af kr [] h = h
drop_at-IsReady af kr (p ∷ ps) h =
    elim (Bool-cases (kr.priority == 0 || p.priority == kr.priority)) [
      | inl e ↦
          rw e
            (elim (is_empty (drop_gw af kr.nexthop p.nexthops))
              as (λ c.
                IsReady (
                  if c
                  then ps
                  else record p { nexthops = drop_gw af kr.nexthop p.nexthops } ∷ ps)) [
                    | true ↦ (h.0.1, h.1.1)
                    | false ↦ ((drop_gw-All af kr.nexthop p.nexthops h.0.0, h.0.1), h.1)
                  ])
      | inr e ↦
          let r = drop_at-IsReady af kr ps (h.0.1, h.1.1) in
          rw e ((h.0.0, r.0), (drop_at-IsFrom af kr p.priority ps h.1.0, r.1))
    ]

pub leave-IsFineTable :
    (s : KrState) (kp : KroutePrefix) (ps : List KroutePriority)
    → IsFineTable s.krt
    → IsReady ps
    → IsFineTable (leave s kp ps).krt
unfolding leave
leave-IsFineTable s kp [] h g = drop_prefix-All s.krt kp h
leave-IsFineTable s kp (p ∷ ps) h g = redistribute-IsFineTable s kp (p ∷ ps) h g

pub uninstall_krt :
    (write : KrOut → Written) (s : KrState) (r : Kroute) → (kroute_uninstall write s r).krt ≡ s.krt
unfolding kroute_uninstall send_rtmsg
uninstall_krt write s r =
    elim r.inserted
      as (λ c. (if c then (send_rtmsg write s RtAction.delete r true).0 else s).krt ≡ s.krt) [
        | true ↦ refl
        | false ↦ refl
      ]

pub remove-IsFineTable :
    (write : KrOut → Written) (s : KrState) (kr : Kroute)
    → IsFineTable s.krt
    → IsFineTable (kroute_remove write s kr).0.krt
unfolding kroute_remove
remove-IsFineTable write s kr h = elim (Option-cases (find_route s kr)) [
  | inl e ↦ rw (e, kroute_remove) h
  | inr (x, e) ↦
      let f : IsFinePrefix x.0 = subst MaybeRoute e (find_route-All s kr h) in
      let q = kr_redist_remove x.1 in
      let u : KrState = record s { out = s.out ++ q.1 } in
      rw (e, kroute_remove)
        (leave-IsFineTable (kroute_uninstall write u q.0) x.0 (drop_route x.0 kr)
          (subst IsFineTable (sym (uninstall_krt write u q.0)) h)
          (drop_at-IsReady x.0.af kr x.0.priorities (fine-IsReady x.0.priorities f)))
]

-- A message of the kernel.
take_route-IsFineTable :
    (s : KrState) (kr : Kroute)
    → kr.redistributed ≡ false
    → IsFineTable s.krt
    → IsFineTable (take_route s kr).krt
unfolding take_route
take_route-IsFineTable s kr q h = elim (Option-cases (find_route s kr)) [
  | inl e ↦
      rw (e, take_route)
        (insert-IsFineTable s (record kr { local_label = no_label; remote_label = no_label })
          (inl q) h)
  | inr (x, e) ↦
      let f : IsFinePrefix x.0 = subst MaybeRoute e (find_route-All s kr h) in
      let r = fine-IsReady x.0.priorities f in
      let g = at_gw x.0.af kr.nexthop (λ z. kr) in
      rw (e, take_route)
        (redistribute-IsFineTable s x.0 (at_prio x.0.priorities kr.priority g) h (
          at_prio-All IsSound g (at_gw-All IsSound (λ z. kr) x.0.af kr.nexthop (λ z y. inl q))
              x.0.priorities kr.priority r.0,
          at_prio-IsAscending g x.0.priorities kr.priority r.1,
        ))
]

replace-IsFineTable :
    (write : KrOut → Written) (s : KrState) (type : RtmType) (kr : Kroute)
    → IsFineTable s.krt
    → IsFineTable (replace_first write s type kr).krt
unfolding replace_first
replace-IsFineTable write s RtmType.rtm_change kr h = elim (Option-cases (first_gw s kr)) [
  | inl e ↦ rw (e, replace_first) h
  | inr (r, e) ↦ rw (e, replace_first) (remove-IsFineTable write s r h)
]
replace-IsFineTable write s RtmType.rtm_delete kr h = h
replace-IsFineTable write s RtmType.rtm_other kr h = h

taken-IsFineTable :
    (write : KrOut → Written) (s : KrState) (type : RtmType) (kr : Kroute)
    → kr.redistributed ≡ false
    → IsFineTable s.krt
    → let t = replace_first write s type kr in
      let x : KrState × Bool =
        if not (ldp_addrisset kr.af kr.nexthop) && not kr.connected
        then (t, false)
        else (take_route t kr, true) in
      IsFineTable x.0.krt
taken-IsFineTable write s type kr q h =
    let t = replace_first write s type kr in
    let k = replace-IsFineTable write s type kr h in
    either-IsFineTable (not (ldp_addrisset kr.af kr.nexthop) && not kr.connected) (t, false)
      (take_route t kr, true) k (take_route-IsFineTable t kr q k)

process-IsFineTable :
    (write : KrOut → Written) (s : KrState) (type : RtmType) (kr : Kroute)
    → kr.redistributed ≡ false
    → IsFineTable s.krt
    → IsFineTable (process_route write s type kr).0.krt
process-IsFineTable write s RtmType.rtm_delete kr q h =
    either-IsFineTable (is_found (find_route s kr)) (kroute_remove write s kr) (s, true)
      (remove-IsFineTable write s kr h) h
process-IsFineTable write s RtmType.rtm_change kr q h =
    taken-IsFineTable write s RtmType.rtm_change kr q h
process-IsFineTable write s RtmType.rtm_other kr q h =
    taken-IsFineTable write s RtmType.rtm_other kr q h

-- The kernel's routing table is coupled or not.
either_krt :
    (b : Bool) (x y s : KrState) → x.krt ≡ s.krt → y.krt ≡ s.krt → (if b then x else y).krt ≡ s.krt
either_krt true x y s h g = h
either_krt false x y s h g = g

couple_krt :
    (write : KrOut → Written) (s : KrState) (r : Kroute) → (couple_route write s r).krt ≡ s.krt
unfolding send_rtmsg
couple_krt write s r =
    let a = (send_rtmsg write s RtAction.add r true).0 in
    let b = (send_rtmsg write a RtAction.change r false).0 in
    either_krt (not r.inserted) s (if is_labelled r then b else a) s refl
      (either_krt (is_labelled r) b a s refl refl)

decouple_krt :
    (write : KrOut → Written) (s : KrState) (r : Kroute) → (decouple_route write s r).krt ≡ s.krt
unfolding send_rtmsg
decouple_krt write s r =
    let a = (send_rtmsg write s RtAction.delete r true).0 in
    let b = (send_rtmsg write a RtAction.change (record r { remote_label = no_label }) false).0 in
    either_krt (not r.inserted) s (if is_labelled r then b else a) s refl
      (either_krt (is_labelled r) b a s refl refl)

each_first-IsFineTable :
    (f : KrState → Kroute → KrState) (s : KrState)
    → ((t : KrState) (r : Kroute) → (f t r).krt ≡ t.krt)
    → IsFineTable s.krt
    → IsFineTable (each_first f s).krt
each_first-IsFineTable f s k h =
    let P : KrState → Type 0 = λ t. IsFineTable t.krt in
    let step : (t : KrState) (r : Kroute) → P t → P (f t r) =
      λ t r g. subst IsFineTable (sym (k t r)) g in
    for_each_inv P s.krt (λ t kp. for_each (first_routes kp) f t)
      (λ t kp g. for_each_inv P (first_routes kp) f step t g) s h

-- What happens to the table, with what writev does meanwhile.
pub data KrOp : Type 0 where
  message : RtmType → Kroute → KrOp
  change delete : Kroute → KrOp
  egress_label : Af → Bool → KrOp
  couple decouple : KrOp

abbrev pub kr_step : KrState → (KrOut → Written) × KrOp → KrState
kr_step s (w, KrOp.message type kr) = (rtmsg_process_route w s type kr).0
kr_step s (w, KrOp.change kr) = (kr_change w s kr).0
kr_step s (w, KrOp.delete kr) = (kr_delete w s kr).0
kr_step s (w, KrOp.egress_label af b) = kr_change_egress_label s af b
kr_step s (w, KrOp.couple) = kr_fib_couple w s
kr_step s (w, KrOp.decouple) = kr_fib_decouple w s

abbrev pub kr_start : Bool → KrState
kr_start fib_sync = record { krt = []; fib_sync = fib_sync; out = [] }

either_table :
    (b : Bool) (x y : KrState)
    → IsFineTable x.krt
    → IsFineTable y.krt
    → IsFineTable (if b then x else y).krt
either_table true x y h g = h
either_table false x y h g = g

step-IsFineTable :
    (s : KrState) (x : (KrOut → Written) × KrOp) → IsFineTable s.krt → IsFineTable (kr_step s x).krt
unfolding rtmsg_process_route kr_change_egress_label kr_fib_couple kr_fib_decouple
step-IsFineTable s (w, KrOp.message type kr) h = process-IsFineTable w s type (of_message kr) refl h
step-IsFineTable s (w, KrOp.change kr) h = change-IsFineTable w s kr h
step-IsFineTable s (w, KrOp.delete kr) h = delete-IsFineTable w s kr h
step-IsFineTable s (w, KrOp.egress_label af b) h = egress-IsFineTable s.krt af b h
step-IsFineTable s (w, KrOp.couple) h =
    let t : KrState = record s { fib_sync = true } in
    either_table s.fib_sync s (each_first (couple_route w) t) h
      (each_first-IsFineTable (couple_route w) t (couple_krt w) h)
step-IsFineTable s (w, KrOp.decouple) h =
    either_table s.fib_sync (record (each_first (decouple_route w) s) { fib_sync = false }) s
      (each_first-IsFineTable (decouple_route w) s (decouple_krt w) h) h

-- After any messages of the kernel, label changes and changes of the coupling, whatever writev does, the
-- priorities of every prefix are in ascending order, a route of the first one is marked as announced
-- to the label decision engine exactly when it may be redistributed, and a route of another is not.
pub run-IsFineTable :
    (fib_sync : Bool) (xs : List ((KrOut → Written) × KrOp))
    → IsFineTable (for_each xs kr_step (kr_start fib_sync)).krt
run-IsFineTable fib_sync xs =
    for_each_inv (λ (s : KrState). IsFineTable s.krt) xs kr_step step-IsFineTable
      (kr_start fib_sync) tt
