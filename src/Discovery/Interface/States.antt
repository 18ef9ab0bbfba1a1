-- ===== src/Discovery/Interface/States.antt =====
-- The states of an interface, and its adjacencies when it goes down.
use openbsd_ldpd.Base.{
  ℕ, zero, suc, ◌<◌, ◌≤◌, ◌≡◌, ◌∙◌, ◌⊎◌, inl, inr, refl, sym, ap, Bool, true, false, Option, none,
  some, List, [], ◌∷◌, ◌==◌, Bool-cases, arith, length, for_each,
}
use openbsd_ldpd.Lde.{Af}
use openbsd_ldpd.Nbr.{Engine, NbrEvent, nbr_fsm}
use openbsd_ldpd.Nbr.Events.{session_shutdown, s_shutdown}
use openbsd_ldpd.Discovery.{Adj, Neighbor, Disc, LeConf, on_nbr, nbr_find_ldpid, nbr_adj_count}
use openbsd_ldpd.Discovery.Adjacency.{
  adj_del, adj_del_single, nbr_check, nbr_purge, nbr_del, nbr_adjs, with_nbr, other, drop_pid,
  stop_timers,
}
use openbsd_ldpd.Discovery.Interface.{
  Iface, first_adj, on_link, del_adjs, if_start, if_reset, if_update_af, iface_af_get, iface_af_set,
  may_run,
}
use openbsd_ldpd.Discovery.Lists.{Has, filter}
use openbsd_ldpd.Discovery.View.Purge.{IsWell, adj_del-IsWell}

found_first : (i : ℕ) (af : Af) (xs : List Adj) (a : Adj) → first_adj i af xs ≡ some a → Has a xs
unfolding first_adj
found_first i af [] a h = cc
found_first i af (x ∷ xs) a h = elim (Bool-cases (on_link i af x)) [
  | inl e ↦ let g : some x ≡ some a = rw e at h in inl (cc)
  | inr e ↦ let g : first_adj i af xs ≡ some a = rw e at h in inr (found_first i af xs a g)
]

pub Option-cases {ℓ} : {A : Type ℓ} (o : Option A) → (o ≡ none) ⊎ ((a : A) × (o ≡ some a))
Option-cases none = inl refl
Option-cases (some a) = inr (a, refl)

pub del_adjs-IsWell : (f i : ℕ) (af : Af) (d : Disc) → IsWell d → IsWell (del_adjs f i af d)
unfolding del_adjs
del_adjs-IsWell zero i af d w = w
del_adjs-IsWell (suc f) i af d w = elim (Option-cases (first_adj i af d.adj_list)) [
  | inl e ↦ rw (e, del_adjs) w
  | inr (a, e) ↦
      rw (e, del_adjs)
        (del_adjs-IsWell f i af (adj_del d a s_shutdown)
          (adj_del-IsWell d a s_shutdown w (found_first i af d.adj_list a e)))
]

-- Deleting an adjacency makes the list shorter.
length-filter : (p : Adj → Bool) (xs : List Adj) → length (filter p xs) ≤ length xs
length-filter p [] = omega arith
length-filter p (x ∷ xs) = elim (Bool-cases (p x)) [
  | inl e ↦ let l = length-filter p xs in rw e (omega arith)
  | inr e ↦ let l = length-filter p xs in rw e (omega arith)
]

length-filter_lt :
    (p : Adj → Bool) (a : Adj) (xs : List Adj)
    → Has a xs
    → p a ≡ false
    → length (filter p xs) < length xs
length-filter_lt p a [] h e = elim h [ ]
length-filter_lt p a (x ∷ xs) (inl q) e =
    let f : p x ≡ false = ap p (sym q) ∙ e in let l = length-filter p xs in rw f (omega arith)
length-filter_lt p a (x ∷ xs) (inr h) e =
    let l = length-filter_lt p a xs h e in
    elim (Bool-cases (p x)) [ inl f ↦ rw f (omega arith) | inr f ↦ rw f (omega arith) ]

-- No more adjacencies than before.
abbrev Shrinks : ℕ → Disc → Type 0
Shrinks n d = length d.adj_list ≤ n

with_nbr-Shrinks :
    (n : ℕ) (d : Disc) (id : ℕ) (g : Neighbor → Disc)
    → Shrinks n d
    → ((m : Neighbor) → Shrinks n (g m))
    → Shrinks n (with_nbr d id g)
with_nbr-Shrinks n d id g h k = elim (Option-cases (nbr_find_ldpid d.nbrs id)) [
  | inl e ↦ rw (e, with_nbr) h
  | inr (m, e) ↦ rw (e, with_nbr) (k m)
]

single-Shrinks : (n : ℕ) (d : Disc) (a : Adj) → Shrinks n d → Shrinks n (adj_del_single d a)
unfolding adj_del_single
single-Shrinks n d a h = let l = length-filter (other a.ptr) d.adj_list in omega arith

all-Shrinks :
    (n : ℕ) (xs : List Adj) (d : Disc) → Shrinks n d → Shrinks n (for_each xs adj_del_single d)
all-Shrinks n [] d h = h
all-Shrinks n (x ∷ xs) d h = all-Shrinks n xs (adj_del_single d x) (single-Shrinks n d x h)

on_nbr_list : (d : Disc) (n : Neighbor) (f : Engine → Engine) → (on_nbr d n f).adj_list ≡ d.adj_list
unfolding on_nbr
on_nbr_list d n f = refl

nbr_del_list : (d : Disc) (n : Neighbor) → (nbr_del d n).adj_list ≡ d.adj_list
unfolding nbr_del
nbr_del_list d n = on_nbr_list d n (λ w. drop_pid (stop_timers (nbr_fsm w NbrEvent.close_session)))

purge-Shrinks : (n : ℕ) (d : Disc) (id status : ℕ) → Shrinks n d → Shrinks n (nbr_purge d id status)
unfolding nbr_purge
purge-Shrinks n d id status h =
    let e = for_each (nbr_adjs id d.adj_list) adj_del_single d in
    let l = all-Shrinks n (nbr_adjs id d.adj_list) d h in
    let f = with_nbr e id (λ n. on_nbr e n (λ w. session_shutdown w status)) in
    let m : Shrinks n f =
      with_nbr-Shrinks n e id _ l (λ k. rw (on_nbr_list e k (λ w. session_shutdown w status)) l) in
    with_nbr-Shrinks n f id _ m (λ k. rw (nbr_del_list f k) m)

check-Shrinks :
    (n : ℕ) (d : Disc) (o : Option ℕ) (status : ℕ) → Shrinks n d → Shrinks n (nbr_check d o status)
unfolding nbr_check
check-Shrinks n d none status h = h
check-Shrinks n d (some id) status h = with_nbr-Shrinks n d id _ h λ m.
    elim (Bool-cases (nbr_adj_count d.adj_list id m.af == 0)) [
      | inl e ↦ rw e (purge-Shrinks n d id status h)
      | inr e ↦ rw e h
    ]

adj_del_shorter :
    (d : Disc) (a : Adj) (status : ℕ)
    → Has a d.adj_list
    → length (adj_del d a status).adj_list < length d.adj_list
unfolding adj_del adj_del_single
adj_del_shorter d a status h =
    let own : other a.ptr a ≡ false = ground arith in
    let l = length-filter_lt (other a.ptr) a d.adj_list h own in
    let m =
      check-Shrinks (length (filter (other a.ptr) d.adj_list)) (adj_del_single d a) a.nbr status
        (omega arith) in
    omega arith

no_first : (i : ℕ) (af : Af) (xs : List Adj) → length xs ≤ 0 → first_adj i af xs ≡ none
unfolding first_adj
no_first i af [] h = refl
no_first i af (x ∷ xs) h = absurd (omega arith)

-- With as much fuel as there are adjacencies the loop of if_reset ends, and none is left on the link.
pub del_adjs_empty :
    (f i : ℕ) (af : Af) (d : Disc)
    → length d.adj_list ≤ f
    → first_adj i af (del_adjs f i af d).adj_list ≡ none
unfolding del_adjs
del_adjs_empty zero i af d h = no_first i af d.adj_list h
del_adjs_empty (suc f) i af d h = elim (Option-cases (first_adj i af d.adj_list)) [
  | inl e ↦ rw (e, del_adjs) e
  | inr (a, e) ↦
      let l = adj_del_shorter d a s_shutdown (found_first i af d.adj_list a e) in
      rw (e, del_adjs) (del_adjs_empty f i af (adj_del d a s_shutdown) (omega arith))
]

-- The family is active exactly when it may run, and if it was active and is not any more, the interface
-- has no adjacency in it.
abbrev pub Runs : LeConf → Af → Bool → Disc × Iface → Type 0
Runs c af before (d, x) =
    ((iface_af_get x af).active ≡ may_run c x af)
    × ((before ≡ false) ⊎ (may_run c x af ≡ true) ⊎ (first_adj x.ifindex af d.adj_list ≡ none))

started-Runs :
    (c : LeConf) (join : ℕ → Af → Bool) (d : Disc) (x : Iface) (af : Af)
    → may_run c x af ≡ true
    → let r = if_start join d x.ifindex af (record (iface_af_get x af) { active = true }) in
      Runs c af false (r.0, iface_af_set x af r.1)
unfolding if_start
started-Runs c join d x Af.inet m = elim (Bool-cases (join x.ifindex Af.inet)) [
  | inl e ↦ rw e (sym m, inl refl)
  | inr e ↦ rw e (sym m, inl refl)
]
started-Runs c join d x Af.inet6 m = elim (Bool-cases (join x.ifindex Af.inet6)) [
  | inl e ↦ rw e (sym m, inl refl)
  | inr e ↦ rw e (sym m, inl refl)
]

reset-Runs :
    (c : LeConf) (d : Disc) (x : Iface) (af : Af)
    → may_run c x af ≡ false
    → let r = if_reset d x.ifindex af (record (iface_af_get x af) { active = false }) in
      Runs c af true (r.0, iface_af_set x af r.1)
unfolding if_reset
reset-Runs c d x Af.inet m =
    (sym m, inr (inr (del_adjs_empty (length d.adj_list) x.ifindex Af.inet d (omega arith))))
reset-Runs c d x Af.inet6 m =
    (sym m, inr (inr (del_adjs_empty (length d.adj_list) x.ifindex Af.inet6 d (omega arith))))

-- After if_update_af a family of an interface is active exactly when it is enabled, the interface and its
-- link are up, it has an address for the family, the discovery socket is open and the router id is set;
-- and when the family was active before and may not run any more, the interface has no adjacency left in
-- it.
pub if_update_af-Runs :
    (c : LeConf) (join : ℕ → Af → Bool) (d : Disc) (x : Iface) (af : Af)
    → Runs c af (iface_af_get x af).active (if_update_af c join d x af)
unfolding if_update_af
if_update_af-Runs c join d x af = elim (Bool-cases (iface_af_get x af).active) [
  | inl a ↦ elim (Bool-cases (may_run c x af)) [
    | inl m ↦ rw (a, m) (a ∙ sym m, inr (inl m))
    | inr m ↦ rw (a, m) (reset-Runs c d x af m)
  ]
  | inr a ↦ elim (Bool-cases (may_run c x af)) [
    | inl m ↦ rw (a, m) (started-Runs c join d x af m)
    | inr m ↦ rw (a, m) (a ∙ sym m, inl refl)
  ]
]
