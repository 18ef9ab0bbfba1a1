-- ===== src/Lde/Links/Collect.antt =====
-- The collector of dead nodes, lde_gc_timer, keeps the invariant.
use openbsd_ldpd.Base.{
  ℕ, ◌≡◌, refl, true, false, Option, ap, ◌∙◌, Bool, none, some, List, [], ◌∷◌, is_some, arith,
  if◌then◌else◌, for_each, lost,
}
use openbsd_ldpd.Base.Branch.{at_if, at_on}
use openbsd_ldpd.RbTree.{find, remove, same, IsSorted, Above}
use openbsd_ldpd.RbTree.Laws.{find-remove, remove-IsSorted, same_iff, Above-trans, Above-IsSorted}
use openbsd_ldpd.Fec.{Fec}
use openbsd_ldpd.Fec.Order.{fec_order}
use openbsd_ldpd.Lde.{FecNode, Lde, get_fn, keys, is_nil}
use openbsd_ldpd.Lde.Routes.{is_dead, gc_one, lde_gc_timer}
use openbsd_ldpd.Lde.Links.{Inv, Tidy}
use openbsd_ldpd.Lde.Links.Loops.{keys-All, All}

-- lde_gc_timer: a dead node has no mapping that could still point to it.
Apart : List Fec → Type 0
Apart [] = Unit
Apart (f ∷ fs) = All (λ g. same fec_order f g ≡ false) fs × Apart fs

Above-Apart {ℓ} :
    {V : Type ℓ} (f : Fec) (t : List (Fec × V))
    → Above fec_order f t
    → All (λ g. same fec_order f g ≡ false) (keys t)
unfolding same
Above-Apart f [] a = tt
Above-Apart f ((g, v) ∷ t) a = (rw a.0 refl, Above-Apart f t (Above-trans fec_order t f g a.0 a.1))

keys-Apart {ℓ} : {V : Type ℓ} (t : List (Fec × V)) → IsSorted fec_order t → Apart (keys t)
unfolding Apart
keys-Apart [] s = tt
keys-Apart ((f, v) ∷ t) s = (Above-Apart f t s, keys-Apart t (Above-IsSorted fec_order t f s))

dropped :
    (s : Lde) (f g : Fec)
    → Tidy s
    → find fec_order (remove fec_order s.ft f) g ≡ (if same fec_order f g then none else get_fn s g)
dropped s f g t = find-remove fec_order s.ft f g t.nodes

dead_lists : (n : FecNode) → is_dead n ≡ true → (n.downstream ≡ []) × (n.upstream ≡ [])
unfolding is_dead
dead_lists n d = (nil n.downstream (ground arith), nil n.upstream (ground arith))
  where
    nil : (l : List ℕ) → is_nil l ≡ true → l ≡ []
    nil [] h = refl
    nil (x ∷ xs) h = cc

gc_one-Inv :
    (s : Lde) (f : Fec)
    → Inv s
    → is_some (get_fn s f) ≡ true
    → Inv (gc_one s f)
      × ((g : Fec)
          → same fec_order f g ≡ false
          → is_some (get_fn s g) ≡ true
          → is_some (get_fn (gc_one s f) g) ≡ true)
unfolding gc_one
gc_one-Inv s f v h =
    at_on P (λ e. absurd (lost e h))
      λ n e.
        at_if P (λ d. (gone n e d, λ g w k. rw (dropped s f g v.tidy, w) k)) (λ _. (v, λ g w k. k))
  where
    P : Lde → Type 0
    P t =
        Inv t
        × ((g : Fec)
            → same fec_order f g ≡ false
            → is_some (get_fn s g) ≡ true
            → is_some (get_fn t g) ≡ true)

    gone :
        (n : FecNode)
        → get_fn s f ≡ some n
        → is_dead n ≡ true
        → Inv (record s { ft = remove fec_order s.ft f })
    gone n e d = record {
      linked = λ g q.
          ground
            (arith, dropped s f g v.tidy, v.linked g q, dead_lists n d, same_iff fec_order f g);
      sent_linked = λ g q.
          ground (
            arith,
            dropped s f g v.tidy,
            v.sent_linked g q,
            dead_lists n d,
            same_iff fec_order f g,
          );
      pw_attached = λ g w r. ground (arith, dropped s f g v.tidy, v.pw_attached g w);
      tidy = record {
        nodes = remove-IsSorted fec_order s.ft f v.tidy.nodes;
        nbrs = v.tidy.nbrs;
        maps = v.tidy.maps;
      };
      no_fault = v.no_fault;
    }

still_there :
    (s t : Lde) (f : Fec) (gs : List Fec)
    → All (λ g. same fec_order f g ≡ false) gs
    → All (λ g. is_some (get_fn s g) ≡ true) gs
    → ((g : Fec)
        → same fec_order f g ≡ false
        → is_some (get_fn s g) ≡ true
        → is_some (get_fn t g) ≡ true)
    → All (λ g. is_some (get_fn t g) ≡ true) gs
still_there s t f [] x y k = tt
still_there s t f (g ∷ gs) x y k = (k g x.0 y.0, still_there s t f gs x.1 y.1 k)

gc_loop-Inv :
    (fs : List Fec) (s : Lde)
    → Inv s
    → All (λ f. is_some (get_fn s f) ≡ true) fs
    → Apart fs
    → Inv (for_each fs gc_one s)
unfolding Apart
gc_loop-Inv [] s v a d = v
gc_loop-Inv (f ∷ fs) s v a d =
    let (one, left) = gc_one-Inv s f v a.0 in
    gc_loop-Inv fs (gc_one s f) one (still_there s (gc_one s f) f fs d.0 a.1 left) d.1

pub gc_timer-Inv : (s : Lde) → Inv s → Inv (lde_gc_timer s)
unfolding lde_gc_timer
gc_timer-Inv s v =
    gc_loop-Inv (keys s.ft) s v (keys-All fec_order s.ft) (keys-Apart s.ft v.tidy.nodes)

-- What the collector leaves of a node.
abbrev pub live : Option FecNode → Option FecNode
live none = none
live (some n) = if is_dead n then none else some n

live_live : (o : Option FecNode) → live (live o) ≡ live o
live_live none = refl
live_live (some n) = at_live (is_dead n) refl
  where
    at_live :
        (b : Bool)
        → is_dead n ≡ b
        → live (if b then none else some n) ≡ (if b then none else some n)
    at_live true e = refl
    at_live false e = rw e refl

gc_one-live :
    (s : Lde) (f g : Fec)
    → Inv s
    → is_some (get_fn s f) ≡ true
    → get_fn (gc_one s f) g ≡ (if same fec_order f g then live (get_fn s g) else get_fn s g)
unfolding gc_one
gc_one-live s f g v h =
    at_on P (λ e. absurd (lost e h))
      λ n e.
        at_if P (λ d. ground (arith, d, e, dropped s f g v.tidy, same_iff fec_order f g))
          (λ d. ground (arith, d, e, same_iff fec_order f g))
  where
    P : Lde → Type 0
    P t = get_fn t g ≡ (if same fec_order f g then live (get_fn s g) else get_fn s g)

-- What the loop leaves of a node, by the classes that it visits.
abbrev visited : List Fec → Fec → Option FecNode → Option FecNode
visited [] g o = o
visited (f ∷ fs) g o = visited fs g (if same fec_order f g then live o else o)

visited-live : (fs : List Fec) (g : Fec) (o : Option FecNode) → visited fs g (live o) ≡ live o
visited-live [] g o = refl
visited-live (f ∷ fs) g o = at_same (same fec_order f g) (visited-live fs g o)
  where
    at_same :
        (b : Bool)
        → visited fs g (live o) ≡ live o
        → visited fs g (if b then live (live o) else live o) ≡ live o
    at_same true h = ap (visited fs g) (live_live o) ∙ h
    at_same false h = h

find_first {ℓ} :
    {V : Type ℓ} (f : Fec) (v : V) (t : List (Fec × V)) (g : Fec)
    → find fec_order ((f, v) ∷ t) g ≡ (if same fec_order f g then some v else find fec_order t g)
unfolding find same
find_first f v t g = ground (arith, fec_order.flips f g)

visited-keys :
    (t : List (Fec × FecNode)) (g : Fec)
    → visited (keys t) g (find fec_order t g) ≡ live (find fec_order t g)
visited-keys [] g = unfold find in refl
visited-keys ((f, v) ∷ t) g =
    rw (find_first f v t g) (at_same (same fec_order f g) (visited-keys t g))
  where
    at_same :
        (b : Bool)
        → visited (keys t) g (find fec_order t g) ≡ live (find fec_order t g)
        → visited (keys t) g (
            if b
            then live (if b then some v else find fec_order t g)
            else if b
            then some v
            else find fec_order t g)
          ≡ live (if b then some v else find fec_order t g)
    at_same true h = visited-live (keys t) g (some v)
    at_same false h = h

gc_loop-live :
    (fs : List Fec) (s : Lde) (g : Fec)
    → Inv s
    → All (λ f. is_some (get_fn s f) ≡ true) fs
    → Apart fs
    → get_fn (for_each fs gc_one s) g ≡ visited fs g (get_fn s g)
unfolding Apart
gc_loop-live [] s g v a d = refl
gc_loop-live (f ∷ fs) s g v a d =
    let (one, left) = gc_one-Inv s f v a.0 in
    gc_loop-live fs (gc_one s f) g one (still_there s (gc_one s f) f fs d.0 a.1 left) d.1
    ∙ ap (visited fs g) (gc_one-live s f g v a.0)

pub gc_timer-live : (s : Lde) (g : Fec) → Inv s → get_fn (lde_gc_timer s) g ≡ live (get_fn s g)
unfolding lde_gc_timer
gc_timer-live s g v =
    gc_loop-live (keys s.ft) s g v (keys-All fec_order s.ft) (keys-Apart s.ft v.tidy.nodes)
    ∙ visited-keys s.ft g
