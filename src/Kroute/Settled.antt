-- ===== src/Kroute/Settled.antt =====
-- Which routes are announced: for each prefix those of the lowest priority, as far as they may be.
use openbsd_ldpd.Base.{
  ℕ, ◌≡◌, ◌≤◌, ◌⊎◌, inl, inr, refl, Bool, true, false, List, [], ◌∷◌, if◌then◌else◌, Bool-cases,
  arith, ◌∙◌, sym, ltb, not, ◌&&◌, ◌||◌, ◌==◌,
}
use openbsd_ldpd.Kroute.{
  Kroute, KroutePriority, KrOut, is_redistributable, kr_redist_eval, kr_redist_remove, each,
  remove_rest, kr_redistribute, at_prio, insert_prio,
}

abbrev pub All {ℓ} : {A : Type ℓ} → (A → Type 0) → List A → Type 0
All P [] = Unit
All P (x ∷ xs) = P x × All P xs

abbrev pub IsAnnounced : Kroute → Type 0
IsAnnounced r = r.redistributed ≡ is_redistributable r

abbrev pub IsSilent : Kroute → Type 0
IsSilent r = r.redistributed ≡ false

abbrev pub IsSound : Kroute → Type 0
IsSound r = (r.redistributed ≡ false) ⊎ (is_redistributable r ≡ true)

abbrev pub IsSilentAt : KroutePriority → Type 0
IsSilentAt p = All IsSilent p.nexthops

abbrev pub IsSoundAt : KroutePriority → Type 0
IsSoundAt p = All IsSound p.nexthops

-- The routes of the first priority are announced as far as they may be, and no others.
abbrev pub IsSettled : List KroutePriority → Type 0
IsSettled [] = Unit
IsSettled (p ∷ ps) = All IsAnnounced p.nexthops × All IsSilentAt ps

abbrev pub IsFrom : ℕ → KroutePriority → Type 0
IsFrom n q = n ≤ q.priority

abbrev pub IsAscending : List KroutePriority → Type 0
IsAscending [] = Unit
IsAscending (p ∷ ps) = All (IsFrom p.priority) ps × IsAscending ps

pub All-mono {ℓ} :
    {A : Type ℓ} (P Q : A → Type 0) (xs : List A) → ((x : A) → P x → Q x) → All P xs → All Q xs
All-mono P Q [] f h = tt
All-mono P Q (x ∷ xs) f h = (f x h.0, All-mono P Q xs f h.1)

flagged_same :
    (r : Kroute) (b : Bool)
    → is_redistributable (record r { redistributed = b }) ≡ is_redistributable r
unfolding is_redistributable
flagged_same r b = refl

chosen-IsAnnounced :
    (b : Bool) (r : Kroute) (out : List KrOut)
    → (not r.redistributed && is_redistributable r) ≡ b
    → IsSound r
    → let x : Kroute × List KrOut =
        if b then (record r { redistributed = true }, out) else (r, []) in
      IsAnnounced x.0
chosen-IsAnnounced true r out e h =
    let q : is_redistributable r ≡ true = ground (arith, e) in sym (flagged_same r true ∙ q)
chosen-IsAnnounced false r out e h = ground (arith, e, h)

eval-IsAnnounced : (r : Kroute) → IsSound r → IsAnnounced (kr_redist_eval r).0
unfolding kr_redist_eval
eval-IsAnnounced r h =
    chosen-IsAnnounced (not r.redistributed && is_redistributable r) r
      (KrOut.network_add (record r { redistributed = true }) ∷ []) refl h

each-IsAnnounced : (rs : List Kroute) → All IsSound rs → All IsAnnounced (each kr_redist_eval rs).0
each-IsAnnounced [] h = tt
each-IsAnnounced (r ∷ rs) h = (eval-IsAnnounced r h.0, each-IsAnnounced rs h.1)

remove-IsSilent : (r : Kroute) → IsSilent (kr_redist_remove r).0
unfolding kr_redist_remove
remove-IsSilent r = elim (Bool-cases r.redistributed) [ inl e ↦ rw e refl | inr e ↦ rw e refl ]

each-IsSilent : (rs : List Kroute) → All IsSilent (each kr_redist_remove rs).0
each-IsSilent [] = tt
each-IsSilent (r ∷ rs) = (remove-IsSilent r, each-IsSilent rs)

rest-IsSilentAt : (ps : List KroutePriority) → All IsSilentAt (remove_rest ps).0
rest-IsSilentAt [] = tt
rest-IsSilentAt (p ∷ ps) = (each-IsSilent p.nexthops, rest-IsSilentAt ps)

rest-IsFrom :
    (n : ℕ) (ps : List KroutePriority) → All (IsFrom n) ps → All (IsFrom n) (remove_rest ps).0
rest-IsFrom n [] h = tt
rest-IsFrom n (p ∷ ps) h = (h.0, rest-IsFrom n ps h.1)

rest-IsAscending : (ps : List KroutePriority) → IsAscending ps → IsAscending (remove_rest ps).0
rest-IsAscending [] h = tt
rest-IsAscending (p ∷ ps) h = (rest-IsFrom p.priority ps h.0, rest-IsAscending ps h.1)

-- What kr_redistribute makes of the priorities of a prefix, and what it needs.
abbrev pub IsReady : List KroutePriority → Type 0
IsReady ps = All IsSoundAt ps × IsAscending ps

abbrev pub IsFine : List KroutePriority → Type 0
IsFine ps = IsSettled ps × IsAscending ps

pub redistribute-IsFine : (ps : List KroutePriority) → IsReady ps → IsFine (kr_redistribute ps).0
unfolding kr_redistribute
redistribute-IsFine [] h = (tt, tt)
redistribute-IsFine (p ∷ ps) h = (
  (each-IsAnnounced p.nexthops h.0.0, rest-IsSilentAt ps),
  (rest-IsFrom p.priority ps h.1.0, rest-IsAscending ps h.1.1),
)

announced-IsSound : (r : Kroute) → IsAnnounced r → IsSound r
announced-IsSound r h = elim (Bool-cases r.redistributed) [ inl e ↦ inr (cc) | inr e ↦ inl e ]

pub fine-IsReady : (ps : List KroutePriority) → IsFine ps → IsReady ps
fine-IsReady [] h = (tt, tt)
fine-IsReady (p ∷ ps) h = (
  (
    All-mono IsAnnounced IsSound p.nexthops announced-IsSound h.0.0,
    All-mono IsSilentAt IsSoundAt ps (λ q. All-mono IsSilent IsSound q.nexthops (λ r. inl)) h.0.1,
  ),
  h.1,
)

-- Changes of one priority.
module _ (P : Kroute → Type 0) (f : List Kroute → List Kroute)
    (keep : (rs : List Kroute) → All P rs → All P (f rs)) where
  pub at_prio-All :
      (ps : List KroutePriority) (n : ℕ)
      → All (λ (p : KroutePriority). All P p.nexthops) ps
      → All (λ (p : KroutePriority). All P p.nexthops) (at_prio ps n f)
  at_prio-All [] n h = tt
  at_prio-All (p ∷ ps) n h = elim (Bool-cases (n == 0 || p.priority == n)) [
    | inl e ↦ rw e (keep p.nexthops h.0, h.1)
    | inr e ↦ rw e (h.0, at_prio-All ps n h.1)
  ]

at_prio-IsFrom :
    (f : List Kroute → List Kroute) (m : ℕ) (ps : List KroutePriority) (n : ℕ)
    → All (IsFrom m) ps
    → All (IsFrom m) (at_prio ps n f)
at_prio-IsFrom f m [] n h = tt
at_prio-IsFrom f m (p ∷ ps) n h = elim (Bool-cases (n == 0 || p.priority == n)) [
  | inl e ↦ rw e h
  | inr e ↦ rw e (h.0, at_prio-IsFrom f m ps n h.1)
]

pub at_prio-IsAscending :
    (f : List Kroute → List Kroute) (ps : List KroutePriority) (n : ℕ)
    → IsAscending ps
    → IsAscending (at_prio ps n f)
at_prio-IsAscending f [] n h = tt
at_prio-IsAscending f (p ∷ ps) n h = elim (Bool-cases (n == 0 || p.priority == n)) [
  | inl e ↦ rw e h
  | inr e ↦ rw e (at_prio-IsFrom f p.priority ps n h.0, at_prio-IsAscending f ps n h.1)
]

insert-IsFrom :
    (m : ℕ) (ps : List KroutePriority) (n : ℕ)
    → m ≤ n
    → All (IsFrom m) ps
    → All (IsFrom m) (insert_prio ps n)
insert-IsFrom m [] n l h = (l, tt)
insert-IsFrom m (p ∷ ps) n l h = elim (Bool-cases (ltb n p.priority)) [
  | inl e ↦ rw e (l, h)
  | inr e ↦ rw e (h.0, insert-IsFrom m ps n l h.1)
]

pub insert-IsAscending :
    (ps : List KroutePriority) (n : ℕ) → IsAscending ps → IsAscending (insert_prio ps n)
insert-IsAscending [] n h = (tt, tt)
insert-IsAscending (p ∷ ps) n h = elim (Bool-cases (ltb n p.priority)) [
  | inl e ↦
      rw e ((ground arith, All-mono (IsFrom p.priority) (IsFrom n) ps (λ q l. ground arith) h.0), h)
  | inr e ↦ rw e (insert-IsFrom p.priority ps n (ground arith) h.0, insert-IsAscending ps n h.1)
]

pub insert-IsSoundAt :
    (ps : List KroutePriority) (n : ℕ) → All IsSoundAt ps → All IsSoundAt (insert_prio ps n)
insert-IsSoundAt [] n h = (tt, tt)
insert-IsSoundAt (p ∷ ps) n h = elim (Bool-cases (ltb n p.priority)) [
  | inl e ↦ rw e (tt, h)
  | inr e ↦ rw e (h.0, insert-IsSoundAt ps n h.1)
]
