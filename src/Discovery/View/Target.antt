-- ===== src/Discovery/View/Target.antt =====
-- A targeted neighbor that is removed, and the timer of an adjacency.
use openbsd_ldpd.Base.{
  ℕ, ◌≡◌, ◌≢◌, ◌∙◌, inl, inr, refl, sym, ap, Bool, not, Option, none, some, List, [], ◌∷◌, ◌==◌,
  map, Bool-cases, arith, ◌&&◌, ◌||◌,
}
use mathlib.Core.Path.{subst}
use openbsd_ldpd.Lde.{Af}
use openbsd_ldpd.Nbr.Events.{s_shutdown}
use openbsd_ldpd.Discovery.{HelloSource, Adj, Tnbr, Disc}
use openbsd_ldpd.Discovery.Adjacency.{
  adj_del, adj_del_single, adj_get, tnbr_get, tnbr_del, tnbr_check, adj_itimer, link_target,
  set_target, s_holdtime_exp, release, expire, nbr_check, other,
}
use openbsd_ldpd.Discovery.Lists.{Has, filter, Has-filter, Has-of_filter, Has-map}
use openbsd_ldpd.Discovery.View.{Link, Mark, View, IsLinked, view, link_of, mark_of, target_of}
use openbsd_ldpd.Discovery.View.Unlink.{some_inj}
use openbsd_ldpd.Discovery.View.Purge.{IsWell, adj_del-IsWithin, adj_del-IsWell}

abbrev other_mark : ℕ → Mark → Bool
other_mark t m = not (m.ptr == t)

abbrev unmark : View → ℕ → View
unmark v t = record v { marks = filter (other_mark t) v.marks }

unmark-IsLinked :
    (v : View) (t : ℕ)
    → IsLinked v
    → ((b : Link) → Has b v.links → target_of b.source ≢ some t)
    → IsLinked (unmark v t)
unmark-IsLinked v t i n = record {
  sound = i.sound;
  fresh = i.fresh;
  apart = i.apart;
  uniq = i.uniq;
  named = i.named;
  owned = i.owned;
  adopted = i.adopted;
  id_uniq = i.id_uniq;
  addr_uniq = i.addr_uniq;
  held = λ m p h. i.held m p (Has-of_filter (other_mark t) m v.marks h).0;
  holder = λ a x h e.
      let o = i.holder a x h e in
      let f : x ≢ t = λ q. n a h (e ∙ ap some q) in
      (o.0, Has-filter (other_mark t) o.0 v.marks o.1 (ground arith), o.2, o.3);
  mark_fresh = λ m h. i.mark_fresh m (Has-of_filter (other_mark t) m v.marks h).0;
  mark_uniq = λ m k h l.
      i.mark_uniq m k (Has-of_filter (other_mark t) m v.marks h).0
        (Has-of_filter (other_mark t) k v.marks l).0;
}

marks_filter :
    (t : ℕ) (ts : List Tnbr)
    → map mark_of (filter (λ (x : Tnbr). not (x.ptr == t)) ts)
      ≡ filter (other_mark t) (map mark_of ts)
marks_filter t [] = refl
marks_filter t (x ∷ xs) = elim (Bool-cases (x.ptr == t)) [
  | inl e ↦ rw (e, marks_filter t xs) refl
  | inr e ↦ rw (e, marks_filter t xs) refl
]

-- The end of tnbr_del, when no adjacency has the target.
forget-IsWell :
    (d : Disc) (t : ℕ)
    → IsWell d
    → ((b : Link) → Has b (view d).links → target_of b.source ≢ some t)
    → IsWell (record d { tnbrs = filter (λ (x : Tnbr). not (x.ptr == t)) d.tnbrs })
forget-IsWell d t (i, w) n = rw (marks_filter t d.tnbrs) (unmark-IsLinked (view d) t i n, w)

pub find_adj_lem :
    (as' : List Adj) (a : Link)
    → Has a (map link_of as')
    → (x : Adj) × (adj_get as' a.ptr ≡ some x) × Has x as' × (x.ptr ≡ a.ptr)
unfolding adj_get
find_adj_lem [] a h = elim h [ ]
find_adj_lem (x ∷ xs) a h = elim (Bool-cases (x.ptr == a.ptr)) [
  | inl e ↦ (x, rw e refl, inl refl, ground arith)
  | inr e ↦ elim h [
    | inl q ↦ let r : a.ptr ≡ x.ptr = ap (λ (y : Link). y.ptr) q in absurd (ground arith)
    | inr m ↦ let r = find_adj_lem xs a m in (r.0, rw e r.1, inr r.2, r.3)
  ]
]

find_target :
    (ts : List Tnbr) (m : Mark)
    → Has m (map mark_of ts)
    → (x : Tnbr) × (tnbr_get ts m.ptr ≡ some x) × Has x ts × (x.ptr ≡ m.ptr)
unfolding tnbr_get
find_target [] a h = elim h [ ]
find_target (x ∷ xs) a h = elim (Bool-cases (x.ptr == a.ptr)) [
  | inl e ↦ (x, rw e refl, inl refl, ground arith)
  | inr e ↦ elim h [
    | inl q ↦ let r : a.ptr ≡ x.ptr = ap (λ (y : Mark). y.ptr) q in absurd (ground arith)
    | inr m ↦ let r = find_target xs a m in (r.0, rw e r.1, inr r.2, r.3)
  ]
]

-- The adjacency of a targeted neighbor, when there is one.
only_adj :
    (v : View) (i : IsLinked v) (m : Mark) (b : Link)
    → Has m v.marks
    → Has b v.links
    → target_of b.source ≡ some m.ptr
    → m.adj ≡ some b.ptr
only_adj v i m b h k e =
    let o = i.holder b m.ptr k e in
    let z : o.0 ≡ m = i.mark_uniq o.0 m o.1 h o.2 in subst (λ (x : Mark). x.adj ≡ some b.ptr) z o.3

release-IsWell :
    (d : Disc) (m : Mark) (o : Option ℕ)
    → IsWell d
    → Has m (view d).marks
    → m.adj ≡ o
    → IsWell (release d o)
      × ((b : Link) → Has b (view (release d o)).links → target_of b.source ≢ some m.ptr)
unfolding release
release-IsWell d m none w h e = (w, λ b k q. let x = only_adj (view d) w.0 m b h k q in cc)
release-IsWell d m (some p) w h e =
    let a = w.0.held m p h e in
    let f = find_adj_lem d.adj_list a.0 a.1 in
    let g : adj_get d.adj_list p ≡ some f.0 =
      subst (λ (x : ℕ). adj_get d.adj_list x ≡ some f.0) a.2 f.1 in
    let r = adj_del-IsWithin d f.0 s_shutdown w f.2 in
    rw (g, release)
      (
        r.0,
        λ b k q.
            let s = r.1 b k in
            let x = only_adj (view d) w.0 m b h s.0 q in
            s.1 (some_inj (sym x ∙ e) ∙ sym a.2 ∙ sym f.3),
      )

pub tnbr_del-IsWell :
    (d : Disc) (t : Tnbr) → IsWell d → Has (mark_of t) (view d).marks → IsWell (tnbr_del d t)
unfolding tnbr_del release
tnbr_del-IsWell d t w h =
    let r = release-IsWell d (mark_of t) t.adj w h refl in
    forget-IsWell (release d t.adj) t.ptr r.0 r.1

clear_twice :
    (t : ℕ) (ts : List Tnbr)
    → map (set_target t none) (map (set_target t none) ts) ≡ map (set_target t none) ts
clear_twice t [] = refl
clear_twice t (x ∷ xs) = elim (Bool-cases (x.ptr == t)) [
  | inl e ↦ rw (e, clear_twice t xs) (rw e refl)
  | inr e ↦ rw (e, clear_twice t xs) (rw e refl)
]

clear_link :
    (s : HelloSource) (af : Af) (t : ℕ) (ts : List Tnbr)
    → s ≡ HelloSource.targeted af t
    → link_target s none (map (set_target t none) ts) ≡ link_target s none ts
clear_link s af t ts q = rw q (clear_twice t ts)

-- Clearing target->adj first makes no difference to adj_del.
clear_first :
    (d : Disc) (a : Adj) (af : Af) (t status : ℕ)
    → a.source ≡ HelloSource.targeted af t
    → adj_del (record d { tnbrs = map (set_target t none) d.tnbrs }) a status ≡ adj_del d a status
unfolding adj_del adj_del_single
clear_first d a af t status h =
    ap
      (λ (ts : List Tnbr).
        nbr_check (record d { adj_list = filter (other a.ptr) d.adj_list; tnbrs = ts }) a.nbr
          status)
      (clear_link a.source af t d.tnbrs h)

expire-IsWell :
    (d : Disc) (a : Adj) (s : HelloSource)
    → IsWell d
    → Has a d.adj_list
    → a.source ≡ s
    → IsWell (expire d a s)
unfolding expire
expire-IsWell d a (HelloSource.link i af x) w h e = adj_del-IsWell d a s_holdtime_exp w h
expire-IsWell d a (HelloSource.targeted af p) w h e =
    let m = w.0.holder (link_of a) p (Has-map link_of a d.adj_list h) (ap target_of e) in
    let f = find_target d.tnbrs m.0 m.1 in
    let g : tnbr_get d.tnbrs p ≡ some f.0 =
      subst (λ (x : ℕ). tnbr_get d.tnbrs x ≡ some f.0) m.2 f.1 in
    rw (g, expire)
      (elim (Bool-cases (not f.0.configured && f.0.pw_count == 0)) [
        | inl b ↦ rw b (tnbr_del-IsWell d f.0 w (Has-map mark_of f.0 d.tnbrs f.2))
        | inr b ↦
            rw (b, clear_first d a af p s_holdtime_exp e) (adj_del-IsWell d a s_holdtime_exp w h)
      ])

pub adj_itimer-IsWell : (d : Disc) (a : Adj) → IsWell d → Has a d.adj_list → IsWell (adj_itimer d a)
adj_itimer-IsWell d a w h = expire-IsWell d a a.source w h refl

pub tnbr_check-IsWell :
    (d : Disc) (t : Tnbr) → IsWell d → Has (mark_of t) (view d).marks → IsWell (tnbr_check d t).0
unfolding tnbr_check
tnbr_check-IsWell d t w h = elim (Bool-cases (not (t.configured || t.dynamic) && t.pw_count == 0)) [
  | inl b ↦ rw b (tnbr_del-IsWell d t w h)
  | inr b ↦ rw b w
]
