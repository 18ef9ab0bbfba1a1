-- ===== src/Discovery/View/Unlink.antt =====
-- An adjacency that is removed.
use openbsd_ldpd.Base.{
  ℕ, ◌≡◌, ◌≢◌, ◌∙◌, inl, inr, refl, sym, ap, Bool, true, Option, none, some, List, [], ◌∷◌, ◌==◌,
  map, Bool-cases, arith,
}
use openbsd_ldpd.Discovery.Lists.{Has, filter, Has-filter, Has-of_filter, Has-map, Has-of_map}
use openbsd_ldpd.Discovery.View.{
  Link, Key, Mark, View, IsLinked, IsApart, IsAnchored, target_of, mark_target, mark_source,
  other_link, unlink,
}

pub other_ne : (p : ℕ) (a : Link) → other_link p a ≡ true → a.ptr ≢ p
other_ne p a h = λ e. ground arith

pub ne_other : (p : ℕ) (a : Link) → a.ptr ≢ p → other_link p a ≡ true
ne_other p a h = ground arith

pub IsApart-filter : (p : Link → Bool) (ls : List Link) → IsApart ls → IsApart (filter p ls)
IsApart-filter p [] h = h
IsApart-filter p (x ∷ xs) (h, k) = elim (Bool-cases (p x)) [
  | inl e ↦ rw e (λ b m. h b (Has-of_filter p b xs m).0, IsApart-filter p xs k)
  | inr e ↦ rw e (IsApart-filter p xs k)
]

pub some_inj : {x y : ℕ} → some x ≡ some y → x ≡ y
some_inj h = cc

-- A mark that points somewhere after the removal did so before, and is not the removed one's.
still_marked :
    (o : Option ℕ) (ms : List Mark) (m : Mark) (p : ℕ)
    → Has m (mark_source o none ms)
    → m.adj ≡ some p
    → Has m ms × (o ≢ some m.ptr)
still_marked none ms m p h e = (h, λ q. cc)
still_marked (some t) ms m p h e =
    let r = Has-of_map (mark_target t none) m ms h in
    elim (Bool-cases (r.0.ptr == t)) [
      | inl q ↦
          let f : mark_target t none r.0 ≡ record (r.0) { adj = none } = rw q refl in
          let g : m.adj ≡ none = ap (λ (x : Mark). x.adj) (r.2 ∙ f) in absurd (cc)
      | inr q ↦
          let f : mark_target t none r.0 ≡ r.0 = rw q refl in
          let g : m ≡ r.0 = r.2 ∙ f in
          (
            rw g r.1,
            λ k.
                let i : t ≡ m.ptr = some_inj k in
                let j : m.ptr ≡ r.0.ptr = ap (λ (x : Mark). x.ptr) g in absurd (ground arith),
          )
    ]

pub keeps_mark :
    (o x : Option ℕ) (ms : List Mark) (m : Mark)
    → Has m ms
    → o ≢ some m.ptr
    → Has m (mark_source o x ms)
keeps_mark none x ms m h n = h
keeps_mark (some t) x ms m h n = elim (Bool-cases (m.ptr == t)) [
  | inl q ↦ let e : t ≡ m.ptr = ground arith in absurd (n (ap some e))
  | inr q ↦
      let f : mark_target t x m ≡ m = rw q refl in
      let k : Has (mark_target t x m) (map (mark_target t x) ms) =
        Has-map (mark_target t x) m ms h in
      rw f at k
]

abbrev pub retarget : Option ℕ → Option ℕ → Mark → Mark
retarget none x m = m
retarget (some t) x m = mark_target t x m

pub marks_from :
    (o x : Option ℕ) (ms : List Mark) (m : Mark)
    → Has m (mark_source o x ms)
    → (n : Mark) × Has n ms × (m ≡ retarget o x n)
marks_from none x ms m h = (m, h, refl)
marks_from (some t) x ms m h = Has-of_map (mark_target t x) m ms h

pub retarget_ptr : (o x : Option ℕ) (n : Mark) → (retarget o x n).ptr ≡ n.ptr
retarget_ptr none x n = refl
retarget_ptr (some t) x n = elim (Bool-cases (n.ptr == t)) [ inl q ↦ rw q refl | inr q ↦ rw q refl ]

abbrev pub ptr_of : Mark → ℕ
ptr_of m = m.ptr

-- Where a mark comes from, with its pointer.
pub marks_ptr :
    (o x : Option ℕ) (ms : List Mark) (m : Mark)
    → Has m (mark_source o x ms)
    → (n : Mark) × Has n ms × (m ≡ retarget o x n) × (m.ptr ≡ n.ptr)
marks_ptr o x ms m h =
    let r = marks_from o x ms m h in (r.0, r.1, r.2, ap ptr_of r.2 ∙ retarget_ptr o x r.0)

pub marks_uniq :
    (o x : Option ℕ) (ms : List Mark)
    → ((m n : Mark) → Has m ms → Has n ms → m.ptr ≡ n.ptr → m ≡ n)
    → (m n : Mark) → Has m (mark_source o x ms)
    → Has n (mark_source o x ms)
    → m.ptr ≡ n.ptr
    → m ≡ n
marks_uniq o x ms u m n h k e =
    let a = marks_ptr o x ms m h in
    let b = marks_ptr o x ms n k in
    a.2 ∙ ap (retarget o x) (u a.0 b.0 a.1 b.1 (sym a.3 ∙ e ∙ b.3)) ∙ sym b.2

module _ (v : View) (a : Link) (i : IsLinked v) (h : Has a v.links) where
  stays : (b : Link) → Has b (unlink v a).links → Has b v.links × (b.ptr ≢ a.ptr)
  stays b k = let r = Has-of_filter (other_link a.ptr) b v.links k in (r.0, other_ne a.ptr b r.1)

  pub remains : (b : Link) → Has b v.links → b.ptr ≢ a.ptr → Has b (unlink v a).links
  remains b k n = Has-filter (other_link a.ptr) b v.links k (ne_other a.ptr b n)

  unlink-held :
      (m : Mark) (p : ℕ)
      → Has m (unlink v a).marks
      → m.adj ≡ some p
      → (b : Link) × Has b (unlink v a).links × (b.ptr ≡ p) × (target_of b.source ≡ some m.ptr)
  unlink-held m p k e =
      let r = still_marked (target_of a.source) v.marks m p k e in
      let b = i.held m p r.0 e in
      let n : b.0.ptr ≢ a.ptr =
        λ q. r.1 (ap (λ (x : Link). target_of x.source) (sym (i.uniq b.0 a b.1 h q)) ∙ b.3) in
      (b.0, remains b.0 b.1 n, b.2, b.3)

  unlink-holder :
      (b : Link) (t : ℕ)
      → Has b (unlink v a).links
      → target_of b.source ≡ some t
      → (m : Mark) × Has m (unlink v a).marks × (m.ptr ≡ t) × (m.adj ≡ some b.ptr)
  unlink-holder b t k e =
      let s = stays b k in
      let m = i.holder b t s.0 e in
      let n : target_of a.source ≢ some m.0.ptr = λ q.
        let w = i.holder a m.0.ptr h q in
        let z : m.0 ≡ w.0 = i.mark_uniq m.0 w.0 m.1 w.1 (sym w.2) in
        s.1 (some_inj (sym m.3 ∙ ap (λ (x : Mark). x.adj) z ∙ w.3)) in
      (m.0, keeps_mark (target_of a.source) none v.marks m.0 m.1 n, m.2, m.3)

  pub unlink-IsLinked : IsLinked (unlink v a)
  unlink-IsLinked = record {
    sound = i.sound;
    fresh = λ b k. i.fresh b (stays b k).0;
    apart = IsApart-filter (other_link a.ptr) v.links i.apart;
    uniq = λ b c k l. i.uniq b c (stays b k).0 (stays c l).0;
    named = λ b id k. i.named b id (stays b k).0;
    owned = λ b id k. i.owned b id (stays b k).0;
    adopted = λ b c k. i.adopted b c (stays b k).0;
    id_uniq = i.id_uniq;
    addr_uniq = i.addr_uniq;
    held = unlink-held;
    holder = unlink-holder;
    mark_fresh = λ m k.
        let r = marks_ptr (target_of a.source) none v.marks m k in rw r.3 (i.mark_fresh r.0 r.1);
    mark_uniq = marks_uniq (target_of a.source) none v.marks i.mark_uniq;
  }

  -- A neighbor that the adjacency does not point to stays anchored.
  pub unlink-IsAnchored :
      (k : Key) → a.nbr ≢ some k.id → IsAnchored v.links k → IsAnchored (unlink v a).links k
  unlink-IsAnchored k n (b, l, e, f) =
      let m : b.ptr ≢ a.ptr = λ q. n (ap (λ (x : Link). x.nbr) (sym (i.uniq b a l h q)) ∙ e) in
      (b, remains b l m, e, f)
