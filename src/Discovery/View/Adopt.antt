-- ===== src/Discovery/View/Adopt.antt =====
-- A new neighbor adopts the adjacencies with its LSR id.
use openbsd_ldpd.Base.{
  ℕ, ◌≡◌, ◌≢◌, ◌∙◌, ◌⊎◌, inl, inr, refl, sym, ap, true, false, some, List, [], ◌∷◌, ◌==◌, map,
  if◌then◌else◌, Bool-cases, arith,
}
use mathlib.Core.Path.{subst}
use openbsd_ldpd.Lde.{Af}
use openbsd_ldpd.Discovery.{same_addr, source_af}
use openbsd_ldpd.Discovery.Lists.{Has, Has-map, Has-of_map}
use openbsd_ldpd.Discovery.View.{
  Link, Key, View, IsLinked, IsApart, IsAnchored, AllAnchored, target_of,
}
use openbsd_ldpd.Discovery.View.Unlink.{some_inj}
use openbsd_ldpd.Discovery.View.Purge.{IsWellView}

abbrev pub adopt_link : ℕ → Link → Link
adopt_link id a = if a.lsr_id == id then record a { nbr = some id } else a

abbrev pub join : View → Key → View
join v k = record v { links = map (adopt_link k.id) v.links; keys = k ∷ v.keys }

pub adopt_ptr : (id : ℕ) (a : Link) → (adopt_link id a).ptr ≡ a.ptr
adopt_ptr id a = elim (Bool-cases (a.lsr_id == id)) [ inl e ↦ rw e refl | inr e ↦ rw e refl ]

adopt_lsr : (id : ℕ) (a : Link) → (adopt_link id a).lsr_id ≡ a.lsr_id
adopt_lsr id a = elim (Bool-cases (a.lsr_id == id)) [ inl e ↦ rw e refl | inr e ↦ rw e refl ]

adopt_source : (id : ℕ) (a : Link) → (adopt_link id a).source ≡ a.source
adopt_source id a = elim (Bool-cases (a.lsr_id == id)) [ inl e ↦ rw e refl | inr e ↦ rw e refl ]

adopt_yes : (id : ℕ) (a : Link) → a.lsr_id ≡ id → (adopt_link id a).nbr ≡ some id
adopt_yes id a h = let e : (a.lsr_id == id) ≡ true = ground arith in rw e refl

pub adopt_no : (id : ℕ) (a : Link) → a.lsr_id ≢ id → adopt_link id a ≡ a
adopt_no id a h = elim (Bool-cases (a.lsr_id == id)) [
  | inl e ↦ absurd (h (ground arith))
  | inr e ↦ rw e refl
]

same_addr_sym : (af bf : Af) (a b : ℕ) → same_addr af a bf b ≡ true → same_addr bf b af a ≡ true
same_addr_sym Af.inet Af.inet a b h = ground arith
same_addr_sym Af.inet6 Af.inet6 a b h = ground arith
same_addr_sym Af.inet Af.inet6 a b h = cc
same_addr_sym Af.inet6 Af.inet a b h = cc

module _ (v : View) (k : Key) (i : IsLinked v) (no_id : (l : Key) → Has l v.keys → l.id ≢ k.id)
    (no_addr : (l : Key) → Has l v.keys → same_addr k.af k.raddr l.af l.raddr ≡ false) where
  origin :
      (a : Link)
      → Has a (map (adopt_link k.id) v.links)
      → (b : Link) × Has b v.links
        × (a ≡ adopt_link k.id b)
        × (a.ptr ≡ b.ptr)
        × (a.lsr_id ≡ b.lsr_id)
        × (a.source ≡ b.source)
  origin a h =
      let r = Has-of_map (adopt_link k.id) a v.links h in
      (
        r.0,
        r.1,
        r.2,
        ap (λ (x : Link). x.ptr) r.2 ∙ adopt_ptr k.id r.0,
        ap (λ (x : Link). x.lsr_id) r.2 ∙ adopt_lsr k.id r.0,
        ap (λ (x : Link). x.source) r.2 ∙ adopt_source k.id r.0,
      )

  nbr_case :
      (b : Link) (id : ℕ)
      → (adopt_link k.id b).nbr ≡ some id
      → ((b.lsr_id ≡ k.id) × (id ≡ k.id)) ⊎ ((b.lsr_id ≢ k.id) × (b.nbr ≡ some id))
  nbr_case b id h = elim (Bool-cases (b.lsr_id == k.id)) [
    | inl e ↦
        let q : b.lsr_id ≡ k.id = ground arith in inl (q, some_inj (sym h ∙ adopt_yes k.id b q))
    | inr e ↦
        let q : b.lsr_id ≢ k.id = λ z. ground arith in
        inr (q, sym (ap (λ (x : Link). x.nbr) (adopt_no k.id b q)) ∙ h)
  ]

  join-named : (a : Link) (id : ℕ) → Has a (join v k).links → a.nbr ≡ some id → a.lsr_id ≡ id
  join-named a id h e =
      let o = origin a h in
      elim (nbr_case o.0 id (sym (ap (λ (x : Link). x.nbr) o.2) ∙ e)) [
        | inl (p, q) ↦ o.4 ∙ p ∙ sym q
        | inr (p, q) ↦ o.4 ∙ i.named o.0 id o.1 q
      ]

  join-owned :
      (a : Link) (id : ℕ)
      → Has a (join v k).links
      → a.nbr ≡ some id
      → (l : Key) × Has l (join v k).keys × (l.id ≡ id)
  join-owned a id h e =
      let o = origin a h in
      elim (nbr_case o.0 id (sym (ap (λ (x : Link). x.nbr) o.2) ∙ e)) [
        | inl (p, q) ↦ (k, inl refl, sym q)
        | inr (p, q) ↦ let r = i.owned o.0 id o.1 q in (r.0, inr r.1, r.2)
      ]

  join-adopted :
      (a : Link) (l : Key)
      → Has a (join v k).links
      → Has l (join v k).keys
      → l.id ≡ a.lsr_id
      → a.nbr ≡ some l.id
  join-adopted a l h (inl q) e =
      let o = origin a h in
      let f : l.id ≡ k.id = ap (λ (x : Key). x.id) q in
      ap (λ (x : Link). x.nbr) o.2 ∙ adopt_yes k.id o.0 (sym o.4 ∙ sym e ∙ f) ∙ ap some (sym f)
  join-adopted a l h (inr m) e =
      let o = origin a h in
      let n : o.0.lsr_id ≢ k.id = λ z. no_id l m (e ∙ o.4 ∙ z) in
      ap (λ (x : Link). x.nbr) (o.2 ∙ adopt_no k.id o.0 n) ∙ i.adopted o.0 l o.1 m (e ∙ o.4)

  join-id_uniq : (l m : Key) → Has l (join v k).keys → Has m (join v k).keys → l.id ≡ m.id → l ≡ m
  join-id_uniq l m (inl p) (inl q) e = p ∙ sym q
  join-id_uniq l m (inl p) (inr y) e = absurd (no_id m y (sym e ∙ ap (λ (x : Key). x.id) p))
  join-id_uniq l m (inr x) (inl q) e = absurd (no_id l x (e ∙ ap (λ (x : Key). x.id) q))
  join-id_uniq l m (inr x) (inr y) e = i.id_uniq l m x y e

  clash : (l : Key) → Has l v.keys → same_addr k.af k.raddr l.af l.raddr ≡ true → ⊥
  clash l h e = let f = no_addr l h in cc

  join-addr_uniq :
      (l m : Key)
      → Has l (join v k).keys
      → Has m (join v k).keys
      → same_addr l.af l.raddr m.af m.raddr ≡ true
      → l ≡ m
  join-addr_uniq l m (inl p) (inl q) e = p ∙ sym q
  join-addr_uniq l m (inl p) (inr y) e =
      absurd (clash m y (subst (λ (x : Key). same_addr x.af x.raddr m.af m.raddr ≡ true) p e))
  join-addr_uniq l m (inr x) (inl q) e = absurd (
      clash l x (
        same_addr_sym l.af k.af l.raddr k.raddr
          (subst (λ (x : Key). same_addr l.af l.raddr x.af x.raddr ≡ true) q e)))
  join-addr_uniq l m (inr x) (inr y) e = i.addr_uniq l m x y e

  join-IsApart : (ls : List Link) → IsApart ls → IsApart (map (adopt_link k.id) ls)
  join-IsApart [] h = h
  join-IsApart (x ∷ xs) (h, r) = (
    λ b m e.
        let o = Has-of_map (adopt_link k.id) b xs m in
        h o.0 o.1 (sym (ap (λ (y : Link). y.ptr) o.2 ∙ adopt_ptr k.id o.0) ∙ e ∙ adopt_ptr k.id x),
    join-IsApart xs r,
  )

  pub join-IsLinked : IsLinked (join v k)
  join-IsLinked = record {
    sound = i.sound;
    fresh = λ a h. let o = origin a h in rw o.3 (i.fresh o.0 o.1);
    apart = join-IsApart v.links i.apart;
    uniq = λ a b h m e.
        let o = origin a h in
        let p = origin b m in
        o.2 ∙ ap (adopt_link k.id) (i.uniq o.0 p.0 o.1 p.1 (sym o.3 ∙ e ∙ p.3)) ∙ sym p.2;
    named = join-named;
    owned = join-owned;
    adopted = join-adopted;
    id_uniq = join-id_uniq;
    addr_uniq = join-addr_uniq;
    held = λ m p h e.
        let r = i.held m p h e in
        (
          adopt_link k.id r.0,
          Has-map (adopt_link k.id) r.0 v.links r.1,
          adopt_ptr k.id r.0 ∙ r.2,
          ap target_of (adopt_source k.id r.0) ∙ r.3,
        );
    holder = λ a t h e.
        let o = origin a h in
        let r = i.holder o.0 t o.1 (sym (ap target_of o.5) ∙ e) in
        (r.0, r.1, r.2, r.3 ∙ ap some (sym o.3));
    mark_fresh = i.mark_fresh;
    mark_uniq = i.mark_uniq;
  }

  pub join-IsWell :
      (a : Link)
      → Has a v.links
      → a.lsr_id ≡ k.id
      → source_af a.source ≡ k.af
      → AllAnchored v
      → IsWellView (join v k)
  join-IsWell a ha ea fa w = (join-IsLinked, anchored)
    where
      anchored : (l : Key) → Has l (join v k).keys → IsAnchored (join v k).links l
      anchored l (inl q) =
          let p : IsAnchored (join v k).links k = (
            adopt_link k.id a,
            Has-map (adopt_link k.id) a v.links ha,
            adopt_yes k.id a ea,
            ap source_af (adopt_source k.id a) ∙ fa,
          ) in
          subst (λ (x : Key). IsAnchored (join v k).links x) (sym q) p
      anchored l (inr m) =
          let (b, hb, eb, fb) = w l m in
          let n : b.lsr_id ≢ k.id = λ z. no_id l m (sym (i.named b l.id hb eb) ∙ z) in
          let f = adopt_no k.id b n in
          (
            adopt_link k.id b,
            Has-map (adopt_link k.id) b v.links hb,
            ap (λ (x : Link). x.nbr) f ∙ eb,
            ap (λ (x : Link). source_af x.source) f ∙ fb,
          )
