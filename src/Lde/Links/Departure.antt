-- ===== src/Lde/Links/Departure.antt =====
-- A neighbor goes: lde_nbr_del keeps the invariant.
use mathlib.Core.Option
use openbsd_ldpd.Base.{
  ℕ, ◌≡◌, ap, ◌∙◌, refl, Bool, true, false, Option, none, some, List, [], ◌∷◌, is_some, arith,
  if◌then◌else◌, for_each, lost, none_of, Bool-cases, inl, inr,
}
use openbsd_ldpd.Base.Branch.{on, at_if, at_on}
use openbsd_ldpd.RbTree.{find, remove, same}
use openbsd_ldpd.RbTree.Laws.{find-update, find-remove, remove-IsSorted, same_iff, same_refl}
use openbsd_ldpd.Fec.{Fec}
use openbsd_ldpd.Fec.Order.{fec_order}
use openbsd_ldpd.Lde.{LdeNbr, Lde, peer_order, get_fn, get_ln, keys}
use openbsd_ldpd.Lde.Send.{lde_map_del}
use openbsd_ldpd.Lde.Peers.{reset_pw, uninstall_one, clear_maps, lde_nbr_del}
use openbsd_ldpd.Lde.Links.{
  Inv, Tidy, Keeps, Keeps-refl, Keeps-trans, Keeps-same, Keeps-PwOk, Inv-PwOk, Keeps-Usable, Safe,
  Keeps-Safe, Safe-refl, Safe-trans, Stays-present, recv, sent, recv_of, sent_of, TidyOf,
}
use openbsd_ldpd.Lde.Links.Loops.{for_each-Safe_items, keys-All, All-map}
use openbsd_ldpd.Lde.Links.Check.{drop_label-Keeps, each_nexthop-Keeps}
use openbsd_ldpd.Lde.Links.Labels.{At}
use openbsd_ldpd.Lde.Links.Send.{the}
use openbsd_ldpd.Lde.Links.Recv.{recv_del-Safe}
use openbsd_ldpd.Lde.Links.Sent.{sent_del-Safe}

-- lde_nbr_del: the labels of the neighbor are uninstalled.
reset_pw-Keeps :
    (l : LdeNbr) (s : Lde) (f : Fec) → is_some (get_fn s f) ≡ true → Keeps s (reset_pw l s f)
reset_pw-Keeps l s (Fec.ipv4 a n) h = Keeps-refl s
reset_pw-Keeps l s (Fec.ipv6 a n) h = Keeps-refl s
reset_pw-Keeps l s (Fec.pwid t a r) h =
    at_if (Keeps s)
      (λ _.
        at_on (Keeps s) (λ e. absurd (lost e h))
          λ n _. at_on (Keeps s) (λ _. Keeps-refl s) (λ i _. Keeps-same refl refl refl))
      (λ _. Keeps-refl s)

uninstall_one-Safe : (p : ℕ) (s : Lde) (f : Fec) → At s p f → Safe s (uninstall_one p s f)
unfolding uninstall_one
uninstall_one-Safe p s f a =
    at_on (Safe s) (λ e. absurd (lost e a.nbr))
      λ l _. Keeps-Safe a.inv (
        each_nexthop-Keeps s f _ (Inv-PwOk a.inv) a.node λ t h v u.
          at_if (Keeps t)
            (λ _.
              let k = reset_pw-Keeps l t f u.node in
              Keeps-trans k (drop_label-Keeps f _ h (Keeps-PwOk k v) (Keeps-Usable k u)))
            (λ _. Keeps-refl t))

-- What is left of the mappings of a neighbor when those of some classes are deleted.
pub recv_left :
    (s : Lde) (p : ℕ) (f g : Fec)
    → TidyOf (get_ln s p)
    → (recv (lde_map_del s p f false) p g ≡ (if same fec_order f g then false else recv s p g))
      × (sent (lde_map_del s p f false) p g ≡ sent s p g)
unfolding lde_map_del
recv_left s p f g t =
    rw
      (
        find-update peer_order s.nbrs p
            (λ (l : LdeNbr). record l { recv_map = remove fec_order l.recv_map f }) p,
        same_refl peer_order p,
      )
      (left (get_ln s p) t)
  where
    left :
        (o : Option LdeNbr)
        → TidyOf o
        → (recv_of g
              (Option.map (λ (l : LdeNbr). record l { recv_map = remove fec_order l.recv_map f }) o)
            ≡ (if same fec_order f g then false else recv_of g o))
          × (sent_of g (
                Option.map
                  (λ (l : LdeNbr). record l { recv_map = remove fec_order l.recv_map f })
                  o)
              ≡ sent_of g o)
    left none t = ground arith
    left (some l) t = ground (arith, find-remove fec_order l.recv_map f g t.0)

sent_left :
    (s : Lde) (p : ℕ) (f g : Fec)
    → TidyOf (get_ln s p)
    → (sent (lde_map_del s p f true) p g ≡ (if same fec_order f g then false else sent s p g))
      × (recv (lde_map_del s p f true) p g ≡ recv s p g)
unfolding lde_map_del
sent_left s p f g t =
    rw
      (
        find-update peer_order s.nbrs p
            (λ (l : LdeNbr). record l { sent_map = remove fec_order l.sent_map f }) p,
        same_refl peer_order p,
      )
      (left (get_ln s p) t)
  where
    left :
        (o : Option LdeNbr)
        → TidyOf o
        → (sent_of g
              (Option.map (λ (l : LdeNbr). record l { sent_map = remove fec_order l.sent_map f }) o)
            ≡ (if same fec_order f g then false else sent_of g o))
          × (recv_of g (
                Option.map
                  (λ (l : LdeNbr). record l { sent_map = remove fec_order l.sent_map f })
                  o)
              ≡ recv_of g o)
    left none t = ground arith
    left (some l) t = ground (arith, find-remove fec_order l.sent_map f g t.1)

-- A loop that deletes the mappings of some classes, received or sent.
abbrev others : List Fec → Fec → Bool → Bool
others [] g b = b
others (f ∷ fs) g b = others fs g (if same fec_order f g then false else b)

clear_recv :
    (p : ℕ) (fs : List Fec) (s : Lde)
    → Inv s
    → Safe s (for_each fs (λ u f. lde_map_del u p f false) s)
      × ((g : Fec)
          → (recv (for_each fs (λ u f. lde_map_del u p f false) s) p g ≡ others fs g (recv s p g))
            × (sent (for_each fs (λ u f. lde_map_del u p f false) s) p g ≡ sent s p g))
clear_recv p [] s v = (Safe-refl v, λ g. (refl, refl))
clear_recv p (f ∷ fs) s v =
    let k = recv_del-Safe s p f v in
    let (rest, eqs) = clear_recv p fs (lde_map_del s p f false) k.inv in
    (
      Safe-trans k rest,
      λ g.
          let one = recv_left s p f g (v.tidy.maps p) in
          ((eqs g).0 ∙ ap (others fs g) one.0, (eqs g).1 ∙ one.1),
    )

clear_sent :
    (p : ℕ) (fs : List Fec) (s : Lde)
    → Inv s
    → Safe s (for_each fs (λ u f. lde_map_del u p f true) s)
      × ((g : Fec)
          → (sent (for_each fs (λ u f. lde_map_del u p f true) s) p g ≡ others fs g (sent s p g))
            × (recv (for_each fs (λ u f. lde_map_del u p f true) s) p g ≡ recv s p g))
clear_sent p [] s v = (Safe-refl v, λ g. (refl, refl))
clear_sent p (f ∷ fs) s v =
    let k = sent_del-Safe s p f v in
    let (rest, eqs) = clear_sent p fs (lde_map_del s p f true) k.inv in
    (
      Safe-trans k rest,
      λ g.
          let one = sent_left s p f g (v.tidy.maps p) in
          ((eqs g).0 ∙ ap (others fs g) one.0, (eqs g).1 ∙ one.1),
    )

others-false : (fs : List Fec) (g : Fec) → others fs g false ≡ false
others-false [] g = refl
others-false (f ∷ fs) g = elim (Bool-cases (same fec_order f g)) [
  | inl e ↦ rw e (others-false fs g)
  | inr e ↦ rw e (others-false fs g)
]

find_cons {ℓ} :
    {V : Type ℓ} (f : Fec) (v : V) (t : List (Fec × V)) (g : Fec)
    → is_some (find fec_order ((f, v) ∷ t) g)
      ≡ (if same fec_order f g then true else is_some (find fec_order t g))
unfolding find same
find_cons f v t g = ground (arith, fec_order.flips f g)

others_step :
    (fs : List Fec) (g : Fec) (b x : Bool)
    → others fs g x ≡ false
    → others fs g (if b then false else if b then true else x) ≡ false
others_step fs g true x h = others-false fs g
others_step fs g false x h = h

others-keys {ℓ} :
    {V : Type ℓ} (t : List (Fec × V)) (g : Fec)
    → others (keys t) g (is_some (find fec_order t g)) ≡ false
others-keys [] g = unfold find in refl
others-keys ((f, v) ∷ t) g =
    rw (find_cons f v t g) (others_step (keys t) g (same fec_order f g) _ (others-keys t g))

cleared :
    (s : Lde) (p : ℕ) (l : LdeNbr)
    → Inv s
    → get_ln s p ≡ some l
    → Safe s (clear_maps s p)
      × ((g : Fec) → (recv (clear_maps s p) p g ≡ false) × (sent (clear_maps s p) p g ≡ false))
unfolding clear_maps on
cleared s p l v e =
    let (k, a) = clear_recv p (keys l.recv_map) s v in
    let (k2, b) = clear_sent p (keys l.sent_map) _ k.inv in
    rw e (
      Safe-trans k k2,
      λ g. (
        (b g).1 ∙ (a g).0 ∙ rw e (others-keys l.recv_map g),
        (b g).0 ∙ ap (others (keys l.sent_map) g) (a g).1 ∙ rw e (others-keys l.sent_map g),
      ),
    )

-- A neighbor without mappings leaves the tree.
removed :
    (s : Lde) (p q : ℕ)
    → Tidy s
    → find peer_order (remove peer_order s.nbrs p) q
      ≡ (if same peer_order p q then none else get_ln s q)
removed s p q t = find-remove peer_order s.nbrs p q t.nbrs

removed-Inv :
    (s : Lde) (p : ℕ)
    → Inv s
    → ((g : Fec) → (recv s p g ≡ false) × (sent s p g ≡ false))
    → Inv (record s { nbrs = remove peer_order s.nbrs p })
removed-Inv s p v h = record {
  linked =
      λ f q. ground (arith, removed s p q v.tidy, v.linked f q, (h f).0, same_iff peer_order p q);
  sent_linked = λ f q.
      ground (arith, removed s p q v.tidy, v.sent_linked f q, (h f).1, same_iff peer_order p q);
  pw_attached = v.pw_attached;
  tidy = record {
    nodes = v.tidy.nodes;
    nbrs = remove-IsSorted peer_order s.nbrs p v.tidy.nbrs;
    maps = λ q. rw (removed s p q v.tidy) (elim (Bool-cases (same peer_order p q)) [
      | inl e ↦ rw e tt
      | inr e ↦ rw e (v.tidy.maps q)
    ]);
  };
  no_fault = v.no_fault;
}

-- The neighbor before it is removed: its labels are uninstalled and its mappings deleted.
torn_down :
    (s : Lde) (p : ℕ)
    → Inv s
    → is_some (get_ln s p) ≡ true
    → Inv (clear_maps (for_each (keys s.ft) (uninstall_one p) s) p)
      × ((g : Fec)
          → (recv (clear_maps (for_each (keys s.ft) (uninstall_one p) s) p) p g ≡ false)
            × (sent (clear_maps (for_each (keys s.ft) (uninstall_one p) s) p) p g ≡ false))
torn_down s p v h =
    let k =
      for_each-Safe_items (λ t f. (is_some (get_ln t p) ≡ true) × (is_some (get_fn t f) ≡ true))
        (keys s.ft) (uninstall_one p) (λ t u w f c. (Stays-present p w c.0, w.has f c.1))
        (λ t f i c. uninstall_one-Safe p t f (record { inv = i; nbr = c.0; node = c.1 })) s v
        (All-map (keys s.ft) (λ f c. (h, c)) (keys-All fec_order s.ft)) in
    let (l, e) = the _ (k.stays.present p ∙ h) in
    let (c, none_left) = cleared _ p l k.inv e in (c.inv, none_left)

pub nbr_del-Inv : (s : Lde) (p : ℕ) → Inv s → Inv (lde_nbr_del s p)
unfolding lde_nbr_del
nbr_del-Inv s p v =
    at_if Inv (λ h. let (c, none_left) = torn_down s p v h in removed-Inv _ p c none_left) (λ _. v)

pub nbr_del_gone : (s : Lde) (p : ℕ) → Inv s → get_ln (lde_nbr_del s p) p ≡ none
unfolding lde_nbr_del
nbr_del_gone s p v =
    at_if (λ t. get_ln t p ≡ none)
      (λ h. removed _ p p ((torn_down s p v h).0.tidy) ∙ rw (same_refl peer_order p) refl)
      (λ h. none_of _ h)
