-- ===== src/Lde/Links/Stores.antt =====
-- lde_check_mapping records the mapping that it is given, lde_check_withdraw forgets it.
use mathlib.Core.Option
use openbsd_ldpd.Base.{
  ℕ, ◌≡◌, ap, ◌∙◌, refl, Bool, true, false, Option, none, some, is_some, arith, lost, none_of,
}
use openbsd_ldpd.Base.Branch.{if◌then◌else◌, at_if, at_on}
use openbsd_ldpd.RbTree.{find, insert, update}
use openbsd_ldpd.RbTree.Laws.{find-update, find-insert, same_refl}
use openbsd_ldpd.Fec.{Fec}
use openbsd_ldpd.Fec.Order.{fec_order}
use openbsd_ldpd.Lde.{no_label, Af, MapFec, LabelMap, zero_map, LdeNbr, Lde, peer_order, get_ln}
use openbsd_ldpd.Lde.Convert.{lde_map2fec}
use openbsd_ldpd.Lde.Send.{set_recv, lde_map_add, lde_send_labelrelease}
use openbsd_ldpd.Lde.Check.{
  ensure_fec, replace_label, install_label, record_mapping, settle_request, lde_check_mapping,
  is_pwid, forget_mapping, lde_check_withdraw, withdraw_nexthops,
}
use openbsd_ldpd.Lde.Links.{Inv, recv, recv_of, Keeps-Safe}
use openbsd_ldpd.Lde.Links.Labels.{
  Safe-At, replace_label-Keeps, install_label-Keeps, settle_request-Keeps, ensure_fec-At,
}
use openbsd_ldpd.Lde.Links.Requests.{withdraw_nexthops-Keeps}
use openbsd_ldpd.Lde.Links.Send.{send_labelrelease-Keeps}
use openbsd_ldpd.Lde.Links.Departure.{recv_left}

-- The mapping that a neighbor's tree holds for a class.
abbrev pub recorded : Option LdeNbr → Fec → Option LabelMap
recorded none f = none
recorded (some l) f = find fec_order l.recv_map f

set_recv_stores :
    (s : Lde) (p : ℕ) (f : Fec) (m : LabelMap)
    → recv s p f ≡ true
    → recorded (get_ln (set_recv s p f m) p) f ≡ some m
set_recv_stores s p f m h =
    rw
      (
        find-update peer_order s.nbrs p
            (λ (l : LdeNbr). record l { recv_map = update fec_order l.recv_map f (λ _. m) }) p,
        same_refl peer_order p,
      )
      (at_nbr (get_ln s p) h)
  where
    at_nbr :
        (o : Option LdeNbr)
        → recv_of f o ≡ true
        → recorded
            (Option.map
              (λ (l : LdeNbr). record l { recv_map = update fec_order l.recv_map f (λ _. m) })
              o)
            f
          ≡ some m
    at_nbr none h = cc
    at_nbr (some l) h =
        ground (arith, find-update fec_order l.recv_map f (λ _. m) f, same_refl fec_order f)

map_add_has :
    (s : Lde) (p : ℕ) (f : Fec) (l : LdeNbr)
    → get_ln s p ≡ some l
    → find fec_order l.recv_map f ≡ none
    → recv (lde_map_add s p f false) p f ≡ true
unfolding lde_map_add
map_add_has s p f l e h = ground (
  arith,
  e,
  find-update peer_order s.nbrs p
      (λ (l : LdeNbr). record l {
        recv_map = insert fec_order l.recv_map f (zero_map MapFec.wildcard);
      })
      p,
  find-insert fec_order l.recv_map f (zero_map MapFec.wildcard) f h,
  same_refl fec_order f,
  same_refl peer_order p,
)

record_mapping_stores :
    (s : Lde) (p : ℕ) (f : Fec) (m : LabelMap)
    → is_some (get_ln s p) ≡ true
    → recorded (get_ln (record_mapping s p f m) p) f ≡ some m
unfolding record_mapping
record_mapping_stores s p f m a =
    at_on (λ t. recorded (get_ln t p) f ≡ some m) (λ e. absurd (lost e a))
      λ l hl.
        at_if (λ t. recorded (get_ln (set_recv t p f m) p) f ≡ some m)
          (λ h. set_recv_stores s p f m (rw hl h))
          (λ h.
            set_recv_stores (lde_map_add s p f false) p f m (map_add_has s p f l hl (none_of _ h)))

prefix_fec :
    (m : MapFec) (af : Af) (a n id : ℕ)
    → m ≡ MapFec.prefix af a n
    → (lde_map2fec m 0 ≡ lde_map2fec m id) × (is_pwid m ≡ false)
unfolding lde_map2fec
prefix_fec m Af.inet a n id e = rw e (refl, refl)
prefix_fec m Af.inet6 a n id e = rw e (refl, refl)

pub check_mapping_stores :
    (s : Lde) (m : LabelMap) (p : ℕ) (af : Af) (a n : ℕ)
    → Inv s
    → is_some (get_ln s p) ≡ true
    → m.fec ≡ MapFec.prefix af a n
    → recorded (get_ln (lde_check_mapping s m p) p) (lde_map2fec m.fec 0) ≡ some m
unfolding lde_check_mapping
check_mapping_stores s m p af a n v h e =
    at_on (λ t. recorded (get_ln t p) (lde_map2fec m.fec 0) ≡ some m) (λ k. absurd (lost k h))
      λ l _.
        let (same_fec, plain) = prefix_fec m.fec af a n l.id e in
        let f = lde_map2fec m.fec l.id in
        let b = ensure_fec-At s p f v h in
        let c = Safe-At b (Keeps-Safe b.inv (settle_request-Keeps (ensure_fec s f) p f b.nbr)) in
        let pending = (settle_request (ensure_fec s f) p f).1 in
        at_if
          (λ (r : Lde × Bool).
            recorded
              (get_ln
                (if r.1
                  then r.0
                  else record_mapping (install_label (replace_label r.0 p f m pending) p f m) p f m)
                p)
              (lde_map2fec m.fec 0)
            ≡ some m)
          (λ w. ground (arith, w, plain))
          (λ _.
            at_if (λ t. recorded (get_ln t p) (lde_map2fec m.fec 0) ≡ some m) (λ w. cc)
              λ _.
                let d = Safe-At c (Keeps-Safe c.inv (replace_label-Keeps _ p f m pending c)) in
                let g = Safe-At d (Keeps-Safe d.inv (install_label-Keeps _ p f m d)) in
                ap (recorded _) same_fec ∙ record_mapping_stores _ p f m g.nbr)

-- A withdraw of every label deletes the record.
forget_mapping_clears :
    (m : LabelMap) (p : ℕ) (s : Lde) (f : Fec)
    → Inv s
    → is_some (get_ln s p) ≡ true
    → m.label ≡ no_label
    → recv (forget_mapping m p s f) p f ≡ false
unfolding forget_mapping
forget_mapping_clears m p s f v h e =
    at_on (λ t. recv t p f ≡ false) (λ k. absurd (lost k h))
      λ l hl.
        at_on (λ t. recv t p f ≡ false) (λ k. ap (recv_of f) hl ∙ ap is_some k)
          λ me _.
            at_if (λ t. recv t p f ≡ false)
              (λ _. (recv_left s p f f (v.tidy.maps p)).0 ∙ rw (same_refl fec_order f) refl)
              (λ k. ground (arith, k, e))

pub check_withdraw_clears :
    (s : Lde) (m : LabelMap) (p : ℕ) (af : Af) (a n : ℕ)
    → Inv s
    → is_some (get_ln s p) ≡ true
    → m.fec ≡ MapFec.prefix af a n
    → m.label ≡ no_label
    → recv (lde_check_withdraw s m p) p (lde_map2fec m.fec 0) ≡ false
unfolding lde_check_withdraw
check_withdraw_clears s m p af a n v h e w =
    at_if P (λ k. ground (arith, k, (prefix_fec m.fec af a n 0 e).1))
      λ _.
        at_on P (λ k. absurd (lost k h))
          λ l _.
            let f = lde_map2fec m.fec l.id in
            let b = ensure_fec-At s p f v h in
            let k1 = withdraw_nexthops-Keeps p (ensure_fec s f) f b in
            let c = Safe-At b (Keeps-Safe b.inv k1) in
            let d =
              Safe-At c (Keeps-Safe c.inv (send_labelrelease-Keeps _ p f m.label c.nbr c.node)) in
            let t = lde_send_labelrelease (withdraw_nexthops p (ensure_fec s f) f) p f m.label in
            ap (λ g. recv (forget_mapping m p t f) p g) ((prefix_fec m.fec af a n l.id e).0)
            ∙ forget_mapping_clears m p t f d.inv d.nbr w
  where
    P : Lde → Type 0
    P t = recv t p (lde_map2fec m.fec 0) ≡ false
