-- ===== src/Lde/Links/Requests.antt =====
-- Received label requests, releases and withdraws: lde_check_request, lde_check_release,
-- lde_check_withdraw and their wildcards keep the invariant.
use openbsd_ldpd.Base.{ℕ, ◌≡◌, ◌∙◌, refl, true, is_some, lost}
use openbsd_ldpd.Base.Branch.{at_if, at_on}
use openbsd_ldpd.Fec.{Fec}
use openbsd_ldpd.Fec.Order.{fec_order}
use openbsd_ldpd.Lde.{LabelMap, Lde, get_fn, get_ln, keys, emit, Imsg}
use openbsd_ldpd.Lde.Convert.{lde_map2fec}
use openbsd_ldpd.Lde.Check.{
  ensure_fec, lde_check_request, release_one, lde_check_release, lde_check_release_wcard,
  forget_mapping, withdraw_nexthops, lde_check_withdraw, withdraw_one, lde_check_withdraw_wcard,
}
use openbsd_ldpd.Lde.Links.{
  Inv, Keeps, Keeps-refl, Keeps-trans, Keeps-same, Inv-PwOk, Safe, Keeps-Safe, Safe-refl,
  Safe-trans, Stays-present,
}
use openbsd_ldpd.Lde.Links.Loops.{for_each-Safe, for_each-Safe_items, keys-All, All-map}
use openbsd_ldpd.Lde.Links.Check.{ensure_fec-Keeps, drop_label-Keeps, each_nexthop-Keeps}
use openbsd_ldpd.Lde.Links.Recv.{recv_del-Safe}
use openbsd_ldpd.Lde.Links.Sent.{sent_del-Safe}
use openbsd_ldpd.Lde.Links.Send.{
  req_add-Keeps, wdraw_del-Keeps, send_labelmapping-Safe, send_labelrelease-Keeps,
  release_wildcard-Keeps,
}
use openbsd_ldpd.Lde.Links.Labels.{At, Safe-At, ensure_fec-At}

-- lde_check_request
pub check_request-Safe :
    (s : Lde) (m : LabelMap) (p : ℕ)
    → Inv s
    → is_some (get_ln s p) ≡ true
    → Safe s (lde_check_request s m p)
unfolding lde_check_request
check_request-Safe s m p v h =
    at_on (Safe s) (λ e. absurd (lost e h))
      λ l _.
        let f = lde_map2fec m.fec l.id in
        at_on (Safe s) (λ _. note _)
          λ n hn.
            at_if (Safe s) (λ _. note _)
              λ _.
                at_if (Safe s) (λ _. note _)
                  λ _.
                    at_if (Safe s) (λ _. Safe-refl v)
                      λ _.
                        let k = Keeps-Safe v (req_add-Keeps s p f m.msg_id) in
                        let a = Safe-At (record { inv = v; nbr = h; node = rw hn }) k in
                        Safe-trans k (send_labelmapping-Safe _ p f true a.inv a.nbr a.node)
  where
    note : (i : Imsg) → Safe s (emit s i)
    note i = Keeps-Safe v (Keeps-same refl refl refl)

release_one-Safe :
    (m : LabelMap) (p : ℕ) (s : Lde) (f : Fec)
    → Inv s
    → is_some (get_ln s p) ≡ true
    → Safe s (release_one m p s f)
unfolding release_one
release_one-Safe m p s f v h =
    at_on (Safe s) (λ e. absurd (lost e h))
      λ l _.
        let k = Keeps-Safe v (
          at_on (Keeps s) (λ _. Keeps-refl s)
            λ w _. at_if (Keeps s) (λ _. wdraw_del-Keeps s p f) (λ _. Keeps-refl s)) in
        at_on (Safe s) (λ _. k)
          λ me _. at_if (Safe s) (λ _. Safe-trans k (sent_del-Safe _ p f k.inv)) (λ _. k)

-- lde_check_release and lde_check_release_wcard
pub check_release-Safe :
    (s : Lde) (m : LabelMap) (p : ℕ)
    → Inv s
    → is_some (get_ln s p) ≡ true
    → Safe s (lde_check_release s m p)
unfolding lde_check_release
check_release-Safe s m p v h =
    at_if (Safe s) (λ _. Safe-refl v)
      λ _.
        at_on (Safe s) (λ e. absurd (lost e h))
          λ l _. at_if (Safe s) (λ _. release_one-Safe m p s _ v h) (λ _. Safe-refl v)

pub check_release_wcard-Safe :
    (s : Lde) (m : LabelMap) (p : ℕ)
    → Inv s
    → is_some (get_ln s p) ≡ true
    → Safe s (lde_check_release_wcard s m p)
unfolding lde_check_release_wcard
check_release_wcard-Safe s m p v h =
    for_each-Safe (λ t. is_some (get_ln t p) ≡ true) (keys s.ft) (release_one m p)
      (λ t u k. Stays-present p k) (release_one-Safe m p) s v h

forget_mapping-Safe :
    (m : LabelMap) (p : ℕ) (s : Lde) (f : Fec)
    → Inv s
    → is_some (get_ln s p) ≡ true
    → Safe s (forget_mapping m p s f)
unfolding forget_mapping
forget_mapping-Safe m p s f v h =
    at_on (Safe s) (λ e. absurd (lost e h))
      λ l _.
        at_on (Safe s) (λ _. Safe-refl v)
          λ me _. at_if (Safe s) (λ _. recv_del-Safe s p f v) (λ _. Safe-refl v)

pub withdraw_nexthops-Keeps :
    (p : ℕ) (s : Lde) (f : Fec) → At s p f → Keeps s (withdraw_nexthops p s f)
unfolding withdraw_nexthops
withdraw_nexthops-Keeps p s (Fec.pwid t r g) a =
    each_nexthop-Keeps s _ _ (Inv-PwOk a.inv) a.node λ u h v w.
      at_on (Keeps u) (λ e. absurd (lost e w.node))
        λ n _. at_on (Keeps u) (λ _. Keeps-refl u) (λ i _. drop_label-Keeps _ u h v w)
withdraw_nexthops-Keeps p s (Fec.ipv4 x n) a =
    at_on (Keeps s) (λ e. absurd (lost e a.nbr))
      λ l _.
        each_nexthop-Keeps s _ _ (Inv-PwOk a.inv) a.node
          λ t h v u. at_if (Keeps t) (λ _. drop_label-Keeps _ t h v u) (λ _. Keeps-refl t)
withdraw_nexthops-Keeps p s (Fec.ipv6 x n) a =
    at_on (Keeps s) (λ e. absurd (lost e a.nbr))
      λ l _.
        each_nexthop-Keeps s _ _ (Inv-PwOk a.inv) a.node
          λ t h v u. at_if (Keeps t) (λ _. drop_label-Keeps _ t h v u) (λ _. Keeps-refl t)

-- lde_check_withdraw and lde_check_withdraw_wcard
pub check_withdraw-Safe :
    (s : Lde) (m : LabelMap) (p : ℕ)
    → Inv s
    → is_some (get_ln s p) ≡ true
    → Safe s (lde_check_withdraw s m p)
unfolding lde_check_withdraw
check_withdraw-Safe s m p v h =
    at_if (Safe s) (λ _. Safe-refl v)
      λ _.
        at_on (Safe s) (λ e. absurd (lost e h))
          λ l _.
            let f = lde_map2fec m.fec l.id in
            let a = ensure_fec-At s p f v h in
            let k1 = withdraw_nexthops-Keeps p (ensure_fec s f) f a in
            let b = Safe-At a (Keeps-Safe a.inv k1) in
            let k2 = send_labelrelease-Keeps _ p f m.label b.nbr b.node in
            let k = Keeps-Safe v (Keeps-trans (ensure_fec-Keeps s f) (Keeps-trans k1 k2)) in
            Safe-trans k (forget_mapping-Safe m p _ f k.inv (k.stays.present p ∙ h))

pub withdraw_one-Safe :
    (m : LabelMap) (p : ℕ) (s : Lde) (f : Fec) → At s p f → Safe s (withdraw_one m p s f)
unfolding withdraw_one
withdraw_one-Safe m p s f a =
    at_on (Safe s) (λ e. absurd (lost e a.nbr))
      λ l _.
        let k = Keeps-Safe a.inv (
          each_nexthop-Keeps s f _ (Inv-PwOk a.inv) a.node
            λ t h v u. at_if (Keeps t) (λ _. drop_label-Keeps f t h v u) (λ _. Keeps-refl t)) in
        Safe-trans k (forget_mapping-Safe m p _ f k.inv (k.stays.present p ∙ a.nbr))

pub check_withdraw_wcard-Safe :
    (s : Lde) (m : LabelMap) (p : ℕ)
    → Inv s
    → is_some (get_ln s p) ≡ true
    → Safe s (lde_check_withdraw_wcard s m p)
unfolding lde_check_withdraw_wcard
check_withdraw_wcard-Safe s m p v h =
    let k = Keeps-Safe v (release_wildcard-Keeps s p m.label) in
    Safe-trans k (
      for_each-Safe_items (λ t f. (is_some (get_ln t p) ≡ true) × (is_some (get_fn t f) ≡ true))
        (keys s.ft) (withdraw_one m p) (λ t u w f c. (Stays-present p w c.0, w.has f c.1))
        (λ t f i c. withdraw_one-Safe m p t f (record { inv = i; nbr = c.0; node = c.1 })) _ k.inv
        (All-map (keys s.ft) (λ f c. (k.stays.present p ∙ h, k.stays.has f c))
          (keys-All fec_order s.ft)))
