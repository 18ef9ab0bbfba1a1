-- ===== src/Lde/Links/Retire.antt =====
-- A route goes, and pseudowires come, go and change: lde_kernel_remove, l2vpn_pw_init, l2vpn_pw_exit and
-- l2vpn_recv_pw_status keep the invariant.
use mathlib.Core.Option
use openbsd_ldpd.Base.{
  ℕ, ◌≡◌, ◌∙◌, ap, refl, not, Bool, true, false, Option, none, some, List, [], ◌∷◌, is_some, arith,
  ◌≢◌, if◌then◌else◌, for_each, lost,
}
use openbsd_ldpd.Base.Branch.{at_if, at_on}
use openbsd_ldpd.RbTree.{same}
use openbsd_ldpd.RbTree.Laws.{find-update}
use openbsd_ldpd.Fec.{Fec}
use openbsd_ldpd.Fec.Order.{fec_order}
use openbsd_ldpd.Lde.{
  Af, LabelMap, FecNh, FecNode, Lde, peer_order, get_fn, get_ln, set_fn, set_pw, keys, is_nil,
  fec_nh_del, fec_nh_find,
}
use openbsd_ldpd.Lde.Convert.{lde_map2fec}
use openbsd_ldpd.Lde.Kernel.{lde_send_delete_klabel}
use openbsd_ldpd.Lde.Send.{lde_send_labelwithdraw_all, lde_send_labelwithdraw}
use openbsd_ldpd.Lde.Peers.{l2vpn_pw_reset}
use openbsd_ldpd.Lde.Routes.{
  attach_pw, retire_label, lde_kernel_remove, l2vpn_pw_init, l2vpn_pw_exit, l2vpn_recv_pw_status,
}
use openbsd_ldpd.Lde.Links.{
  Inv, Keeps, Keeps-refl, Keeps-trans, Keeps-same, Keeps-PwOk, Inv-PwOk, Keeps-Usable, Keeps-Inv,
  Safe, Keeps-Safe, Safe-refl, routed_of,
}
use openbsd_ldpd.Lde.Links.Store.{set_fn-Keeps}
use openbsd_ldpd.Lde.Links.Loops.{keys-All, All, All-map}
use openbsd_ldpd.Lde.Links.Check.{nexthop-Usable}
use openbsd_ldpd.Lde.Links.Kernel.{change_klabel-Keeps, delete_klabel-Keeps}
use openbsd_ldpd.Lde.Links.Send.{send_labelwithdraw-Keeps}
use openbsd_ldpd.Lde.Links.Routes.{set_local-Keeps, changed-Inv, kernel_insert-Safe}

-- The label of a class without next hops is withdrawn.
withdraw_each-Keeps :
    (f : Fec) (ps : List ℕ) (s : Lde)
    → is_some (get_fn s f) ≡ true
    → All (λ p. is_some (get_ln s p) ≡ true) ps
    → Keeps s (for_each ps (λ t p. lde_send_labelwithdraw t p f none) s)
withdraw_each-Keeps f [] s h a = Keeps-refl s
withdraw_each-Keeps f (p ∷ ps) s h a =
    let k = send_labelwithdraw-Keeps s p f none a.0 h in
    Keeps-trans k (withdraw_each-Keeps f ps _ (k.has f h) (All-map ps (λ q c. k.present q ∙ c) a.1))

withdraw_all-Keeps :
    (s : Lde) (f : Fec) → is_some (get_fn s f) ≡ true → Keeps s (lde_send_labelwithdraw_all s f)
unfolding lde_send_labelwithdraw_all
withdraw_all-Keeps s f h = withdraw_each-Keeps f (keys s.nbrs) s h (keys-All peer_order s.nbrs)

detach-Inv : (s : Lde) (f : Fec) → Inv s → routed_of (get_fn s f) ≡ false → Inv (attach_pw s f none)
unfolding attach_pw
detach-Inv s (Fec.ipv4 a l) v r = v
detach-Inv s (Fec.ipv6 a l) v r = v
detach-Inv s (Fec.pwid t a i) v r =
    changed-Inv s f h (λ n. refl) (λ n. refl) v λ w k. absurd (idle k)
  where
    f : Fec
    f = Fec.pwid t a i

    h : FecNode → FecNode
    h n = record n { pw = none }

    cases :
        (b : Bool) (o : Option FecNode) → routed_of (if b then Option.map h o else o) ≡ routed_of o
    cases true none = refl
    cases true (some n) = refl
    cases false o = refl

    idle : routed_of (get_fn (set_fn s f h) f) ≢ true
    idle k =
        let e : routed_of (get_fn (set_fn s f h) f) ≡ routed_of (get_fn s f) =
          rw (find-update fec_order s.ft f h f) (cases (same fec_order f f) (get_fn s f)) in
        ground (arith, k, e, r)

retire_label-Inv :
    (s : Lde) (f : Fec)
    → Inv s
    → is_some (get_fn s f) ≡ true
    → routed_of (get_fn s f) ≡ false
    → Inv (retire_label s f)
unfolding retire_label
retire_label-Inv s f v h r =
    let k = Keeps-trans (withdraw_all-Keeps s f h) (set_local-Keeps _ f _) in
    detach-Inv _ f (Keeps-Inv k v) (idle _ (k.routed f))
  where
    idle : (b : Bool) → (b ≡ true → routed_of (get_fn s f) ≡ true) → b ≡ false
    idle true c = ground (arith, c refl, r)
    idle false c = refl

found_full :
    (n : FecNode) (af : Af) (a prio : ℕ) (h : FecNh)
    → fec_nh_find n.nexthops af a prio ≡ some h
    → not (is_nil n.nexthops) ≡ true
unfolding fec_nh_find
found_full n af a prio h e = full n.nexthops e
  where
    full : (hs : List FecNh) → fec_nh_find hs af a prio ≡ some h → not (is_nil hs) ≡ true
    full [] k = cc
    full (x ∷ xs) k = refl

nh_del-Keeps :
    (s : Lde) (f : Fec) (h : FecNh)
    → Keeps s (set_fn s f (λ m. record m { nexthops = fec_nh_del h m.nexthops }))
nh_del-Keeps s f h =
    set_fn-Keeps s f _ λ n. record {
      downs = refl;
      ups = refl;
      has = λ k. k;
      routed = fewer n.nexthops;
      pws = λ k. k;
    }
  where
    fewer : (hs : List FecNh) → not (is_nil (fec_nh_del h hs)) ≡ true → not (is_nil hs) ≡ true
    fewer [] k = unfold fec_nh_del in k
    fewer (x ∷ xs) k = refl

pub kernel_remove-Inv :
    (s : Lde) (f : Fec) (af : Af) (nexthop priority : ℕ)
    → Inv s
    → Inv (lde_kernel_remove s f af nexthop priority)
unfolding lde_kernel_remove
kernel_remove-Inv s f af nexthop priority v =
    at_on Inv (λ _. v)
      λ n e.
        at_on Inv (λ _. v)
          λ h k.
            let u = nexthop-Usable s f n (Inv-PwOk v) e (found_full n af nexthop priority h k) in
            let d =
              Keeps-trans (delete_klabel-Keeps s f h (Inv-PwOk v) u)
                (nh_del-Keeps (lde_send_delete_klabel s f h) f h) in
            let hf = d.has f u.node in
            at_on Inv (λ g. absurd (lost g hf))
              λ m g.
                at_if Inv (λ z. retire_label-Inv _ f (Keeps-Inv d v) hf (ap routed_of g ∙ ap not z))
                  (λ _. Keeps-Inv d v)

-- l2vpn_pw_init, l2vpn_pw_exit and l2vpn_recv_pw_status
pub pw_init-Inv : (s : Lde) (i : ℕ) → Inv s → Inv (l2vpn_pw_init s i)
unfolding l2vpn_pw_init
pw_init-Inv s i v =
    let k : Keeps s (set_pw s i l2vpn_pw_reset) = Keeps-same refl refl refl in
    (kernel_insert-Safe _ _ Af.inet _ 0 false (some i) (Keeps-Inv k v) (λ _. refl) (λ e. cc)).inv

pub pw_exit-Inv : (s : Lde) (i : ℕ) → Inv s → Inv (l2vpn_pw_exit s i)
unfolding l2vpn_pw_exit
pw_exit-Inv s i v = kernel_remove-Inv s _ Af.inet _ 0 v

pub recv_pw_status-Safe :
    (s : Lde) (p : ℕ) (m : LabelMap) (status : ℕ)
    → Inv s
    → is_some (get_ln s p) ≡ true
    → Safe s (l2vpn_recv_pw_status s p m status)
unfolding l2vpn_recv_pw_status
recv_pw_status-Safe s p m status v h =
    at_if (Safe s) (λ _. Safe-refl v)
      λ _.
        at_on (Safe s) (λ e. absurd (lost e h))
          λ l _.
            let f = lde_map2fec m.fec l.id in
            at_on (Safe s) (λ _. Safe-refl v)
              λ n e.
                at_on (Safe s) (λ _. Safe-refl v)
                  λ i _.
                    at_on (Safe s) (λ _. Safe-refl v)
                      λ x k.
                        let u =
                          nexthop-Usable s f n (Inv-PwOk v) e (found_full n Af.inet _ 0 x k) in
                        at_if (Safe s) (λ _. Safe-refl v)
                          λ _.
                            let k : Keeps s
                                (set_pw s i (λ w. record w { remote_status = status })) =
                              Keeps-same refl refl refl in
                            let ok = Keeps-PwOk k (Inv-PwOk v) in
                            let us = Keeps-Usable k u in
                            Keeps-Safe v (
                              Keeps-trans k (
                                at_if (Keeps _) (λ _. change_klabel-Keeps _ f x ok us)
                                  (λ _. delete_klabel-Keeps _ f x ok us)))
