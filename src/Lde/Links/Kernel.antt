-- ===== src/Lde/Links/Kernel.antt =====
-- The kernel messages use only what is there, and leave the structure alone.
use openbsd_ldpd.Base.{ℕ, ◌≡◌, refl, not, Bool, true, some, List, [], ◌∷◌, ◌==◌, arith, lost}
use openbsd_ldpd.Base.Branch.{if◌then◌else◌, on, at_if, at_on}
use openbsd_ldpd.Fec.{Fec}
use openbsd_ldpd.Lde.{Af, FecNh, Lde, get_fn, is_nil, fec_nh_find, set_remote, nh_set_label}
use openbsd_ldpd.Lde.Kernel.{
  change_kpw, delete_kpw, l2vpn_pw_fec, sync_pw, l2vpn_sync_pws, lde_send_change_klabel,
  lde_send_delete_klabel,
}
use openbsd_ldpd.Lde.Links.{
  Keeps, Keeps-refl, Keeps-trans, Keeps-same, PwOk, Keeps-PwOk, Usable, pw_of,
}
use openbsd_ldpd.Lde.Links.Store.{set_fn-Keeps}
use openbsd_ldpd.Lde.Links.Loops.{for_each-Keeps}

change_kpw-Keeps :
    (s : Lde) (f : Fec) (h : FecNh) → pw_of (get_fn s f) ≡ true → Keeps s (change_kpw s f h)
unfolding change_kpw if◌then◌else◌ on
change_kpw-Keeps s f h w = Keeps-same (ground arith) (ground arith) (ground arith)

delete_kpw-Keeps :
    (s : Lde) (f : Fec) (h : FecNh) → pw_of (get_fn s f) ≡ true → Keeps s (delete_kpw s f h)
unfolding delete_kpw if◌then◌else◌ on
delete_kpw-Keeps s f h w = Keeps-same (ground arith) (ground arith) (ground arith)

-- A next hop that is found is a next hop.
pub routed-found :
    (hs : List FecNh) (af : Af) (a prio : ℕ) (h : FecNh)
    → fec_nh_find hs af a prio ≡ some h
    → not (is_nil hs) ≡ true
unfolding fec_nh_find
routed-found [] af a prio h e = cc
routed-found (x ∷ xs) af a prio h e = refl

sync_pw-Keeps : (af : Af) (addr : ℕ) (s : Lde) (i : ℕ) → PwOk s → Keeps s (sync_pw af addr s i)
unfolding sync_pw l2vpn_pw_fec
sync_pw-Keeps af addr s i v =
    at_if (Keeps s)
      (λ _.
        at_on (Keeps s) (λ _. Keeps-refl s)
          (λ n e.
            at_on (Keeps s) (λ _. Keeps-refl s)
              (λ h found.
                let w = v.attached f refl (rw e (routed-found n.nexthops Af.inet _ 0 h found)) in
                at_if (Keeps s) (λ _. change_kpw-Keeps s f h w) (λ _. delete_kpw-Keeps s f h w))))
      (λ _. Keeps-refl s)
  where
    f : Fec
    f = l2vpn_pw_fec (s.pws i)

sync_pws-Keeps : (s : Lde) (af : Af) (addr : ℕ) → PwOk s → Keeps s (l2vpn_sync_pws s af addr)
unfolding l2vpn_sync_pws
sync_pws-Keeps s af addr v =
    (for_each-Keeps PwOk s.pw_list (sync_pw af addr)
      (λ t i w. let k = sync_pw-Keeps af addr t i w in (k, Keeps-PwOk k w)) s v).0

-- A message is added, and the pseudowires whose path the class is are looked at if `b`.
post_sync :
    (s t : Lde) (b : Bool) (af : Af) (addr : ℕ)
    → PwOk s
    → Keeps s t
    → Keeps s (if b then l2vpn_sync_pws t af addr else t)
post_sync s t b af addr v k =
    at_if (Keeps s) (λ _. Keeps-trans k (sync_pws-Keeps t af addr (Keeps-PwOk k v))) (λ _. k)

pub change_klabel-Keeps :
    (s : Lde) (f : Fec) (h : FecNh) → PwOk s → Usable s f → Keeps s (lde_send_change_klabel s f h)
unfolding lde_send_change_klabel
change_klabel-Keeps s (Fec.ipv4 a l) h v u =
    at_on (Keeps s) (λ e. absurd (lost e u.node))
      (λ n e. post_sync s _ (l == 32) Af.inet _ v (Keeps-same refl refl refl))
change_klabel-Keeps s (Fec.ipv6 a l) h v u =
    at_on (Keeps s) (λ e. absurd (lost e u.node))
      (λ n e. post_sync s _ (l == 128) Af.inet6 _ v (Keeps-same refl refl refl))
change_klabel-Keeps s (Fec.pwid t a r) h v u = change_kpw-Keeps s (Fec.pwid t a r) h (u.pw refl)

pub delete_klabel-Keeps :
    (s : Lde) (f : Fec) (h : FecNh) → PwOk s → Usable s f → Keeps s (lde_send_delete_klabel s f h)
unfolding lde_send_delete_klabel
delete_klabel-Keeps s (Fec.ipv4 a l) h v u =
    at_on (Keeps s) (λ e. absurd (lost e u.node))
      (λ n e. post_sync s _ (l == 32) Af.inet _ v (Keeps-same refl refl refl))
delete_klabel-Keeps s (Fec.ipv6 a l) h v u =
    at_on (Keeps s) (λ e. absurd (lost e u.node))
      (λ n e. post_sync s _ (l == 128) Af.inet6 _ v (Keeps-same refl refl refl))
delete_klabel-Keeps s (Fec.pwid t a r) h v u = delete_kpw-Keeps s (Fec.pwid t a r) h (u.pw refl)

-- A new label of a next hop is no change of the structure.
is_nil-set_label :
    (k : FecNh) (label : ℕ) (hs : List FecNh) → is_nil (nh_set_label k label hs) ≡ is_nil hs
unfolding nh_set_label if◌then◌else◌
is_nil-set_label k label [] = refl
is_nil-set_label k label (h ∷ hs) = ground arith

pub set_remote-Keeps :
    (s : Lde) (f : Fec) (h : FecNh) (label : ℕ) → Keeps s (set_remote s f h label)
unfolding set_remote
set_remote-Keeps s f h label = set_fn-Keeps s f _ λ n. record {
  downs = refl;
  ups = refl;
  has = λ e. refl;
  routed = λ e. rw (is_nil-set_label h label n.nexthops) at e;
  pws = λ e. e;
}
