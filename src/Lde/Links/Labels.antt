-- ===== src/Lde/Links/Labels.antt =====
-- A received label mapping: lde_check_mapping keeps the invariant.
use openbsd_ldpd.Base.{ℕ, ◌≡◌, ◌∙◌, refl, Bool, true, false, is_some, lost, none_of}
use openbsd_ldpd.Base.Branch.{if◌then◌else◌, at_if, at_on}
use openbsd_ldpd.Fec.{Fec}
use openbsd_ldpd.Lde.{LabelMap, FecNh, Lde, Pw, get_fn, get_ln, set_pw}
use openbsd_ldpd.Lde.Convert.{lde_map2fec}
use openbsd_ldpd.Lde.Send.{set_recv}
use openbsd_ldpd.Lde.Check.{
  ensure_fec, negotiate_cword, negotiate_status, l2vpn_pw_negotiate, replace_label, learn_pw_label,
  install_label, record_mapping, settle_request, lde_check_mapping,
}
use openbsd_ldpd.Lde.Links.{
  Inv, Keeps, Keeps-refl, Keeps-trans, Keeps-same, PwOk, Keeps-PwOk, Inv-PwOk, Usable, Keeps-Usable,
  Keeps-Inv, Safe, Keeps-Safe, Safe-refl, Safe-trans,
}
use openbsd_ldpd.Lde.Links.Check.{
  ensure_fec-Keeps, ensure_fec-has, drop_label-Keeps, learn_label-Keeps, each_nexthop-Keeps,
}
use openbsd_ldpd.Lde.Links.Kernel.{change_klabel-Keeps, set_remote-Keeps}
use openbsd_ldpd.Lde.Links.Recv.{recv_add-Safe}
use openbsd_ldpd.Lde.Links.Send.{
  set_recv-Keeps, req_del-Keeps, the, send_labelmapping-Safe, send_labelwithdraw-Keeps,
  send_labelrelease-Keeps,
}

set_pw-Keeps : (s : Lde) (i : ℕ) (h : Pw → Pw) → Keeps s (set_pw s i h)
set_pw-Keeps s i h = Keeps-same refl refl refl

-- A handler runs for a neighbor that was found; the class may have to be there too.
pub record At (s : Lde) (p : ℕ) (f : Fec) : Type 0 where
  pub inv : Inv s
  pub nbr : is_some (get_ln s p) ≡ true
  pub node : is_some (get_fn s f) ≡ true

pub Safe-At : {s t : Lde} {p : ℕ} {f : Fec} → At s p f → Safe s t → At t p f
Safe-At {p = p} {f} a k = record {
  inv = k.inv;
  nbr = k.stays.present p ∙ a.nbr;
  node = k.stays.has f a.node;
}

negotiate_cword-Safe :
    (s : Lde) (p : ℕ) (f : Fec) (m : LabelMap) (i : ℕ)
    → At s p f
    → Safe s (negotiate_cword s p f m i).0
unfolding negotiate_cword
negotiate_cword-Safe s p f m i a =
    at_if P
      (λ _.
        at_if P (λ _. same)
          λ _.
            at_if P
              (λ _.
                let k = Keeps-Safe a.inv (
                  Keeps-trans (send_labelwithdraw-Keeps s p f _ a.nbr a.node)
                    (set_pw-Keeps _ i (λ v. record v { cword = false }))) in
                let b = Safe-At a k in
                Safe-trans k (send_labelmapping-Safe _ p f true b.inv b.nbr b.node))
              (λ _. same))
      (λ _.
        at_if P (λ _. at_if P (λ _. Keeps-Safe a.inv (Keeps-same refl refl refl)) (λ _. same))
          (λ _. Keeps-Safe a.inv (Keeps-same refl refl refl)))
  where
    P : Lde × Bool → Type 0
    P r = Safe s r.0

    same : Safe s s
    same = Safe-refl a.inv

negotiate_status-Keeps :
    (s : Lde) (p : ℕ) (f : Fec) (m : LabelMap) (i : ℕ)
    → is_some (get_ln s p) ≡ true
    → Keeps s (negotiate_status s p f m i)
unfolding negotiate_status
negotiate_status-Keeps s p f m i h =
    at_on (Keeps s) (λ e. absurd (lost e h))
      λ l e. at_if (Keeps s) (λ _. Keeps-same refl refl refl) (λ _. Keeps-refl s)

negotiate-Safe :
    (s : Lde) (p : ℕ) (f : Fec) (m : LabelMap) → At s p f → Safe s (l2vpn_pw_negotiate s p f m).0
unfolding l2vpn_pw_negotiate
negotiate-Safe s p f m a =
    at_on P (λ e. absurd (lost e a.node))
      λ n _.
        at_on P (λ _. Safe-refl a.inv)
          λ i _.
            let k = negotiate_cword-Safe s p f m i a in
            at_if P (λ _. k)
              λ _.
                Safe-trans k (Keeps-Safe k.inv (negotiate_status-Keeps _ p f m i (Safe-At a k).nbr))
  where
    P : Lde × Bool → Type 0
    P r = Safe s r.0

pub replace_label-Keeps :
    (s : Lde) (p : ℕ) (f : Fec) (m : LabelMap) (b : Bool)
    → At s p f
    → Keeps s (replace_label s p f m b)
unfolding replace_label
replace_label-Keeps s p f m b a =
    at_on (Keeps s) (λ e. absurd (lost e a.nbr))
      λ l _.
        at_on (Keeps s) (λ _. Keeps-refl s)
          λ me _.
            at_if (Keeps s)
              (λ _.
                let k = send_labelrelease-Keeps s p f me.label a.nbr a.node in
                Keeps-trans k (
                  each_nexthop-Keeps _ f _ (Keeps-PwOk k (Inv-PwOk a.inv)) (k.has f a.node)
                    λ t h v u.
                      at_if (Keeps t) (λ _. drop_label-Keeps f t h v u) (λ _. Keeps-refl t)))
              (λ _. Keeps-refl s)

learn_pw_label-Keeps :
    (f : Fec) (m : LabelMap) (s : Lde) (h : FecNh)
    → PwOk s
    → Usable s f
    → Keeps s (learn_pw_label f m s h)
unfolding learn_pw_label
learn_pw_label-Keeps f m s h v u =
    at_on (Keeps s) (λ e. absurd (lost e u.node))
      λ n _.
        at_on (Keeps s) (λ _. Keeps-refl s)
          λ i _.
            let k = Keeps-trans (Keeps-same refl refl refl) (set_remote-Keeps _ f h m.label) in
            at_if (Keeps s)
              (λ _. Keeps-trans k (
                change_klabel-Keeps _ f (record h { remote_label = m.label }) (Keeps-PwOk k v)
                  (Keeps-Usable k u)))
              (λ _. k)

pub install_label-Keeps :
    (s : Lde) (p : ℕ) (f : Fec) (m : LabelMap) → At s p f → Keeps s (install_label s p f m)
unfolding install_label
install_label-Keeps s p (Fec.pwid t r g) m a =
    each_nexthop-Keeps s _ _ (Inv-PwOk a.inv) a.node (learn_pw_label-Keeps (Fec.pwid t r g) m)
install_label-Keeps s p (Fec.ipv4 x n) m a =
    at_on (Keeps s) (λ e. absurd (lost e a.nbr))
      λ l _.
        each_nexthop-Keeps s _ _ (Inv-PwOk a.inv) a.node
          λ t h v u. at_if (Keeps t) (λ _. learn_label-Keeps _ m.label t h v u) (λ _. Keeps-refl t)
install_label-Keeps s p (Fec.ipv6 x n) m a =
    at_on (Keeps s) (λ e. absurd (lost e a.nbr))
      λ l _.
        each_nexthop-Keeps s _ _ (Inv-PwOk a.inv) a.node
          λ t h v u. at_if (Keeps t) (λ _. learn_label-Keeps _ m.label t h v u) (λ _. Keeps-refl t)

record_mapping-Safe :
    (s : Lde) (p : ℕ) (f : Fec) (m : LabelMap) → At s p f → Safe s (record_mapping s p f m)
unfolding record_mapping
record_mapping-Safe s p f m a =
    at_on (Safe s) (λ e. absurd (lost e a.nbr))
      λ l hl.
        let (n, hn) = the (get_fn s f) a.node in
        at_if (λ t. Safe s (set_recv t p f m)) (λ _. Keeps-Safe a.inv (set_recv-Keeps s p f m))
          λ fresh.
            let k = recv_add-Safe s p f l n a.inv hl hn (none_of _ fresh) in
            Safe-trans k (Keeps-Safe k.inv (set_recv-Keeps _ p f m))

pub settle_request-Keeps :
    (s : Lde) (p : ℕ) (f : Fec) → is_some (get_ln s p) ≡ true → Keeps s (settle_request s p f).0
unfolding settle_request
settle_request-Keeps s p f h =
    at_on P (λ e. absurd (lost e h))
      λ l _. at_if P (λ _. req_del-Keeps s p f true) (λ _. Keeps-refl s)
  where
    P : Lde × Bool → Type 0
    P r = Keeps s r.0

pub ensure_fec-At :
    (s : Lde) (p : ℕ) (f : Fec) → Inv s → is_some (get_ln s p) ≡ true → At (ensure_fec s f) p f
ensure_fec-At s p f v h = record {
  inv = Keeps-Inv (ensure_fec-Keeps s f) v;
  nbr = (ensure_fec-Keeps s f).present p ∙ h;
  node = ensure_fec-has s f;
}

-- lde_check_mapping
pub check_mapping-Safe :
    (s : Lde) (m : LabelMap) (p : ℕ)
    → Inv s
    → is_some (get_ln s p) ≡ true
    → Safe s (lde_check_mapping s m p)
unfolding lde_check_mapping
check_mapping-Safe s m p v h =
    at_on (Safe s) (λ e. absurd (lost e h))
      λ l _.
        let f = lde_map2fec m.fec l.id in
        let a = ensure_fec-At s p f v h in
        let start =
          Keeps-Safe v (
            Keeps-trans (ensure_fec-Keeps s f) (settle_request-Keeps (ensure_fec s f) p f a.nbr)) in
        let b = Safe-At a (Keeps-Safe a.inv (settle_request-Keeps (ensure_fec s f) p f a.nbr)) in
        let pending = (settle_request (ensure_fec s f) p f).1 in
        at_if
          (λ (r : Lde × Bool). Safe s (
            if r.1
            then r.0
            else record_mapping (install_label (replace_label r.0 p f m pending) p f m) p f m))
          (λ _.
            finish f _ (l2vpn_pw_negotiate (settle_request (ensure_fec s f) p f).0 p f m) pending
              start b (negotiate-Safe _ p f m b))
          (λ _.
            finish f _ ((settle_request (ensure_fec s f) p f).0, false) pending start b
              (Safe-refl b.inv))
  where
    finish :
        (f : Fec) (t : Lde) (r : Lde × Bool) (pending : Bool)
        → Safe s t
        → At t p f
        → Safe t r.0
        → Safe s (
            if r.1
            then r.0
            else record_mapping (install_label (replace_label r.0 p f m pending) p f m) p f m)
    finish f t r pending start b k =
        at_if (Safe s) (λ _. Safe-trans start k)
          λ _.
            let c = Safe-At b k in
            let k1 = Keeps-Safe c.inv (replace_label-Keeps r.0 p f m pending c) in
            let d = Safe-At c k1 in
            let k2 = Keeps-Safe d.inv (install_label-Keeps _ p f m d) in
            Safe-trans start (
              Safe-trans k
                (Safe-trans k1 (Safe-trans k2 (record_mapping-Safe _ p f m (Safe-At d k2)))))
