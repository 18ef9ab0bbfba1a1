-- ===== src/Lde/Safety.antt =====
-- The label decision engine never uses a NULL or stale pointer: the invariant holds in every state
-- that it can reach.
use openbsd_ldpd.Base.{ℕ, ◌≡◌, ap, ◌∙◌, refl, Bool, true, false, none, some, List, is_some, arith}
use openbsd_ldpd.Base.Branch.{at_if}
use openbsd_ldpd.RbTree.{find}
use openbsd_ldpd.Fec.{Fec}
use openbsd_ldpd.Lde.{no_label, Af, MapFec, LabelMap, Pw, Lde, get_fn, get_ln}
use openbsd_ldpd.Lde.Check.{is_pw_fec}
use openbsd_ldpd.Lde.Dispatch.{Event, dispatch, route_fec}
use openbsd_ldpd.Lde.Convert.{lde_map2fec}
use openbsd_ldpd.Lde.Steps.{lde_start, Fits, Reachable}
use openbsd_ldpd.Lde.Links.{Inv, downs_of, ups_of, count, bit, recv_of, sent_of, recv}
use openbsd_ldpd.Lde.Links.Labels.{check_mapping-Safe}
use openbsd_ldpd.Lde.Links.Requests.{
  check_request-Safe, check_release-Safe, check_release_wcard-Safe, check_withdraw-Safe,
  check_withdraw_wcard-Safe,
}
use openbsd_ldpd.Lde.Links.Stores.{recorded, check_mapping_stores, check_withdraw_clears}
use openbsd_ldpd.Lde.Links.Peers.{nbr_new-Inv}
use openbsd_ldpd.Lde.Links.Departure.{nbr_del-Inv, nbr_del_gone}
use openbsd_ldpd.Lde.Links.Addresses.{address_add-Safe, address_del-Safe}
use openbsd_ldpd.Lde.Links.Routes.{kernel_insert-Safe}
use openbsd_ldpd.Lde.Links.Retire.{kernel_remove-Inv, pw_init-Inv, pw_exit-Inv, recv_pw_status-Safe}
use openbsd_ldpd.Lde.Links.Egress.{fec_snap-Safe, change_egress_label-Safe}
use openbsd_ldpd.Lde.Links.Collect.{gc_timer-Inv, gc_timer-live, live}

start-Inv : (pws : ℕ → Pw) (l : List ℕ) (v4 v6 : Bool) → Inv (lde_start pws l v4 v6)
unfolding find
start-Inv pws l v4 v6 = record {
  linked = λ f p. refl;
  sent_linked = λ f p. refl;
  pw_attached = λ f w r. cc;
  tidy = record { nodes = tt; nbrs = tt; maps = λ p. tt };
  no_fault = refl;
}

route_fec_plain : (af : Af) (a l : ℕ) → is_pw_fec (route_fec af a l) ≡ false
route_fec_plain Af.inet a l = refl
route_fec_plain Af.inet6 a l = refl

pub dispatch-Inv : (s : Lde) (e : Event) → Inv s → Fits s e → Inv (dispatch s e)
unfolding dispatch
dispatch-Inv s (Event.label_mapping_full p) v g =
    at_if Inv (λ h. (fec_snap-Safe s p v h).inv) (λ _. v)
dispatch-Inv s (Event.label_mapping p m) v g =
    at_if Inv (λ h. (check_mapping-Safe s m p v h).inv) (λ _. v)
dispatch-Inv s (Event.label_request p m) v g =
    at_if Inv (λ h. (check_request-Safe s m p v h).inv) (λ _. v)
dispatch-Inv s (Event.label_release p m) v g =
    at_if Inv
      (λ h.
        at_if Inv (λ _. (check_release_wcard-Safe s m p v h).inv)
          (λ _. (check_release-Safe s m p v h).inv))
      (λ _. v)
dispatch-Inv s (Event.label_withdraw p m) v g =
    at_if Inv
      (λ h.
        at_if Inv (λ _. (check_withdraw_wcard-Safe s m p v h).inv)
          (λ _. (check_withdraw-Safe s m p v h).inv))
      (λ _. v)
dispatch-Inv s (Event.address_add p a) v g =
    at_if Inv (λ h. (address_add-Safe s p a v h).inv) (λ _. v)
dispatch-Inv s (Event.address_del p a) v g =
    at_if Inv (λ h. (address_del-Safe s p a v h).inv) (λ _. v)
dispatch-Inv s (Event.pw_status p m status) v g =
    at_if Inv (λ h. (recv_pw_status-Safe s p m status v h).inv) (λ _. v)
dispatch-Inv s (Event.neighbor_up p id v4 v6) v g = nbr_new-Inv s p id v4 v6 v g
dispatch-Inv s (Event.neighbor_down p) v g = nbr_del-Inv s p v
dispatch-Inv s (Event.network_add af a l nh prio c) v g =
    (kernel_insert-Safe s (route_fec af a l) af nh prio c none v
      (λ w. ground (arith, w, route_fec_plain af a l)) (λ _. route_fec_plain af a l)).inv
dispatch-Inv s (Event.network_del af a l nh prio c) v g = kernel_remove-Inv s _ af nh prio v
dispatch-Inv s (Event.pw_init i) v g = pw_init-Inv s i v
dispatch-Inv s (Event.pw_exit i) v g = pw_exit-Inv s i v
dispatch-Inv s (Event.egress_label af was) v g = (change_egress_label-Safe s af was v).inv
dispatch-Inv s Event.gc_timer v g = gc_timer-Inv s v

-- In every state that the label decision engine reaches, whatever messages arrive in whatever
-- order, as long as a neighbor that comes up has a free peer id, every received and every sent
-- mapping is in the list of its class exactly when it is in the tree of its neighbor, and once; the trees are in order; every pseudowire class with a next hop has
-- its pseudowire; and no NULL or stale pointer has been used and no fatalx been called.
pub Reachable-Inv : (s : Lde) → Reachable s → Inv s
Reachable-Inv s (Reachable.start pws l v4 v6) = start-Inv pws l v4 v6
Reachable-Inv s (Reachable.step t e r g) = dispatch-Inv t e (Reachable-Inv t r) g

-- When a neighbor goes down, in any reachable state, no class keeps a pointer to one of its
-- mappings, received or sent, and no pointer is misused on the way.
pub down_leaves_no_mapping :
    (s : Lde) (p : ℕ) (f : Fec)
    → Reachable s
    → (count p (downs_of (get_fn (dispatch s (Event.neighbor_down p)) f)) ≡ 0)
      × (count p (ups_of (get_fn (dispatch s (Event.neighbor_down p)) f)) ≡ 0)
      × ((dispatch s (Event.neighbor_down p)).fault ≡ false)
unfolding dispatch
down_leaves_no_mapping s p f r =
    let v = Reachable-Inv s r in
    let v = Reachable-Inv s r in
    let a = nbr_del_gone s p v in
    let w = nbr_del-Inv s p v in
    (
      w.linked f p ∙ ap (λ o. bit (recv_of f o)) a,
      w.sent_linked f p ∙ ap (λ o. bit (sent_of f o)) a,
      w.no_fault,
    )

-- A label mapping for a prefix from a neighbor that is up is recorded as it was received, in any
-- reachable state, whether or not a next hop of the class is the neighbor's.
pub mapping_is_recorded :
    (s : Lde) (p : ℕ) (m : LabelMap) (af : Af) (a n : ℕ)
    → Reachable s
    → is_some (get_ln s p) ≡ true
    → m.fec ≡ MapFec.prefix af a n
    → recorded (get_ln (dispatch s (Event.label_mapping p m)) p) (lde_map2fec m.fec 0) ≡ some m
unfolding dispatch
mapping_is_recorded s p m af a n r h e =
    at_if (λ t. recorded (get_ln t p) (lde_map2fec m.fec 0) ≡ some m)
      (λ _. check_mapping_stores s m p af a n (Reachable-Inv s r) h e) (λ k. ground (arith, h, k))

-- A label withdraw for a prefix, without a label, from a neighbor that is up leaves no mapping of the
-- class from that neighbor, in any reachable state.
pub withdraw_forgets :
    (s : Lde) (p : ℕ) (m : LabelMap) (af : Af) (a n : ℕ)
    → Reachable s
    → is_some (get_ln s p) ≡ true
    → m.fec ≡ MapFec.prefix af a n
    → m.label ≡ no_label
    → recv (dispatch s (Event.label_withdraw p m)) p (lde_map2fec m.fec 0) ≡ false
unfolding dispatch
withdraw_forgets s p m af a n r h e w =
    at_if P
      (λ _.
        at_if P (λ k. ground (arith, k, e))
          (λ _. check_withdraw_clears s m p af a n (Reachable-Inv s r) h e w))
      (λ k. ground (arith, h, k))
  where
    P : Lde → Type 0
    P t = recv t p (lde_map2fec m.fec 0) ≡ false

-- In any reachable state the collector removes exactly the nodes without next hop and without mapping,
-- received or sent, and leaves every other node as it is.
pub gc_removes_the_dead :
    (s : Lde) (f : Fec) → Reachable s → get_fn (dispatch s Event.gc_timer) f ≡ live (get_fn s f)
unfolding dispatch
gc_removes_the_dead s f r = gc_timer-live s f (Reachable-Inv s r)
