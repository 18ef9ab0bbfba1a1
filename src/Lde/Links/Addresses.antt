-- ===== src/Lde/Links/Addresses.antt =====
-- A neighbor announces and withdraws addresses: lde_address_add and lde_address_del keep the
-- invariant.
use openbsd_ldpd.Base.{
  ℕ, ◌≡◌, ◌∙◌, refl, not, Bool, true, false, Option, none, some, List, [], ◌∷◌, is_some, arith,
  lost, ◌++◌,
}
use openbsd_ldpd.Base.Branch.{at_if, at_on}
use openbsd_ldpd.RbTree.{find}
use openbsd_ldpd.Fec.{Fec}
use openbsd_ldpd.Fec.Order.{fec_order}
use openbsd_ldpd.Lde.{
  LabelMap, FecNh, FecNode, LdeAddr, LdeNbr, Lde, get_fn, get_ln, set_ln, is_nil,
}
use openbsd_ldpd.Lde.Peers.{
  nh_at, addr_update_one, lde_nbr_addr_update, lde_address_add, lde_address_del, address_del,
}
use openbsd_ldpd.Lde.Links.{
  Inv, Keeps, Keeps-refl, PwOk, Inv-PwOk, Usable, Safe, Keeps-Safe, Safe-refl, Safe-trans, recv,
  count, bit, downs_of,
}
use openbsd_ldpd.Lde.Links.Store.{set_ln-Keeps}
use openbsd_ldpd.Lde.Links.Loops.{for_each-Safe_items, head_found, tail_found, All, All-map}
use openbsd_ldpd.Lde.Links.Check.{drop_label-Keeps, learn_label-Keeps, nexthop-Usable}

-- The loop of lde_nbr_addr_update, over classes that the neighbor has sent a mapping for.
found-Usable :
    (s : Lde) (f : Fec) (n : FecNode) (a : ℕ) (h : FecNh)
    → PwOk s
    → get_fn s f ≡ some n
    → nh_at n.nexthops a ≡ some h
    → Usable s f
unfolding nh_at
found-Usable s f n a h v e k = nexthop-Usable s f n v e (full n.nexthops k)
  where
    full : (hs : List FecNh) → nh_at hs a ≡ some h → not (is_nil hs) ≡ true
    full [] k = cc
    full (x ∷ xs) k = refl

addr_update_one-Safe :
    (a : LdeAddr) (b : Bool) (s : Lde) (x : Fec × LabelMap)
    → Inv s
    → is_some (get_fn s x.0) ≡ true
    → Safe s (addr_update_one a b s x)
unfolding addr_update_one
addr_update_one-Safe a b s (f, me) v hf = Keeps-Safe v (
    at_if (Keeps s)
      (λ _.
        at_on (Keeps s) (λ e. absurd (lost e hf))
          λ n e.
            at_on (Keeps s) (λ _. Keeps-refl s)
              λ h k.
                let u = found-Usable s f n a.addr h (Inv-PwOk v) e k in
                at_if (Keeps s) (λ _. drop_label-Keeps f s h (Inv-PwOk v) u)
                  (λ _. learn_label-Keeps f me.label s h (Inv-PwOk v) u))
      (λ _. Keeps-refl s))

-- A class with a mapping received has its node.
recv_has : (s : Lde) (p : ℕ) (f : Fec) → Inv s → recv s p f ≡ true → is_some (get_fn s f) ≡ true
recv_has s p f v h = at_node (get_fn s f) (v.linked f p)
  where
    at_node : (o : Option FecNode) → count p (downs_of o) ≡ bit (recv s p f) → is_some o ≡ true
    at_node none e = ground arith
    at_node (some n) e = refl

entries-All {ℓ} :
    {V : Type ℓ} (t : List (Fec × V)) → All (λ x. is_some (find fec_order t x.0) ≡ true) t
entries-All [] = tt
entries-All ((k, v) ∷ t) =
    (head_found fec_order k v t, All-map t (λ x. tail_found fec_order k v t x.0) (entries-All t))

held :
    (s : Lde) (p : ℕ) (l : LdeNbr) (f : Fec)
    → Inv s
    → get_ln s p ≡ some l
    → is_some (find fec_order l.recv_map f) ≡ true
    → is_some (get_fn s f) ≡ true
held s p l f v e c = recv_has s p f v (rw e c)

addr_update-Safe :
    (s : Lde) (p : ℕ) (a : LdeAddr) (b : Bool)
    → Inv s
    → is_some (get_ln s p) ≡ true
    → Safe s (lde_nbr_addr_update s p a b)
unfolding lde_nbr_addr_update
addr_update-Safe s p a b v h =
    at_on (Safe s) (λ e. absurd (lost e h))
      λ l e.
        for_each-Safe_items (λ t x. is_some (get_fn t x.0) ≡ true) l.recv_map (addr_update_one a b)
          (λ t u w x c. w.has x.0 c) (addr_update_one-Safe a b) s v
          (All-map l.recv_map (λ x c. held s p l x.0 v e c) (entries-All l.recv_map))

set_addresses-Keeps :
    (s : Lde) (p : ℕ) (h : List LdeAddr → List LdeAddr)
    → Keeps s (set_ln s p (λ k. record k { addr_list = h k.addr_list }))
set_addresses-Keeps s p h =
    set_ln-Keeps s p _
      λ l. record { present = refl; recvs = λ g. refl; sents = λ g. refl; tidy = λ t. t }

pub address_add-Safe :
    (s : Lde) (p : ℕ) (a : LdeAddr)
    → Inv s
    → is_some (get_ln s p) ≡ true
    → Safe s (lde_address_add s p a).0
unfolding lde_address_add
address_add-Safe s p a v h =
    at_on P (λ e. absurd (lost e h))
      λ l _.
        at_if P (λ _. Safe-refl v)
          λ _.
            let k = Keeps-Safe v (set_addresses-Keeps s p (λ xs. xs ++ a ∷ [])) in
            Safe-trans k (addr_update-Safe _ p a false k.inv (k.stays.present p ∙ h))
  where
    P : Lde × Bool → Type 0
    P r = Safe s r.0

pub address_del-Safe :
    (s : Lde) (p : ℕ) (a : LdeAddr)
    → Inv s
    → is_some (get_ln s p) ≡ true
    → Safe s (lde_address_del s p a).0
unfolding lde_address_del
address_del-Safe s p a v h =
    at_on P (λ e. absurd (lost e h))
      λ l _.
        at_if P
          (λ _.
            let k = addr_update-Safe s p a true v h in
            Safe-trans k (Keeps-Safe k.inv (set_addresses-Keeps _ p (address_del a))))
          (λ _. Safe-refl v)
  where
    P : Lde × Bool → Type 0
    P r = Safe s r.0
