-- ===== src/Lde/Links/Check.antt =====
-- The handlers of label messages keep the invariant.
use openbsd_ldpd.Base.{
  ℕ, ◌≡◌, ◌∙◌, refl, not, true, Option, none, some, List, [], ◌∷◌, is_some, for_each, lost, none_of,
  arith, sym,
}
use openbsd_ldpd.Base.Branch.{at_if, at_on}
use openbsd_ldpd.RbTree.{find, insert}
use openbsd_ldpd.RbTree.Laws.{find-insert, insert-IsSorted, same_iff, same_refl}
use openbsd_ldpd.Fec.{Fec}
use openbsd_ldpd.Fec.Order.{fec_order}
use openbsd_ldpd.Lde.{FecNh, FecNode, Lde, get_fn, is_nil}
use openbsd_ldpd.Lde.Check.{new_node, ensure_fec, drop_label, learn_label, each_nexthop}
use openbsd_ldpd.Lde.Links.{
  Keeps, Keeps-refl, Keeps-trans, PwOk, Keeps-PwOk, Usable, Keeps-Usable, downs_of, ups_of,
  routed_of, pw_of,
}
use openbsd_ldpd.Lde.Links.Loops.{for_each-Keeps}
use openbsd_ldpd.Lde.Links.Kernel.{change_klabel-Keeps, delete_klabel-Keeps, set_remote-Keeps}

-- A new node has no next hop and no mapping.
record NewNode (a b : Option FecNode) : Type 0 where
  downs : downs_of b ≡ downs_of a
  ups : ups_of b ≡ ups_of a
  has : is_some a ≡ true → is_some b ≡ true
  routed : routed_of b ≡ routed_of a
  pws : pw_of b ≡ pw_of a

insert_node :
    (s : Lde) (f g : Fec)
    → get_fn s f ≡ none
    → NewNode (get_fn s g) (find fec_order (insert fec_order s.ft f new_node) g)
insert_node s f g h =
    ground (arith, find-insert fec_order s.ft f new_node g h, same_iff fec_order f g)

pub ensure_fec-Keeps : (s : Lde) (f : Fec) → Keeps s (ensure_fec s f)
unfolding ensure_fec
ensure_fec-Keeps s f =
    at_if (Keeps s) (λ _. Keeps-refl s)
      λ h. record {
        downs = λ g. (insert_node s f g (none_of _ h)).downs;
        ups = λ g. (insert_node s f g (none_of _ h)).ups;
        has = λ g. (insert_node s f g (none_of _ h)).has;
        routed = λ g r. sym ((insert_node s f g (none_of _ h)).routed) ∙ r;
        pws = λ g r. (insert_node s f g (none_of _ h)).pws ∙ r;
        present = λ p. refl;
        recvs = λ p g. refl;
        sents = λ p g. refl;
        tidy = λ t. record {
          nodes = insert-IsSorted fec_order s.ft f _ t.nodes;
          nbrs = t.nbrs;
          maps = t.maps;
        };
        fault = refl;
      }

-- After fec_find and fec_add the node is there.
pub ensure_fec-has : (s : Lde) (f : Fec) → is_some (get_fn (ensure_fec s f) f) ≡ true
unfolding ensure_fec
ensure_fec-has s f =
    at_if (λ t. is_some (get_fn t f) ≡ true) (λ h. h)
      λ h.
        ground (arith, find-insert fec_order s.ft f new_node f (none_of _ h), same_refl fec_order f)

pub drop_label-Keeps :
    (f : Fec) (s : Lde) (h : FecNh) → PwOk s → Usable s f → Keeps s (drop_label f s h)
unfolding drop_label
drop_label-Keeps f s h v u = Keeps-trans (delete_klabel-Keeps s f h v u) (set_remote-Keeps _ f h _)

pub learn_label-Keeps :
    (f : Fec) (label : ℕ) (s : Lde) (h : FecNh)
    → PwOk s
    → Usable s f
    → Keeps s (learn_label f label s h)
unfolding learn_label
learn_label-Keeps f label s h v u =
    let k = set_remote-Keeps s f h label in
    Keeps-trans k (change_klabel-Keeps _ f _ (Keeps-PwOk k v) (Keeps-Usable k u))

-- A loop over the next hops of a node that is there; in it the node may be used.
record Ready (f : Fec) (s : Lde) : Type 0 where
  ok : PwOk s
  use_fn : Usable s f

pub nexthop-Usable :
    (s : Lde) (f : Fec) (n : FecNode)
    → PwOk s
    → get_fn s f ≡ some n
    → not (is_nil n.nexthops) ≡ true
    → Usable s f
nexthop-Usable s f n v e h = record { node = rw e; pw = λ w. v.attached f w (rw e h) }

pub each_nexthop-Keeps :
    (s : Lde) (f : Fec) (body : Lde → FecNh → Lde)
    → PwOk s
    → is_some (get_fn s f) ≡ true
    → ((t : Lde) (h : FecNh) → PwOk t → Usable t f → Keeps t (body t h))
    → Keeps s (each_nexthop s f body)
each_nexthop-Keeps s f body v hf keep =
    at_on (Keeps s) (λ e. absurd (lost e hf)) λ n e. loop n.nexthops (nexthop-Usable s f n v e)
  where
    loop : (hs : List FecNh) → (not (is_nil hs) ≡ true → Usable s f) → Keeps s (for_each hs body s)
    loop [] u = Keeps-refl s
    loop (h ∷ hs) u =
        (for_each-Keeps (Ready f) (h ∷ hs) body
          (λ t x r.
            let k = keep t x r.ok r.use_fn in
            (k, record { ok = Keeps-PwOk k r.ok; use_fn = Keeps-Usable k r.use_fn }))
          s (record { ok = v; use_fn = u refl })).0
