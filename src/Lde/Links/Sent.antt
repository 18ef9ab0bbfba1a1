-- ===== src/Lde/Links/Sent.antt =====
-- A sent mapping enters the tree of its neighbor and the list of its class together, and leaves both
-- together: lde_map_add and lde_map_del with sent_map and upstream.
use openbsd_ldpd.Base.{
  ℕ, ◌≡◌, sym, ◌∙◌, true, Option, none, some, ◌∷◌, arith, is_some, if◌then◌else◌,
}
use mathlib.Core.Option
use openbsd_ldpd.RbTree.{find, insert, remove, same}
use openbsd_ldpd.RbTree.Laws.{
  find-update, find-insert, find-remove, update-IsSorted, insert-IsSorted, remove-IsSorted,
  same_iff,
}
use openbsd_ldpd.Fec.{Fec}
use openbsd_ldpd.Fec.Order.{fec_order}
use openbsd_ldpd.Lde.{MapFec, zero_map, FecNode, LdeNbr, Lde, peer_order, get_fn, get_ln, erase}
use openbsd_ldpd.Lde.Send.{lde_map_add, lde_map_del}
use openbsd_ldpd.Lde.Links.{
  Inv, Tidy, Safe, downs_of, ups_of, routed_of, pw_of, sent_of, recv, sent, count, bit, TidyOf,
}
use openbsd_ldpd.Lde.Links.Count.{count-erase, at_update}

-- The list `upstream` and the tree `sent_map`.
module _ (s : Lde) (p : ℕ) (f : Fec) where
  sent_add_linked :
      (l : LdeNbr) (n : FecNode) (g : Fec) (q : ℕ)
      → get_ln s p ≡ some l
      → get_fn s f ≡ some n
      → find fec_order l.sent_map f ≡ none
      → count q (ups_of (get_fn s g)) ≡ bit (sent s q g)
      → count q (ups_of (get_fn (lde_map_add s p f true) g))
        ≡ bit (sent (lde_map_add s p f true) q g)
  unfolding lde_map_add
  sent_add_linked l n g q hl hn fresh h = ground (
    arith,
    find-update fec_order s.ft f (λ (n : FecNode). record n { upstream = p ∷ n.upstream }) g,
    find-update peer_order s.nbrs p
        (λ (l : LdeNbr). record l {
          sent_map = insert fec_order l.sent_map f (zero_map MapFec.wildcard);
        })
        q,
    find-insert fec_order l.sent_map f (zero_map MapFec.wildcard) g fresh,
    same_iff fec_order f g,
    same_iff peer_order p q,
  )

  sent_add_other :
      (g : Fec) (q : ℕ)
      → count q (downs_of (get_fn s g)) ≡ bit (recv s q g)
      → count q (downs_of (get_fn (lde_map_add s p f true) g))
        ≡ bit (recv (lde_map_add s p f true) q g)
  unfolding lde_map_add
  sent_add_other g q h = ground (
    arith,
    find-update fec_order s.ft f (λ (n : FecNode). record n { upstream = p ∷ n.upstream }) g,
    find-update peer_order s.nbrs p
        (λ (l : LdeNbr). record l {
          sent_map = insert fec_order l.sent_map f (zero_map MapFec.wildcard);
        })
        q,
  )

  sent_add_views :
      (g : Fec) (q : ℕ)
      → (is_some (get_fn (lde_map_add s p f true) g) ≡ is_some (get_fn s g))
        × (routed_of (get_fn (lde_map_add s p f true) g) ≡ routed_of (get_fn s g))
        × (pw_of (get_fn (lde_map_add s p f true) g) ≡ pw_of (get_fn s g))
        × (is_some (get_ln (lde_map_add s p f true) q) ≡ is_some (get_ln s q))
  unfolding lde_map_add
  sent_add_views g q = ground (
    arith,
    find-update fec_order s.ft f (λ (n : FecNode). record n { upstream = p ∷ n.upstream }) g,
    find-update peer_order s.nbrs p
        (λ (l : LdeNbr). record l {
          sent_map = insert fec_order l.sent_map f (zero_map MapFec.wildcard);
        })
        q,
  )

  sent_add-Tidy : Tidy s → Tidy (lde_map_add s p f true)
  unfolding lde_map_add
  sent_add-Tidy t = record {
    nodes = update-IsSorted fec_order s.ft f _ t.nodes;
    nbrs = update-IsSorted peer_order s.nbrs p _ t.nbrs;
    maps = λ q.
        rw
          (find-update peer_order s.nbrs p
            (λ (l : LdeNbr). record l {
              sent_map = insert fec_order l.sent_map f (zero_map MapFec.wildcard);
            })
            q)
          (at_update (same peer_order p q) (get_ln s q)
            (λ (l : LdeNbr). record l {
              sent_map = insert fec_order l.sent_map f (zero_map MapFec.wildcard);
            })
            (λ l h. (h.0, insert-IsSorted fec_order l.sent_map f _ h.1)) (t.maps q));
  }

  sent_del_linked :
      (g : Fec) (q : ℕ)
      → TidyOf (get_ln s q)
      → count q (ups_of (get_fn s g)) ≡ bit (sent s q g)
      → count q (ups_of (get_fn (lde_map_del s p f true) g))
        ≡ bit (sent (lde_map_del s p f true) q g)
  unfolding lde_map_del
  sent_del_linked g q t h =
      rw
        (
          find-update fec_order s.ft f (λ (n : FecNode). record n { upstream = erase p n.upstream })
              g,
          find-update peer_order s.nbrs p
              (λ (l : LdeNbr). record l { sent_map = remove fec_order l.sent_map f }) q,
        )
        (at_del (get_fn s g) (get_ln s q) t h)
    where
      at_del :
          (o : Option FecNode) (k : Option LdeNbr)
          → TidyOf k
          → count q (ups_of o) ≡ bit (sent_of g k)
          → count q (
              ups_of (
                if same fec_order f g
                then Option.map (λ (n : FecNode). record n { upstream = erase p n.upstream }) o
                else o))
            ≡ bit (
                sent_of g (
                  if same peer_order p q
                  then Option.map
                      (λ (l : LdeNbr). record l { sent_map = remove fec_order l.sent_map f })
                      k
                  else k))
      at_del none none t h = ground arith
      at_del (some n) none t h = ground (arith, count-erase p q n.upstream)
      at_del none (some l) t h = ground (arith, find-remove fec_order l.sent_map f g t.1)
      at_del (some n) (some l) t h = ground (
        arith,
        count-erase p q n.upstream,
        find-remove fec_order l.sent_map f g t.1,
        same_iff fec_order f g,
        same_iff peer_order p q,
      )

  sent_del_other :
      (g : Fec) (q : ℕ)
      → count q (downs_of (get_fn s g)) ≡ bit (recv s q g)
      → count q (downs_of (get_fn (lde_map_del s p f true) g))
        ≡ bit (recv (lde_map_del s p f true) q g)
  unfolding lde_map_del
  sent_del_other g q h = ground (
    arith,
    find-update fec_order s.ft f (λ (n : FecNode). record n { upstream = erase p n.upstream }) g,
    find-update peer_order s.nbrs p
        (λ (l : LdeNbr). record l { sent_map = remove fec_order l.sent_map f }) q,
  )

  sent_del_views :
      (g : Fec) (q : ℕ)
      → (is_some (get_fn (lde_map_del s p f true) g) ≡ is_some (get_fn s g))
        × (routed_of (get_fn (lde_map_del s p f true) g) ≡ routed_of (get_fn s g))
        × (pw_of (get_fn (lde_map_del s p f true) g) ≡ pw_of (get_fn s g))
        × (is_some (get_ln (lde_map_del s p f true) q) ≡ is_some (get_ln s q))
  unfolding lde_map_del
  sent_del_views g q = ground (
    arith,
    find-update fec_order s.ft f (λ (n : FecNode). record n { upstream = erase p n.upstream }) g,
    find-update peer_order s.nbrs p
        (λ (l : LdeNbr). record l { sent_map = remove fec_order l.sent_map f }) q,
  )

  sent_del-Tidy : Tidy s → Tidy (lde_map_del s p f true)
  unfolding lde_map_del
  sent_del-Tidy t = record {
    nodes = update-IsSorted fec_order s.ft f _ t.nodes;
    nbrs = update-IsSorted peer_order s.nbrs p _ t.nbrs;
    maps = λ q.
        rw
          (find-update peer_order s.nbrs p
            (λ (l : LdeNbr). record l { sent_map = remove fec_order l.sent_map f }) q)
          (at_update (same peer_order p q) (get_ln s q)
            (λ (l : LdeNbr). record l { sent_map = remove fec_order l.sent_map f })
            (λ l h. (h.0, remove-IsSorted fec_order l.sent_map f h.1)) (t.maps q));
  }

  -- A mapping that the neighbor has not yet is recorded in both places.
  pub sent_add-Safe :
      (l : LdeNbr) (n : FecNode)
      → Inv s
      → get_ln s p ≡ some l
      → get_fn s f ≡ some n
      → find fec_order l.sent_map f ≡ none
      → Safe s (lde_map_add s p f true)
  sent_add-Safe l n v hl hn fresh = record {
    inv = record {
      linked = λ g q. sent_add_other g q (v.linked g q);
      sent_linked = λ g q. sent_add_linked l n g q hl hn fresh (v.sent_linked g q);
      pw_attached =
          λ g w r. (sent_add_views g 0).2 ∙ v.pw_attached g w (sym ((sent_add_views g 0).1) ∙ r);
      tidy = sent_add-Tidy v.tidy;
      no_fault = unfold lde_map_add in v.no_fault;
    };
    stays = record {
      has = λ g h. (sent_add_views g 0).0 ∙ h;
      pws = λ g h. (sent_add_views g 0).2 ∙ h;
      present = λ q. (sent_add_views f q).3;
    };
  }

  -- A mapping is removed from both places, if it is there.
  pub sent_del-Safe : Inv s → Safe s (lde_map_del s p f true)
  sent_del-Safe v = record {
    inv = record {
      linked = λ g q. sent_del_other g q (v.linked g q);
      sent_linked = λ g q. sent_del_linked g q (v.tidy.maps q) (v.sent_linked g q);
      pw_attached =
          λ g w r. (sent_del_views g 0).2 ∙ v.pw_attached g w (sym ((sent_del_views g 0).1) ∙ r);
      tidy = sent_del-Tidy v.tidy;
      no_fault = unfold lde_map_del in v.no_fault;
    };
    stays = record {
      has = λ g h. (sent_del_views g 0).0 ∙ h;
      pws = λ g h. (sent_del_views g 0).2 ∙ h;
      present = λ q. (sent_del_views f q).3;
    };
  }
