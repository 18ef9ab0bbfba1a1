-- ===== src/Lde/Links/Peers.antt =====
-- A neighbor comes: lde_nbr_new keeps the invariant.
use openbsd_ldpd.Base.{
  ℕ, ◌≡◌, ap, ◌∙◌, refl, sym, Bool, false, none, [], is_some, arith, none_of, Bool-cases, inl, inr,
}
use openbsd_ldpd.Base.Branch.{at_if}
use openbsd_ldpd.RbTree.{find, insert, same}
use openbsd_ldpd.RbTree.Laws.{find-insert, insert-IsSorted, same_iff}
use openbsd_ldpd.Fec.{Fec}
use openbsd_ldpd.Lde.{LdeNbr, Lde, peer_order, get_ln}
use openbsd_ldpd.Lde.Peers.{lde_nbr_new}
use openbsd_ldpd.Lde.Links.{Inv, recv, sent, recv_of, sent_of, bit, TidyOf}

-- lde_nbr_new, for a peer id that is free
module _ (s : Lde) (p : ℕ) (l : LdeNbr) where
  new_views :
      (q : ℕ) (f : Fec)
      → get_ln s p ≡ none
      → l.recv_map ≡ []
      → l.sent_map ≡ []
      → (recv_of f (find peer_order (insert peer_order s.nbrs p l) q) ≡ recv s q f)
        × (sent_of f (find peer_order (insert peer_order s.nbrs p l) q) ≡ sent s q f)
  unfolding find
  new_views q f h a b =
      ground (arith, find-insert peer_order s.nbrs p l q h, same_iff peer_order p q)

  new_tidy :
      (q : ℕ)
      → get_ln s p ≡ none
      → l.recv_map ≡ []
      → l.sent_map ≡ []
      → TidyOf (get_ln s q)
      → TidyOf (find peer_order (insert peer_order s.nbrs p l) q)
  new_tidy q h a b t =
      rw (find-insert peer_order s.nbrs p l q h) (elim (Bool-cases (same peer_order p q)) [
        | inl e ↦ rw e (rw a tt, rw b tt)
        | inr e ↦ rw e t
      ])

pub nbr_new-Inv :
    (s : Lde) (p id : ℕ) (v4 v6 : Bool)
    → Inv s
    → is_some (get_ln s p) ≡ false
    → Inv (lde_nbr_new s p id v4 v6)
unfolding lde_nbr_new
nbr_new-Inv s p id v4 v6 v h =
    at_if Inv (λ e. cc)
      λ e.
        let gone = none_of (get_ln s p) h in
        record {
          linked = λ f q. v.linked f q ∙ ap bit (sym ((new_views s p _ q f gone refl refl).0));
          sent_linked =
              λ f q. v.sent_linked f q ∙ ap bit (sym ((new_views s p _ q f gone refl refl).1));
          pw_attached = v.pw_attached;
          tidy = record {
            nodes = v.tidy.nodes;
            nbrs = insert-IsSorted peer_order s.nbrs p _ v.tidy.nbrs;
            maps = λ q. new_tidy s p _ q gone refl refl (v.tidy.maps q);
          };
          no_fault = v.no_fault;
        }
