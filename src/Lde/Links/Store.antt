-- ===== src/Lde/Links/Store.antt =====
-- What an assignment to a node or a neighbor keeps.
use openbsd_ldpd.Base.{ℕ, ◌≡◌, refl, Bool, true, false, Option, none, some, if◌then◌else◌, is_some}
use mathlib.Core.Option
use openbsd_ldpd.RbTree.{same}
use openbsd_ldpd.RbTree.Laws.{find-update, update-IsSorted}
use openbsd_ldpd.Fec.{Fec}
use openbsd_ldpd.Fec.Order.{fec_order}
use openbsd_ldpd.Lde.{FecNode, LdeNbr, Lde, peer_order, get_fn, get_ln, set_fn, set_ln}
use openbsd_ldpd.Lde.Links.{downs_of, ups_of, routed_of, pw_of, recv_of, sent_of, TidyOf, Keeps}

-- What `Keeps` says of one node and of one neighbor.
pub record NodeKeeps (a b : Option FecNode) : Type 0 where
  pub downs : downs_of b ≡ downs_of a
  pub ups : ups_of b ≡ ups_of a
  pub has : is_some a ≡ true → is_some b ≡ true
  pub routed : routed_of b ≡ true → routed_of a ≡ true
  pub pws : pw_of a ≡ true → pw_of b ≡ true

pub record NbrKeeps (a b : Option LdeNbr) : Type 0 where
  pub present : is_some b ≡ is_some a
  pub recvs : (f : Fec) → recv_of f b ≡ recv_of f a
  pub sents : (f : Fec) → sent_of f b ≡ sent_of f a
  pub tidy : TidyOf a → TidyOf b

pub NodeKeeps-refl : (o : Option FecNode) → NodeKeeps o o
NodeKeeps-refl o = record { downs = refl; ups = refl; has = λ h. h; routed = λ h. h; pws = λ h. h }

NbrKeeps-refl : (o : Option LdeNbr) → NbrKeeps o o
NbrKeeps-refl o = record { present = refl; recvs = λ f. refl; sents = λ f. refl; tidy = λ h. h }

-- An assignment to a node or a neighbor, by what it does to the object.
node_update :
    (s : Lde) (f g : Fec) (h : FecNode → FecNode)
    → ((n : FecNode) → NodeKeeps (some n) (some (h n)))
    → NodeKeeps (get_fn s g) (get_fn (set_fn s f h) g)
node_update s f g h keep =
    rw (find-update fec_order s.ft f h g) (cases (same fec_order f g) (get_fn s g))
  where
    cases : (b : Bool) (o : Option FecNode) → NodeKeeps o (if b then Option.map h o else o)
    cases true none = NodeKeeps-refl none
    cases true (some n) = keep n
    cases false o = NodeKeeps-refl o

nbr_update :
    (s : Lde) (p q : ℕ) (h : LdeNbr → LdeNbr)
    → ((l : LdeNbr) → NbrKeeps (some l) (some (h l)))
    → NbrKeeps (get_ln s q) (get_ln (set_ln s p h) q)
nbr_update s p q h keep =
    rw (find-update peer_order s.nbrs p h q) (cases (same peer_order p q) (get_ln s q))
  where
    cases : (b : Bool) (o : Option LdeNbr) → NbrKeeps o (if b then Option.map h o else o)
    cases true none = NbrKeeps-refl none
    cases true (some l) = keep l
    cases false o = NbrKeeps-refl o

pub set_fn-Keeps :
    (s : Lde) (f : Fec) (h : FecNode → FecNode)
    → ((n : FecNode) → NodeKeeps (some n) (some (h n)))
    → Keeps s (set_fn s f h)
set_fn-Keeps s f h keep = record {
  downs = λ g. (node_update s f g h keep).downs;
  ups = λ g. (node_update s f g h keep).ups;
  has = λ g. (node_update s f g h keep).has;
  routed = λ g. (node_update s f g h keep).routed;
  pws = λ g. (node_update s f g h keep).pws;
  present = λ p. refl;
  recvs = λ p g. refl;
  sents = λ p g. refl;
  tidy = λ t. record {
    nodes = update-IsSorted fec_order s.ft f h t.nodes;
    nbrs = t.nbrs;
    maps = t.maps;
  };
  fault = refl;
}

pub set_ln-Keeps :
    (s : Lde) (p : ℕ) (h : LdeNbr → LdeNbr)
    → ((l : LdeNbr) → NbrKeeps (some l) (some (h l)))
    → Keeps s (set_ln s p h)
set_ln-Keeps s p h keep = record {
  downs = λ g. refl;
  ups = λ g. refl;
  has = λ g k. k;
  routed = λ g k. k;
  pws = λ g k. k;
  present = λ q. (nbr_update s p q h keep).present;
  recvs = λ q f. (nbr_update s p q h keep).recvs f;
  sents = λ q f. (nbr_update s p q h keep).sents f;
  tidy = λ t. record {
    nodes = t.nodes;
    nbrs = update-IsSorted peer_order s.nbrs p h t.nbrs;
    maps = λ q. (nbr_update s p q h keep).tidy (t.maps q);
  };
  fault = refl;
}
