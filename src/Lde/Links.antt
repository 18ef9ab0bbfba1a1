-- ===== src/Lde/Links.antt =====
-- What the heap of the label decision engine must satisfy, and what an operation that leaves its
-- structure alone keeps.
pub mod Kernel
pub mod Send
pub mod Check
pub mod Labels
pub mod Requests
pub mod Departure
pub mod Addresses
pub mod Stores
pub mod Count
pub mod Recv
pub mod Sent
pub mod Peers
pub mod Routes
pub mod Retire
pub mod Egress
pub mod Collect
pub mod Store
pub mod Loops
use openbsd_ldpd.Base.{
  ℕ, ◌+◌, ◌≡◌, refl, ◌∙◌, not, Bool, true, false, Option, none, some, List, [], ◌∷◌, ◌==◌, arith,
  if◌then◌else◌, is_some, for_each,
}
use mathlib.Core.Option
use openbsd_ldpd.RbTree.{KeyOrder, find, update, IsSorted, same}
use openbsd_ldpd.RbTree.Laws.{find-update, update-IsSorted, same_refl}
use openbsd_ldpd.Fec.{Fec}
use openbsd_ldpd.Fec.Order.{fec_order}
use openbsd_ldpd.Lde.{
  FecNode, LdeNbr, Lde, peer_order, get_fn, get_ln, set_fn, set_ln, is_nil, keys,
}
use openbsd_ldpd.Lde.Check.{is_pw_fec}

-- What is read of a node and of a neighbor.
abbrev pub downs_of : Option FecNode → List ℕ
downs_of none = []
downs_of (some n) = n.downstream

abbrev pub ups_of : Option FecNode → List ℕ
ups_of none = []
ups_of (some n) = n.upstream

abbrev pub routed_of : Option FecNode → Bool
routed_of none = false
routed_of (some n) = not (is_nil n.nexthops)

abbrev pub pw_of : Option FecNode → Bool
pw_of none = false
pw_of (some n) = is_some n.pw

abbrev pub recv_of : Fec → Option LdeNbr → Bool
recv_of f none = false
recv_of f (some l) = is_some (find fec_order l.recv_map f)

abbrev pub sent_of : Fec → Option LdeNbr → Bool
sent_of f none = false
sent_of f (some l) = is_some (find fec_order l.sent_map f)

abbrev pub recv : Lde → ℕ → Fec → Bool
recv s p f = recv_of f (get_ln s p)

abbrev pub sent : Lde → ℕ → Fec → Bool
sent s p f = sent_of f (get_ln s p)

abbrev pub count : ℕ → List ℕ → ℕ
count p [] = 0
count p (q ∷ qs) = (if p == q then 1 else 0) + count p qs

abbrev pub bit : Bool → ℕ
bit true = 1
bit false = 0

-- The trees are in order.
abbrev pub TidyOf : Option LdeNbr → Type 0
TidyOf none = Unit
TidyOf (some l) = IsSorted fec_order l.recv_map × IsSorted fec_order l.sent_map

pub record Tidy (s : Lde) : Type 0 where
  pub nodes : IsSorted fec_order s.ft
  pub nbrs : IsSorted peer_order s.nbrs
  pub maps : (p : ℕ) → TidyOf (get_ln s p)

-- The invariant. A mapping is in the downstream list of its class as often as it is in the tree
-- recv_map of its neighbor, once or not at all, and so for sent mappings; the trees are in order; a
-- pseudowire class with a next hop has its pseudowire; and no NULL or stale pointer has been used.
pub record Inv (s : Lde) : Type 0 where
  pub linked : (f : Fec) (p : ℕ) → count p (downs_of (get_fn s f)) ≡ bit (recv s p f)
  pub sent_linked : (f : Fec) (p : ℕ) → count p (ups_of (get_fn s f)) ≡ bit (sent s p f)
  pub pw_attached :
      (f : Fec) → is_pw_fec f ≡ true → routed_of (get_fn s f) ≡ true → pw_of (get_fn s f) ≡ true
  pub tidy : Tidy s
  pub no_fault : s.fault ≡ false

-- From `s` to `t` no mapping comes or goes, no node or neighbor is lost, and no fault is met.
pub record Keeps (s t : Lde) : Type 0 where
  pub downs : (f : Fec) → downs_of (get_fn t f) ≡ downs_of (get_fn s f)
  pub ups : (f : Fec) → ups_of (get_fn t f) ≡ ups_of (get_fn s f)
  pub has : (f : Fec) → is_some (get_fn s f) ≡ true → is_some (get_fn t f) ≡ true
  pub routed : (f : Fec) → routed_of (get_fn t f) ≡ true → routed_of (get_fn s f) ≡ true
  pub pws : (f : Fec) → pw_of (get_fn s f) ≡ true → pw_of (get_fn t f) ≡ true
  pub present : (p : ℕ) → is_some (get_ln t p) ≡ is_some (get_ln s p)
  pub recvs : (p : ℕ) (f : Fec) → recv t p f ≡ recv s p f
  pub sents : (p : ℕ) (f : Fec) → sent t p f ≡ sent s p f
  pub tidy : Tidy s → Tidy t
  pub fault : t.fault ≡ s.fault

pub Keeps-refl : (s : Lde) → Keeps s s
Keeps-refl s = record {
  downs = λ f. refl;
  ups = λ f. refl;
  has = λ f h. h;
  routed = λ f h. h;
  pws = λ f h. h;
  present = λ p. refl;
  recvs = λ p f. refl;
  sents = λ p f. refl;
  tidy = λ h. h;
  fault = refl;
}

pub Keeps-trans : {s t u : Lde} → Keeps s t → Keeps t u → Keeps s u
Keeps-trans a b = record {
  downs = λ f. b.downs f ∙ a.downs f;
  ups = λ f. b.ups f ∙ a.ups f;
  has = λ f h. b.has f (a.has f h);
  routed = λ f h. a.routed f (b.routed f h);
  pws = λ f h. b.pws f (a.pws f h);
  present = λ p. b.present p ∙ a.present p;
  recvs = λ p f. b.recvs p f ∙ a.recvs p f;
  sents = λ p f. b.sents p f ∙ a.sents p f;
  tidy = λ h. b.tidy (a.tidy h);
  fault = b.fault ∙ a.fault;
}

pub Keeps-Inv : {s t : Lde} → Keeps s t → Inv s → Inv t
Keeps-Inv k v = record {
  linked = λ f p. rw (k.downs f, k.recvs p f) (v.linked f p);
  sent_linked = λ f p. rw (k.ups f, k.sents p f) (v.sent_linked f p);
  pw_attached = λ f w r. k.pws f (v.pw_attached f w (k.routed f r));
  tidy = k.tidy v.tidy;
  no_fault = k.fault ∙ v.no_fault;
}

-- Only the queue of messages, the pseudowires and the label counter differ.
pub Keeps-same : {s t : Lde} → t.ft ≡ s.ft → t.nbrs ≡ s.nbrs → t.fault ≡ s.fault → Keeps s t
Keeps-same {s} {t} a b c = record {
  downs = λ f. rw a;
  ups = λ f. rw a;
  has = λ f h. rw a h;
  routed = λ f h. rw a at h;
  pws = λ f h. rw a h;
  present = λ p. rw b;
  recvs = λ p f. rw b;
  sents = λ p f. rw b;
  tidy = λ h. record { nodes = rw a h.nodes; nbrs = rw b h.nbrs; maps = λ p. rw b (h.maps p) };
  fault = c;
}

-- The conditions under which a node and a neighbor may be used, and that `Keeps` keeps.
pub record PwOk (s : Lde) : Type 0 where
  pub attached :
      (f : Fec) → is_pw_fec f ≡ true → routed_of (get_fn s f) ≡ true → pw_of (get_fn s f) ≡ true

pub Keeps-PwOk : {s t : Lde} → Keeps s t → PwOk s → PwOk t
Keeps-PwOk k v = record { attached = λ f w r. k.pws f (v.attached f w (k.routed f r)) }

pub Inv-PwOk : {s : Lde} → Inv s → PwOk s
Inv-PwOk v = record { attached = v.pw_attached }

-- The node is there, and has its pseudowire if it is of that kind.
pub record Usable (s : Lde) (f : Fec) : Type 0 where
  pub node : is_some (get_fn s f) ≡ true
  pub pw : is_pw_fec f ≡ true → pw_of (get_fn s f) ≡ true

pub Keeps-Usable : {s t : Lde} {f : Fec} → Keeps s t → Usable s f → Usable t f
Keeps-Usable {f = f} k u = record { node = k.has f u.node; pw = λ w. k.pws f (u.pw w) }

-- From `s` to `t` no node, neighbor or pseudowire is lost, though mappings may come and go.
pub record Stays (s t : Lde) : Type 0 where
  pub has : (f : Fec) → is_some (get_fn s f) ≡ true → is_some (get_fn t f) ≡ true
  pub pws : (f : Fec) → pw_of (get_fn s f) ≡ true → pw_of (get_fn t f) ≡ true
  pub present : (p : ℕ) → is_some (get_ln t p) ≡ is_some (get_ln s p)

-- An operation from a state with the invariant.
pub record Safe (s t : Lde) : Type 0 where
  pub inv : Inv t
  pub stays : Stays s t

pub Keeps-Safe : {s t : Lde} → Inv s → Keeps s t → Safe s t
Keeps-Safe v k = record {
  inv = Keeps-Inv k v;
  stays = record { has = k.has; pws = k.pws; present = k.present };
}

pub Safe-refl : {s : Lde} → Inv s → Safe s s
Safe-refl {s} v = Keeps-Safe v (Keeps-refl s)

pub Safe-trans : {s t u : Lde} → Safe s t → Safe t u → Safe s u
Safe-trans a b = record {
  inv = b.inv;
  stays = record {
    has = λ f h. b.stays.has f (a.stays.has f h);
    pws = λ f h. b.stays.pws f (a.stays.pws f h);
    present = λ p. b.stays.present p ∙ a.stays.present p;
  };
}

pub Stays-Usable : {s t : Lde} {f : Fec} → Stays s t → Usable s f → Usable t f
Stays-Usable {f = f} k u = record { node = k.has f u.node; pw = λ w. k.pws f (u.pw w) }

pub Stays-present :
    {s t : Lde} (p : ℕ) → Stays s t → is_some (get_ln s p) ≡ true → is_some (get_ln t p) ≡ true
Stays-present p k h = k.present p ∙ h
