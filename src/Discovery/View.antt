-- ===== src/Discovery/View.antt =====
-- What of the discovery state its pointers are made of, and the invariant: no pointer is stale, LSR ids and
-- transport addresses are unique, and an adjacency points to the neighbor with its LSR id.
pub mod Unlink
pub mod Delete
pub mod Purge
pub mod Target
pub mod Insert
pub mod Adopt
pub mod Accept
pub mod Judge
pub mod Process
use openbsd_ldpd.Base.{
  ℕ, ◌<◌, ◌≡◌, ◌≢◌, Bool, true, false, not, Option, none, some, List, [], ◌∷◌, ◌==◌, map,
  if◌then◌else◌,
}
use openbsd_ldpd.Lde.{Af}
use openbsd_ldpd.Discovery.{HelloSource, Adj, Neighbor, Tnbr, Disc, same_addr, source_af}
use openbsd_ldpd.Discovery.Lists.{Has, filter}

pub record Link : Type 0 where
  pub ptr : ℕ
  pub lsr_id : ℕ
  pub nbr : Option ℕ
  pub source : HelloSource

pub record Key : Type 0 where
  pub id : ℕ
  pub af : Af
  pub raddr : ℕ

pub record Mark : Type 0 where
  pub ptr : ℕ
  pub adj : Option ℕ

pub record View : Type 0 where
  pub links : List Link
  pub keys : List Key
  pub marks : List Mark
  pub next : ℕ
  pub fault : Bool

abbrev pub link_of : Adj → Link
link_of a = record { ptr = a.ptr; lsr_id = a.lsr_id; nbr = a.nbr; source = a.source }

abbrev pub key_of : Neighbor → Key
key_of n = record { id = n.id; af = n.af; raddr = n.raddr }

abbrev pub mark_of : Tnbr → Mark
mark_of t = record { ptr = t.ptr; adj = t.adj }

abbrev pub view : Disc → View
view d = record {
  links = map link_of d.adj_list;
  keys = map key_of d.nbrs;
  marks = map mark_of d.tnbrs;
  next = d.next;
  fault = d.fault;
}

abbrev pub target_of : HelloSource → Option ℕ
target_of (HelloSource.link i af s) = none
target_of (HelloSource.targeted af t) = some t

-- No two of a list have the same pointer.
abbrev pub IsApart : List Link → Type 0
IsApart [] = Unit
IsApart (x ∷ xs) = ((b : Link) → Has b xs → b.ptr ≢ x.ptr) × IsApart xs

pub record IsLinked (v : View) : Type 0 where
  pub sound : v.fault ≡ false
  pub fresh : (a : Link) → Has a v.links → a.ptr < v.next
  pub apart : IsApart v.links
  pub uniq : (a b : Link) → Has a v.links → Has b v.links → a.ptr ≡ b.ptr → a ≡ b
  pub named : (a : Link) (id : ℕ) → Has a v.links → a.nbr ≡ some id → a.lsr_id ≡ id
  pub owned :
      (a : Link) (id : ℕ) → Has a v.links → a.nbr ≡ some id → (k : Key) × Has k v.keys × (k.id ≡ id)
  pub adopted :
      (a : Link) (k : Key) → Has a v.links → Has k v.keys → k.id ≡ a.lsr_id → a.nbr ≡ some k.id
  pub id_uniq : (k l : Key) → Has k v.keys → Has l v.keys → k.id ≡ l.id → k ≡ l
  pub addr_uniq :
      (k l : Key) → Has k v.keys → Has l v.keys → same_addr k.af k.raddr l.af l.raddr ≡ true → k ≡ l
  pub held :
      (m : Mark) (p : ℕ)
      → Has m v.marks
      → m.adj ≡ some p
      → (a : Link) × Has a v.links × (a.ptr ≡ p) × (target_of a.source ≡ some m.ptr)
  pub holder :
      (a : Link) (t : ℕ)
      → Has a v.links
      → target_of a.source ≡ some t
      → (m : Mark) × Has m v.marks × (m.ptr ≡ t) × (m.adj ≡ some a.ptr)
  pub mark_fresh : (m : Mark) → Has m v.marks → m.ptr < v.next
  pub mark_uniq : (m n : Mark) → Has m v.marks → Has n v.marks → m.ptr ≡ n.ptr → m ≡ n

-- The neighbor has an adjacency of its address family.
abbrev pub IsAnchored : List Link → Key → Type 0
IsAnchored ls k = (a : Link) × Has a ls × (a.nbr ≡ some k.id) × (source_af a.source ≡ k.af)

abbrev pub AllAnchored : View → Type 0
AllAnchored v = (k : Key) → Has k v.keys → IsAnchored v.links k

-- The operations on the view.
abbrev pub mark_target : ℕ → Option ℕ → Mark → Mark
mark_target t a m = if m.ptr == t then record m { adj = a } else m

abbrev pub mark_source : Option ℕ → Option ℕ → List Mark → List Mark
mark_source none a ms = ms
mark_source (some t) a ms = map (mark_target t a) ms

abbrev pub other_link : ℕ → Link → Bool
other_link p a = not (a.ptr == p)

abbrev pub unlink : View → Link → View
unlink v a = record v {
  links = filter (other_link a.ptr) v.links;
  marks = mark_source (target_of a.source) none v.marks;
}
