-- ===== src/Discovery/Tree.antt =====
-- A search tree ordered by nbr_id_compare, as the documentation of RB_FIND describes the one behind
-- nbrs_by_id, and the list that stands for it.
use openbsd_ldpd.Base.{ℕ, ◌<◌, ◌≡◌, ◌≢◌, ◌⊎◌, Option, none, some, Ordering, compare}
use openbsd_ldpd.Nbr.Order.{nbr_id_compare}
use openbsd_ldpd.Discovery.{Neighbor}

pub data IdTree : Type 0 where
  leaf : IdTree
  node : IdTree → Neighbor → IdTree → IdTree

abbrev pub In : Neighbor → IdTree → Type 0
In x IdTree.leaf = ⊥
In x (IdTree.node l n r) = (x ≡ n) ⊎ In x l ⊎ In x r

-- The descent by the comparison function.
unfoldable pub tree_find : IdTree → ℕ → Option Neighbor
tree_find IdTree.leaf id = none
tree_find (IdTree.node l n r) id = elim (nbr_id_compare id n.id) [
  | Ordering.lt ↦ tree_find l id
  | Ordering.gt ↦ tree_find r id
  | Ordering.eq ↦ some n
]

-- A search tree: smaller ids to the left, greater ones to the right.
abbrev pub IsSearchTree : IdTree → Type 0
IsSearchTree IdTree.leaf = Unit
IsSearchTree (IdTree.node l n r) =
    ((x : Neighbor) → In x l → x.id < n.id)
    × ((x : Neighbor) → In x r → n.id < x.id)
    × IsSearchTree l
    × IsSearchTree r

-- The id compares with those of the tree as numbers do.
abbrev pub AgreesIn : IdTree → ℕ → Type 0
AgreesIn t id = (x : Neighbor) → In x t → nbr_id_compare id x.id ≡ compare id x.id

-- What a search gives: a neighbor of the tree with the id, or there is none.
data Answer (t : IdTree) (id : ℕ) : Option Neighbor → Type 0 where
  present : (n : Neighbor) → In n t → n.id ≡ id → Answer t id (some n)
  absent : ((n : Neighbor) → In n t → n.id ≢ id) → Answer t id none
