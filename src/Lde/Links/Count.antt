-- ===== src/Lde/Links/Count.antt =====
-- Counting the mappings of a peer in the list of a class.
use openbsd_ldpd.Base.{
  ℕ, ◌-◌, ◌≡◌, Bool, true, false, Option, none, some, List, [], ◌∷◌, ◌==◌, arith, if◌then◌else◌,
}
use mathlib.Core.Option
use openbsd_ldpd.Base.Branch
use openbsd_ldpd.Lde.{LdeNbr, erase}
use openbsd_ldpd.Lde.Links.{count, TidyOf}

-- LIST_REMOVE takes one mapping of the peer away, and those of no other.
pub count-erase :
    (p q : ℕ) (l : List ℕ) → count q (erase p l) ≡ count q l - (if q == p then 1 else 0)
unfolding erase Branch.if◌then◌else◌
count-erase p q [] = ground arith
count-erase p q (x ∷ xs) = ground (arith, count-erase p q xs)

-- The trees of a neighbor stay in order under an assignment that keeps them so.
pub at_update :
    (b : Bool) (o : Option LdeNbr) (h : LdeNbr → LdeNbr)
    → ((l : LdeNbr) → TidyOf (some l) → TidyOf (some (h l)))
    → TidyOf o
    → TidyOf (if b then Option.map h o else o)
at_update true none h keep t = t
at_update true (some l) h keep t = keep l t
at_update false o h keep t = t
