-- ===== src/Coll/CollSet/Valid.antt =====
-- The invariant of C/src/coll/Set.c, and what `_add` and `_remove` may do to the set that a
-- valid array stands for.
use dcrud.Base.{◌+◌, ◌≤◌, ◌≡◌, Bool, true, false, ◌&&◌, ◌||◌, not, Option, some, [], length}
use dcrud.Util.Status.{
  Status, no_error, duplicate, not_found, too_many, Build, static_allocation, dynamic_allocation,
}
use dcrud.Coll.Compare.{Ordering, is_eq}
use dcrud.Coll.Storage.{HasRoom, bound, max_count}
use dcrud.Coll.SortedArray.{holds, Ordered}
use dcrud.Coll.CollSet.{CollSet, set_magic}

pub record IsValid {A : Type 0} (cmp : A → A → Ordering) (build : Build) (s : CollSet A)
    : Type 0 where
  pub genuine : s.magic ≡ set_magic
  pub ordered : Ordered cmp s.items
  pub fits : length s.items ≤ bound build s.limit

module _ {A : Type 0} (cmp : A → A → Ordering) (build : Build) (reallocated : Bool) (s : CollSet A)
    (item : A) where
  -- What `collSet_add` may answer, and what the set holds then.
  pub data AddOutcome : Status × Option (CollSet A) → Type 0 where
    present : holds cmp item s.items ≡ true → AddOutcome (duplicate, some s)
    added :
        (s' : CollSet A)
        → holds cmp item s.items ≡ false
        → HasRoom build reallocated (length s.items) s.limit
        → IsValid cmp build s'
        → ((key : A) → holds cmp key s'.items ≡ (holds cmp key s.items || is_eq (cmp key item)))
        → length s'.items ≡ length s.items + 1
        → AddOutcome (no_error, some s')
    full :
        holds cmp item s.items ≡ false
        → build ≡ static_allocation
        → length s.items ≡ max_count
        → AddOutcome (too_many, some s)
    lost_all :
        (s' : CollSet A)
        → holds cmp item s.items ≡ false
        → build ≡ dynamic_allocation
        → length s.items ≡ s.limit
        → reallocated ≡ false
        → IsValid cmp build s'
        → s'.items ≡ []
        → AddOutcome (too_many, some s')

module _ {A : Type 0} (cmp : A → A → Ordering) (build : Build) (s : CollSet A) (item : A) where
  -- What `collSet_remove` may answer, and what the set holds then.
  pub data RemoveOutcome : Status × Option (CollSet A) → Type 0 where
    absent : holds cmp item s.items ≡ false → RemoveOutcome (not_found, some s)
    removed :
        (s' : CollSet A)
        → holds cmp item s.items ≡ true
        → IsValid cmp build s'
        → ((key : A)
            → holds cmp key s'.items ≡ (holds cmp key s.items && not (is_eq (cmp key item))))
        → length s'.items + 1 ≡ length s.items
        → RemoveOutcome (no_error, some s')
