-- ===== src/Coll/CollMap/Valid.antt =====
-- The invariant of C/src/coll/Map.c, and what `_put` and `_remove` may answer on a map that keeps
-- it.
use dcrud.Base.{◌+◌, ◌≤◌, ◌≡◌, Bool, true, false, Option, none, some, [], length, if◌then◌else◌}
use dcrud.Util.Status.{
  Status, no_error, not_found, too_many, Build, static_allocation, dynamic_allocation,
}
use dcrud.Coll.Compare.{Ordering, is_eq}
use dcrud.Coll.Storage.{HasRoom, bound, max_count}
use dcrud.Coll.SortedArray.{Ordered}
use dcrud.Coll.CollMap.{CollMap, Pair, map_magic, pair_compare}
use dcrud.Coll.CollMap.Lookup.{lookup}

pub record IsValid {K V : Type 0} (cmp : K → K → Ordering) (build : Build) (m : CollMap K V)
    : Type 0 where
  pub genuine : m.magic ≡ map_magic
  pub ordered : Ordered (pair_compare cmp) m.pairs
  pub fits : length m.pairs ≤ bound build m.limit

module _ {K V : Type 0} (cmp : K → K → Ordering) (build : Build) (m m' : CollMap K V) (key : K)
    (value : Option V) where
  -- The map is valid, and is the old one but for the key, which it has with the value.
  pub record IsUpdate : Type 0 where
    pub valid : IsValid cmp build m'
    pub at_key :
        (k : K)
        → lookup cmp k m'.pairs ≡ (if is_eq (cmp k key) then some value else lookup cmp k m.pairs)

module _ {K V : Type 0} (cmp : K → K → Ordering) (build : Build) (reallocated : Bool)
    (m : CollMap K V) (key : K) (value : Option V) where
  -- What `collMap_put` may answer: the status, the previous pair, and the map.
  pub data PutOutcome : Status × Option (Pair K V) × Option (CollMap K V) → Type 0 where
    replaced :
        (m' : CollMap K V) (old : Pair K V)
        → lookup cmp key m.pairs ≡ some old.1
        → cmp key old.0 ≡ Ordering.eq
        → IsUpdate cmp build m m' key value
        → length m'.pairs ≡ length m.pairs
        → PutOutcome (no_error, some old, some m')
    added :
        (m' : CollMap K V)
        → lookup cmp key m.pairs ≡ none
        → HasRoom build reallocated (length m.pairs) m.limit
        → IsUpdate cmp build m m' key value
        → length m'.pairs ≡ length m.pairs + 1
        → PutOutcome (no_error, none, some m')
    full :
        lookup cmp key m.pairs ≡ none
        → build ≡ static_allocation
        → length m.pairs ≡ max_count
        → PutOutcome (too_many, none, some m)
    lost_all :
        (m' : CollMap K V)
        → lookup cmp key m.pairs ≡ none
        → build ≡ dynamic_allocation
        → length m.pairs ≡ m.limit
        → reallocated ≡ false
        → IsValid cmp build m'
        → m'.pairs ≡ []
        → PutOutcome (too_many, none, some m')

module _ {K V : Type 0} (cmp : K → K → Ordering) (build : Build) (m : CollMap K V) (key : K) where
  -- What `collMap_remove` may answer.
  pub data MapRemoveOutcome : Status × Option (Pair K V) × Option (CollMap K V) → Type 0 where
    absent : lookup cmp key m.pairs ≡ none → MapRemoveOutcome (not_found, none, some m)
    removed :
        (m' : CollMap K V) (old : Pair K V)
        → lookup cmp key m.pairs ≡ some old.1
        → cmp key old.0 ≡ Ordering.eq
        → IsValid cmp build m'
        → ((k : K)
            → lookup cmp k m'.pairs ≡ (if is_eq (cmp k key) then none else lookup cmp k m.pairs))
        → length m'.pairs + 1 ≡ length m.pairs
        → MapRemoveOutcome (no_error, some old, some m')

-- What `collMap_get` answers for a key with this value.
abbrev pub get_answer : {V : Type 0} → Option (Option V) → Status × Option (Option V)
get_answer none = (not_found, some none)
get_answer (some v) = (no_error, some v)

-- What `collMap_hasKey` answers: a key whose value is NULL counts as missing.
abbrev pub has_answer : {V : Type 0} → Option (Option V) → Bool
has_answer (some (some v)) = true
has_answer _ = false
