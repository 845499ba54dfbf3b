-- ===== src/Util/Pool.antt =====
-- `utilPool` (C/src/util/Pool.c): a fixed array of items, each with a reference count, from which
-- the static build allocates. An item is its address, and NULL is 0. `Usage` is a row of `poolMap`,
-- which knows a pool by its address; that `poolMap` has 9999 rows is not checked by the code.
pub mod Entries
pub mod Laws
use dcrud.Base.{
  ℕ, zero, suc, ◌+◌, ◌*◌, ◌-◌, ◌%◌, ◌^◌, ◌==◌, ltb, if◌then◌else◌, Bool, true, false, not, ◌&&◌,
  Option, none, some, List, [], ◌∷◌, ◌++◌,
}
use dcrud.Util.Status.{Status, no_error, null_argument, too_many, not_found, duplicate}

-- `utilPoolEntry`
pub record PoolEntry : Type 0 where
  pub item : ℕ
  pub ref_count : ℕ

-- `utilPool`, at its address; `entriesCount` is the length of `entries`.
pub record Pool : Type 0 where
  pub address : ℕ
  pub entries : List PoolEntry

-- `PoolMapEntry`, without the name.
pub record Usage : Type 0 where
  pub pool : ℕ
  pub reserve_count : ℕ
  pub release_count : ℕ
  pub reserve_peak : ℕ

-- The loop of `utilPool_new`: `count` entries from index `i` on. The product is `unsigned`.
unfoldable pub entries_from : ℕ → ℕ → ℕ → ℕ → List PoolEntry
entries_from items item_size i zero = []
entries_from items item_size i (suc count) =
    record { item = items + (item_size * i) % 2 ^ 32; ref_count = 0 }
    ∷ entries_from items item_size (i + 1) count

-- `utilPool_new`: `none` is a NULL pool.
unfoldable pub new : Option ℕ → ℕ → ℕ → ℕ → List Usage → Status × Option Pool × List Usage
new none items item_size entries_count pool_map = (null_argument, none, pool_map)
new (some address) items item_size entries_count pool_map = (
  no_error,
  some (record { address = address; entries = entries_from items item_size 0 entries_count }),
  pool_map
      ++ (record { pool = address; reserve_count = 0; release_count = 0; reserve_peak = 0 } ∷ []),
)

-- `incrementUseOf` on the row of the pool.
abbrev pub increment : Usage → Usage
increment u =
    let reserve_count = (u.reserve_count + 1) % 2 ^ 32 in
    let delta = (reserve_count + 2 ^ 32 - u.release_count) % 2 ^ 32 in
    record u {
      reserve_count = reserve_count;
      reserve_peak = if ltb u.reserve_peak delta then delta else u.reserve_peak;
    }

-- `decrementUseOf` on the row of the pool.
abbrev pub decrement : Usage → Usage
decrement u = record u { release_count = (u.release_count + 1) % 2 ^ 32 }

-- The search that both begin with: the first row of the pool is changed.
unfoldable pub at_use_of : (Usage → Usage) → ℕ → List Usage → List Usage
at_use_of change pool [] = []
at_use_of change pool (u ∷ us) =
    let rest = at_use_of change pool us in if u.pool == pool then change u ∷ us else u ∷ rest

-- The loop of `utilPool_reserve`: the first entry that nobody uses, and the entries after it was
-- taken.
unfoldable pub take_free : List PoolEntry → Option (ℕ × List PoolEntry)
take_free [] = none
take_free (e ∷ es) =
    let rest = take_free es in
    if e.ref_count == 0
    then some (e.item, record e { ref_count = (e.ref_count + 1) % 2 ^ 32 } ∷ es)
    else (elim rest [ none ↦ none | some (item, es') ↦ some (item, e ∷ es') ])

abbrev pub reserved_entry :
    Pool → List Usage → Option (ℕ × List PoolEntry) → Status × Option ℕ × Pool × List Usage
reserved_entry p us none = (too_many, none, p, us)
reserved_entry p us (some (item, es)) =
    (no_error, some item, record p { entries = es }, at_use_of increment p.address us)

-- `utilPool_reserve`: the second part is `*newEntry`; `given` tells if `newEntry` is not NULL.
unfoldable pub reserve :
    Option Pool → Bool → List Usage → Status × Option ℕ × Option Pool × List Usage
reserve none given us = (null_argument, none, none, us)
reserve (some p) given us =
    let (status, item, p', us') = reserved_entry p us (take_free p.entries) in
    if given then (status, item, some p', us') else (null_argument, none, some p, us)

-- `getEntry`: its reference count, if the item is of this pool.
unfoldable pub get_entry : ℕ → List PoolEntry → Option ℕ
get_entry item [] = none
get_entry item (e ∷ es) =
    let rest = get_entry item es in if e.item == item then some e.ref_count else rest

-- A write to the entry that `getEntry` found.
unfoldable pub set_entry : ℕ → ℕ → List PoolEntry → List PoolEntry
set_entry item ref_count [] = []
set_entry item ref_count (e ∷ es) =
    let rest = set_entry item ref_count es in
    if e.item == item then record e { ref_count = ref_count } ∷ es else e ∷ rest

abbrev pub add_reference_found : Pool → ℕ → Option ℕ → Status × Pool
add_reference_found p target none = (not_found, p)
add_reference_found p target (some n) =
    (no_error, record p { entries = set_entry target ((n + 1) % 2 ^ 32) p.entries })

-- `utilPool_addReferenceTo`
unfoldable pub add_reference_to : Option Pool → ℕ → Status × Option Pool
add_reference_to none target = (null_argument, none)
add_reference_to (some p) target =
    let (status, p') = add_reference_found p target (get_entry target p.entries) in
    if target == 0 then (null_argument, some p) else (status, some p')

-- The branches of `utilPool_release` by the count that was found. The second part is `*target`.
abbrev pub release_found : Pool → ℕ → List Usage → Option ℕ → Status × ℕ × Pool × List Usage
release_found p target us none = (not_found, target, p, us)
release_found p target us (some zero) = (duplicate, target, p, us)
release_found p target us (some (suc zero)) = (
  no_error,
  0,
  record p { entries = set_entry target 0 p.entries },
  at_use_of decrement p.address us,
)
release_found p target us (some (suc (suc n))) =
    (no_error, target, record p { entries = set_entry target (suc n) p.entries }, us)

-- `utilPool_release`: `none` for the target is a NULL `arg`.
unfoldable pub release :
    Option Pool → Option ℕ → List Usage → Status × Option ℕ × Option Pool × List Usage
release none target us = (null_argument, target, none, us)
release (some p) none us = (null_argument, none, some p, us)
release (some p) (some target) us =
    let (status, target', p', us') = release_found p target us (get_entry target p.entries) in
    (status, some target', some p', us')
