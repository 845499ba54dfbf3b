-- ===== src/Coll/CollMap.antt =====
-- `collMap` (C/src/coll/Map.c): a map in an array of pairs that is sorted by its keys. A value is a
-- pointer, and NULL is `none`. The comparator is the one that `_new` was given; `pairs` is what is
-- in use of the array, so `count` is its length. `bsearch` and `qsort` are those of the C library;
-- what the allocator answers is an argument.
pub mod Lookup
pub mod Valid
pub mod Laws
pub mod PutGet
use dcrud.Base.{
  ℕ, zero, suc, ◌-◌, ◌≡◌, ◌==◌, ==_true, if◌then◌else◌, Bool, true, false, Option, none, some, List,
  [], ◌∷◌, ◌++◌, length, get_elem?,
}
use dcrud.Util.Status.{Status, no_error, not_found, null_argument, too_many, Build}
use dcrud.Util.SafeCast.{Cast, valid, failed, safe_cast, with_self, read_self}
use dcrud.Coll.Compare.{Ordering}
use dcrud.Coll.Array.{move_down}
use dcrud.Coll.Libc.{Libc}
use dcrud.Coll.Storage.{Room, room, refused, lost, make_room, first_limit, foreach_from}

-- `collMapPair`
abbrev pub Pair : Type 0 → Type 0 → Type 0
Pair K V = K × Option V

-- `collMapImpl`; `limit` has no meaning in the static build.
pub record CollMap (K V : Type 0) : Type 0 where
  pub magic : ℕ
  pub limit : ℕ
  pub pairs : List (Pair K V)

-- `collMapImplMAGIC`
abbrev pub map_magic : ℕ
map_magic = 0x02000002

-- The comparator is handed two pairs, and reads the keys that they begin with.
abbrev pub pair_compare : {K V : Type 0} → (K → K → Ordering) → Pair K V → Pair K V → Ordering
pair_compare cmp p q = cmp p.0 q.0

-- `pair->value = value`
abbrev pub set_value : {K V : Type 0} → List (Pair K V) → ℕ → Option V → List (Pair K V)
set_value [] i value = []
set_value ((k, old) ∷ ps) zero value = (k, value) ∷ ps
set_value (p ∷ ps) (suc i) value = p ∷ set_value ps i value

-- `status == UTIL_STATUS_NO_ERROR` and `value != NULL`
abbrev pub is_value : {V : Type 0} → Status × Option (Option V) → Bool
is_value (no_error, some (some v)) = true
is_value _ = false

module _ {K V : Type 0} where
  -- An operation that only reads: its answer, or the status of the cast with `answer`.
  abbrev pub read_map {κ} :
      {R : Type κ} → Option (CollMap K V) → R → (CollMap K V → Status × R) → Status × R
  read_map self answer body = elim (safe_cast (λ m. m.magic) map_magic self) [
    | failed status ↦ (status, answer)
    | valid this ↦ body this
  ]

  pub read_map-genuine {κ} :
      {R : Type κ} (m : CollMap K V) (answer : R) (body : CollMap K V → Status × R)
      → m.magic ≡ map_magic
      → read_map (some m) answer body ≡ body m
  read_map-genuine m answer body e = rw (==_true m.magic map_magic e, read_map)

  -- The frame of `_put` and `_remove`. The middle part is what `*previousPair` is set to, if it is
  -- given: `none` is NULL for its key and its value.
  abbrev pub with_map :
      Option (CollMap K V)
      → (CollMap K V → Status × Option (Pair K V) × CollMap K V)
      → Status × Option (Pair K V) × Option (CollMap K V)
  with_map = read_self (λ m. m.magic) map_magic

  -- `collMap_new`: `given` tells if `self` is not NULL, `allocated` and `stored` if there is memory
  -- for the object and, in the dynamic build, for its array.
  unfoldable pub new : Build → Bool → Bool → Bool → Status × Option (CollMap K V)
  new build given allocated stored =
      if given
      then (if allocated
          then (if stored
              then (
                no_error,
                some (record { magic = map_magic; limit = first_limit build 0; pairs = [] }),
              )
              else (too_many, none))
          else (too_many, none))
      else (null_argument, none)

  -- `collMap_delete`: `none` is a NULL `self`; the result is the handle `*self`.
  unfoldable pub delete : Option (Option (CollMap K V)) → Status × Option (Option (CollMap K V))
  delete none = (null_argument, none)
  delete (some self) = read_map self (some self) (λ _. (no_error, some none))

  -- `collMap_clear`. The code does not ask if `realloc` succeeded, and neither does the model.
  unfoldable pub clear : Build → Option (CollMap K V) → Status × Option (CollMap K V)
  clear build self =
      with_self (λ m. m.magic) map_magic self
        λ m. (no_error, record m { pairs = []; limit = first_limit build m.limit })

  -- `collMap_size`
  unfoldable pub size : Option (CollMap K V) → Bool → Status × Option ℕ
  size self given =
      if given
      then (read_map self (some 0) λ m. (no_error, some (length m.pairs)))
      else (null_argument, none)

  -- `collMap_foreach`
  unfoldable pub foreach :
      {S : Type 0} → (S → ℕ → Pair K V → Status × S) → Option (CollMap K V) → S → Status × S
  foreach fn self state = read_map self state λ m. foreach_from fn 0 m.pairs state

  -- `collMap_values`: the array itself.
  unfoldable pub values : Option (CollMap K V) → Bool → Status × Option (List (Pair K V))
  values self given =
      if given then (read_map self none λ m. (no_error, some m.pairs)) else (null_argument, none)

  -- The value of the pair that a search found; the search found it inside the array.
  abbrev pub value_at : List (Pair K V) → ℕ → Option V
  value_at [] i = none
  value_at (p ∷ ps) zero = p.1
  value_at (p ∷ ps) (suc i) = value_at ps i

  abbrev pub get_searched : CollMap K V → Option ℕ → Status × Option (Option V)
  get_searched m none = (not_found, some none)
  get_searched m (some i) = (no_error, some (value_at m.pairs i))

  module _ (cmp : K → K → Ordering) (c : Libc (pair_compare {V = V} cmp)) where
    -- The end of `collMap_put` for a key that is new, once there is room or not.
    unfoldable pub insert :
        CollMap K V → K → Option V → Room → Status × Option (Pair K V) × CollMap K V
    insert m key value (room limit) = (
      no_error,
      none,
      record m { pairs = c.qsort (m.pairs ++ ((key, value) ∷ [])); limit = limit },
    )
    insert m key value refused = (too_many, none, m)
    insert m key value lost = (too_many, none, record m { pairs = []; limit = 0 })

    abbrev pub put_searched :
        Build
        → Bool
        → CollMap K V
        → K
        → Option V
        → Option ℕ
        → Status × Option (Pair K V) × CollMap K V
    put_searched build reallocated m key value (some old) =
        (no_error, get_elem? m.pairs old, record m { pairs = set_value m.pairs old value })
    put_searched build reallocated m key value none =
        insert m key value (make_room build reallocated (length m.pairs) m.limit)

    -- `collMap_put`, in both builds.
    unfoldable pub put :
        Build
        → Bool
        → Option (CollMap K V)
        → K
        → Option V
        → Status × Option (Pair K V) × Option (CollMap K V)
    put build reallocated self key value =
        with_map self
          λ m. put_searched build reallocated m key value (c.bsearch (key, none) m.pairs)

    abbrev pub remove_searched : CollMap K V → Option ℕ → Status × Option (Pair K V) × CollMap K V
    remove_searched m none = (not_found, none, m)
    remove_searched m (some prev) =
        let moved = length m.pairs - 1 - prev in
        (no_error, get_elem? m.pairs prev, record m { pairs = move_down m.pairs prev moved })

    -- `collMap_remove`
    unfoldable pub remove :
        Option (CollMap K V) → K → Status × Option (Pair K V) × Option (CollMap K V)
    remove self key = with_map self λ m. remove_searched m (c.bsearch (key, none) m.pairs)

    -- `collMap_get`: the second part is what `*result` is set to, `none` if it is untouched.
    unfoldable pub get : Option (CollMap K V) → K → Bool → Status × Option (Option V)
    get self key given =
        if given
        then (read_map self none λ m. get_searched m (c.bsearch (key, none) m.pairs))
        else (null_argument, none)

    -- `collMap_hasKey`: the status of the search is not passed on.
    unfoldable pub has_key : Option (CollMap K V) → K → Bool → Status × Option Bool
    has_key self key given =
        if given then (no_error, some (is_value (get self key true))) else (null_argument, none)
