-- ===== src/Coll/CollSet.antt =====
-- `collSet` (C/src/coll/Set.c): a set in a sorted array. The comparator is the one that `_new` was
-- given, and does not change; `items` is what is in use of the array, so `count` is its length.
-- `bsearch` and `qsort` are those of the C library; what the allocator answers is an argument.
pub mod Valid
pub mod Laws
use dcrud.Base.{
  ℕ, ◌+◌, ◌-◌, ◌==◌, if◌then◌else◌, Bool, true, false, Option, none, some, List, [], ◌∷◌, ◌++◌,
  length,
}
use dcrud.Util.Status.{Status, no_error, duplicate, not_found, null_argument, too_many, Build}
use dcrud.Util.SafeCast.{Cast, valid, failed, safe_cast, with_self, read_self}
use dcrud.Coll.Compare.{Ordering}
use dcrud.Coll.Array.{move_down}
use dcrud.Coll.Libc.{Libc}
use dcrud.Coll.Storage.{Room, room, refused, lost, make_room, first_limit, foreach_from}

-- `collSetImpl`; `limit` has no meaning in the static build.
pub record CollSet (A : Type 0) : Type 0 where
  pub magic : ℕ
  pub limit : ℕ
  pub items : List A

-- `collSetImplMAGIC`
abbrev pub set_magic : ℕ
set_magic = 0x02000003

module _ {A : Type 0} where
  abbrev pub with_set :
      Option (CollSet A) → (CollSet A → Status × CollSet A) → Status × Option (CollSet A)
  with_set = with_self (λ s. s.magic) set_magic

  abbrev pub read_set :
      {R : Type 0}
      → Option (CollSet A)
      → (CollSet A → Status × Option R × CollSet A)
      → Status × Option R × Option (CollSet A)
  read_set = read_self (λ s. s.magic) set_magic

  -- `collSet_new`: `given` tells if `self` is not NULL, `allocated` and `stored` if there is memory
  -- for the object and, in the dynamic build, for its array.
  unfoldable pub new : Build → Bool → Bool → Bool → Status × Option (CollSet A)
  new build given allocated stored =
      if given
      then (if allocated
          then (if stored
              then (
                no_error,
                some (record { magic = set_magic; limit = first_limit build 0; items = [] }),
              )
              else (too_many, none))
          else (too_many, none))
      else (null_argument, none)

  -- `collSet_delete`: `none` is a NULL `self`; the result is the handle `*self`.
  unfoldable pub delete : Option (Option (CollSet A)) → Status × Option (Option (CollSet A))
  delete none = (null_argument, none)
  delete (some self) = elim (safe_cast (λ s. s.magic) set_magic self) [
    | failed status ↦ (status, some self)
    | valid this ↦ (no_error, some none)
  ]

  -- `collSet_clear`. The code does not ask if `realloc` succeeded, and neither does the model.
  unfoldable pub clear : Build → Option (CollSet A) → Status × Option (CollSet A)
  clear build self =
      with_set self λ s. (no_error, record s { items = []; limit = first_limit build s.limit })

  -- `collSet_size`
  unfoldable pub size : Option (CollSet A) → Bool → Status × Option ℕ
  size self given =
      if given
      then (elim (safe_cast (λ s. s.magic) set_magic self) [
        | failed status ↦ (status, some 0)
        | valid this ↦ (no_error, some (length this.items))
      ])
      else (null_argument, none)

  -- `collSet_foreach`
  unfoldable pub foreach :
      {S : Type 0} → (S → ℕ → A → Status × S) → Option (CollSet A) → S → Status × S
  foreach fn self state = elim (safe_cast (λ s. s.magic) set_magic self) [
    | failed status ↦ (status, state)
    | valid this ↦ foreach_from fn 0 this.items state
  ]

  -- `collSet_values`: the array itself.
  unfoldable pub values : Option (CollSet A) → Bool → Status × Option (List A)
  values self given =
      if given
      then (elim (safe_cast (λ s. s.magic) set_magic self) [
        | failed status ↦ (status, none)
        | valid this ↦ (no_error, some this.items)
      ])
      else (null_argument, none)

  module _ {cmp : A → A → Ordering} (c : Libc cmp) where
    -- The insertion of `collSet_add`, once there is room or not.
    unfoldable pub insert : CollSet A → A → Room → Status × CollSet A
    insert s item (room limit) =
        (no_error, record s { items = c.qsort (s.items ++ (item ∷ [])); limit = limit })
    insert s item refused = (too_many, s)
    insert s item lost = (too_many, record s { items = []; limit = 0 })

    abbrev pub add_searched : Build → Bool → CollSet A → A → Option ℕ → Status × CollSet A
    add_searched build reallocated s item (some prev) = (duplicate, s)
    add_searched build reallocated s item none =
        insert s item (make_room build reallocated (length s.items) s.limit)

    -- `collSet_add`, in both builds.
    unfoldable pub add : Build → Bool → Option (CollSet A) → A → Status × Option (CollSet A)
    add build reallocated self item =
        with_set self λ s. add_searched build reallocated s item (c.bsearch item s.items)

    abbrev pub remove_searched : CollSet A → Option ℕ → Status × CollSet A
    remove_searched s none = (not_found, s)
    remove_searched s (some prev) =
        let moved = length s.items - 1 - prev in
        (no_error, record s { items = move_down s.items prev moved })

    -- `collSet_remove`
    unfoldable pub remove : Option (CollSet A) → A → Status × Option (CollSet A)
    remove self item = with_set self λ s. remove_searched s (c.bsearch item s.items)

    -- `collSet_contains`: the answer is `prev == NULL`, and `false` if the cast fails.
    unfoldable pub contains : Option (CollSet A) → A → Bool → Status × Option Bool
    contains self item given =
        if given
        then (elim (safe_cast (λ s. s.magic) set_magic self) [
          | failed status ↦ (status, some false)
          | valid this ↦ (
            no_error,
            elim (c.bsearch item this.items) [ none ↦ some true | some prev ↦ some false ],
          )
        ])
        else (null_argument, none)
