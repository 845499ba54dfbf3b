-- ===== src/Coll/CollList.antt =====
-- `collList` (C/src/coll/List.c): a list of pointers in an array that grows. A pointer is its
-- address, and NULL is 0. `items` is what is in use of the array, so `count` is its length. What the
-- allocator answers is an argument.
pub mod Laws
use dcrud.Base.{
  ℕ, zero, suc, ◌+◌, ◌-◌, ◌==◌, ltb, if◌then◌else◌, Bool, true, false, Option, none, some, List, [],
  ◌∷◌, ◌++◌, length, get_elem?,
}
use dcrud.Util.Status.{
  Status, no_error, not_found, null_argument, out_of_range, too_many, Build, check,
}
use dcrud.Util.SafeCast.{Cast, valid, failed, safe_cast, with_self}
use dcrud.Coll.Compare.{Ordering, is_eq}
use dcrud.Coll.Array.{move_down}
use dcrud.Coll.Storage.{Room, room, refused, lost, make_room, first_limit, foreach_from}

-- `collListImpl`; `limit` has no meaning in the static build.
pub record CollList : Type 0 where
  pub magic : ℕ
  pub limit : ℕ
  pub items : List ℕ

-- `collListImplMAGIC`
abbrev pub list_magic : ℕ
list_magic = 0x02000001

abbrev pub with_list : Option CollList → (CollList → Status × CollList) → Status × Option CollList
with_list = with_self (λ l. l.magic) list_magic

-- An operation that only reads: its answer, or the status of the cast with `answer`.
abbrev pub read_list {κ} : {R : Type κ} → Option CollList → R → (CollList → Status × R) → Status × R
read_list self answer body = elim (safe_cast (λ l. l.magic) list_magic self) [
  | failed status ↦ (status, answer)
  | valid this ↦ body this
]

-- `collList_new`: `given` tells if `self` is not NULL, `allocated` and `stored` if there is memory
-- for the object and, in the dynamic build, for its array.
unfoldable pub new : Build → Bool → Bool → Bool → Status × Option CollList
new build given allocated stored =
    if given
    then (if allocated
        then (if stored
            then (
              no_error,
              some (record { magic = list_magic; limit = first_limit build 0; items = [] }),
            )
            else (too_many, none))
        else (too_many, none))
    else (null_argument, none)

-- `collList_delete`: `none` is a NULL `self`; the result is the handle `*self`.
unfoldable pub delete : Option (Option CollList) → Status × Option (Option CollList)
delete none = (null_argument, none)
delete (some self) = read_list self (some self) (λ _. (no_error, some none))

-- `collList_clear`. The code does not ask if `realloc` succeeded, and neither does the model.
unfoldable pub clear : Build → Option CollList → Status × Option CollList
clear build self =
    with_list self λ l. (no_error, record l { items = []; limit = first_limit build l.limit })

-- The append of `collList_add`, once there is room or not.
unfoldable pub append : CollList → ℕ → Room → Status × CollList
append l item (room limit) = (no_error, record l { items = l.items ++ (item ∷ []); limit = limit })
append l item refused = (too_many, l)
append l item lost = (too_many, record l { items = []; limit = 0 })

-- `collList_add`, in both builds.
unfoldable pub add : Build → Bool → Option CollList → ℕ → Status × Option CollList
add build reallocated self item =
    with_list self λ l. append l item (make_room build reallocated (length l.items) l.limit)

-- The loop of `collList_remove`: the index of the first pointer that is the item.
unfoldable pub position_from : ℕ → ℕ → List ℕ → Option ℕ
position_from item i [] = none
position_from item i (x ∷ xs) =
    let later = position_from item (i + 1) xs in if x == item then some i else later

abbrev pub remove_found : CollList → Option ℕ → Status × CollList
remove_found l none = (not_found, l)
remove_found l (some i) =
    let moved = length l.items - i - 1 in (no_error, record l { items = move_down l.items i moved })

-- `collList_remove`
unfoldable pub remove : Option CollList → ℕ → Status × Option CollList
remove self item = with_list self λ l. remove_found l (position_from item 0 l.items)

-- `collList_get`: the second part is what `*result` is set to; `given` tells if `result` is not NULL.
unfoldable pub get : Option CollList → ℕ → Bool → Status × Option ℕ
get self index given =
    if given
    then (read_list self none λ l. elim (get_elem? l.items index) [
      | some item ↦ (no_error, some item)
      | none ↦ (out_of_range, some 0)
    ])
    else (null_argument, none)

-- `collList_size`
unfoldable pub size : Option CollList → Bool → Status × Option ℕ
size self given =
    if given
    then (read_list self (some 0) λ l. (no_error, some (length l.items)))
    else (null_argument, none)

-- The loop of `collList_indexOf` on fuel, `none` when it runs out. The body never changes `i`.
unfoldable pub index_loop : (ℕ → ℕ → Ordering) → ℕ → List ℕ → ℕ → ℕ → Option (Status × Option ℕ)
index_loop cmp zero items item i = none
index_loop cmp (suc fuel) items item i =
    let again = index_loop cmp fuel items item i in
    elim (get_elem? items i) [
      | none ↦ some (not_found, none)
      | some x ↦ if is_eq (cmp x item) then some (no_error, some i) else again
    ]

-- `collList_indexOf`
unfoldable pub index_of :
    (ℕ → ℕ → Ordering) → ℕ → Option CollList → ℕ → Bool → Option (Status × Option ℕ)
index_of cmp fuel self item given =
    if given
    then (elim (safe_cast (λ l. l.magic) list_magic self) [
      | failed status ↦ some (status, none)
      | valid l ↦ index_loop cmp fuel l.items item 0
    ])
    else some (null_argument, none)

abbrev pub is_found : Status → Bool
is_found no_error = true
is_found _ = false

-- `collList_contains`
unfoldable pub contains :
    (ℕ → ℕ → Ordering) → ℕ → Option CollList → ℕ → Bool → Option (Status × Option Bool)
contains cmp fuel self item given =
    if given
    then (elim (index_of cmp fuel self item true) [
      | none ↦ none
      | some answer ↦ some (answer.0, some (is_found answer.0))
    ])
    else some (null_argument, none)

-- `collList_foreach`
unfoldable pub foreach : {S : Type 0} → (S → ℕ → ℕ → Status × S) → Option CollList → S → Status × S
foreach fn self state = read_list self state λ l. foreach_from fn 0 l.items state

-- `collList_values`: the array itself.
unfoldable pub values : Option CollList → Bool → Status × Option (List ℕ)
values self given =
    if given then (read_list self none λ l. (no_error, some l.items)) else (null_argument, none)
