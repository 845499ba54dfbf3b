-- ===== src/Util/Strings.antt =====
-- `utilString` (C/src/util/String.c): C strings in memory of a known size. A string is the list of
-- its characters, the final NUL left out; what the allocator answers is an argument.
pub mod Laws
use dcrud.Base.{
  ℕ, ◌+◌, ◌-◌, ltb, if◌then◌else◌, Bool, true, false, Option, none, some, List, [], ◌∷◌, ◌++◌,
  length,
}
use dcrud.Util.Status.{
  Status, no_error, null_argument, too_many, overflow, not_found, check, Build, static_allocation,
  dynamic_allocation,
}
use dcrud.Util.Pool
use dcrud.Util.Pool.{Usage}

-- Memory of `capacity` bytes, and the string in it.
pub record Text : Type 0 where
  pub capacity : ℕ
  pub chars : List ℕ

-- The pool that serves a size in the static build, by the size of its items.
unfoldable pub item_size : ℕ → Option ℕ
item_size size =
    if ltb size 20
    then some 20
    else if ltb size 40
    then some 40
    else if ltb size 80
    then some 80
    else if ltb size 160
    then some 160
    else if ltb size 1000
    then some 1000
    else if ltb size 5000
    then some 5000
    else if ltb size 10000
    then some 10000
    else if ltb size 65536
    then some 65536
    else none

-- Memory of this size was asked for; the string in it is empty.
abbrev pub reserved_text : Bool → Option ℕ → Status × Option Text
reserved_text allocated none = (overflow, none)
reserved_text true (some capacity) = (no_error, some (record { capacity = capacity; chars = [] }))
reserved_text false (some capacity) = (too_many, none)

abbrev pub capacity_of : Build → ℕ → Option ℕ
capacity_of static_allocation size = item_size size
capacity_of dynamic_allocation size = some size

-- `utilString_new`: `given` tells if the handle is not NULL, `allocated` if there is memory. Memory
-- of `malloc` is not cleared, and the code does not read it before it writes a string.
unfoldable pub new : Build → Bool → Bool → ℕ → Status × Option Text
new build given allocated size =
    if given then (reserved_text allocated (capacity_of build size)) else (null_argument, none)

-- The `strcpy` of `utilString_clone`.
abbrev pub copied : List ℕ → Status × Option Text → Status × Option Text
copied source (no_error, some this) = (no_error, some (record this { chars = source }))
copied source (status, this) = (status, this)

-- `utilString_clone`
unfoldable pub clone : Build → Bool → Bool → Option (List ℕ) → Status × Option Text
clone build given allocated none = (null_argument, none)
clone build given allocated (some source) =
    if given
    then (copied source (new build true allocated (length source + 1)))
    else (null_argument, none)

-- `utilString_concat`: `size` is what is left behind the string.
unfoldable pub concat : Option Text → Option (List ℕ) → Option ℕ → Status × Option Text × Option ℕ
concat (some this) (some source) (some size) =
    if ltb (length source) size
    then (
      no_error,
      some (record this { chars = this.chars ++ source }),
      some (size - length source),
    )
    else (overflow, some this, some size)
concat this source size = (null_argument, this, size)

-- The static build offers the string to one pool after the other; `last` is the status so far.
unfoldable pub delete_from :
    Status → List Pool.Pool → ℕ → List Usage → Status × ℕ × List Pool.Pool × List Usage
delete_from last [] target us = (last, target, [], us)
delete_from last (p ∷ ps) target us =
    let (status, target', p', us') =
      Pool.release_found p target us (Pool.get_entry target p.entries) in
    let (status', target'', ps', us'') = delete_from status ps target us in
    check status (status, target', p' ∷ ps, us') (status', target'', p ∷ ps', us'')

-- `utilString_delete`: `none` is a NULL handle; the pools are those of the sizes 20 to 65536.
unfoldable pub delete :
    Build → List Pool.Pool → Option ℕ → List Usage → Status × Option ℕ × List Pool.Pool × List Usage
delete build pools none us = (null_argument, none, pools, us)
delete dynamic_allocation pools (some target) us = (no_error, some 0, pools, us)
delete static_allocation pools (some target) us =
    let (status, target', pools', us') = delete_from no_error pools target us in
    (status, some target', pools', us')
