-- ===== src/Coll/Storage.antt =====
-- What C/src/coll/List.c, Set.c and Map.c repeat word for word: how their arrays grow, and how they
-- visit their items. What the allocator answers is an argument.
use dcrud.Base.{
  ℕ, ◌+◌, ◌%◌, ◌^◌, ◌≤◌, ◌<◌, ◌≡◌, ◌≢◌, ◌⊎◌, refl, inl, inr, true, arith, ◌==◌, if◌then◌else◌, Bool,
  false, List, [], ◌∷◌,
}
use dcrud.Util.Status.{Status, no_error, Build, static_allocation, dynamic_allocation, check}

-- `collList_ITEM_MAX_COUNT`, and the first limit of an array on the heap.
abbrev pub max_count : ℕ
max_count = 100

-- Room for one more item under a limit; no room, and nothing has changed; or no room, and the
-- array is lost, since `realloc` returned NULL.
pub data Room : Type 0 where
  room : ℕ → Room
  refused : Room
  lost : Room

unfoldable pub make_room : Build → Bool → ℕ → ℕ → Room
make_room static_allocation reallocated count limit =
    if count == max_count then refused else room limit
make_room dynamic_allocation reallocated count limit =
    if count == limit
    then (if reallocated then room ((limit + 100) % 2 ^ 32) else lost)
    else room limit

-- There is room for one more item, or `realloc` makes some.
abbrev pub HasRoom : Build → Bool → ℕ → ℕ → Type 0
HasRoom static_allocation reallocated count limit = count ≢ max_count
HasRoom dynamic_allocation reallocated count limit = (count ≢ limit) ⊎ (reallocated ≡ true)

-- How many items an array can have.
abbrev pub bound : Build → ℕ → ℕ
bound static_allocation limit = max_count
bound dynamic_allocation limit = limit

pub make_room-HasRoom :
    (build : Build) (reallocated : Bool) (count limit : ℕ) {limit' : ℕ}
    → make_room build reallocated count limit ≡ room limit'
    → HasRoom build reallocated count limit
unfolding make_room
make_room-HasRoom static_allocation reallocated count limit h =
    λ full. (let bad : ⊥ = ground arith in bad)
make_room-HasRoom dynamic_allocation true count limit h = inr refl
make_room-HasRoom dynamic_allocation false count limit h =
    inl (λ full. (let bad : ⊥ = ground arith in bad))

module _ (build : Build) (reallocated : Bool) (count limit : ℕ) where
  pub make_room-room :
      {limit' : ℕ}
      → make_room build reallocated count limit ≡ room limit'
      → count ≤ bound build limit
      → limit + 100 < 2 ^ 32
      → count + 1 ≤ bound build limit'
  unfolding make_room
  make_room-room e h k = ground arith

  pub make_room-refused :
      make_room build reallocated count limit ≡ refused
      → (build ≡ static_allocation) × (count ≡ max_count)
  unfolding make_room
  make_room-refused e = ground arith

  pub make_room-lost :
      make_room build reallocated count limit ≡ lost
      → (build ≡ dynamic_allocation) × (count ≡ limit) × (reallocated ≡ false)
  unfolding make_room
  make_room-lost e = ground arith

-- The limit after `_new` and `_clear`; the static build has none.
abbrev pub first_limit : Build → ℕ → ℕ
first_limit static_allocation limit = limit
first_limit dynamic_allocation limit = 100

-- `_foreach`: the visits stop at the first that fails. `fn` is given the state that `userData`
-- points to, the index and the item.
unfoldable pub foreach_from {ℓ κ} :
    {A : Type ℓ} {S : Type κ} → (S → ℕ → A → Status × S) → ℕ → List A → S → Status × S
foreach_from fn index [] state = (no_error, state)
foreach_from fn index (x ∷ xs) state =
    let (status, state') = fn state index x in
    let rest = foreach_from fn (index + 1) xs state' in check status rest (status, state')
