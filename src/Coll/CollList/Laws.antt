-- ===== src/Coll/CollList/Laws.antt =====
-- What the operations of C/src/coll/List.c do to the list that they are given.
use dcrud.Base.{
  ℕ, zero, suc, ◌+◌, ◌-◌, ◌^◌, ◌<◌, ◌≤◌, ◌≡◌, refl, sym, ap, ◌∙◌, subst, Bool, true, false, Option,
  none, some, List, [], ◌∷◌, ◌++◌, length, length-append, if◌then◌else◌, ◌==◌, Bool-cases, inl, inr,
  arith,
}
use dcrud.Util.Status.{
  Status, no_error, not_found, too_many, Build, static_allocation, dynamic_allocation,
}
use dcrud.Util.SafeCast.{with_self-genuine}
use dcrud.Coll.Compare.{Ordering, is_eq}
use dcrud.Coll.Array.{erase_at, move_down-eq-erase_at}
use dcrud.Coll.Storage.{
  Room, room, refused, lost, make_room, bound, make_room-room, make_room-HasRoom, HasRoom,
  make_room-refused, make_room-lost, max_count,
}
use dcrud.Coll.CollList
use dcrud.Coll.CollList.{CollList, list_magic, position_from, index_loop}

pub record IsValid (build : Build) (l : CollList) : Type 0 where
  pub genuine : l.magic ≡ list_magic
  pub fits : length l.items ≤ bound build l.limit

-- The list without the first occurrence of an item.
abbrev pub erase : ℕ → List ℕ → List ℕ
erase item [] = []
erase item (x ∷ xs) = if x == item then xs else x ∷ erase item xs

abbrev pub mem : ℕ → List ℕ → Bool
mem item [] = false
mem item (x ∷ xs) = if x == item then true else mem item xs

-- What `remove` answers: the list shrinks by the first occurrence, if there is one.
abbrev pub removed : CollList → ℕ → Status × Option CollList
removed l item =
    if mem item l.items
    then (no_error, some (record l { items = erase item l.items }))
    else (not_found, some l)

position_from-none :
    (item i : ℕ) (xs : List ℕ) → position_from item i xs ≡ none → mem item xs ≡ false
unfolding position_from
position_from-none item i [] e = refl
position_from-none item i (x ∷ xs) e = ground (arith, position_from-none item (i + 1) xs)

position_from-some :
    (item i : ℕ) (xs : List ℕ) {j : ℕ}
    → position_from item i xs ≡ some j
    → (i ≤ j) × (j < i + length xs) × (mem item xs ≡ true) × (erase_at (j - i) xs ≡ erase item xs)
unfolding position_from
position_from-some item i [] e = let bad : ⊥ = ground arith in absurd bad
position_from-some item i (x ∷ xs) {j} e = elim (Bool-cases (x == item)) [
  | inl here ↦
      let at : i ≡ j = ground arith in
      let zeroth : j - i ≡ 0 = omega arith in (omega arith, omega arith, rw here, rw (zeroth, here))
  | inr later ↦
      let e' : position_from item (i + 1) xs ≡ some j = ground arith in
      let (low, high, found, rest) = position_from-some item (i + 1) xs e' in
      let next : j - i ≡ suc (j - (i + 1)) = omega arith in
      (omega arith, omega arith, rw later found, rw (next, later) (ap (◌∷◌ x) rest))
]

module _ (build : Build) (l : CollList) (item : ℕ) (v : IsValid build l) where
  found-removed :
      (found : Option ℕ)
      → position_from item 0 l.items ≡ found
      → ((CollList.remove_found l found).0, some (CollList.remove_found l found).1) ≡ removed l item
  found-removed none e = rw (position_from-none item 0 l.items e)
  found-removed (some i) e =
      let (low, high, found, rest) = position_from-some item 0 l.items e in
      let inside : i < length l.items = omega arith in
      let moved : length l.items - i - 1 ≡ length l.items - 1 - i = omega arith in
      let start : i - 0 ≡ i = omega arith in
      rw (found, moved, move_down-eq-erase_at l.items i inside)
        (ap (λ items. (no_error, some (record l { items = items })))
          (subst (λ k. erase_at k l.items ≡ erase item l.items) start rest))

  -- `collList_remove` takes out the first occurrence of the item and keeps the order of the rest; if
  -- there is none, it answers `not_found` and changes nothing.
  pub remove-removed : CollList.remove (some l) item ≡ removed l item
  unfolding CollList.remove
  remove-removed =
      with_self-genuine (λ t. t.magic) list_magic l _ v.genuine
      ∙ found-removed (position_from item 0 l.items) refl

-- What `collList_add` may answer.
pub data ListAddOutcome (build : Build) (reallocated : Bool) (l : CollList) (item : ℕ)
    : Status × Option CollList → Type 0 where
  added :
      (l' : CollList)
      → l'.items ≡ l.items ++ (item ∷ [])
      → HasRoom build reallocated (length l.items) l.limit
      → IsValid build l'
      → ListAddOutcome build reallocated l item (no_error, some l')
  full :
      build ≡ static_allocation
      → length l.items ≡ max_count
      → ListAddOutcome build reallocated l item (too_many, some l)
  lost_all :
      (l' : CollList)
      → build ≡ dynamic_allocation
      → length l.items ≡ l.limit
      → reallocated ≡ false
      → l'.items ≡ []
      → IsValid build l'
      → ListAddOutcome build reallocated l item (too_many, some l')

module _ (build : Build) (reallocated : Bool) (l : CollList) (item : ℕ) (v : IsValid build l) where
  append-ListAddOutcome :
      (r : Room)
      → make_room build reallocated (length l.items) l.limit ≡ r
      → l.limit + 100 < 2 ^ 32
      → ListAddOutcome build reallocated l item
          ((CollList.append l item r).0, some (CollList.append l item r).1)
  unfolding CollList.append
  append-ListAddOutcome (room limit) e small =
      ListAddOutcome.added _ refl (make_room-HasRoom build reallocated (length l.items) l.limit e)
        (record {
          genuine = v.genuine;
          fits = omega (
            arith,
            length-append l.items (item ∷ []),
            make_room-room build reallocated (length l.items) l.limit e v.fits small,
          );
        })
  append-ListAddOutcome refused e small =
      let (static, at_max) = make_room-refused build reallocated (length l.items) l.limit e in
      ListAddOutcome.full static at_max
  append-ListAddOutcome lost e small =
      let (dynamic, at_limit, failed) =
        make_room-lost build reallocated (length l.items) l.limit e in
      ListAddOutcome.lost_all _ dynamic at_limit failed refl
        (record { genuine = v.genuine; fits = omega arith })

  -- `collList_add` on a valid list with a limit below 2 ^ 32 - 100 appends the item if the array
  -- has room or can grow; else the static build leaves the list alone, and the dynamic build is
  -- left with a valid empty list.
  pub add-ListAddOutcome :
      l.limit + 100 < 2 ^ 32
      → ListAddOutcome build reallocated l item (CollList.add build reallocated (some l) item)
  unfolding CollList.add
  add-ListAddOutcome small =
      subst (ListAddOutcome build reallocated l item)
        (sym (with_self-genuine (λ t. t.magic) list_magic l _ v.genuine))
        (append-ListAddOutcome (make_room build reallocated (length l.items) l.limit) refl small)

index_loop_stuck :
    (cmp : ℕ → ℕ → Ordering) (x : ℕ) (xs : List ℕ) (item : ℕ)
    → is_eq (cmp x item) ≡ false
    → (fuel : ℕ) → index_loop cmp fuel (x ∷ xs) item 0 ≡ none
unfolding index_loop
index_loop_stuck cmp x xs item e zero = refl
index_loop_stuck cmp x xs item e (suc fuel) = rw e (index_loop_stuck cmp x xs item e fuel)

-- `collList_indexOf` looks at the first item alone: it answers at once for an empty list and for a
-- list that starts with an equal item, and for any other it never returns, wherever the item is.
pub index_loop_lem :
    (cmp : ℕ → ℕ → Ordering) (fuel : ℕ) (items : List ℕ) (item : ℕ)
    → index_loop cmp (suc fuel) items item 0 ≡ elim items [
      | [] ↦ some (not_found, none)
      | x ∷ xs ↦ if is_eq (cmp x item) then some (no_error, some 0) else none
    ]
unfolding index_loop
index_loop_lem cmp fuel [] item = refl
index_loop_lem cmp fuel (x ∷ xs) item = elim (Bool-cases (is_eq (cmp x item))) [
  | inl e ↦ rw e
  | inr e ↦ rw e (index_loop_stuck cmp x xs item e fuel)
]
