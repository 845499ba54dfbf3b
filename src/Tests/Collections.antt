-- ===== src/Tests/Collections.antt =====
-- The collections of numbers in their order, with a linear search and an insertion sort.
use Prim.Native.Nat.{compare}
use dcrud.Base.{ℕ, ◌+◌, ◌^◌, ◌≡◌, refl, true, false, some, none, not, [], ◌∷◌, arith}
use dcrud.Util.Status.{no_error, dynamic_allocation, static_allocation}
use dcrud.Coll.Compare.{Ordering, IsComparator, pointer_compare, pointer_compare-collides}
use dcrud.Coll.Libc.{Libc}
use dcrud.Coll.SortedArray.{holds}
use dcrud.Coll.CollSet
use dcrud.Coll.CollSet.{CollSet, set_magic}
use dcrud.Coll.CollSet.Valid
use dcrud.Coll.CollSet.Valid.{AddOutcome, RemoveOutcome}
use dcrud.Coll.CollSet.Laws.{add-AddOutcome, remove-RemoveOutcome, contains-eq-not-holds}
use dcrud.Coll.CollList
use dcrud.Coll.CollList.{CollList, list_magic, index_loop}
use dcrud.Coll.CollList.Laws
use dcrud.Coll.CollList.Laws.{
  removed, remove-removed, ListAddOutcome, add-ListAddOutcome, index_loop_lem,
}
use dcrud.Coll.CollMap
use dcrud.Coll.CollMap.{CollMap, Pair, map_magic, pair_compare}
use dcrud.Coll.CollMap.Lookup.{lookup}
use dcrud.Coll.CollMap.Valid as MapValid
use dcrud.Coll.CollMap.Valid.{PutOutcome, MapRemoveOutcome, get_answer, has_answer}
use dcrud.Coll.CollMap.Laws.{put-PutOutcome, remove-MapRemoveOutcome, get-get_answer}
use dcrud.Coll.CollMap.PutGet.{put-get}
use dcrud.Tests.Sorting.{linear}

number-IsComparator : IsComparator compare
number-IsComparator = record {
  self_eq = λ a. ground arith;
  eq_sym = λ a b e. ground arith;
  eq_trans = λ a b c e f. ground arith;
  lt_flip = λ a b e. ground arith;
  lt_trans = λ a b c e f. ground arith;
  gt_flip = λ a b e. ground arith;
  eq_lt = λ a b c e f. ground arith;
  lt_eq = λ a b c e f. ground arith;
}

abbrev numbers : Libc compare
numbers = linear compare

abbrev two_items : CollSet ℕ
two_items = record { magic = set_magic; limit = 100; items = 3 ∷ 5 ∷ [] }

two_items-IsValid : Valid.IsValid compare dynamic_allocation two_items
two_items-IsValid = record {
  genuine = refl;
  ordered = record {
    sorted = ((ground arith, tt), (tt, tt));
    distinct = ((ground arith, tt), (tt, tt));
  };
  fits = omega arith;
}

add-AddOutcome_example :
    AddOutcome compare dynamic_allocation true two_items 4
      (CollSet.add numbers dynamic_allocation true (some two_items) 4)
add-AddOutcome_example =
    add-AddOutcome number-IsComparator numbers dynamic_allocation true two_items 4 two_items-IsValid
      (omega arith)

remove-RemoveOutcome_example :
    RemoveOutcome compare dynamic_allocation two_items 3 (CollSet.remove numbers (some two_items) 3)
remove-RemoveOutcome_example =
    remove-RemoveOutcome number-IsComparator numbers dynamic_allocation two_items 3
      two_items-IsValid

contains-eq-not-holds_example :
    CollSet.contains numbers (some two_items) 3 true
    ≡ (no_error, some (not (holds compare 3 two_items.items)))
contains-eq-not-holds_example =
    contains-eq-not-holds number-IsComparator numbers dynamic_allocation two_items 3
      two_items-IsValid

abbrev three_pointers : CollList
three_pointers = record { magic = list_magic; limit = 100; items = 8 ∷ 16 ∷ 8 ∷ [] }

three_pointers-IsValid : Laws.IsValid static_allocation three_pointers
three_pointers-IsValid = record { genuine = refl; fits = omega arith }

remove-removed_example : CollList.remove (some three_pointers) 8 ≡ removed three_pointers 8
remove-removed_example = remove-removed static_allocation three_pointers 8 three_pointers-IsValid

add-ListAddOutcome_example :
    ListAddOutcome static_allocation true three_pointers 24
      (CollList.add static_allocation true (some three_pointers) 24)
add-ListAddOutcome_example =
    add-ListAddOutcome static_allocation true three_pointers 24 three_pointers-IsValid (omega arith)

-- The item is the second of the list.
index_loop_lem_example : index_loop pointer_compare 100 (8 ∷ 16 ∷ []) 16 0 ≡ none
unfolding pointer_compare
index_loop_lem_example = index_loop_lem pointer_compare 99 (8 ∷ 16 ∷ []) 16

pointer_compare-collides_example : pointer_compare (0x1000 + 2 ^ 33) 0x1000 ≡ Ordering.eq
pointer_compare-collides_example = pointer_compare-collides 0x1000 (2 ^ 33) (omega arith) refl

abbrev pairs : Libc (pair_compare {V = ℕ} compare)
pairs = linear (pair_compare compare)

abbrev two_pairs : CollMap ℕ ℕ
two_pairs = record { magic = map_magic; limit = 100; pairs = (1, some 10) ∷ (2, none) ∷ [] }

two_pairs-IsValid : MapValid.IsValid compare dynamic_allocation two_pairs
two_pairs-IsValid = record {
  genuine = refl;
  ordered = record {
    sorted = ((ground arith, tt), (tt, tt));
    distinct = ((ground arith, tt), (tt, tt));
  };
  fits = omega arith;
}

put-PutOutcome_example :
    PutOutcome compare dynamic_allocation false two_pairs 1
      (some 11)
      (CollMap.put compare pairs dynamic_allocation false (some two_pairs) 1 (some 11))
put-PutOutcome_example =
    put-PutOutcome number-IsComparator pairs dynamic_allocation false two_pairs 1 (some 11)
      two_pairs-IsValid (omega arith)

remove-MapRemoveOutcome_example :
    MapRemoveOutcome compare dynamic_allocation two_pairs 2
      (CollMap.remove compare pairs (some two_pairs) 2)
remove-MapRemoveOutcome_example =
    remove-MapRemoveOutcome number-IsComparator pairs dynamic_allocation two_pairs 2
      two_pairs-IsValid

get-get_answer_example :
    CollMap.get compare pairs (some two_pairs) 1 true
    ≡ get_answer (lookup compare 1 two_pairs.pairs)
get-get_answer_example =
    get-get_answer number-IsComparator pairs dynamic_allocation two_pairs 1 two_pairs-IsValid

put-get_example :
    let (_, _, self) =
      CollMap.put compare pairs dynamic_allocation false (some two_pairs) 2 (some 20) in
    CollMap.get compare pairs self 2 true ≡ (no_error, some (some 20))
unfolding CollMap.put CollMap.insert
put-get_example =
    put-get number-IsComparator pairs dynamic_allocation false two_pairs 2 (some 20)
      two_pairs-IsValid (omega arith) 2 refl
