-- ===== src/Coll/Libc.antt =====
-- `bsearch` and `qsort` of the C library, which C/src/coll calls and does not implement: functions
-- with the behaviour that the C standard documents for them, if the comparator is an order.
use mathlib.Core.List.{Permᴰ}
use dcrud.Base.{ℕ, ◌≡◌, ◌≢◌, Option, none, some, List, All, get_elem?}
use dcrud.Coll.Compare.{Ordering, IsComparator}
use dcrud.Coll.Array.{Pairs}

-- In ascending order: no item is greater than one that follows it.
abbrev pub Sorted {ℓ} : {A : Type ℓ} → (A → A → Ordering) → List A → Type 0
Sorted cmp = Pairs (λ x y. cmp x y ≢ Ordering.gt)

-- No two items are equal to the comparator.
abbrev pub Distinct {ℓ} : {A : Type ℓ} → (A → A → Ordering) → List A → Type 0
Distinct cmp = Pairs (λ x y. cmp x y ≢ Ordering.eq)

pub record Libc {ℓ} {A : Type ℓ} (cmp : A → A → Ordering) : Type ℓ where
  -- the index of an item that is equal to the key, if there is one
  pub bsearch : A → List A → Option ℕ
  -- the array after it was sorted
  pub qsort : List A → List A
  pub bsearch_hit :
      IsComparator cmp
      → (key : A) (xs : List A) (i : ℕ) → Sorted cmp xs
      → bsearch key xs ≡ some i
      → (x : A) × (get_elem? xs i ≡ some x) × (cmp key x ≡ Ordering.eq)
  pub bsearch_miss :
      IsComparator cmp
      → (key : A) (xs : List A) → Sorted cmp xs
      → bsearch key xs ≡ none
      → All (λ x. cmp key x ≢ Ordering.eq) xs
  pub qsort_perm : IsComparator cmp → (xs : List A) → Permᴰ xs (qsort xs)
  pub qsort_sorted : IsComparator cmp → (xs : List A) → Sorted cmp (qsort xs)
