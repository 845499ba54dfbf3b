-- ===== src/Tests/Sorting.antt =====
-- A linear search and an insertion sort that do what is asked of `bsearch` and `qsort`.
use mathlib.Core.List.{Permᴰ}
use mathlib.Core.List.Permᴰ
use dcrud.Base.{
  ℕ, suc, ◌≡◌, ◌≢◌, refl, subst, Option, none, some, List, [], ◌∷◌, All, get_elem?, arith,
}
use dcrud.Coll.Compare.{Ordering, IsComparator}
use dcrud.Coll.Array.{All-Perm, All-imp}
use dcrud.Coll.Libc.{Libc, Sorted}

module _ {A : Type 0} (cmp : A → A → Ordering) where
  abbrev on_order : Ordering → Option ℕ → Option ℕ
  on_order Ordering.eq rest = some 0
  on_order _ none = none
  on_order _ (some i) = some (suc i)

  abbrev search : A → List A → Option ℕ
  search key [] = none
  search key (x ∷ xs) = on_order (cmp key x) (search key xs)

  abbrev place : Ordering → A → A → List A → List A → List A
  place Ordering.gt x y ys rest = y ∷ rest
  place _ x y ys rest = x ∷ y ∷ ys

  abbrev insert : A → List A → List A
  insert x [] = x ∷ []
  insert x (y ∷ ys) = place (cmp x y) x y ys (insert x ys)

  abbrev sort : List A → List A
  sort [] = []
  sort (x ∷ xs) = insert x (sort xs)

  abbrev Hit : A → List A → ℕ → Type 0
  Hit key xs i = (x : A) × (get_elem? xs i ≡ some x) × (cmp key x ≡ Ordering.eq)

  Hit-later :
      (key x : A) (xs : List A) (i j : ℕ)
      → some (suc j) ≡ some i
      → Hit key xs j
      → Hit key (x ∷ xs) i
  Hit-later key x xs i j e (y, at, same) =
      subst (Hit key (x ∷ xs)) (let k : suc j ≡ i = ground arith in k) (y, at, same)

  Hit-cons :
      (key x : A) (xs : List A) (i : ℕ) (o : Ordering)
      → cmp key x ≡ o
      → (r : Option ℕ) → ((j : ℕ) → r ≡ some j → Hit key xs j)
      → on_order o r ≡ some i
      → Hit key (x ∷ xs) i
  Hit-cons key x xs i Ordering.eq c r later e =
      subst (Hit key (x ∷ xs)) (let k : 0 ≡ i = ground arith in k) (x, refl, c)
  Hit-cons key x xs i Ordering.lt c none later e = let bad : ⊥ = ground arith in absurd bad
  Hit-cons key x xs i Ordering.gt c none later e = let bad : ⊥ = ground arith in absurd bad
  Hit-cons key x xs i Ordering.lt c (some j) later e = Hit-later key x xs i j e (later j refl)
  Hit-cons key x xs i Ordering.gt c (some j) later e = Hit-later key x xs i j e (later j refl)

  pub search-Hit : (key : A) (xs : List A) (i : ℕ) → search key xs ≡ some i → Hit key xs i
  search-Hit key [] i e = let bad : ⊥ = ground arith in absurd bad
  search-Hit key (x ∷ xs) i e =
      Hit-cons key x xs i (cmp key x) refl (search key xs) (λ j. search-Hit key xs j) e

  pub search_miss :
      (key : A) (xs : List A) → search key xs ≡ none → All (λ x. cmp key x ≢ Ordering.eq) xs
  search_miss key [] e = tt
  search_miss key (x ∷ xs) e = (ground arith, search_miss key xs (ground arith))

  place-Perm :
      (o : Ordering) (x y : A) (ys rest : List A)
      → Permᴰ (x ∷ ys) rest
      → Permᴰ (x ∷ y ∷ ys) (place o x y ys rest)
  place-Perm Ordering.gt x y ys rest p = Permᴰ.trans (Permᴰ.swap refl refl) (Permᴰ.cons refl p)
  place-Perm Ordering.lt x y ys rest p = Permᴰ.refl _
  place-Perm Ordering.eq x y ys rest p = Permᴰ.refl _

  insert-Perm : (x : A) (xs : List A) → Permᴰ (x ∷ xs) (insert x xs)
  insert-Perm x [] = Permᴰ.refl _
  insert-Perm x (y ∷ ys) = place-Perm (cmp x y) x y ys (insert x ys) (insert-Perm x ys)

  pub sort-Perm : (xs : List A) → Permᴰ xs (sort xs)
  sort-Perm [] = Permᴰ.nil
  sort-Perm (x ∷ xs) = Permᴰ.trans (Permᴰ.cons refl (sort-Perm xs)) (insert-Perm x (sort xs))

  record IsOrder : Type 0 where
    le_trans : (a b c : A) → cmp a b ≢ Ordering.gt → cmp b c ≢ Ordering.gt → cmp a c ≢ Ordering.gt
    gt_le : (a b : A) → cmp a b ≡ Ordering.gt → cmp b a ≢ Ordering.gt

  comparator-IsOrder : IsComparator cmp → IsOrder
  comparator-IsOrder o = record {
    le_trans = λ a b c e f.
        ground (arith, o.lt_trans a b c, o.eq_trans a b c, o.eq_lt a b c, o.lt_eq a b c);
    gt_le = λ a b e. ground (arith, o.gt_flip a b e);
  }

  module _ (order : IsOrder) where
    first :
        (x y : A) (ys : List A)
        → cmp x y ≢ Ordering.gt
        → Sorted cmp (y ∷ ys)
        → Sorted cmp (x ∷ y ∷ ys)
    first x y ys le s =
        ((le, All-imp (λ z. cmp y z ≢ Ordering.gt) _ ys (λ z. order.le_trans x y z le) s.0), s)

    place-Sorted :
        (o : Ordering) (x y : A) (ys : List A)
        → cmp x y ≡ o
        → Sorted cmp (y ∷ ys)
        → Sorted cmp (insert x ys)
        → Sorted cmp (place o x y ys (insert x ys))
    place-Sorted Ordering.gt x y ys e s t =
        (All-Perm (λ z. cmp y z ≢ Ordering.gt) (insert-Perm x ys) (order.gt_le x y e, s.0), t)
    place-Sorted Ordering.lt x y ys e s t = first x y ys (ground arith) s
    place-Sorted Ordering.eq x y ys e s t = first x y ys (ground arith) s

    insert-Sorted : (x : A) (xs : List A) → Sorted cmp xs → Sorted cmp (insert x xs)
    insert-Sorted x [] s = (tt, tt)
    insert-Sorted x (y ∷ ys) s = place-Sorted (cmp x y) x y ys refl s (insert-Sorted x ys s.1)

    sort-Sorted : (xs : List A) → Sorted cmp (sort xs)
    sort-Sorted [] = tt
    sort-Sorted (x ∷ xs) = insert-Sorted x (sort xs) (sort-Sorted xs)

  pub qsort-Sorted : IsComparator cmp → (xs : List A) → Sorted cmp (sort xs)
  qsort-Sorted o = sort-Sorted (comparator-IsOrder o)

  abbrev pub linear : Libc cmp
  linear = record {
    bsearch = search;
    qsort = sort;
    bsearch_hit = λ o key xs i s e. search-Hit key xs i e;
    bsearch_miss = λ o key xs s e. search_miss key xs e;
    qsort_perm = λ o. sort-Perm;
    qsort_sorted = qsort-Sorted;
  }
