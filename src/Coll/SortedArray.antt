-- ===== src/Coll/SortedArray.antt =====
-- Sorted arrays searched by `bsearch`, extended by `qsort` and shrunk by `memmove`, as
-- C/src/coll/Set.c and Map.c keep them.
use dcrud.Base.{
  ℕ, zero, suc, ◌+◌, ◌≡◌, ◌≢◌, refl, sym, ◌∙◌, subst, Bool, true, false, ◌&&◌, ◌||◌, not, none,
  some, List, [], ◌∷◌, ◌++◌, All, length, length-append, get_elem?, arith,
}
use dcrud.Coll.Compare.{Ordering, is_eq, IsComparator}
use dcrud.Coll.Array.{
  All-imp, All-of_any-false, All-get_elem?, Pairs-append_one, any, any-append, any-Perm,
  any-get_elem?, any-false_of_All, length-Perm, Pairs-Perm, Pairs-erase_at, erase_at,
}
use dcrud.Coll.Libc.{Libc, Sorted, Distinct}

module _ {ℓ} {A : Type ℓ} (cmp : A → A → Ordering) where
  -- Some item is equal to the key.
  abbrev pub holds : A → List A → Bool
  holds key = any (λ x. is_eq (cmp key x))

  is_eq-false : (o : Ordering) → o ≢ Ordering.eq → is_eq o ≡ false
  is_eq-false o h = ground arith

  pub record Ordered (xs : List A) : Type ℓ where
    pub sorted : Sorted cmp xs
    pub distinct : Distinct cmp xs

module _ {ℓ} {A : Type ℓ} {cmp : A → A → Ordering} (order : IsComparator cmp) where
  holds-false_of_ne :
      (key : A) (xs : List A) → All (λ x. cmp key x ≢ Ordering.eq) xs → holds cmp key xs ≡ false
  holds-false_of_ne key xs h =
      any-false_of_All (λ x. is_eq (cmp key x)) xs
        (All-imp (λ x. cmp key x ≢ Ordering.eq) (λ x. is_eq (cmp key x) ≡ false) xs
          (λ x. is_eq-false cmp (cmp key x)) h)

  -- A new item is equal to none, on either side.
  ne_of_holds-false :
      (key : A) (xs : List A) → holds cmp key xs ≡ false → All (λ x. cmp x key ≢ Ordering.eq) xs
  ne_of_holds-false key xs h =
      All-imp (λ x. is_eq (cmp key x) ≡ false) (λ x. cmp x key ≢ Ordering.eq) xs
        (λ x k e. let e' = order.eq_sym x key e in ground arith)
        (All-of_any-false (λ x. is_eq (cmp key x)) xs h)

  -- Keys that are equal find the same items.
  pub is_eq-congr : (a b x : A) → cmp a b ≡ Ordering.eq → is_eq (cmp a x) ≡ is_eq (cmp b x)
  is_eq-congr a b x e =
      ground (arith, order.eq_sym a b e, order.eq_trans b a x, order.eq_trans a b x)

  pub is_eq-congr_right : (k a b : A) → cmp a b ≡ Ordering.eq → is_eq (cmp k a) ≡ is_eq (cmp k b)
  is_eq-congr_right k a b e =
      ground (arith, order.eq_sym a b e, order.eq_trans k a b, order.eq_trans k b a)

  pub holds-congr :
      (a b : A) (xs : List A) → cmp a b ≡ Ordering.eq → holds cmp a xs ≡ holds cmp b xs
  holds-congr a b [] e = refl
  holds-congr a b (x ∷ xs) e = ground (arith, is_eq-congr a b x e, holds-congr a b xs e)

  -- Removing an item from items that are distinct removes just what is equal to it.
  pub holds-erase_at :
      (key : A) (xs : List A) (i : ℕ) {x : A}
      → Distinct cmp xs
      → get_elem? xs i ≡ some x
      → holds cmp key (erase_at i xs) ≡ (holds cmp key xs && not (is_eq (cmp key x)))
  holds-erase_at key [] i d e = let bad : ⊥ = ground arith in absurd bad
  holds-erase_at key (y ∷ xs) zero {x} d e =
      let same : y ≡ x = cc in
      subst
        (λ z.
          holds cmp key xs ≡ ((is_eq (cmp key y) || holds cmp key xs) && not (is_eq (cmp key z))))
        same (ground (arith, holds-false_of_ne y xs d.0, holds-congr key y xs))
  holds-erase_at key (y ∷ xs) (suc i) {x} d e =
      let apart = All-get_elem? (λ z. cmp y z ≢ Ordering.eq) xs i d.0 e in
      ground (arith, holds-erase_at key xs i d.1 e, order.eq_sym key y, order.eq_trans y key x)

  pub append-Distinct :
      (x : A) (xs : List A)
      → Distinct cmp xs
      → holds cmp x xs ≡ false
      → Distinct cmp (xs ++ (x ∷ []))
  append-Distinct x xs d h =
      Pairs-append_one (λ a b. cmp a b ≢ Ordering.eq) xs x d (ne_of_holds-false x xs h)

  module _ (c : Libc cmp) where
    pub bsearch-holds :
        (key : A) (xs : List A) (i : ℕ)
        → Sorted cmp xs
        → c.bsearch key xs ≡ some i
        → holds cmp key xs ≡ true
    bsearch-holds key xs i s e =
        let (x, at, same) = c.bsearch_hit order key xs i s e in
        any-get_elem? (λ y. is_eq (cmp key y)) xs i at (rw same)

    pub bsearch-none :
        (key : A) (xs : List A) → Sorted cmp xs → c.bsearch key xs ≡ none → holds cmp key xs ≡ false
    bsearch-none key xs s e = holds-false_of_ne key xs (c.bsearch_miss order key xs s e)

    -- Appending a new item and sorting.
    pub qsort-append-Ordered :
        (x : A) (xs : List A)
        → Ordered cmp xs
        → holds cmp x xs ≡ false
        → Ordered cmp (c.qsort (xs ++ (x ∷ [])))
    qsort-append-Ordered x xs o h = record {
      sorted = c.qsort_sorted order (xs ++ (x ∷ []));
      distinct =
          Pairs-Perm (λ a b. cmp a b ≢ Ordering.eq) (λ a b n e. n (order.eq_sym b a e))
            (c.qsort_perm order (xs ++ (x ∷ []))) (append-Distinct x xs o.distinct h);
    }

    pub holds-qsort-append :
        (key x : A) (xs : List A)
        → holds cmp key (c.qsort (xs ++ (x ∷ []))) ≡ (holds cmp key xs || is_eq (cmp key x))
    holds-qsort-append key x xs =
        sym (any-Perm (λ y. is_eq (cmp key y)) (c.qsort_perm order (xs ++ (x ∷ []))))
        ∙ any-append (λ y. is_eq (cmp key y)) xs (x ∷ [])
        ∙ ground arith

    pub length-qsort-append :
        (x : A) (xs : List A) → length (c.qsort (xs ++ (x ∷ []))) ≡ length xs + 1
    length-qsort-append x xs =
        omega (arith, length-Perm (c.qsort_perm order (xs ++ (x ∷ []))), length-append xs (x ∷ []))

  pub erase_at-Ordered : (xs : List A) (i : ℕ) → Ordered cmp xs → Ordered cmp (erase_at i xs)
  erase_at-Ordered xs i o = record {
    sorted = Pairs-erase_at (λ a b. cmp a b ≢ Ordering.gt) xs i o.sorted;
    distinct = Pairs-erase_at (λ a b. cmp a b ≢ Ordering.eq) xs i o.distinct;
  }
