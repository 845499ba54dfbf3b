-- ===== src/Crud/ClassId/Registry.antt =====
-- What `dcrudClassID_resolve` of C/src/dcrud/ClassID.c does to `allClasses`.
use dcrud.Base.{
  ◌<◌, ◌≤◌, ℕ, ◌+◌, ◌≡◌, refl, sym, ap, ◌∙◌, subst, true, false, ◌||◌, Option, none, some, List, [],
  ◌∷◌, ◌++◌, length, get_elem?, All, All-append, arith,
}
use dcrud.Util.Status.{Status, no_error, too_many}
use dcrud.Coll.Compare.{Ordering, is_eq}
use dcrud.Coll.Array.{All-Perm, All-imp, All-get_elem?, All-of_any-false}
use dcrud.Coll.Libc.{Libc}
use dcrud.Coll.SortedArray.{
  holds, Ordered, bsearch-none, qsort-append-Ordered, holds-qsort-append, length-qsort-append,
}
use dcrud.Crud.ClassId
use dcrud.Crud.ClassId.{Instance, compare_instances, class_slots}
use dcrud.Crud.ClassId.Order.{Same, compare_instances-IsComparator, Same-of_compare_instances}

-- The class with these four bytes.
abbrev pub key_of : ℕ → ℕ → ℕ → ℕ → Instance
key_of p1 p2 p3 k = record {
  address = 0;
  package_1 = p1;
  package_2 = p2;
  package_3 = p3;
  clazz = k;
}

-- What `dcrudClassID_resolve` may answer for a class.
pub data ResolveOutcome (allocated : Option ℕ) (all_classes : List Instance) (key : Instance)
    : Status × Option Instance × List Instance → Type 0 where
  cached :
      (i : ℕ) (x : Instance)
      → get_elem? all_classes i ≡ some x
      → Same key x
      → ResolveOutcome allocated all_classes key (no_error, some x, all_classes)
  made :
      (address : ℕ) (all_classes' : List Instance)
      → allocated ≡ some address
      → holds compare_instances key all_classes ≡ false
      → Ordered compare_instances all_classes'
      → ((y : Instance)
          → holds compare_instances y all_classes'
            ≡ (holds compare_instances y all_classes || is_eq (compare_instances y key)))
      → length all_classes' ≡ length all_classes + 1
      → ResolveOutcome allocated all_classes key
          (no_error, some (record key { address = address }), all_classes')
  no_memory :
      allocated ≡ none
      → holds compare_instances key all_classes ≡ false
      → ResolveOutcome allocated all_classes key (too_many, none, all_classes)

module _ (c : Libc compare_instances) (allocated : Option ℕ) (all_classes : List Instance)
    (o : Ordered compare_instances all_classes) where
  searched-ResolveOutcome :
      (key : Instance) (found : Option ℕ)
      → c.bsearch key all_classes ≡ found
      → (a : Option ℕ) → allocated ≡ a
      → ResolveOutcome allocated all_classes key
          (ClassId.resolve_searched c a all_classes key found)
  unfolding ClassId.resolve_searched ClassId.compare_to
  searched-ResolveOutcome key (some i) e a ea =
      let (x, at, same) =
        c.bsearch_hit compare_instances-IsComparator key all_classes i o.sorted e in
      subst (λ r. ResolveOutcome allocated all_classes key (no_error, r, all_classes)) (sym at)
        (ResolveOutcome.cached i x at (Same-of_compare_instances key x same))
  searched-ResolveOutcome key none e none ea =
      ResolveOutcome.no_memory ea
        (bsearch-none compare_instances-IsComparator c key all_classes o.sorted e)
  searched-ResolveOutcome key none e (some address) ea =
      let h = bsearch-none compare_instances-IsComparator c key all_classes o.sorted e in
      let this : Instance = record key { address = address } in
      ResolveOutcome.made address _ ea h
        (qsort-append-Ordered compare_instances-IsComparator c this all_classes o h)
        (λ y. holds-qsort-append compare_instances-IsComparator c y this all_classes)
        (length-qsort-append compare_instances-IsComparator c this all_classes)

  pub resolved_outcome :
      (p1 p2 p3 k : ℕ)
      → ResolveOutcome allocated all_classes
          (key_of p1 p2 p3 k)
          (ClassId.resolve c allocated all_classes true p1 p2 p3 k)
  unfolding ClassId.resolve
  resolved_outcome p1 p2 p3 k =
      searched-ResolveOutcome (key_of p1 p2 p3 k) (c.bsearch (key_of p1 p2 p3 k) all_classes) refl
        allocated refl

  -- At most one class more.
  outcome_length :
      {key : Instance} {r : Status × Option Instance × List Instance}
      → ResolveOutcome allocated all_classes key r
      → length r.2 ≤ length all_classes + 1
  outcome_length (ResolveOutcome.cached i x at same) = omega arith
  outcome_length (ResolveOutcome.made address known a h ordered other l) = omega (arith, l)
  outcome_length (ResolveOutcome.no_memory a h) = omega arith

  pub resolve_room :
      (p1 p2 p3 k : ℕ)
      → length all_classes < class_slots
      → length (ClassId.resolve c allocated all_classes true p1 p2 p3 k).2 ≤ class_slots
  resolve_room p1 p2 p3 k room = omega (arith, outcome_length (resolved_outcome p1 p2 p3 k), room)

  -- `dcrudClassID_resolve` in an `allClasses` that is sorted, has no class twice and is not full: it
  -- answers the object of the class, if there is one, and changes nothing; or it makes one, and adds
  -- it and nothing else; or there is no memory for it. The array has room for the classes then.
  pub resolve-ResolveOutcome :
      length all_classes < class_slots
      → (p1 p2 p3 k : ℕ)
      → ResolveOutcome allocated all_classes
          (key_of p1 p2 p3 k)
          (ClassId.resolve c allocated all_classes true p1 p2 p3 k)
        × (length (ClassId.resolve c allocated all_classes true p1 p2 p3 k).2 ≤ class_slots)
  resolve-ResolveOutcome room p1 p2 p3 k =
      (resolved_outcome p1 p2 p3 k, resolve_room p1 p2 p3 k room)

-- Only one object is of the class.
only_object :
    (key this : Instance) (xs : List Instance)
    → holds compare_instances key xs ≡ false
    → All (λ y. compare_instances key y ≡ Ordering.eq → y ≡ this) (xs ++ (this ∷ []))
only_object key this xs h =
    All-append _ xs (this ∷ [])
      (All-imp (λ y. is_eq (compare_instances key y) ≡ false) _ xs
        (λ y n e. (let bad : ⊥ = ground arith in absurd bad))
        (All-of_any-false (λ y. is_eq (compare_instances key y)) xs h))
      ((λ e. refl), tt)

module _ (c : Libc compare_instances) where
  resolve_searched-only :
      (key this : Instance) (xs : List Instance)
      → Ordered compare_instances xs
      → All (λ y. compare_instances key y ≡ Ordering.eq → y ≡ this) xs
      → holds compare_instances key xs ≡ true
      → (found : Option ℕ) → c.bsearch key xs ≡ found
      → (allocated : Option ℕ)
      → ClassId.resolve_searched c allocated xs key found ≡ (no_error, some this, xs)
  unfolding ClassId.resolve_searched
  resolve_searched-only key this xs o only h (some i) e allocated =
      let (y, at, same) = c.bsearch_hit compare_instances-IsComparator key xs i o.sorted e in
      let one : y ≡ this =
        All-get_elem? (λ y. compare_instances key y ≡ Ordering.eq → y ≡ this) xs i only at same in
      ap (λ r. (no_error, r, xs)) (at ∙ ap some one)
  resolve_searched-only key this xs o only h none e allocated =
      let gone = bsearch-none compare_instances-IsComparator c key xs o.sorted e in
      let bad : ⊥ = ground (arith, gone, h) in absurd bad

  module _ (all_classes : List Instance) (o : Ordered compare_instances all_classes) where
    searched-again :
        (key : Instance) (found : Option ℕ)
        → c.bsearch key all_classes ≡ found
        → (allocated allocated' : Option ℕ)
        → (ClassId.resolve_searched c allocated all_classes key found).0 ≡ no_error
        → let (_, _, known) = ClassId.resolve_searched c allocated all_classes key found in
          ClassId.resolve_searched c allocated' known key (c.bsearch key known)
          ≡ ClassId.resolve_searched c allocated all_classes key found
    unfolding ClassId.resolve_searched ClassId.compare_to
    searched-again key (some i) e allocated allocated' ok = rw e refl
    searched-again key none e none allocated' ok = let bad : ⊥ = ground arith in absurd bad
    searched-again key none e (some address) allocated' ok =
        let h = bsearch-none compare_instances-IsComparator c key all_classes o.sorted e in
        let this : Instance = record key { address = address } in
        let known = c.qsort (all_classes ++ (this ∷ [])) in
        resolve_searched-only key this known
          (qsort-append-Ordered compare_instances-IsComparator c this all_classes o h)
          (All-Perm _ (c.qsort_perm compare_instances-IsComparator (all_classes ++ (this ∷ [])))
            (only_object key this all_classes h))
          (holds-qsort-append compare_instances-IsComparator c key this all_classes
            ∙ ground (arith, compare_instances-IsComparator.self_eq key))
          (c.bsearch key known) refl allocated'

    -- A class has one object: once `dcrudClassID_resolve` has answered one for four bytes, it
    -- answers the same one for them again, and makes none, whether there is memory or not. `allClasses` is sorted, has no
    -- class twice and is not full before, and has room for the classes after.
    pub resolve-resolve :
        (allocated allocated' : Option ℕ) (p1 p2 p3 k : ℕ)
        → length all_classes < class_slots
        → (ClassId.resolve c allocated all_classes true p1 p2 p3 k).0 ≡ no_error
        → let (_, _, known) = ClassId.resolve c allocated all_classes true p1 p2 p3 k in
          (ClassId.resolve c allocated' known true p1 p2 p3 k
            ≡ ClassId.resolve c allocated all_classes true p1 p2 p3 k)
          × (length known ≤ class_slots)
    unfolding ClassId.resolve
    resolve-resolve allocated allocated' p1 p2 p3 k room ok = (
      searched-again (key_of p1 p2 p3 k) (c.bsearch (key_of p1 p2 p3 k) all_classes) refl allocated
          allocated' ok,
      resolve_room c allocated all_classes o p1 p2 p3 k room,
    )
