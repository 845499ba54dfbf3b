-- ===== src/Crud/Arguments/Finding.antt =====
-- Which arguments of a call are found under a name on the other host (C/src/dcrud/Arguments.c).
use dcrud.Base.{
  ◌≡◌, refl, sym, ◌∙◌, subst, true, false, Bool-cases, inl, inr, All, Option, none, some, List, [],
  ◌∷◌, arith,
}
use dcrud.Coll.Compare.{string_compare, is_eq}
use dcrud.Coll.Compare.Strings.{string_compare-IsComparator}
use dcrud.Crud.Arguments.{Name}
use dcrud.Crud.Arguments.Items.{Item, Arrives, AllArrive, onto, find, DistinctNames}

abbrev or_else : Option Item → Option Item → Option Item
or_else none later = later
or_else (some item) later = some item

same_name : (k key : Name) → is_eq (string_compare k key) ≡ true → k ≡ key
same_name k key e = string_compare-IsComparator.1 k key (ground arith)

find-absent :
    (k : Name) (items : List (Name × Item))
    → All (λ p. is_eq (string_compare k p.0) ≡ false) items
    → find k items ≡ none
find-absent k [] h = refl
find-absent k ((key, item) ∷ items) h = rw (h.0) (find-absent k items h.1)

-- With distinct names the order of the puts does not matter.
find-onto :
    (k : Name) (items acc : List (Name × Item))
    → DistinctNames items
    → find k (onto items acc) ≡ or_else (find k items) (find k acc)
find-onto k [] acc d = refl
find-onto k ((key, item) ∷ items) acc d =
    find-onto k items ((key, item) ∷ acc) d.1 ∙ elim (Bool-cases (is_eq (string_compare k key))) [
      | inl t ↦
          let gone = find-absent k items (
            subst (λ n. All (λ p. is_eq (string_compare n p.0) ≡ false) items)
              (sym (same_name k key t)) d.0) in
          rw (gone, t) refl
      | inr f ↦ rw f refl
    ]

AllArrive-onto :
    (items arriveds acc acc' : List (Name × Item))
    → AllArrive items arriveds
    → AllArrive acc acc'
    → AllArrive (onto items acc) (onto arriveds acc')
AllArrive-onto [] [] acc acc' h k = k
AllArrive-onto [] (p ∷ ps) acc acc' h k = absurd h
AllArrive-onto (p ∷ ps) [] acc acc' h k = absurd h
AllArrive-onto ((key, item) ∷ items) ((key', arrived) ∷ arriveds) acc acc' h k =
    AllArrive-onto items arriveds ((key, item) ∷ acc) ((key', arrived) ∷ acc') h.2 (h.0, h.1, k)

-- What was sent under a name, and what arrives under it.
pub data Found : Option Item → Option Item → Type 0 where
  nothing : Found none none
  something : (sent arrived : Item) → Arrives sent arrived → Found (some sent) (some arrived)

find-Found :
    (k : Name) (items arriveds : List (Name × Item))
    → AllArrive items arriveds
    → Found (find k items) (find k arriveds)
find-Found k [] [] h = Found.nothing
find-Found k [] (p ∷ ps) h = absurd h
find-Found k (p ∷ ps) [] h = absurd h
find-Found k ((key, item) ∷ items) ((key', arrived) ∷ arriveds) h =
    subst (λ n. Found (find k ((key, item) ∷ items)) (find k ((n, arrived) ∷ arriveds))) (sym h.0)
      (elim (Bool-cases (is_eq (string_compare k key))) [
        | inl t ↦ rw t (Found.something item arrived h.1)
        | inr f ↦ rw f (find-Found k items arriveds h.2)
      ])

or_else-none : (found : Option Item) → or_else found none ≡ found
or_else-none none = refl
or_else-none (some item) = refl

pub onto-Found :
    (k : Name) (items arriveds : List (Name × Item))
    → AllArrive items arriveds
    → DistinctNames items
    → Found (find k items) (find k (onto arriveds []))
onto-Found k items arriveds h d =
    subst (λ f. Found f (find k (onto arriveds [])))
      (find-onto k items [] d ∙ or_else-none (find k items))
      (find-Found k (onto items []) (onto arriveds []) (AllArrive-onto items arriveds [] [] h tt))
