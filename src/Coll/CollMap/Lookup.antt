-- ===== src/Coll/CollMap/Lookup.antt =====
-- The map that an array of pairs with distinct keys stands for, and what the writes of
-- C/src/coll/Map.c do to it.
use mathlib.Core.List.{Permᴰ}
use dcrud.Base.{
  ℕ, zero, suc, ◌≡◌, ◌≢◌, refl, ap, ◌∙◌, subst, false, Option, none, some, List, [], ◌∷◌, ◌++◌, All,
  length, get_elem?, if◌then◌else◌, arith,
}
use dcrud.Coll.Compare.{Ordering, is_eq, IsComparator}
use dcrud.Coll.Array.{erase_at, Pairs, Pairs-Perm, All-get_elem?}
use dcrud.Coll.Libc.{Distinct}
use dcrud.Coll.SortedArray.{holds, Ordered, is_eq-congr}
use dcrud.Coll.CollMap.{Pair, pair_compare, set_value, value_at}

module _ {K V : Type 0} (cmp : K → K → Ordering) where
  -- The value of a key, if the map has it; the value itself may be NULL.
  abbrev pub lookup : K → List (Pair K V) → Option (Option V)
  lookup key [] = none
  lookup key ((k, v) ∷ ps) = if is_eq (cmp key k) then some v else lookup key ps

module _ {K V : Type 0} where
  pub length-set_value :
      (ps : List (Pair K V)) (i : ℕ) (v : Option V) → length (set_value ps i v) ≡ length ps
  length-set_value [] i v = refl
  length-set_value ((k, w) ∷ ps) zero v = refl
  length-set_value (p ∷ ps) (suc i) v = ap (λ n. suc n) (length-set_value ps i v)

  All-set_value {κ} :
      (P : K → Type κ) (ps : List (Pair K V)) (i : ℕ) (v : Option V)
      → All (λ p. P p.0) ps
      → All (λ p. P p.0) (set_value ps i v)
  All-set_value P [] i v h = h
  All-set_value P ((k, w) ∷ ps) zero v h = h
  All-set_value P (p ∷ ps) (suc i) v h = (h.0, All-set_value P ps i v h.1)

  -- Relations between keys do not see the values.
  Pairs-set_value {κ} :
      (R : K → K → Type κ) (ps : List (Pair K V)) (i : ℕ) (v : Option V)
      → Pairs (λ p q. R p.0 q.0) ps
      → Pairs (λ p q. R p.0 q.0) (set_value ps i v)
  Pairs-set_value R [] i v h = h
  Pairs-set_value R ((k, w) ∷ ps) zero v h = h
  Pairs-set_value R ((k, w) ∷ ps) (suc i) v h =
      (All-set_value (R k) ps i v h.0, Pairs-set_value R ps i v h.1)

  pub set_value-Ordered :
      (cmp : K → K → Ordering) (ps : List (Pair K V)) (i : ℕ) (v : Option V)
      → Ordered (pair_compare cmp) ps
      → Ordered (pair_compare cmp) (set_value ps i v)
  set_value-Ordered cmp ps i v o = record {
    sorted = Pairs-set_value (λ a b. cmp a b ≢ Ordering.gt) ps i v o.sorted;
    distinct = Pairs-set_value (λ a b. cmp a b ≢ Ordering.eq) ps i v o.distinct;
  }

  pub value_at_lem :
      (ps : List (Pair K V)) (i : ℕ) {p : Pair K V} → get_elem? ps i ≡ some p → value_at ps i ≡ p.1
  value_at_lem [] i e = let bad : ⊥ = ground arith in absurd bad
  value_at_lem (q ∷ ps) zero {p} e = let same : q ≡ p = cc in ap (λ x. x.1) same
  value_at_lem (q ∷ ps) (suc i) e = value_at_lem ps i e

module _ {K V : Type 0} {cmp : K → K → Ordering} (order : IsComparator cmp) where
  pub pair_compare-IsComparator : IsComparator (pair_compare {V = V} cmp)
  pair_compare-IsComparator = record {
    self_eq = λ p. order.self_eq p.0;
    eq_sym = λ p q. order.eq_sym p.0 q.0;
    eq_trans = λ p q r. order.eq_trans p.0 q.0 r.0;
    lt_flip = λ p q. order.lt_flip p.0 q.0;
    lt_trans = λ p q r. order.lt_trans p.0 q.0 r.0;
    gt_flip = λ p q. order.gt_flip p.0 q.0;
    eq_lt = λ p q r. order.eq_lt p.0 q.0 r.0;
    lt_eq = λ p q r. order.lt_eq p.0 q.0 r.0;
  }

  pub lookup-absent :
      (key : K) (ps : List (Pair K V))
      → holds (pair_compare cmp) (key, none) ps ≡ false
      → lookup cmp key ps ≡ none
  lookup-absent key [] h = refl
  lookup-absent key ((k, v) ∷ ps) h = ground (arith, lookup-absent key ps)

  -- Two keys that are equal are not both in an array with distinct keys.
  lookup-none_of_All :
      (key k : K) (ps : List (Pair K V))
      → All (λ p. cmp k p.0 ≢ Ordering.eq) ps
      → cmp key k ≡ Ordering.eq
      → lookup cmp key ps ≡ none
  lookup-none_of_All key k [] h e = refl
  lookup-none_of_All key k ((k', v) ∷ ps) h e =
      ground (arith, is_eq-congr order key k k' e, h.0, lookup-none_of_All key k ps h.1 e)

  pub lookup-get_elem? :
      (key : K) (ps : List (Pair K V)) (i : ℕ) {p : Pair K V}
      → Distinct (pair_compare cmp) ps
      → get_elem? ps i ≡ some p
      → cmp key p.0 ≡ Ordering.eq
      → lookup cmp key ps ≡ some p.1
  lookup-get_elem? key [] i d e h = let bad : ⊥ = ground arith in absurd bad
  lookup-get_elem? key ((k, v) ∷ ps) zero {p} d e h =
      subst (λ x. cmp key x.0 ≡ Ordering.eq → lookup cmp key ((k, v) ∷ ps) ≡ some x.1)
        (let same : (k, v) ≡ p = cc in same) (λ g. ground arith) h
  lookup-get_elem? key ((k, v) ∷ ps) (suc i) {p} d e h =
      let apart = All-get_elem? (λ z. cmp k z.0 ≢ Ordering.eq) ps i d.0 e in
      ground
        (arith, lookup-get_elem? key ps i d.1 e h, order.eq_sym key k, order.eq_trans k key p.0)

  pub lookup-set_value :
      (key : K) (ps : List (Pair K V)) (i : ℕ) (v : Option V) {p : Pair K V}
      → Distinct (pair_compare cmp) ps
      → get_elem? ps i ≡ some p
      → lookup cmp key (set_value ps i v)
        ≡ (if is_eq (cmp key p.0) then some v else lookup cmp key ps)
  lookup-set_value key [] i v d e = let bad : ⊥ = ground arith in absurd bad
  lookup-set_value key ((k, w) ∷ ps) zero v {p} d e =
      subst
        (λ x.
          lookup cmp key ((k, v) ∷ ps)
          ≡ (if is_eq (cmp key x.0) then some v else lookup cmp key ((k, w) ∷ ps)))
        (let same : (k, w) ≡ p = cc in same) (ground arith)
  lookup-set_value key ((k, w) ∷ ps) (suc i) v {p} d e =
      let apart = All-get_elem? (λ z. cmp k z.0 ≢ Ordering.eq) ps i d.0 e in
      ground
        (arith, lookup-set_value key ps i v d.1 e, order.eq_sym key k, order.eq_trans k key p.0)

  pub lookup-erase_at :
      (key : K) (ps : List (Pair K V)) (i : ℕ) {p : Pair K V}
      → Distinct (pair_compare cmp) ps
      → get_elem? ps i ≡ some p
      → lookup cmp key (erase_at i ps) ≡ (if is_eq (cmp key p.0) then none else lookup cmp key ps)
  lookup-erase_at key [] i d e = let bad : ⊥ = ground arith in absurd bad
  lookup-erase_at key ((k, w) ∷ ps) zero {p} d e =
      subst
        (λ x.
          lookup cmp key ps ≡ (if is_eq (cmp key x.0) then none else lookup cmp key ((k, w) ∷ ps)))
        (let same : (k, w) ≡ p = cc in same) (ground (arith, lookup-none_of_All key k ps d.0))
  lookup-erase_at key ((k, w) ∷ ps) (suc i) {p} d e =
      let apart = All-get_elem? (λ z. cmp k z.0 ≢ Ordering.eq) ps i d.0 e in
      ground (arith, lookup-erase_at key ps i d.1 e, order.eq_sym key k, order.eq_trans k key p.0)

  pub lookup-append :
      (key k : K) (v : Option V) (ps : List (Pair K V))
      → holds (pair_compare cmp) (k, none) ps ≡ false
      → lookup cmp key (ps ++ ((k, v) ∷ []))
        ≡ (if is_eq (cmp key k) then some v else lookup cmp key ps)
  lookup-append key k v [] h = refl
  lookup-append key k v ((k', w) ∷ ps) h =
      ground (arith, lookup-append key k v ps, order.eq_sym key k, order.eq_trans k key k')

  -- With distinct keys the order of the pairs does not matter.
  pub lookup-Perm :
      (key : K) {ps qs : List (Pair K V)}
      → Permᴰ ps qs
      → Distinct (pair_compare cmp) ps
      → lookup cmp key ps ≡ lookup cmp key qs
  lookup-Perm key Permᴰ.nil d = refl
  lookup-Perm key (Permᴰ.cons {a} {b} {l₁} {l₂} e q) d =
      ground (arith, lookup-Perm key q d.1, ap (λ p. p.0) e, ap (λ p. p.1) e)
  lookup-Perm key (Permᴰ.swap {a} {b} {a'} {b'} {l} e f) d = ground (
    arith,
    ap (λ p. p.0) e,
    ap (λ p. p.1) e,
    ap (λ p. p.0) f,
    ap (λ p. p.1) f,
    d.0.0,
    order.eq_sym key a.0,
    order.eq_trans a.0 key b.0,
  )
  lookup-Perm key (Permᴰ.trans q r) d =
      lookup-Perm key q d
      ∙ lookup-Perm key r (
          Pairs-Perm (λ a b. cmp a.0 b.0 ≢ Ordering.eq) (λ a b n e. n (order.eq_sym b.0 a.0 e)) q d)
