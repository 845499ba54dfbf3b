-- ===== src/Coll/Compare/Strings.antt =====
-- `collStringCompare` (C/src/coll/Comparator.c) as an order of strings.
use dcrud.Base.{ℕ, ◌≡◌, refl, sym, subst, List, [], ◌∷◌, arith}
use dcrud.Coll.Compare.{Ordering, IsComparator, string_compare}

string_compare_self : (s : List ℕ) → string_compare s s ≡ Ordering.eq
unfolding string_compare
string_compare_self [] = refl
string_compare_self (x ∷ s) = ground (arith, string_compare_self s)

-- Equal are just the same strings.
string_compare-same : (s t : List ℕ) → string_compare s t ≡ Ordering.eq → s ≡ t
unfolding string_compare
string_compare-same [] [] e = refl
string_compare-same [] (y ∷ t) e = let bad : ⊥ = ground arith in absurd bad
string_compare-same (x ∷ s) [] e = let bad : ⊥ = ground arith in absurd bad
string_compare-same (x ∷ s) (y ∷ t) e = ground (arith, string_compare-same s t)

string_compare-flip :
    (s t : List ℕ) → string_compare s t ≡ Ordering.lt → string_compare t s ≡ Ordering.gt
unfolding string_compare
string_compare-flip [] [] e = let bad : ⊥ = ground arith in absurd bad
string_compare-flip [] (y ∷ t) e = refl
string_compare-flip (x ∷ s) [] e = let bad : ⊥ = ground arith in absurd bad
string_compare-flip (x ∷ s) (y ∷ t) e = ground (arith, string_compare-flip s t)

string_compare_back :
    (s t : List ℕ) → string_compare s t ≡ Ordering.gt → string_compare t s ≡ Ordering.lt
unfolding string_compare
string_compare_back [] [] e = let bad : ⊥ = ground arith in absurd bad
string_compare_back [] (y ∷ t) e = let bad : ⊥ = ground arith in absurd bad
string_compare_back (x ∷ s) [] e = refl
string_compare_back (x ∷ s) (y ∷ t) e = ground (arith, string_compare_back s t)

string_compare_trans :
    (s t u : List ℕ)
    → string_compare s t ≡ Ordering.lt
    → string_compare t u ≡ Ordering.lt
    → string_compare s u ≡ Ordering.lt
unfolding string_compare
string_compare_trans [] [] u e f = let bad : ⊥ = ground arith in absurd bad
string_compare_trans (x ∷ s) [] u e f = let bad : ⊥ = ground arith in absurd bad
string_compare_trans [] (y ∷ t) [] e f = let bad : ⊥ = ground arith in absurd bad
string_compare_trans (x ∷ s) (y ∷ t) [] e f = let bad : ⊥ = ground arith in absurd bad
string_compare_trans [] (y ∷ t) (z ∷ u) e f = refl
string_compare_trans (x ∷ s) (y ∷ t) (z ∷ u) e f = ground (arith, string_compare_trans s t u)

-- `collStringCompare` is a comparator as `bsearch`, `qsort` and the collections ask for, and takes
-- two strings for equal only if they have the same bytes.
pub string_compare-IsComparator :
    IsComparator string_compare × ((s t : List ℕ) → string_compare s t ≡ Ordering.eq → s ≡ t)
string_compare-IsComparator = (
  record {
    self_eq = string_compare_self;
    eq_sym = λ s t e.
        subst (λ u. string_compare u s ≡ Ordering.eq) (string_compare-same s t e)
          (string_compare_self s);
    eq_trans = λ s t u e f.
        subst (λ v. string_compare v u ≡ Ordering.eq) (sym (string_compare-same s t e)) f;
    lt_flip = string_compare-flip;
    lt_trans = string_compare_trans;
    gt_flip = string_compare_back;
    eq_lt = λ s t u e f.
        subst (λ v. string_compare v u ≡ Ordering.lt) (sym (string_compare-same s t e)) f;
    lt_eq =
        λ s t u e f. subst (λ v. string_compare s v ≡ Ordering.lt) (string_compare-same t u f) e;
  },
  string_compare-same,
)
