-- ===== src/Coll/Compare.antt =====
-- `collComparator` (C/src/coll/Comparator.c). A comparator answers an `int`, of which the library
-- and `bsearch` and `qsort` read the sign: an `Ordering`.
pub mod Strings
pub mod Keys
use Prim.Native.Nat.{Ordering, compare}
use dcrud.Base.{
  ℕ, ◌+◌, ◌-◌, ◌%◌, ◌/◌, ◌^◌, ◌<◌, ◌==◌, ltb, if◌then◌else◌, Bool, true, false, ◌≡◌, arith, List,
  [], ◌∷◌,
}
pub use Prim.Native.Nat.{Ordering}

-- The sign of an `int`, given by its bit pattern.
abbrev pub sign : ℕ → Ordering
sign word =
    if word == 0 then Ordering.eq else if ltb word (2 ^ 31) then Ordering.gt else Ordering.lt

-- `collPointerCompare` on a 64-bit host: the difference of the addresses, cut to an `int`.
unfoldable pub pointer_compare : ℕ → ℕ → Ordering
pointer_compare left right = sign ((left + 2 ^ 64 - right) % 2 ^ 64 % 2 ^ 32)

-- The comparators of `NUMBER_CMP`, `collByteCompare` to `collDoubleCompare`, for items of `size`
-- bytes: they are handed pointers to pointers, and subtract the pointers, not the numbers. The
-- distance of two objects of one array is a multiple of `size`.
unfoldable pub number_compare : ℕ → ℕ → ℕ → Ordering
number_compare size left right =
    if ltb left right
    then sign ((2 ^ 32 - (right - left) / size % 2 ^ 32) % 2 ^ 32)
    else sign ((left - right) / size % 2 ^ 32)

-- `strcmp` by the first byte that differs; a string is the list of its bytes, with no NUL.
unfoldable pub string_compare : List ℕ → List ℕ → Ordering
string_compare [] [] = Ordering.eq
string_compare [] (y ∷ ys) = Ordering.lt
string_compare (x ∷ xs) [] = Ordering.gt
string_compare (x ∷ xs) (y ∷ ys) =
    let rest = string_compare xs ys in
    if x == y then rest else if ltb x y then Ordering.lt else Ordering.gt

-- `if( diff ) return diff;`
abbrev pub or_else : Ordering → Ordering → Ordering
or_else Ordering.eq next = next
or_else diff next = diff

abbrev pub is_eq : Ordering → Bool
is_eq Ordering.eq = true
is_eq _ = false

-- What `bsearch`, `qsort` and the library ask of a comparator.
pub record IsComparator {ℓ} {A : Type ℓ} (cmp : A → A → Ordering) : Type ℓ where
  pub self_eq : (a : A) → cmp a a ≡ Ordering.eq
  pub eq_sym : (a b : A) → cmp a b ≡ Ordering.eq → cmp b a ≡ Ordering.eq
  pub eq_trans : (a b c : A) → cmp a b ≡ Ordering.eq → cmp b c ≡ Ordering.eq → cmp a c ≡ Ordering.eq
  pub lt_flip : (a b : A) → cmp a b ≡ Ordering.lt → cmp b a ≡ Ordering.gt
  pub lt_trans : (a b c : A) → cmp a b ≡ Ordering.lt → cmp b c ≡ Ordering.lt → cmp a c ≡ Ordering.lt
  pub gt_flip : (a b : A) → cmp a b ≡ Ordering.gt → cmp b a ≡ Ordering.lt
  pub eq_lt : (a b c : A) → cmp a b ≡ Ordering.eq → cmp b c ≡ Ordering.lt → cmp a c ≡ Ordering.lt
  pub lt_eq : (a b c : A) → cmp a b ≡ Ordering.lt → cmp b c ≡ Ordering.eq → cmp a c ≡ Ordering.lt

-- The pointer comparator is right about addresses that lie less than 2 ^ 31 apart.
pub pointer_compare-eq-compare :
    (p q : ℕ)
    → p < 2 ^ 64
    → q < 2 ^ 64
    → p < q + 2 ^ 31
    → q < p + 2 ^ 31
    → pointer_compare p q ≡ compare p q
unfolding pointer_compare
pointer_compare-eq-compare p q h k near near' = ground arith

-- It takes two addresses that lie a multiple of 2 ^ 32 apart for the same object.
pub pointer_compare-collides :
    (p k : ℕ) → p + k < 2 ^ 64 → k % 2 ^ 32 ≡ 0 → pointer_compare (p + k) p ≡ Ordering.eq
unfolding pointer_compare
pointer_compare-collides p k h e = ground arith
