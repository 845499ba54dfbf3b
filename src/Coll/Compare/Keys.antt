-- ===== src/Coll/Compare/Keys.antt =====
-- Comparators that compare numbers, one after the other, as those of C/src/dcrud do.
use Prim.Native.Nat.{compare}
use dcrud.Base.{ℕ, arith}
use dcrud.Coll.Compare.{Ordering, IsComparator, or_else}

-- Two comparisons, one after the other, of which an equality is an equality of keys.
module _ {A : Type 0} (f g : A → A → Ordering) where
  abbrev pub both : A → A → Ordering
  both x y = or_else (f x y) (g x y)

pub key-IsComparator : {A : Type 0} (key : A → ℕ) → IsComparator (λ x y. compare (key x) (key y))
key-IsComparator key = record {
  self_eq = λ a. ground arith;
  eq_sym = λ a b e. ground arith;
  eq_trans = λ a b c e f. ground arith;
  lt_flip = λ a b e. ground arith;
  gt_flip = λ a b e. ground arith;
  lt_trans = λ a b c e f. ground arith;
  eq_lt = λ a b c e f. ground arith;
  lt_eq = λ a b c e f. ground arith;
}

module _ {A : Type 0} {f g : A → A → Ordering} (s : IsComparator f) (t : IsComparator g) where
  pub both-IsComparator : IsComparator (both f g)
  both-IsComparator = record {
    self_eq = λ a. ground (arith, s.self_eq a, t.self_eq a);
    eq_sym = λ a b e. ground (arith, s.eq_sym a b, t.eq_sym a b);
    eq_trans = λ a b c e h. ground (arith, s.eq_trans a b c, t.eq_trans a b c);
    lt_flip = λ a b e. ground (arith, s.eq_sym a b, s.lt_flip a b, t.lt_flip a b);
    lt_trans = λ a b c e h.
        ground (
          arith,
          s.eq_trans a b c,
          s.lt_trans a b c,
          t.lt_trans a b c,
          s.eq_lt a b c,
          s.lt_eq a b c,
        );
    gt_flip = λ a b e. ground (arith, s.eq_sym a b, s.gt_flip a b, t.gt_flip a b);
    eq_lt = λ a b c e h. ground (arith, s.eq_trans a b c, s.eq_lt a b c, t.eq_lt a b c);
    lt_eq = λ a b c e h. ground (arith, s.eq_trans a b c, s.lt_eq a b c, t.lt_eq a b c);
  }
