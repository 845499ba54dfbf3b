-- ===== src/Crud/ClassId/Order.antt =====
-- The order of class ids, by their bytes: what `bsearch` and `qsort` ask of `dcrudClassID_compareTo`
-- in C/src/dcrud/ClassID.c.
use Prim.Native.Nat.{compare}
use dcrud.Base.{◌≡◌, refl, arith}
use dcrud.Coll.Compare.{Ordering, IsComparator}
use dcrud.Coll.Compare.Keys.{both, key-IsComparator, both-IsComparator}
use dcrud.Crud.ClassId.{Instance, compare_instances, compare_to}

-- The classes are the same: all four bytes are.
pub record Same (x y : Instance) : Type 0 where
  pub package_1 : x.package_1 ≡ y.package_1
  pub package_2 : x.package_2 ≡ y.package_2
  pub package_3 : x.package_3 ≡ y.package_3
  pub clazz : x.clazz ≡ y.clazz

abbrev by_bytes : Instance → Instance → Ordering
by_bytes =
    both (λ x y. compare x.package_1 y.package_1)
      (both (λ x y. compare x.package_2 y.package_2)
        (both (λ x y. compare x.package_3 y.package_3) (λ x y. compare x.clazz y.clazz)))

compare_instances-eq-by_bytes : (x y : Instance) → compare_instances x y ≡ by_bytes x y
unfolding compare_to
compare_instances-eq-by_bytes x y = refl

by_bytes-IsComparator : IsComparator by_bytes
by_bytes-IsComparator = both-IsComparator (key-IsComparator (λ x. x.package_1)) (
    both-IsComparator (key-IsComparator (λ x. x.package_2))
      (both-IsComparator (key-IsComparator (λ x. x.package_3)) (key-IsComparator (λ x. x.clazz))))

pub compare_instances-IsComparator : IsComparator compare_instances
unfolding compare_to
compare_instances-IsComparator = by_bytes-IsComparator

-- Equal to the comparator are just the same classes.
pub Same-of_compare_instances : (x y : Instance) → compare_instances x y ≡ Ordering.eq → Same x y
unfolding compare_to
Same-of_compare_instances x y e = record {
  package_1 = ground arith;
  package_2 = ground arith;
  package_3 = ground arith;
  clazz = ground arith;
}

pub compare_instances_of_Same : (x y : Instance) → Same x y → compare_instances x y ≡ Ordering.eq
unfolding compare_to
compare_instances_of_Same x y s = ground arith
