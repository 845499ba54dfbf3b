-- ===== src/Coll/CollMap/Laws.antt =====
-- `_put`, `_remove`, `_get` and `_hasKey` of C/src/coll/Map.c against the map that a valid array
-- stands for.
use dcrud.Base.{
  ℕ, ◌+◌, ◌^◌, ◌<◌, ◌≡◌, refl, sym, ap, ap₂, ◌∙◌, subst, Bool, true, false, Option, none, some,
  List, length, if◌then◌else◌, arith,
}
use dcrud.Util.Status.{no_error, Build}
use dcrud.Util.SafeCast.{read_self-genuine}
use dcrud.Coll.Compare.{Ordering, IsComparator}
use dcrud.Coll.Array.{move_down-eq-erase_at, length-erase_at, get_elem?-lt}
use dcrud.Coll.Libc.{Libc}
use dcrud.Coll.Storage.{
  Room, room, refused, lost, make_room, make_room-room, make_room-HasRoom, make_room-refused,
  make_room-lost,
}
use dcrud.Coll.SortedArray.{
  holds, bsearch-none, qsort-append-Ordered, length-qsort-append, erase_at-Ordered,
  is_eq-congr_right, append-Distinct,
}
use dcrud.Coll.CollMap
use dcrud.Coll.CollMap.{
  CollMap, Pair, map_magic, pair_compare, set_value, value_at, get_searched, is_value,
  read_map-genuine,
}
use dcrud.Coll.CollMap.Lookup.{
  lookup, pair_compare-IsComparator, lookup-absent, lookup-get_elem?, lookup-set_value,
  lookup-erase_at, lookup-append, lookup-Perm, set_value-Ordered, length-set_value, value_at_lem,
}
use dcrud.Coll.CollMap.Valid.{IsValid, PutOutcome, MapRemoveOutcome, get_answer, has_answer}

module _ {K V : Type 0} {cmp : K → K → Ordering} (order : IsComparator cmp)
    (c : Libc (pair_compare {V = V} cmp)) (build : Build) (reallocated : Bool) (m : CollMap K V)
    (key : K) (value : Option V) (v : IsValid cmp build m) where
  insert-PutOutcome :
      (r : Room)
      → make_room build reallocated (length m.pairs) m.limit ≡ r
      → m.limit + 100 < 2 ^ 32
      → holds (pair_compare cmp) (key, none) m.pairs ≡ false
      → PutOutcome cmp build reallocated m key value (
        (CollMap.insert cmp c m key value r).0,
        (CollMap.insert cmp c m key value r).1,
        some (CollMap.insert cmp c m key value r).2,
      )
  unfolding CollMap.insert
  insert-PutOutcome (room limit) e small h =
      let pairs_order = pair_compare-IsComparator order in
      PutOutcome.added _ (lookup-absent order key m.pairs h)
        (make_room-HasRoom build reallocated (length m.pairs) m.limit e)
        (record {
          valid = record {
            genuine = v.genuine;
            ordered = qsort-append-Ordered pairs_order c (key, value) m.pairs v.ordered h;
            fits = omega (
              arith,
              length-qsort-append pairs_order c (key, value) m.pairs,
              make_room-room build reallocated (length m.pairs) m.limit e v.fits small,
            );
          };
          at_key = λ k.
              sym (
                lookup-Perm order k (c.qsort_perm (pair_compare-IsComparator order) _)
                  (append-Distinct pairs_order (key, value) m.pairs v.ordered.distinct h))
              ∙ lookup-append order k key value m.pairs h;
        })
        (length-qsort-append pairs_order c (key, value) m.pairs)
  insert-PutOutcome refused e small h =
      let (static, at_max) = make_room-refused build reallocated (length m.pairs) m.limit e in
      PutOutcome.full (lookup-absent order key m.pairs h) static at_max
  insert-PutOutcome lost e small h =
      let (dynamic, at_limit, failed) =
        make_room-lost build reallocated (length m.pairs) m.limit e in
      PutOutcome.lost_all _ (lookup-absent order key m.pairs h) dynamic at_limit failed
        (record {
          genuine = v.genuine;
          ordered = record { sorted = tt; distinct = tt };
          fits = omega arith;
        })
        refl

  searched-PutOutcome :
      (found : Option ℕ)
      → c.bsearch (key, none) m.pairs ≡ found
      → m.limit + 100 < 2 ^ 32
      → PutOutcome cmp build reallocated m key value (
        (CollMap.put_searched cmp c build reallocated m key value found).0,
        (CollMap.put_searched cmp c build reallocated m key value found).1,
        some (CollMap.put_searched cmp c build reallocated m key value found).2,
      )
  searched-PutOutcome (some i) e small =
      let (old, at, same) =
        c.bsearch_hit (pair_compare-IsComparator order) (key, none) m.pairs i v.ordered.sorted e in
      subst
        (λ x.
          PutOutcome cmp build reallocated m key value
            (no_error, x, some (record m { pairs = set_value m.pairs i value })))
        (sym at)
        (PutOutcome.replaced _ old (lookup-get_elem? order key m.pairs i v.ordered.distinct at same)
          same
          (record {
            valid = record {
              genuine = v.genuine;
              ordered = set_value-Ordered cmp m.pairs i value v.ordered;
              fits = omega (arith, length-set_value m.pairs i value, v.fits);
            };
            at_key = λ k.
                lookup-set_value order k m.pairs i value v.ordered.distinct at
                ∙ ap (λ q. if q then some value else lookup cmp k m.pairs)
                    (sym (is_eq-congr_right order k key old.0 same));
          })
          (length-set_value m.pairs i value))
  searched-PutOutcome none e small =
      insert-PutOutcome (make_room build reallocated (length m.pairs) m.limit) refl small
        (bsearch-none (pair_compare-IsComparator order) c (key, none) m.pairs v.ordered.sorted e)

  -- `collMap_put` on a valid map with a limit below 2 ^ 32 - 100. A key that the map has gets the
  -- new value and the old pair is the answer; a new key is added if there is room; every other key
  -- keeps its value and the map stays valid. Without room the static build leaves the map alone, while the dynamic
  -- build is left with a valid empty map.
  pub put-PutOutcome :
      m.limit + 100 < 2 ^ 32
      → PutOutcome cmp build reallocated m key value
          (CollMap.put cmp c build reallocated (some m) key value)
  unfolding CollMap.put
  put-PutOutcome small =
      subst (PutOutcome cmp build reallocated m key value)
        (sym (read_self-genuine (λ t. t.magic) map_magic m _ v.genuine))
        (searched-PutOutcome (c.bsearch (key, none) m.pairs) refl small)

is_value-get_answer : {V : Type 0} (x : Option (Option V)) → is_value (get_answer x) ≡ has_answer x
is_value-get_answer none = refl
is_value-get_answer (some none) = refl
is_value-get_answer (some (some v)) = refl

module _ {K V : Type 0} {cmp : K → K → Ordering} (order : IsComparator cmp)
    (c : Libc (pair_compare {V = V} cmp)) (build : Build) (m : CollMap K V) (key : K)
    (v : IsValid cmp build m) where
  searched-MapRemoveOutcome :
      (found : Option ℕ)
      → c.bsearch (key, none) m.pairs ≡ found
      → MapRemoveOutcome cmp build m key (
        (CollMap.remove_searched cmp c m found).0,
        (CollMap.remove_searched cmp c m found).1,
        some (CollMap.remove_searched cmp c m found).2,
      )
  searched-MapRemoveOutcome none e = MapRemoveOutcome.absent (
      lookup-absent order key m.pairs
        (bsearch-none (pair_compare-IsComparator order) c (key, none) m.pairs v.ordered.sorted e))
  searched-MapRemoveOutcome (some prev) e =
      let (old, at, same) =
        c.bsearch_hit (pair_compare-IsComparator order) (key, none) m.pairs prev v.ordered.sorted
          e in
      let inside = get_elem?-lt m.pairs prev at in
      subst
        (λ (r : Option (Pair K V) × List (Pair K V)).
          MapRemoveOutcome cmp build m key (no_error, r.0, some (record m { pairs = r.1 })))
        (ap₂ (λ x y. (x, y)) (sym at) (sym (move_down-eq-erase_at m.pairs prev inside)))
        (MapRemoveOutcome.removed _ old
          (lookup-get_elem? order key m.pairs prev v.ordered.distinct at same) same
          (record {
            genuine = v.genuine;
            ordered = erase_at-Ordered (pair_compare-IsComparator order) m.pairs prev v.ordered;
            fits = omega (arith, length-erase_at m.pairs prev inside, v.fits);
          })
          (λ k.
            lookup-erase_at order k m.pairs prev v.ordered.distinct at
            ∙ ap (λ q. if q then none else lookup cmp k m.pairs)
                (sym (is_eq-congr_right order k key old.0 same)))
          (length-erase_at m.pairs prev inside))

  -- `collMap_remove` on a valid map: a key that is missing is `not_found` and nothing changes; the
  -- pair of a key that is there is the answer, and the key is removed and nothing else.
  pub remove-MapRemoveOutcome : MapRemoveOutcome cmp build m key (CollMap.remove cmp c (some m) key)
  unfolding CollMap.remove
  remove-MapRemoveOutcome =
      subst (MapRemoveOutcome cmp build m key)
        (sym (read_self-genuine (λ t. t.magic) map_magic m _ v.genuine))
        (searched-MapRemoveOutcome (c.bsearch (key, none) m.pairs) refl)

  get_searched-get_answer :
      (found : Option ℕ)
      → c.bsearch (key, none) m.pairs ≡ found
      → get_searched m found ≡ get_answer (lookup cmp key m.pairs)
  get_searched-get_answer none e = ap get_answer (
      sym (
        lookup-absent order key m.pairs (
          bsearch-none (pair_compare-IsComparator order) c (key, none) m.pairs v.ordered.sorted e)))
  get_searched-get_answer (some i) e =
      let (old, at, same) =
        c.bsearch_hit (pair_compare-IsComparator order) (key, none) m.pairs i v.ordered.sorted e in
      ap (λ x. (no_error, some x)) (value_at_lem m.pairs i at)
      ∙ ap get_answer (sym (lookup-get_elem? order key m.pairs i v.ordered.distinct at same))

  -- `collMap_get` on a valid map answers the value of the key, or `not_found` and NULL.
  pub get-get_answer : CollMap.get cmp c (some m) key true ≡ get_answer (lookup cmp key m.pairs)
  unfolding CollMap.get
  get-get_answer =
      read_map-genuine m none (λ t. get_searched t (c.bsearch (key, none) t.pairs)) v.genuine
      ∙ get_searched-get_answer (c.bsearch (key, none) m.pairs) refl

  -- `collMap_hasKey` on a valid map answers if the key is there with a value that is not NULL.
  pub has_key-has_answer :
      CollMap.has_key cmp c (some m) key true
      ≡ (no_error, some (has_answer (lookup cmp key m.pairs)))
  unfolding CollMap.has_key
  has_key-has_answer =
      ap (λ r. (no_error, some (is_value r))) get-get_answer
      ∙ ap (λ b. (no_error, some b)) (is_value-get_answer (lookup cmp key m.pairs))
