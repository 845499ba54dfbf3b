-- ===== src/Coll/CollSet/Laws.antt =====
-- `_add`, `_remove` and `_contains` of C/src/coll/Set.c against the set that a valid array stands
-- for.
use dcrud.Base.{
  ℕ, ◌+◌, ◌^◌, ◌<◌, ◌≡◌, refl, sym, ap, ◌∙◌, subst, Bool, true, false, ◌&&◌, not, Option, none,
  some, Option-cases, inl, inr, length, arith,
}
use dcrud.Util.Status.{no_error, Build}
use dcrud.Util.SafeCast.{with_self-genuine}
use dcrud.Coll.Compare.{Ordering, IsComparator}
use dcrud.Coll.Array.{move_down-eq-erase_at, length-erase_at, get_elem?-lt}
use dcrud.Coll.Libc.{Libc}
use dcrud.Coll.Storage.{
  Room, room, refused, lost, make_room, make_room-room, make_room-HasRoom, make_room-refused,
  make_room-lost,
}
use dcrud.Coll.SortedArray.{
  holds, holds-erase_at, bsearch-holds, bsearch-none, qsort-append-Ordered, holds-qsort-append,
  length-qsort-append, erase_at-Ordered, is_eq-congr_right,
}
use dcrud.Coll.CollSet
use dcrud.Coll.CollSet.{CollSet, set_magic}
use dcrud.Coll.CollSet.Valid.{IsValid, AddOutcome, RemoveOutcome}

module _ {A : Type 0} {cmp : A → A → Ordering} (order : IsComparator cmp) (c : Libc cmp)
    (build : Build) (reallocated : Bool) (s : CollSet A) (item : A) (v : IsValid cmp build s) where
  insert-AddOutcome :
      (r : Room)
      → make_room build reallocated (length s.items) s.limit ≡ r
      → s.limit + 100 < 2 ^ 32
      → holds cmp item s.items ≡ false
      → AddOutcome cmp build reallocated s item
          ((CollSet.insert c s item r).0, some (CollSet.insert c s item r).1)
  unfolding CollSet.insert
  insert-AddOutcome (room limit) e small h =
      AddOutcome.added _ h (make_room-HasRoom build reallocated (length s.items) s.limit e)
        (record {
          genuine = v.genuine;
          ordered = qsort-append-Ordered order c item s.items v.ordered h;
          fits = omega (
            arith,
            length-qsort-append order c item s.items,
            make_room-room build reallocated (length s.items) s.limit e v.fits small,
          );
        })
        (λ key. holds-qsort-append order c key item s.items)
        (length-qsort-append order c item s.items)
  insert-AddOutcome refused e small h =
      let (static, at_max) = make_room-refused build reallocated (length s.items) s.limit e in
      AddOutcome.full h static at_max
  insert-AddOutcome lost e small h =
      let (dynamic, at_limit, failed) =
        make_room-lost build reallocated (length s.items) s.limit e in
      AddOutcome.lost_all _ h dynamic at_limit failed
        (record {
          genuine = v.genuine;
          ordered = record { sorted = tt; distinct = tt };
          fits = omega arith;
        })
        refl

  searched-AddOutcome :
      (found : Option ℕ)
      → c.bsearch item s.items ≡ found
      → s.limit + 100 < 2 ^ 32
      → AddOutcome cmp build reallocated s item (
        (CollSet.add_searched c build reallocated s item found).0,
        some (CollSet.add_searched c build reallocated s item found).1,
      )
  searched-AddOutcome (some prev) e small =
      AddOutcome.present (bsearch-holds order c item s.items prev v.ordered.sorted e)
  searched-AddOutcome none e small =
      insert-AddOutcome (make_room build reallocated (length s.items) s.limit) refl small
        (bsearch-none order c item s.items v.ordered.sorted e)

  -- `collSet_add` on a valid set, with a limit below 2 ^ 32 - 100: the item is there already and
  -- nothing changes; or there is room, and it is added and nothing else; or there is no room, and
  -- the static build leaves the set alone while the dynamic build is left with a valid empty set.
  pub add-AddOutcome :
      s.limit + 100 < 2 ^ 32
      → AddOutcome cmp build reallocated s item (CollSet.add c build reallocated (some s) item)
  unfolding CollSet.add
  add-AddOutcome small =
      subst (AddOutcome cmp build reallocated s item)
        (sym (with_self-genuine (λ t. t.magic) set_magic s _ v.genuine))
        (searched-AddOutcome (c.bsearch item s.items) refl small)

module _ {A : Type 0} {cmp : A → A → Ordering} (order : IsComparator cmp) (c : Libc cmp)
    (build : Build) (s : CollSet A) (item : A) (v : IsValid cmp build s) where
  searched-RemoveOutcome :
      (found : Option ℕ)
      → c.bsearch item s.items ≡ found
      → RemoveOutcome cmp build s item
          ((CollSet.remove_searched c s found).0, some (CollSet.remove_searched c s found).1)
  searched-RemoveOutcome none e =
      RemoveOutcome.absent (bsearch-none order c item s.items v.ordered.sorted e)
  searched-RemoveOutcome (some prev) e =
      let (x, at, same) = c.bsearch_hit order item s.items prev v.ordered.sorted e in
      let inside = get_elem?-lt s.items prev at in
      subst (λ items. RemoveOutcome cmp build s item (no_error, some (record s { items = items })))
        (sym (move_down-eq-erase_at s.items prev inside))
        (RemoveOutcome.removed _ (bsearch-holds order c item s.items prev v.ordered.sorted e)
          (record {
            genuine = v.genuine;
            ordered = erase_at-Ordered order s.items prev v.ordered;
            fits = omega (arith, length-erase_at s.items prev inside, v.fits);
          })
          (λ key.
            holds-erase_at order key s.items prev v.ordered.distinct at
            ∙ ap (λ q. holds cmp key s.items && not q)
                (sym (is_eq-congr_right order key item x same)))
          (length-erase_at s.items prev inside))

  -- `collSet_remove` on a valid set: an item that is not there is `not_found` and nothing changes;
  -- one that is there is removed, and nothing else.
  pub remove-RemoveOutcome : RemoveOutcome cmp build s item (CollSet.remove c (some s) item)
  unfolding CollSet.remove
  remove-RemoveOutcome =
      subst (RemoveOutcome cmp build s item)
        (sym (with_self-genuine (λ t. t.magic) set_magic s _ v.genuine))
        (searched-RemoveOutcome (c.bsearch item s.items) refl)

  -- `collSet_contains` on a valid set answers the negation of what its name says: `true` exactly if
  -- no item is equal to the one that is asked for.
  pub contains-eq-not-holds :
      CollSet.contains c (some s) item true ≡ (no_error, some (not (holds cmp item s.items)))
  unfolding CollSet.contains
  contains-eq-not-holds = elim (Option-cases (c.bsearch item s.items)) [
    | inl e ↦ ground (arith, v.genuine, bsearch-none order c item s.items v.ordered.sorted e)
    | inr (prev, e) ↦
        ground (arith, v.genuine, bsearch-holds order c item s.items prev v.ordered.sorted e)
  ]
