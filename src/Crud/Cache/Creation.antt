-- ===== src/Crud/Cache/Creation.antt =====
-- `dcrudICache_create` (C/src/dcrud/Cache.c): an object gets an identity that is new, and is found
-- under it.
use mathlib.Core.Option
use dcrud.Base.{
  ℕ, ◌+◌, ◌^◌, ◌%◌, ◌<◌, ◌≡◌, ltb, ==_true, refl, sym, ap, ◌∙◌, subst, Bool, true, false, Option,
  some, All, length, if◌then◌else◌, arith,
}
use dcrud.Util.Status.{Status, no_error, check, Build}
use dcrud.Util.SafeCast.{with_self-genuine}
use dcrud.Coll.Compare.{Ordering, is_eq}
use dcrud.Coll.Libc.{Libc}
use dcrud.Coll.Storage.{bound}
use dcrud.Coll.CollSet
use dcrud.Coll.CollMap
use dcrud.Coll.CollMap.{Pair, CollMap, pair_compare}
use dcrud.Coll.CollMap.Valid as Maps
use dcrud.Coll.CollMap.Valid.{PutOutcome, IsUpdate, get_answer}
use dcrud.Coll.CollMap.Lookup.{lookup}
use dcrud.Coll.CollMap.Laws.{put-PutOutcome}
use dcrud.Crud.Guid
use dcrud.Crud.Guid.{Guid, guid_magic}
use dcrud.Crud.Shareable.{shareable_magic, get_guid}
use dcrud.Crud.Cache.{
  Cache, Heap, cache_magic, compare_guids, compare_items, share, create_checked, create,
}
use dcrud.Crud.Outbox.{stored}
use dcrud.Crud.Cache.Calls.{read}
use dcrud.Crud.Cache.Reading.{answered, read_lem}
use dcrud.Crud.Cache.Identities.{IsGiven, IsValid}
use dcrud.Crud.Cache.Growth.{
  guids_with-AreSound, IsNew, new_guid, guids_with, order_with, kept_of_given, apart, All-kept,
  IsGiven-after,
}
use dcrud.Crud.Cache.Keys.{AreSound, compare_guids-IsComparator, lookup_kept, map_kept}

module _ (libc : (A : Type 0) (cmp : A → A → Ordering) → Libc cmp) (build : Build) {P G D : Type 0}
    (address : P → ℕ) {same : G → G → Bool} (publisher : ℕ) (put_memory add_memory : Bool)
    (heap : Heap P G D) (this : Cache P G) (item : P) (g : G)
    (w : IsNew same heap.guids g publisher this.next_instance)
    (v : IsValid build publisher heap.guids this)
    (object : (heap.items item).magic ≡ shareable_magic) (identity : (heap.items item).id ≡ some g)
    (space : length v.items.pairs < bound build v.items.limit)
    (small : v.items.limit + 100 < 2 ^ 32) where
  abbrev pub guids_after : G → Guid
  guids_after = guids_with same heap.guids g publisher this.next_instance

  All-same : All (λ p. heap.guids p.0 ≡ guids_after p.0) v.items.pairs
  All-same = All-kept w v.items v.given

  map_after : Maps.IsValid (compare_guids guids_after) build v.items
  map_after = map_kept heap.guids guids_after All-same v.items_valid

  abbrev put_answer : Status × Option (Pair G P) × Option (CollMap G P)
  put_answer =
      CollMap.put (compare_guids guids_after)
        (libc (G × Option P) (pair_compare (compare_guids guids_after))) build put_memory
        (some v.items) g (some item)

  put_outcome :
      PutOutcome (compare_guids guids_after) build put_memory v.items g (some item) put_answer
  put_outcome =
      put-PutOutcome (order_with w) (libc (G × Option P) (pair_compare (compare_guids guids_after)))
        build put_memory v.items g (some item) map_after small

  -- The map of the cache afterwards.
  record Grown (r : Status × Option (Pair G P) × Option (CollMap G P)) : Type 0 where
    items : CollMap G P
    has_items : r.2 ≡ some items
    update : IsUpdate (compare_guids guids_after) build v.items items g (some item)

  grown_of :
      {r : Status × Option (Pair G P) × Option (CollMap G P)}
      → PutOutcome (compare_guids guids_after) build put_memory v.items g (some item) r
      → Grown r
  grown_of (PutOutcome.replaced m' old found same u l) = record {
    items = m';
    has_items = refl;
    update = u;
  }
  grown_of (PutOutcome.added m' new has_room u l) = record {
    items = m';
    has_items = refl;
    update = u;
  }
  grown_of (PutOutcome.full new static at_max) = let bad : ⊥ = ground (arith, space) in absurd bad
  grown_of (PutOutcome.lost_all m' new dynamic at_limit failed w empty) =
      let bad : ⊥ = ground (arith, space) in absurd bad

  -- The cache and the heap afterwards.
  abbrev pub cache_after : Cache P G
  cache_after = record this {
    next_instance = (this.next_instance + 1) % 2 ^ 32;
    local =
        (CollMap.put (compare_guids guids_after)
          (libc (G × Option P) (pair_compare (compare_guids guids_after))) build put_memory
          this.local g (some item)).2;
    updated = (CollSet.add (libc P (compare_items address)) build add_memory this.updated item).1;
  }

  abbrev pub heap_after : Heap P G D
  heap_after = record heap { guids = guids_after }

  initialised :
      Guid.init (some (heap.guids g)) publisher this.next_instance
      ≡ (no_error, some (new_guid heap.guids g publisher this.next_instance))
  unfolding Guid.init
  initialised =
      with_self-genuine (λ x. x.magic) guid_magic (heap.guids g) _ (w.sound.valid g).genuine

  not_shared : Guid.is_shared (some (heap.guids g)) true ≡ (no_error, some false)
  unfolding Guid.is_shared
  not_shared =
      rw (==_true (heap.guids g).magic guid_magic (w.sound.valid g).genuine, Guid.is_shared)
        (ap (λ n. (no_error, some (ltb 0 n))) w.unshared)

  looked_up : get_guid (some (heap.items item)) true ≡ (no_error, some (some g))
  unfolding get_guid
  looked_up = rw (==_true (heap.items item).magic shareable_magic object, identity) refl

  shared :
      share libc build address same publisher put_memory add_memory heap this item g
      ≡ (no_error, some cache_after, heap_after)
  shared = rw initialised refl

  created :
      create libc build address same publisher put_memory add_memory heap (some this) (some item)
      ≡ (no_error, some cache_after, heap_after)
  unfolding create
  created =
      rw (==_true this.magic cache_magic v.genuine, create)
        (ap
            (λ r.
              check r.0
                (create_checked libc build address same publisher put_memory add_memory heap this
                  (some item) (stored r.1)
                  (Guid.is_shared (Option.map heap.guids (stored r.1)) true))
                (r.0, some this, heap))
            looked_up
          ∙ ap
              (create_checked libc build address same publisher put_memory add_memory heap this
                (some item) (some g))
              not_shared
          ∙ shared)

  grown : Grown put_answer
  grown = grown_of put_outcome

  map_now : cache_after.local ≡ some grown.items
  map_now =
      ap
        (λ l.
          (CollMap.put (compare_guids guids_after)
            (libc (G × Option P) (pair_compare (compare_guids guids_after))) build put_memory l g
            (some item)).2)
        v.has_items
      ∙ grown.has_items

  -- `dcrudICache_create` of an object that is not shared returns `no_error` and keeps the invariant of
  -- the cache: its map is valid, and every key in it is an identity of its publisher that it gave
  -- out; and the identities of the heap stay valid and below 2 ^ 31. The map has room, and numbers are below 2 ^ 31.
  pub create-IsValid :
      let (status, self, heap') =
        create libc build address same publisher put_memory add_memory heap
          (some this)
          (some item) in
      (status ≡ no_error)
      × ((c : Cache P G) × (self ≡ some c) × IsValid build publisher heap'.guids c)
      × AreSound heap'.guids
  create-IsValid =
      subst
        (λ r.
          (r.0 ≡ no_error)
          × ((c : Cache P G) × (r.1 ≡ some c) × IsValid build publisher r.2.guids c)
          × AreSound r.2.guids)
        (sym created)
        (
          refl,
          (
            cache_after,
            refl,
            record {
              genuine = v.genuine;
              items = grown.items;
              has_items = map_now;
              items_valid = grown.update.valid;
              started = omega (arith, w.next_small);
              given = IsGiven-after w v.items v.given grown.update v.started;
            },
          ),
          guids_with-AreSound w,
        )

  read_after :
      (k : G)
      → read libc heap_after (some cache_after) k true
        ≡ answered (lookup (compare_guids guids_after) k grown.items.pairs)
  read_after k =
      read_lem libc build heap_after (order_with w) cache_after v.genuine grown.items map_now
        grown.update.valid k

  read_new : read libc heap_after (some cache_after) g true ≡ (no_error, some (some item))
  read_new =
      read_after g
      ∙ ap answered (
          grown.update.at_key g
          ∙ ap
              (λ b.
                if b then some (some item) else lookup (compare_guids guids_after) g v.items.pairs)
              (ap is_eq ((order_with w).self_eq g)))

  read_other :
      (k : G)
      → IsGiven publisher this.next_instance (heap.guids k)
      → read libc heap_after (some cache_after) k true ≡ read libc heap (some this) k true
  read_other k given =
      read_after k
      ∙ ap answered (
          grown.update.at_key k
          ∙ ap
              (λ b.
                if b then some (some item) else lookup (compare_guids guids_after) k v.items.pairs)
              (apart w k given)
          ∙ sym (
              lookup_kept heap.guids guids_after k v.items.pairs (kept_of_given w k given)
                All-same))
      ∙ sym (
          read_lem libc build heap (compare_guids-IsComparator w.sound) this v.genuine v.items
            v.has_items v.items_valid k)

  -- After `dcrudICache_create` the object is read under its identity, and every identity that the
  -- cache gave out before is another one to the comparator, and is read as it was. The object was not
  -- shared, the cache keeps its invariant, its map has room, and numbers are below 2 ^ 31.
  pub create-read :
      let (status, self, heap') =
        create libc build address same publisher put_memory add_memory heap
          (some this)
          (some item) in
      (status ≡ no_error)
      × (read libc heap' self g true ≡ (no_error, some (some item)))
      × ((k : G)
          → IsGiven publisher this.next_instance (heap.guids k)
          → (is_eq (compare_guids heap'.guids k g) ≡ false)
            × (read libc heap' self k true ≡ read libc heap (some this) k true))
  create-read =
      subst
        (λ r.
          (r.0 ≡ no_error)
          × (read libc r.2 r.1 g true ≡ (no_error, some (some item)))
          × ((k : G)
              → IsGiven publisher this.next_instance (heap.guids k)
              → (is_eq (compare_guids r.2.guids k g) ≡ false)
                × (read libc r.2 r.1 k true ≡ read libc heap (some this) k true)))
        (sym created) (refl, read_new, λ k given. (apart w k given, read_other k given))
