-- ===== src/Util/Pool/Laws.antt =====
-- What `reserve` and `release` of C/src/util/Pool.c do to the entries of a pool.
use dcrud.Base.{
  ℕ, suc, ◌+◌, ◌*◌, ◌≤◌, ◌%◌, ◌^◌, ◌<◌, ◌≡◌, ◌≢◌, ◌==◌, true, false, Option, none, some, List,
  length, arith, refl, ap, ◌∙◌,
}
use dcrud.Util.Status.{Status, no_error, too_many}
use dcrud.Util.Pool
use dcrud.Util.Pool.{
  PoolEntry, Usage, take_free, get_entry, set_entry, entries_from, at_use_of, increment, decrement,
  reserved_entry, release_found,
}
use dcrud.Util.Pool.Entries.{
  Apart, reserved, TakeOutcome, take_free-TakeOutcome, entries_from-Apart, entries_from-reserved,
  get_entry-set_entry, set_entry-set_entry,
}

-- `utilPool_reserve`: what it may answer, and what becomes of the pool.
pub data ReserveOutcome (p : Pool.Pool) (us : List Usage)
    : Status × Option ℕ × Option Pool.Pool × List Usage → Type 0 where
  given_out :
      (item : ℕ) (p' : Pool.Pool)
      → item ≢ 0
      → get_entry item p.entries ≡ some 0
      → get_entry item p'.entries ≡ some 1
      → reserved p'.entries ≡ reserved p.entries + 1
      → Apart p'.entries
      → ((us' : List Usage)
          → Pool.release (some p') (some item) us'
            ≡ (no_error, some 0, some p, at_use_of decrement p.address us'))
      → ReserveOutcome p us (no_error, some item, some p', at_use_of increment p.address us)
  exhausted :
      reserved p.entries ≡ length p.entries → ReserveOutcome p us (too_many, none, some p, us)

module _ (p : Pool.Pool) (us : List Usage) where
  reserved_entry-ReserveOutcome :
      (r : Option (ℕ × List PoolEntry))
      → TakeOutcome p.entries r
      → let (status, item, p', us') = reserved_entry p us r in
        ReserveOutcome p us (status, item, some p', us')
  unfolding Pool.release
  reserved_entry-ReserveOutcome none (TakeOutcome.all_used full) = ReserveOutcome.exhausted full
  reserved_entry-ReserveOutcome (some _) (TakeOutcome.taken item es' n f g r back a l out) =
      ReserveOutcome.given_out item _ n f g r a (λ us'. rw g (
        ap
          (λ es.
            (no_error, some 0, some (record p { entries = es }), at_use_of decrement p.address us'))
          back))

  -- `utilPool_reserve` on a pool whose items are all different: it gives out an item that nobody
  -- uses, which is then in use once, so that a `release` of it gives the pool back as it was; it
  -- refuses only if every entry is in use, and then changes nothing.
  pub reserve-ReserveOutcome : Apart p.entries → ReserveOutcome p us (Pool.reserve (some p) true us)
  unfolding Pool.reserve
  reserve-ReserveOutcome a =
      reserved_entry-ReserveOutcome (take_free p.entries) (take_free-TakeOutcome p.entries a)

-- `utilPool_new` makes a pool whose items are all different and free, if the array of items is not
-- at NULL, an item has a size, and the items take at most 2 ^ 32 bytes.
pub new-reserved :
    (address items item_size entries_count : ℕ) (pool_map : List Usage)
    → 0 < items
    → 0 < item_size
    → item_size * entries_count ≤ 2 ^ 32
    → let (status, self, pool_map') =
        Pool.new (some address) items item_size entries_count pool_map in
      (status ≡ no_error)
      × (self
          ≡ some (record {
            address = address;
            entries = entries_from items item_size 0 entries_count;
          }))
      × Apart (entries_from items item_size 0 entries_count)
      × (reserved (entries_from items item_size 0 entries_count) ≡ 0)
      × (length (entries_from items item_size 0 entries_count) ≡ entries_count)
unfolding Pool.new
new-reserved address items item_size entries_count pool_map h k small = (
  refl,
  refl,
  entries_from-Apart items item_size 0 entries_count entries_count h k (omega arith) small,
  (entries_from-reserved items item_size 0 entries_count).0,
  (entries_from-reserved items item_size 0 entries_count).1,
)

-- A reference that `utilPool_addReferenceTo` adds to an item in use is the one that the next
-- `utilPool_release` of the item takes away: both answer `no_error`, the release leaves the
-- caller's pointer alone, and the pool is as it was. The item has less than 2 ^ 32 - 1 references.
pub add_reference_to-release :
    (p : Pool.Pool) (item n : ℕ) (us : List Usage)
    → item ≢ 0
    → get_entry item p.entries ≡ some (suc n)
    → n + 2 < 2 ^ 32
    → let (status, held) = Pool.add_reference_to (some p) item in
      (status ≡ no_error) × (Pool.release held (some item) us ≡ (no_error, some item, some p, us))
unfolding Pool.add_reference_to Pool.release
add_reference_to-release p item n us h e k =
    (ap (λ r. r.0) added, ap (λ r. Pool.release r.1 (some item) us) added ∙ released)
  where
    held : List PoolEntry
    held = set_entry item (suc (suc n)) p.entries

    counted : (suc n + 1) % 2 ^ 32 ≡ suc (suc n)
    counted = omega arith

    not_null : (item == 0) ≡ false
    not_null = ground (arith, h)

    added : Pool.add_reference_to (some p) item ≡ (no_error, some (record p { entries = held }))
    added = rw (not_null, e, counted) refl

    released :
        Pool.release (some (record p { entries = held })) (some item) us
        ≡ (no_error, some item, some p, us)
    released = rw (get_entry-set_entry item (suc (suc n)) p.entries e) (
        ap (λ es. (no_error, some item, some (record p { entries = es }), us))
          (set_entry-set_entry item (suc (suc n)) p.entries e))
