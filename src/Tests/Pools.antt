-- ===== src/Tests/Pools.antt =====
-- A pool of two items, one of which is in use.
use dcrud.Base.{◌≡◌, refl, true, some, [], ◌∷◌, length, arith}
use dcrud.Util.Status.{no_error}
use dcrud.Util.Pool
use dcrud.Util.Pool.{Usage, entries_from, get_entry}
use dcrud.Util.Pool.Entries.{Apart, reserved}
use dcrud.Util.Pool.Laws.{
  ReserveOutcome, reserve-ReserveOutcome, new-reserved, add_reference_to-release,
}

abbrev two_entries : Pool.Pool
two_entries = record {
  address = 8;
  entries = record { item = 100; ref_count = 1 } ∷ record { item = 116; ref_count = 0 } ∷ [];
}

reserve-ReserveOutcome_example :
    ReserveOutcome two_entries [] (Pool.reserve (some two_entries) true [])
reserve-ReserveOutcome_example =
    reserve-ReserveOutcome two_entries [] (ground arith, (ground arith, tt), (ground arith, tt, tt))

new-reserved_example :
    let (status, self, pool_map') = Pool.new (some 8) 100 16 2 [] in
    (status ≡ no_error)
    × (self ≡ some (record { address = 8; entries = entries_from 100 16 0 2 }))
    × Apart (entries_from 100 16 0 2)
    × (reserved (entries_from 100 16 0 2) ≡ 0)
    × (length (entries_from 100 16 0 2) ≡ 2)
new-reserved_example = new-reserved 8 100 16 2 [] (omega arith) (omega arith) (omega arith)

add_reference_to-release_example :
    let (status, held) = Pool.add_reference_to (some two_entries) 100 in
    (status ≡ no_error)
    × (Pool.release held (some 100) [] ≡ (no_error, some 100, some two_entries, []))
unfolding get_entry
add_reference_to-release_example =
    add_reference_to-release two_entries 100 0 [] (ground arith) refl (omega arith)
