-- ===== src/Crud/Cache/Reading.antt =====
-- What `dcrudICache_read` (C/src/dcrud/Cache.c) finds in the map of a cache.
use dcrud.Base.{◌≡◌, ==_true, ap, ◌∙◌, true, Option, some}
use dcrud.Util.Status.{Status, Build}
use dcrud.Coll.Compare.{Ordering, IsComparator}
use dcrud.Coll.Libc.{Libc}
use dcrud.Coll.CollMap
use dcrud.Coll.CollMap.{CollMap}
use dcrud.Coll.CollMap.Valid as Maps
use dcrud.Coll.CollMap.Valid.{get_answer}
use dcrud.Coll.CollMap.Lookup.{lookup}
use dcrud.Coll.CollMap.Laws.{get-get_answer}
use dcrud.Crud.Cache.{Cache, Heap, cache_magic, compare_guids}
use dcrud.Crud.Cache.Calls.{read, guid_libc, value_or_null}

-- What `dcrudICache_read` answers for what a look-up finds.
abbrev pub answered : {P : Type 0} → Option (Option P) → Status × Option (Option P)
answered found = ((get_answer found).0, some (value_or_null (get_answer found).1))

-- On a genuine cache whose map is valid, reading is a look-up.
pub read_lem :
    (libc : (A : Type 0) (cmp : A → A → Ordering) → Libc cmp) (build : Build) {P G D : Type 0}
    (heap : Heap P G D)
    → IsComparator (compare_guids heap.guids)
    → (c : Cache P G) → c.magic ≡ cache_magic
    → (items : CollMap G P) → c.local ≡ some items
    → Maps.IsValid (compare_guids heap.guids) build items
    → (k : G)
    → read libc heap (some c) k true ≡ answered (lookup (compare_guids heap.guids) k items.pairs)
unfolding read
read_lem libc build heap order c genuine items has_items valid k =
    rw (==_true c.magic cache_magic genuine, read)
      (ap
          (λ l.
            let r = CollMap.get (compare_guids heap.guids) (guid_libc libc heap) l k true in
            (r.0, some (value_or_null r.1)))
          has_items
        ∙ ap (λ r. (r.0, some (value_or_null r.1)))
            (get-get_answer order (guid_libc libc heap) build items k valid))
