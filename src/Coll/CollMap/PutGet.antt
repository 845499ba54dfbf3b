-- ===== src/Coll/CollMap/PutGet.antt =====
-- `_put` and then `_get` of C/src/coll/Map.c.
use dcrud.Base.{◌+◌, ◌^◌, ◌<◌, ◌≡◌, refl, ap, ◌∙◌, Bool, true, Option, some, if◌then◌else◌, arith}
use dcrud.Coll.Compare.{is_eq}
use dcrud.Util.Status.{Status, no_error, Build}
use dcrud.Coll.Compare.{Ordering, IsComparator}
use dcrud.Coll.Libc.{Libc}
use dcrud.Coll.CollMap
use dcrud.Coll.CollMap.{
  CollMap, Pair, map_magic, pair_compare, set_value, value_at, get_searched, is_value,
  read_map-genuine,
}
use dcrud.Coll.CollMap.Lookup.{lookup}
use dcrud.Coll.CollMap.Valid.{IsValid, IsUpdate, PutOutcome, get_answer}
use dcrud.Coll.CollMap.Laws.{put-PutOutcome, get-get_answer}

module _ {K V : Type 0} {cmp : K → K → Ordering} (order : IsComparator cmp)
    (c : Libc (pair_compare {V = V} cmp)) (build : Build) (reallocated : Bool) (m : CollMap K V)
    (key : K) (value : Option V) where
  outcome-get :
      (k : K) {r : Status × Option (Pair K V) × Option (CollMap K V)}
      → PutOutcome cmp build reallocated m key value r
      → r.0 ≡ no_error
      → CollMap.get cmp c r.2 k true
        ≡ get_answer (if is_eq (cmp k key) then some value else lookup cmp k m.pairs)
  outcome-get k (PutOutcome.replaced m' old found same u l) ok =
      get-get_answer order c build m' k u.valid ∙ ap get_answer (u.at_key k)
  outcome-get k (PutOutcome.added m' new has_room u l) ok =
      get-get_answer order c build m' k u.valid ∙ ap get_answer (u.at_key k)
  outcome-get k (PutOutcome.full new static at_max) ok = let bad : ⊥ = ground arith in absurd bad
  outcome-get k (PutOutcome.lost_all m' new dynamic at_limit failed v empty) ok =
      let bad : ⊥ = ground arith in absurd bad

  -- After a `collMap_put` on a valid map that returned `no_error`, with a limit below 2 ^ 32 - 100,
  -- `collMap_get` of a key that is equal to the one that was put answers the new value, and of any
  -- other what it had before, or `not_found`.
  pub put-get :
      IsValid cmp build m
      → m.limit + 100 < 2 ^ 32
      → (k : K) → (CollMap.put cmp c build reallocated (some m) key value).0 ≡ no_error
      → let (_, _, self) = CollMap.put cmp c build reallocated (some m) key value in
        CollMap.get cmp c self k true
        ≡ get_answer (if is_eq (cmp k key) then some value else lookup cmp k m.pairs)
  put-get v small k = outcome-get k (put-PutOutcome order c build reallocated m key value v small)

  outcome-IsUpdate :
      {r : Status × Option (Pair K V) × Option (CollMap K V)}
      → PutOutcome cmp build reallocated m key value r
      → r.0 ≡ no_error
      → (m' : CollMap K V) × (r.2 ≡ some m') × IsUpdate cmp build m m' key value
  outcome-IsUpdate (PutOutcome.replaced m' old found same u l) ok = (m', refl, u)
  outcome-IsUpdate (PutOutcome.added m' new has_room u l) ok = (m', refl, u)
  outcome-IsUpdate (PutOutcome.full new static at_max) ok = let bad : ⊥ = ground arith in absurd bad
  outcome-IsUpdate (PutOutcome.lost_all m' new dynamic at_limit failed v empty) ok =
      let bad : ⊥ = ground arith in absurd bad

  -- The map that a put left, if it returned `no_error`.
  pub put-IsUpdate :
      IsValid cmp build m
      → m.limit + 100 < 2 ^ 32
      → (CollMap.put cmp c build reallocated (some m) key value).0 ≡ no_error
      → (m' : CollMap K V) × ((CollMap.put cmp c build reallocated (some m) key value).2 ≡ some m')
        × IsUpdate cmp build m m' key value
  put-IsUpdate v small ok =
      outcome-IsUpdate (put-PutOutcome order c build reallocated m key value v small) ok
