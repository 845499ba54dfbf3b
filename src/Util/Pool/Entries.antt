-- ===== src/Util/Pool/Entries.antt =====
-- Lemmas on the entries of a pool (C/src/util/Pool.c): the search for a free one, and the writes to one.
use native.Mathlib.Nat.{mul-lt-mul_of_pos_left}
use dcrud.Base.{
  ◌≤◌, ◌%◌, ◌^◌, ℕ, zero, suc, ◌+◌, ◌*◌, ◌<◌, ◌≡◌, ◌≢◌, ◌==◌, if◌then◌else◌, Bool-cases, true,
  false, Option, none, some, inl, inr, List, [], ◌∷◌, length, All, arith, refl, sym, ap,
}
use dcrud.Util.Pool.{PoolEntry, take_free, get_entry, set_entry, entries_from}

-- How many entries are in use.
abbrev pub reserved : List PoolEntry → ℕ
reserved [] = 0
reserved (e ∷ es) = (if e.ref_count == 0 then 0 else 1) + reserved es

-- No two entries have the same item, and no item is NULL.
abbrev pub Apart : List PoolEntry → Type 0
Apart [] = Unit
Apart (e ∷ es) = (e.item ≢ 0) × All (λ x. x.item ≢ e.item) es × Apart es

-- Two offsets in an array of less than 2 ^ 32 bytes.
offset-lt :
    (item_size j i n : ℕ)
    → 0 < item_size
    → j < i
    → i < n
    → item_size * n ≤ 2 ^ 32
    → (item_size * j) % 2 ^ 32 < (item_size * i) % 2 ^ 32
offset-lt item_size j i n h k l small =
    let far = mul-lt-mul_of_pos_left {m = j} {n = i} {k = item_size} k h in
    let inside = mul-lt-mul_of_pos_left {m = i} {n = n} {k = item_size} l h in
    omega (arith, far, inside)

entries_from-later :
    (items item_size : ℕ) (j i count n : ℕ)
    → 0 < item_size
    → j < i
    → i + count ≤ n
    → item_size * n ≤ 2 ^ 32
    → All (λ x. x.item ≢ items + (item_size * j) % 2 ^ 32) (entries_from items item_size i count)
unfolding entries_from
entries_from-later items item_size j i zero n h k l small = tt
entries_from-later items item_size j i (suc count) n h k l small = (
  (let far = offset-lt item_size j i n h k (omega arith) small in
      λ e. (let bad : ⊥ = omega (arith, far, e) in bad)),
  entries_from-later items item_size j (i + 1) count n h (omega arith) (omega arith) small,
)

pub entries_from-Apart :
    (items item_size i count n : ℕ)
    → 0 < items
    → 0 < item_size
    → i + count ≤ n
    → item_size * n ≤ 2 ^ 32
    → Apart (entries_from items item_size i count)
unfolding entries_from
entries_from-Apart items item_size i zero n h k l small = tt
entries_from-Apart items item_size i (suc count) n h k l small = (
  (λ e. (let bad : ⊥ = omega (arith, e) in bad)),
  entries_from-later items item_size i (i + 1) count n k (omega arith) (omega arith) small,
  entries_from-Apart items item_size (i + 1) count n h k (omega arith) small,
)

-- What the search for a free entry finds.
pub data TakeOutcome (es : List PoolEntry) : Option (ℕ × List PoolEntry) → Type 0 where
  taken :
      (item : ℕ) (es' : List PoolEntry)
      → item ≢ 0
      → get_entry item es ≡ some 0
      → get_entry item es' ≡ some 1
      → reserved es' ≡ reserved es + 1
      → set_entry item 0 es' ≡ es
      → Apart es'
      → length es' ≡ length es
      → ((p : ℕ) → All (λ x. x.item ≢ p) es → All (λ x. x.item ≢ p) es')
      → TakeOutcome es (some (item, es'))
  all_used : reserved es ≡ length es → TakeOutcome es none

get_entry-absent :
    (item : ℕ) (es : List PoolEntry) → All (λ x. x.item ≢ item) es → get_entry item es ≡ none
unfolding get_entry
get_entry-absent item [] h = refl
get_entry-absent item (x ∷ es) h = ground (arith, h.0, get_entry-absent item es h.1)

-- An entry that is not free is passed over.
taken_later :
    (x : PoolEntry) (es : List PoolEntry)
    → (x.ref_count == 0) ≡ false
    → Apart (x ∷ es)
    → (r : Option (ℕ × List PoolEntry)) → TakeOutcome es r
    → TakeOutcome (x ∷ es) (elim r [ none ↦ none | some (item, es') ↦ some (item, x ∷ es') ])
unfolding get_entry set_entry
taken_later x es used a none (TakeOutcome.all_used full) = TakeOutcome.all_used (ground arith)
taken_later x es used a (some _) (TakeOutcome.taken item es' n f g r back a' l out) =
    let apart : (x.item == item) ≡ false = elim (Bool-cases (x.item == item)) [
      | inl same ↦ (let gone = get_entry-absent x.item es a.1 in ground arith)
      | inr other ↦ other
    ] in
    TakeOutcome.taken item (x ∷ es') n (rw apart f) (rw apart g) (ground arith)
      (rw apart (ap (◌∷◌ x) back)) (a.0, out x.item a.1, a') (ap (λ k. suc k) l)
      (λ p h. (h.0, out p h.1))

pub take_free-TakeOutcome : (es : List PoolEntry) → Apart es → TakeOutcome es (take_free es)
unfolding take_free get_entry set_entry
take_free-TakeOutcome [] a = TakeOutcome.all_used refl
take_free-TakeOutcome (x ∷ es) a = elim (Bool-cases (x.ref_count == 0)) [
  | inl free ↦
      let same : (x.item == x.item) ≡ true = ground arith in
      let zeroth : x.ref_count ≡ 0 = ground arith in
      rw free (
        TakeOutcome.taken x.item _ a.0 (rw same (ap some zeroth)) (rw (same, zeroth) refl)
          (ground arith) (rw same (ap (λ n. record x { ref_count = n } ∷ es) (sym zeroth))) a refl
          (λ p h. h))
  | inr used ↦ rw used (taken_later x es used a (take_free es) (take_free-TakeOutcome es a.2))
]

pub get_entry-set_entry :
    (item m : ℕ) (es : List PoolEntry) {n : ℕ}
    → get_entry item es ≡ some n
    → get_entry item (set_entry item m es) ≡ some m
unfolding get_entry set_entry
get_entry-set_entry item m [] e = let bad : ⊥ = ground arith in absurd bad
get_entry-set_entry item m (x ∷ es) {n} e = elim (Bool-cases (x.item == item)) [
  | inl same ↦ rw (same, same)
  | inr other ↦
      (let e' : get_entry item es ≡ some n = ground arith in
        rw (other, other) (get_entry-set_entry item m es e'))
]

-- Two writes to an entry; the second puts back what was there.
pub set_entry-set_entry :
    (item m : ℕ) (es : List PoolEntry) {n : ℕ}
    → get_entry item es ≡ some n
    → set_entry item n (set_entry item m es) ≡ es
unfolding get_entry set_entry
set_entry-set_entry item m [] e = refl
set_entry-set_entry item m (x ∷ es) {n} e = elim (Bool-cases (x.item == item)) [
  | inl same ↦
      (let now : x.ref_count ≡ n = ground arith in
        rw (same, same) (ap (λ k. record x { ref_count = k } ∷ es) (sym now)))
  | inr other ↦
      (let e' : get_entry item es ≡ some n = ground arith in
        rw (other, other) (ap (◌∷◌ x) (set_entry-set_entry item m es e')))
]

pub entries_from-reserved :
    (items item_size i count : ℕ)
    → (reserved (entries_from items item_size i count) ≡ 0)
      × (length (entries_from items item_size i count) ≡ count)
unfolding entries_from
entries_from-reserved items item_size i zero = (refl, refl)
entries_from-reserved items item_size i (suc count) =
    let (none_used, long) = entries_from-reserved items item_size (i + 1) count in
    (omega arith, ap (λ k. suc k) long)
