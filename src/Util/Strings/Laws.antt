-- ===== src/Util/Strings/Laws.antt =====
-- C/src/util/String.c never writes behind the memory of a string.
use dcrud.Base.{
  ℕ, ◌+◌, ◌<◌, ◌≤◌, ◌≡◌, refl, ltb, Bool, true, false, Option, none, some, List, [], ◌∷◌, ◌++◌,
  length, length-append, All, ap, arith, Bool-cases, ltb→lt, inl, inr,
}
use dcrud.Util.Status.{Status, no_error, not_found, too_many, overflow, Build, static_allocation}
use dcrud.Util.Pool
use dcrud.Util.Pool.{Usage}
use dcrud.Util.Strings
use dcrud.Util.Strings.{Text}

-- The string and its NUL are within the memory.
abbrev pub Fits : Text → Type 0
Fits t = length t.chars < t.capacity

-- What `utilString_clone` may answer.
pub data CloneOutcome (build : Build) (allocated : Bool) (source : List ℕ)
    : Status × Option Text → Type 0 where
  cloned :
      (t : Text)
      → allocated ≡ true
      → t.chars ≡ source
      → Fits t
      → CloneOutcome build allocated source (no_error, some t)
  too_long :
      build ≡ static_allocation
      → 65536 ≤ length source + 1
      → CloneOutcome build allocated source (overflow, none)
  no_memory : allocated ≡ false → CloneOutcome build allocated source (too_many, none)

-- What `utilString_concat` may answer.
pub data ConcatOutcome (t : Text) (source : List ℕ) (size : ℕ)
    : Status × Option Text × Option ℕ → Type 0 where
  appended :
      (t' : Text) (left : ℕ)
      → t'.chars ≡ t.chars ++ source
      → length t'.chars + left ≡ t'.capacity
      → 0 < left
      → Fits t'
      → ConcatOutcome t source size (no_error, some t', some left)
  too_long : size ≤ length source → ConcatOutcome t source size (overflow, some t, some size)

-- `utilString_concat` on a string with `size` bytes of memory left behind it, at least one for the
-- NUL: it appends the source and answers what is left then, again at least one, so that the string
-- and its NUL stay within the memory; or the source does not fit, and nothing changes.
pub concat-ConcatOutcome :
    (t : Text) (source : List ℕ) (size : ℕ)
    → length t.chars + size ≡ t.capacity
    → 0 < size
    → ConcatOutcome t source size (Strings.concat (some t) (some source) (some size))
unfolding Strings.concat
concat-ConcatOutcome t source size e h = elim (Bool-cases (ltb (length source) size)) [
  | inl fits ↦
      let less = ltb→lt (length source) size fits in
      let longer = length-append t.chars source in
      rw fits (
        ConcatOutcome.appended _ _ refl (omega (arith, less, longer, e)) (omega (arith, less))
          (omega (arith, less, longer, e)))
  | inr long ↦ rw long (ConcatOutcome.too_long (ground arith))
]

released :
    (last : Status) (before after : List Pool.Pool) (p : Pool.Pool) (target : ℕ) (us : List Usage)
    → All (λ q. Pool.get_entry target q.entries ≡ none) before
    → Pool.get_entry target p.entries ≡ some 1
    → Strings.delete_from last (before ++ (p ∷ after)) target us ≡ (
      no_error,
      0,
      before ++ (record p { entries = Pool.set_entry target 0 p.entries } ∷ after),
      Pool.at_use_of Pool.decrement p.address us,
    )
unfolding Strings.delete_from
released last [] after p target us away here = rw here
released last (q ∷ before) after p target us away here =
    rw (away.0, released not_found before after p target us away.1 here)

-- `utilString_delete` of the one reference to a string: the pool that it is of takes the item back,
-- the handle becomes NULL, and neither the pools before it nor those behind it change, if no pool
-- before it has an item there.
pub delete-released :
    (before after : List Pool.Pool) (p : Pool.Pool) (target : ℕ) (us : List Usage)
    → All (λ q. Pool.get_entry target q.entries ≡ none) before
    → Pool.get_entry target p.entries ≡ some 1
    → Strings.delete static_allocation (before ++ (p ∷ after)) (some target) us ≡ (
      no_error,
      some 0,
      before ++ (record p { entries = Pool.set_entry target 0 p.entries } ∷ after),
      Pool.at_use_of Pool.decrement p.address us,
    )
unfolding Strings.delete
delete-released before after p target us away here =
    ap (λ r. let (status, target', pools', us') = r in (status, some target', pools', us'))
      (released no_error before after p target us away here)
