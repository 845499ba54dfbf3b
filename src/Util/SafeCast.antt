-- ===== src/Util/SafeCast.antt =====
-- Handles and `UTIL_DEFINE_SAFE_CAST` (C/inc/util/types.h). A handle is NULL or a pointer to an
-- object that carries a magic number; every operation first casts its handle.
pub mod Keeps
use dcrud.Base.{ℕ, ◌≡◌, ==_true, ◌==◌, if◌then◌else◌, Option, none, some}
use dcrud.Util.Status.{Status, null_argument, bad_cast}

-- The implementation behind a handle, or the status with which the cast fails.
pub data Cast {ℓ} (A : Type ℓ) : Type ℓ where
  valid : A → Cast A
  failed : Status → Cast A

abbrev pub safe_cast {ℓ} : {A : Type ℓ} → (A → ℕ) → ℕ → Option A → Cast A
safe_cast magic expected none = failed null_argument
safe_cast magic expected (some this) =
    if magic this == expected then valid this else failed bad_cast

-- The frame of an operation that changes its object: nothing changes if the cast fails.
abbrev pub with_self {ℓ} :
    {A : Type ℓ} → (A → ℕ) → ℕ → Option A → (A → Status × A) → Status × Option A
with_self magic expected self body = elim (safe_cast magic expected self) [
  | valid this ↦ let (status, this') = body this in (status, some this')
  | failed status ↦ (status, self)
]

-- The frame of an operation that reads: `none` is an out parameter that stays untouched.
abbrev pub read_self {ℓ κ} :
    {A : Type ℓ} {R : Type κ}
    → (A → ℕ)
    → ℕ
    → Option A
    → (A → Status × Option R × A)
    → Status × Option R × Option A
read_self magic expected self body = elim (safe_cast magic expected self) [
  | valid this ↦ let (status, result, this') = body this in (status, result, some this')
  | failed status ↦ (status, none, self)
]

-- On an object with the right magic number an operation is its body.
pub with_self-genuine {ℓ} :
    {A : Type ℓ} (magic : A → ℕ) (expected : ℕ) (this : A) (body : A → Status × A)
    → magic this ≡ expected
    → with_self magic expected (some this) body ≡ ((body this).0, some (body this).1)
with_self-genuine magic expected this body e = rw (==_true (magic this) expected e, with_self)

pub read_self-genuine {ℓ κ} :
    {A : Type ℓ} {R : Type κ} (magic : A → ℕ) (expected : ℕ) (this : A)
    (body : A → Status × Option R × A)
    → magic this ≡ expected
    → read_self magic expected (some this) body ≡ ((body this).0, (body this).1, some (body this).2)
read_self-genuine magic expected this body e = rw (==_true (magic this) expected e, read_self)
