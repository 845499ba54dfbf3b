-- ===== src/Util/SafeCast/Keeps.antt =====
-- What holds of every genuine object still holds after an operation in the frame of a cast.
use dcrud.Base.{ℕ, ◌==◌, ==_iff, ◌≡◌, Bool-cases, inl, inr, Option, none, some}
use dcrud.Util.Status.{Status}
use dcrud.Util.SafeCast.{with_self, read_self}

module _ {ℓ} {A : Type ℓ} (magic : A → ℕ) (expected : ℕ) where
  -- A handle that is NULL, foreign, or points to an object with the property.
  abbrev pub Genuine {κ} : (A → Type κ) → Option A → Type κ
  Genuine P none = Unit
  Genuine P (some this) = magic this ≡ expected → P this

  module _ {κ} (P : A → Type κ) where
    pub with_self-Genuine :
        (body : A → Status × A)
        → ((this : A) → P this → P (body this).1)
        → (self : Option A) → Genuine P self
        → Genuine P (with_self magic expected self body).1
    with_self-Genuine body h none g = tt
    with_self-Genuine body h (some this) g = elim (Bool-cases (magic this == expected)) [
      | inl e ↦ rw (e, Genuine) (λ _. h this (g ((==_iff _ _).0 e)))
      | inr e ↦ rw (e, Genuine) g
    ]

    pub read_self-Genuine {μ} :
        {R : Type μ} (body : A → Status × Option R × A)
        → ((this : A) → P this → P (body this).2)
        → (self : Option A) → Genuine P self
        → Genuine P (read_self magic expected self body).2
    read_self-Genuine body h none g = tt
    read_self-Genuine body h (some this) g = elim (Bool-cases (magic this == expected)) [
      | inl e ↦ rw (e, Genuine) (λ _. h this (g ((==_iff _ _).0 e)))
      | inr e ↦ rw (e, Genuine) g
    ]
