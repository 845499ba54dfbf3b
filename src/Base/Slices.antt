-- ===== src/Base/Slices.antt =====
-- `memcpy` on arrays: a slice of a list is read, or overwritten.
use Prim.Native.Nat.{ℕ, zero, suc, ◌+◌, ◌≤◌}
use mathlib.Core.Path.{◌≡◌, refl, ap}
use mathlib.Core.List.{List, [], ◌∷◌, ◌++◌}
use native.Mathlib.Omega.{arith}
use dcrud.Base.Lists.{length, take, drop, length-take, length-drop}

module _ {ℓ} {A : Type ℓ} where
  -- The `n` items from index `i` on.
  abbrev pub slice : List A → ℕ → ℕ → List A
  slice xs i n = take n (drop i xs)

  -- The array after `src` was copied to index `i`.
  unfoldable pub overwrite : List A → ℕ → List A → List A
  overwrite xs zero [] = xs
  overwrite [] zero (v ∷ src) = []
  overwrite (x ∷ xs) zero (v ∷ src) = v ∷ overwrite xs zero src
  overwrite [] (suc i) src = []
  overwrite (x ∷ xs) (suc i) src = x ∷ overwrite xs i src

  pub length-overwrite :
      (xs : List A) (i : ℕ) (src : List A) → length (overwrite xs i src) ≡ length xs
  unfolding overwrite
  length-overwrite xs zero [] = refl
  length-overwrite [] zero (v ∷ src) = refl
  length-overwrite (x ∷ xs) zero (v ∷ src) = ap suc (length-overwrite xs zero src)
  length-overwrite [] (suc i) src = refl
  length-overwrite (x ∷ xs) (suc i) src = ap suc (length-overwrite xs i src)

  -- What lies before the copied bytes, and these, are a prefix of the new array.
  pub take-overwrite :
      (xs : List A) (i : ℕ) (src : List A)
      → i + length src ≤ length xs
      → take (i + length src) (overwrite xs i src) ≡ take i xs ++ src
  unfolding overwrite
  take-overwrite xs zero [] h = refl
  take-overwrite [] zero (v ∷ src) h = absurd (omega arith)
  take-overwrite (x ∷ xs) zero (v ∷ src) h =
      let e : zero + suc (length src) ≡ suc (zero + length src) = omega arith in
      rw e (ap (◌∷◌ v) (take-overwrite xs zero src (omega arith)))
  take-overwrite [] (suc i) src h = absurd (omega arith)
  take-overwrite (x ∷ xs) (suc i) src h =
      let e : suc i + length src ≡ suc (i + length src) = omega arith in
      rw e (ap (◌∷◌ x) (take-overwrite xs i src (omega arith)))

  -- What lies behind the copied bytes is unchanged.
  pub drop-overwrite :
      (xs : List A) (i : ℕ) (src : List A)
      → drop (i + length src) (overwrite xs i src) ≡ drop (i + length src) xs
  unfolding overwrite
  drop-overwrite xs zero [] = refl
  drop-overwrite [] zero (v ∷ src) = refl
  drop-overwrite (x ∷ xs) zero (v ∷ src) =
      let e : zero + suc (length src) ≡ suc (zero + length src) = omega arith in
      rw e (drop-overwrite xs zero src)
  drop-overwrite [] (suc i) src = refl
  drop-overwrite (x ∷ xs) (suc i) src =
      let e : suc i + length src ≡ suc (i + length src) = omega arith in
      rw e (drop-overwrite xs i src)

  -- What lies before the copied bytes is unchanged.
  pub take-overwrite_before :
      (xs : List A) (i : ℕ) (src : List A) → take i (overwrite xs i src) ≡ take i xs
  unfolding overwrite
  take-overwrite_before xs zero src = refl
  take-overwrite_before [] (suc i) src = refl
  take-overwrite_before (x ∷ xs) (suc i) src = ap (◌∷◌ x) (take-overwrite_before xs i src)

  pub overwrite-nil : (xs : List A) (i : ℕ) → overwrite xs i [] ≡ xs
  unfolding overwrite
  overwrite-nil xs zero = refl
  overwrite-nil [] (suc i) = refl
  overwrite-nil (x ∷ xs) (suc i) = ap (◌∷◌ x) (overwrite-nil xs i)

  -- Two copies, one behind the other, are one.
  pub overwrite-overwrite :
      (xs : List A) (i : ℕ) (s t : List A)
      → overwrite (overwrite xs i s) (i + length s) t ≡ overwrite xs i (s ++ t)
  unfolding overwrite
  overwrite-overwrite xs zero [] t = refl
  overwrite-overwrite [] zero (v ∷ s) t = overwrite_empty (zero + suc (length s)) t
    where
      overwrite_empty : (i : ℕ) (t : List A) → overwrite [] i t ≡ []
      overwrite_empty zero [] = refl
      overwrite_empty zero (v ∷ t) = refl
      overwrite_empty (suc i) t = refl
  overwrite-overwrite (x ∷ xs) zero (v ∷ s) t =
      let e : zero + suc (length s) ≡ suc (zero + length s) = omega arith in
      rw e (ap (◌∷◌ v) (overwrite-overwrite xs zero s t))
  overwrite-overwrite [] (suc i) s t =
      let e : suc i + length s ≡ suc (i + length s) = omega arith in rw e
  overwrite-overwrite (x ∷ xs) (suc i) s t =
      let e : suc i + length s ≡ suc (i + length s) = omega arith in
      rw e (ap (◌∷◌ x) (overwrite-overwrite xs i s t))

  pub length-slice : (xs : List A) (i n : ℕ) → i + n ≤ length xs → length (slice xs i n) ≡ n
  length-slice xs i n h = omega (arith, length-take n (drop i xs), length-drop i xs)
