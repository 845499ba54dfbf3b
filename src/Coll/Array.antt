-- ===== src/Coll/Array.antt =====
-- Arrays as the `coll` package uses them: `memmove` over a removed item, tests on all items, and
-- relations between all pairs of items.
use mathlib.Core.List.{Permᴰ}
use dcrud.Base.{
  ℕ, zero, suc, ◌+◌, ◌-◌, ◌<◌, ◌≡◌, refl, ap, ◌∙◌, Bool, true, false, ◌||◌, some, List, [], ◌∷◌,
  ◌++◌, All, All-append, length, get_elem?, subst, take, drop, take_of_le, arith,
}

module _ {ℓ} {A : Type ℓ} where
  -- `memmove( a + i, a + i + 1, moved )`, and what is in use of the array after it.
  abbrev pub move_down : List A → ℕ → ℕ → List A
  move_down xs i moved = take i xs ++ take moved (drop (i + 1) xs)

  abbrev pub erase_at : ℕ → List A → List A
  erase_at i [] = []
  erase_at zero (x ∷ xs) = xs
  erase_at (suc i) (x ∷ xs) = x ∷ erase_at i xs

  pub move_down-eq-erase_at :
      (xs : List A) (i : ℕ) → i < length xs → move_down xs i (length xs - 1 - i) ≡ erase_at i xs
  move_down-eq-erase_at [] i h = absurd (omega arith)
  move_down-eq-erase_at (x ∷ xs) zero h = take_of_le (suc (length xs) - 1 - 0) xs (omega arith)
  move_down-eq-erase_at (x ∷ xs) (suc i) h =
      let e : suc (length xs) - 1 - suc i ≡ length xs - 1 - i = omega arith in
      let f : suc i + 1 ≡ suc (i + 1) = omega arith in
      rw (e, f) (ap (◌∷◌ x) (move_down-eq-erase_at xs i (omega arith)))

  pub length-erase_at :
      (xs : List A) (i : ℕ) → i < length xs → length (erase_at i xs) + 1 ≡ length xs
  length-erase_at [] i h = absurd (omega arith)
  length-erase_at (x ∷ xs) zero h = omega arith
  length-erase_at (x ∷ xs) (suc i) h = omega (arith, length-erase_at xs i (omega arith))

  pub get_elem?-lt : (xs : List A) (i : ℕ) {x : A} → get_elem? xs i ≡ some x → i < length xs
  get_elem?-lt [] i e = let bad : ⊥ = ground arith in absurd bad
  get_elem?-lt (y ∷ xs) zero e = omega arith
  get_elem?-lt (y ∷ xs) (suc i) e = omega (arith, get_elem?-lt xs i e)

  abbrev pub any : (A → Bool) → List A → Bool
  any p [] = false
  any p (x ∷ xs) = p x || any p xs

  pub any-append : (p : A → Bool) (xs ys : List A) → any p (xs ++ ys) ≡ (any p xs || any p ys)
  any-append p [] ys = refl
  any-append p (x ∷ xs) ys = ground (arith, any-append p xs ys)

  pub any-Perm : (p : A → Bool) {xs ys : List A} → Permᴰ xs ys → any p xs ≡ any p ys
  any-Perm p Permᴰ.nil = refl
  any-Perm p (Permᴰ.cons {l₁ = l₁} {l₂ = l₂} e q) = ground (arith, any-Perm p q, ap p e)
  any-Perm p (Permᴰ.swap e f) = ground (arith, ap p e, ap p f)
  any-Perm p (Permᴰ.trans q r) = any-Perm p q ∙ any-Perm p r

  pub any-false_of_All : (p : A → Bool) (xs : List A) → All (λ x. p x ≡ false) xs → any p xs ≡ false
  any-false_of_All p [] h = refl
  any-false_of_All p (x ∷ xs) h = ground (arith, any-false_of_All p xs h.1)

  pub any-get_elem? :
      (p : A → Bool) (xs : List A) (i : ℕ) {x : A}
      → get_elem? xs i ≡ some x
      → p x ≡ true
      → any p xs ≡ true
  any-get_elem? p [] i e h = let bad : ⊥ = ground arith in absurd bad
  any-get_elem? p (y ∷ xs) zero e h = ground arith
  any-get_elem? p (y ∷ xs) (suc i) e h = ground (arith, any-get_elem? p xs i e h)

  pub length-Perm : {xs ys : List A} → Permᴰ xs ys → length xs ≡ length ys
  length-Perm Permᴰ.nil = refl
  length-Perm (Permᴰ.cons e q) = omega (arith, length-Perm q)
  length-Perm (Permᴰ.swap e f) = omega arith
  length-Perm (Permᴰ.trans q r) = length-Perm q ∙ length-Perm r

  pub All-Perm {κ} : (P : A → Type κ) {xs ys : List A} → Permᴰ xs ys → All P xs → All P ys
  All-Perm P Permᴰ.nil h = h
  All-Perm P (Permᴰ.cons e q) h = (subst P e h.0, All-Perm P q h.1)
  All-Perm P (Permᴰ.swap e f) h = (subst P f h.1.0, (subst P e h.0, h.1.1))
  All-Perm P (Permᴰ.trans q r) h = All-Perm P r (All-Perm P q h)

  -- The relation holds between every item and each that follows it.
  abbrev pub Pairs {κ} : (A → A → Type κ) → List A → Type κ
  Pairs R [] = Unit
  Pairs R (x ∷ xs) = All (R x) xs × Pairs R xs

  -- A symmetric relation between all pairs does not see the order.
  pub Pairs-Perm {κ} :
      (R : A → A → Type κ)
      → ((a b : A) → R a b → R b a)
      → {xs ys : List A} → Permᴰ xs ys
      → Pairs R xs
      → Pairs R ys
  Pairs-Perm R s Permᴰ.nil h = h
  Pairs-Perm R s (Permᴰ.cons {b = b} {l₂ = l₂} e q) h =
      (subst (λ a. All (R a) l₂) e (All-Perm (R _) q h.0), Pairs-Perm R s q h.1)
  Pairs-Perm R s (Permᴰ.swap {a} {b} {a'} {b'} {l} e f) h =
      let first : R a' b' = subst (λ x. R x b') f (subst (λ y. R b y) e (s a b h.0.0)) in
      ((first, subst (λ x. All (R x) l) f h.1.0), (subst (λ x. All (R x) l) e h.0.1, h.1.1))
  Pairs-Perm R s (Permᴰ.trans q r) h = Pairs-Perm R s r (Pairs-Perm R s q h)

  pub All-erase_at {κ} : (P : A → Type κ) (xs : List A) (i : ℕ) → All P xs → All P (erase_at i xs)
  All-erase_at P [] i h = h
  All-erase_at P (x ∷ xs) zero h = h.1
  All-erase_at P (x ∷ xs) (suc i) h = (h.0, All-erase_at P xs i h.1)

  pub Pairs-erase_at {κ} :
      (R : A → A → Type κ) (xs : List A) (i : ℕ) → Pairs R xs → Pairs R (erase_at i xs)
  Pairs-erase_at R [] i h = h
  Pairs-erase_at R (x ∷ xs) zero h = h.1
  Pairs-erase_at R (x ∷ xs) (suc i) h = (All-erase_at (R x) xs i h.0, Pairs-erase_at R xs i h.1)

  pub All-imp {κ μ} :
      (P : A → Type κ) (Q : A → Type μ) (xs : List A) → ((a : A) → P a → Q a) → All P xs → All Q xs
  All-imp P Q [] h k = tt
  All-imp P Q (x ∷ xs) h k = (h x k.0, All-imp P Q xs h k.1)

  pub All-of_any-false : (p : A → Bool) (xs : List A) → any p xs ≡ false → All (λ x. p x ≡ false) xs
  All-of_any-false p [] h = tt
  All-of_any-false p (x ∷ xs) h = (ground arith, All-of_any-false p xs (ground arith))

  pub All-get_elem? {κ} :
      (P : A → Type κ) (xs : List A) (i : ℕ) {x : A} → All P xs → get_elem? xs i ≡ some x → P x
  All-get_elem? P [] i h e = let bad : ⊥ = ground arith in absurd bad
  All-get_elem? P (y ∷ xs) zero h e = subst P (cc) h.0
  All-get_elem? P (y ∷ xs) (suc i) h e = All-get_elem? P xs i h.1 e

  pub Pairs-append_one {κ} :
      (R : A → A → Type κ) (xs : List A) (x : A)
      → Pairs R xs
      → All (λ y. R y x) xs
      → Pairs R (xs ++ (x ∷ []))
  Pairs-append_one R [] x h k = (tt, tt)
  Pairs-append_one R (y ∷ xs) x h k =
      (All-append (R y) xs (x ∷ []) h.0 (k.0, tt), Pairs-append_one R xs x h.1 k.1)
