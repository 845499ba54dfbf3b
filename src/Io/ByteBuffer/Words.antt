-- ===== src/Io/ByteBuffer/Words.antt =====
-- What the byte swaps and the host's memory layout of C/src/io/ByteBuffer.c do to a number.
use native.Mathlib.Nat.{pow-suc}
use mathlib.Core.List.{reverse-reverse, reverse-append}
use dcrud.Base.{
  ℕ, zero, suc, ◌+◌, ◌*◌, ◌/◌, ◌%◌, ◌^◌, ◌<◌, if◌then◌else◌, Bool, true, false, ◌≡◌, refl, ap, ◌∙◌,
  sym, arith, All, All-append, subst, List, [], ◌∷◌, reverse, length, length-append,
}
use dcrud.Io.ByteBuffer.{Order, big_endian, little_endian}
use dcrud.Io.ByteBuffer.Numbers.{
  lane, swap16, swap32, swap64, le_bytes, from_le, host_bytes, from_host, must_swap,
}

-- The bytes of a number on the wire, which the order of the buffer fixes and the host does not.
abbrev pub wire : Order → ℕ → ℕ → List ℕ
wire big_endian w value = reverse (le_bytes w value)
wire little_endian w value = le_bytes w value

pub length-le_bytes : (w value : ℕ) → length (le_bytes w value) ≡ w
unfolding le_bytes
length-le_bytes zero value = refl
length-le_bytes (suc w) value = ap suc (length-le_bytes w (value / 256))

pub length-reverse {ℓ} : {A : Type ℓ} (xs : List A) → length (reverse xs) ≡ length xs
length-reverse [] = refl
length-reverse (x ∷ xs) =
    rw (reverse-append (x ∷ []) xs)
      (omega (arith, length-append (reverse xs) (x ∷ []), length-reverse xs))

pub length-wire : (order : Order) (w value : ℕ) → length (wire order w value) ≡ w
length-wire big_endian w value = length-reverse (le_bytes w value) ∙ length-le_bytes w value
length-wire little_endian w value = length-le_bytes w value

pub from_le-le_bytes : (w value : ℕ) → value < 256 ^ w → from_le (le_bytes w value) ≡ value
unfolding from_le le_bytes
from_le-le_bytes zero value h = omega arith
from_le-le_bytes (suc w) value h =
    omega (arith, from_le-le_bytes w (value / 256) (omega (arith, pow-suc 256 w)))

-- The bytes of a number that is given by its bytes.
le_bytes-cons : (w x y : ℕ) → x < 256 → le_bytes (suc w) (x + y * 256) ≡ x ∷ le_bytes w y
unfolding le_bytes
le_bytes-cons w x y h =
    let low : (x + y * 256) % 256 ≡ x = omega arith in
    let high : (x + y * 256) / 256 ≡ y = omega arith in rw (low, high)

le_bytes-from_le : (xs : List ℕ) → All (λ x. x < 256) xs → le_bytes (length xs) (from_le xs) ≡ xs
unfolding from_le
le_bytes-from_le [] h = unfold le_bytes in refl
le_bytes-from_le (x ∷ xs) h =
    le_bytes-cons (length xs) x (from_le xs) h.0 ∙ ap (◌∷◌ x) (le_bytes-from_le xs h.1)

from_le-lt : (xs : List ℕ) → All (λ x. x < 256) xs → from_le xs < 256 ^ length xs
unfolding from_le
from_le-lt [] h = omega arith
from_le-lt (x ∷ xs) h = omega (arith, h.0, from_le-lt xs h.1, pow-suc 256 (length xs))

-- A swap of width `w` gives the number whose bytes are those of its argument, reversed.
pub record IsSwap (w : ℕ) (swap : ℕ → ℕ) : Type 0 where
  pub reverses :
      (value : ℕ) → value < 256 ^ w → le_bytes w (swap value) ≡ reverse (le_bytes w value)
  pub bounded : (value : ℕ) → value < 256 ^ w → swap value < 256 ^ w

-- The swaps written by their lanes, low byte first.
swap16_lanes : (v : ℕ) → swap16 v ≡ from_le (lane v 8 ∷ lane v 0 ∷ [])
unfolding swap16 from_le
swap16_lanes v = omega arith

swap32_lanes :
    (v : ℕ) → v < 2 ^ 32 → swap32 v ≡ from_le (lane v 24 ∷ lane v 16 ∷ lane v 8 ∷ lane v 0 ∷ [])
unfolding swap32 from_le
swap32_lanes v h = omega arith

swap64_lanes :
    (v : ℕ)
    → swap64 v
      ≡ from_le (
          lane v 56
          ∷ lane v 48
          ∷ lane v 40
          ∷ lane v 32
          ∷ lane v 24
          ∷ lane v 16
          ∷ lane v 8
          ∷ lane v 0
          ∷ [])
unfolding swap64 from_le
swap64_lanes v = omega arith

All-le_bytes : (w v : ℕ) → All (λ x. x < 256) (le_bytes w v)
unfolding le_bytes
All-le_bytes zero v = tt
All-le_bytes (suc w) v = (omega arith, All-le_bytes w (v / 256))

All-reverse {ℓ κ} : {A : Type ℓ} (P : A → Type κ) (xs : List A) → All P xs → All P (reverse xs)
All-reverse P [] h = tt
All-reverse P (x ∷ xs) h =
    rw (reverse-append (x ∷ []) xs)
      (All-append P (reverse xs) (x ∷ []) (All-reverse P xs h.1) (h.0, tt))

-- A function that computes the reversed bytes is a swap.
IsSwap-from_le :
    (w : ℕ) (swap : ℕ → ℕ)
    → ((v : ℕ) → v < 256 ^ w → swap v ≡ from_le (reverse (le_bytes w v)))
    → IsSwap w swap
IsSwap-from_le w swap h = record {
  reverses = λ v b. rw (h v b) (
      subst (λ k. le_bytes k (from_le (reverse (le_bytes w v))) ≡ reverse (le_bytes w v)) (size v)
        (le_bytes-from_le (reverse (le_bytes w v)) (small v)));
  bounded = λ v b. rw (h v b) (
      subst (λ k. from_le (reverse (le_bytes w v)) < 256 ^ k) (size v)
        (from_le-lt (reverse (le_bytes w v)) (small v)));
}
  where
    small : (v : ℕ) → All (λ x. x < 256) (reverse (le_bytes w v))
    small v = All-reverse (λ x. x < 256) (le_bytes w v) (All-le_bytes w v)

    size : (v : ℕ) → length (reverse (le_bytes w v)) ≡ w
    size v = length-reverse (le_bytes w v) ∙ length-le_bytes w v

pub swap16-IsSwap : IsSwap 2 swap16
unfolding le_bytes from_le
swap16-IsSwap = IsSwap-from_le 2 swap16 (λ v h. swap16_lanes v ∙ omega arith)

pub swap32-IsSwap : IsSwap 4 swap32
unfolding le_bytes from_le
swap32-IsSwap = IsSwap-from_le 4 swap32 (λ v h. swap32_lanes v h ∙ omega arith)

pub swap64-IsSwap : IsSwap 8 swap64
unfolding le_bytes from_le
swap64-IsSwap = IsSwap-from_le 8 swap64 (λ v h. swap64_lanes v ∙ omega arith)

module _ {w : ℕ} {swap : ℕ → ℕ} (s : IsSwap w swap) where
  pub swap-swap : (v : ℕ) → v < 256 ^ w → swap (swap v) ≡ v
  swap-swap v h =
      sym (from_le-le_bytes w (swap (swap v)) (s.bounded (swap v) (s.bounded v h)))
      ∙ ap from_le (
          s.reverses (swap v) (s.bounded v h)
          ∙ ap reverse (s.reverses v h)
          ∙ reverse-reverse (le_bytes w v))
      ∙ from_le-le_bytes w v h

  -- What a put copies to the buffer is the wire form of the number, whatever the host is.
  pub host_bytes-wire :
      (order : Order) (host_big : Bool) (v : ℕ)
      → v < 256 ^ w
      → host_bytes host_big w (if must_swap order host_big then swap v else v) ≡ wire order w v
  unfolding host_bytes must_swap
  host_bytes-wire big_endian true v h = refl
  host_bytes-wire big_endian false v h = s.reverses v h
  host_bytes-wire little_endian true v h =
      ap reverse (s.reverses v h) ∙ reverse-reverse (le_bytes w v)
  host_bytes-wire little_endian false v h = refl

  from_le-reverse : (v : ℕ) → v < 256 ^ w → from_le (reverse (le_bytes w v)) ≡ swap v
  from_le-reverse v h =
      ap from_le (sym (s.reverses v h)) ∙ from_le-le_bytes w (swap v) (s.bounded v h)

  -- A get recovers the number from its wire form, whatever the host is.
  pub from_host-wire :
      (order : Order) (host_big : Bool) (v : ℕ)
      → v < 256 ^ w
      → (let stored = from_host host_big (wire order w v) in
          if must_swap order host_big then swap stored else stored)
        ≡ v
  unfolding from_host must_swap
  from_host-wire big_endian true v h =
      ap from_le (reverse-reverse (le_bytes w v)) ∙ from_le-le_bytes w v h
  from_host-wire big_endian false v h = ap swap (from_le-reverse v h) ∙ swap-swap v h
  from_host-wire little_endian true v h = ap swap (from_le-reverse v h) ∙ swap-swap v h
  from_host-wire little_endian false v h = from_le-le_bytes w v h
