-- ===== src/Io/ByteBuffer/Streams.antt =====
-- The view of a buffer as a stream: the bytes written so far, and the bytes still to be read.
use dcrud.Base.{
  ℕ, zero, suc, ◌+◌, ◌-◌, ◌≤◌, ◌≡◌, ap, sym, ◌∙◌, List, [], ◌∷◌, ◌++◌, length, take, drop, slice,
  overwrite, length-overwrite, length-append, length-take, length-drop, take_of_length,
  drop_of_length, get_elem?, some, take-overwrite, overwrite-overwrite, drop-drop, drop-take,
  take-take, arith,
}
use dcrud.Io.ByteBuffer.{Buffer}
use dcrud.Io.ByteBuffer.Valid.{IsValid}

-- The bytes before the position.
abbrev pub written : Buffer → List ℕ
written b = take b.position b.bytes

-- The bytes from the position up to the limit.
abbrev pub unread : Buffer → List ℕ
unread b = slice b.bytes b.position (b.limit - b.position)

-- `n` more bytes fit.
abbrev pub Fits : Buffer → ℕ → Type 0
Fits b n = b.position + n ≤ b.limit

-- The buffer after the bytes `s` were put, and after `n` bytes were taken.
unfoldable pub append : Buffer → List ℕ → Buffer
append b s = record b { bytes = overwrite b.bytes b.position s; position = b.position + length s }

unfoldable pub advance : Buffer → ℕ → Buffer
advance b n = record b { position = b.position + n }

pub append-IsValid :
    {b : Buffer} (s : List ℕ) → IsValid b → Fits b (length s) → IsValid (append b s)
unfolding append
append-IsValid {b} s v h = omega (arith, length-overwrite b.bytes b.position s)

pub written-append :
    {b : Buffer} (s : List ℕ)
    → IsValid b
    → Fits b (length s)
    → written (append b s) ≡ written b ++ s
unfolding append
written-append {b} s v h = take-overwrite b.bytes b.position s (omega arith)

-- To put `s` and then `t` is to put both at once.
pub append-append : (b : Buffer) (s t : List ℕ) → append (append b s) t ≡ append b (s ++ t)
unfolding append
append-append b s t =
    let bytes = overwrite-overwrite b.bytes b.position s t in
    let position : b.position + length s + length t ≡ b.position + length (s ++ t) =
      omega (arith, length-append s t) in
    λ i. record b { bytes = bytes i; position = position i }

pub advance-IsValid : {b : Buffer} (n : ℕ) → IsValid b → Fits b n → IsValid (advance b n)
unfolding advance
advance-IsValid n v h = omega arith

pub unread-advance : (b : Buffer) (n : ℕ) → unread (advance b n) ≡ drop n (unread b)
unfolding advance
unread-advance b n =
    let left : b.limit - (b.position + n) ≡ b.limit - b.position - n = omega arith in
    rw (left, drop-take, drop-drop)

pub take-unread : (b : Buffer) (n : ℕ) → Fits b n → take n (unread b) ≡ slice b.bytes b.position n
take-unread b n h = take-take n (b.limit - b.position) (drop b.position b.bytes) (omega arith)

-- A valid buffer has as much to read as its limit says.
pub length-unread : {b : Buffer} → IsValid b → length (unread b) ≡ b.limit - b.position
length-unread {b} v = omega (
  arith,
  length-take (b.limit - b.position) (drop b.position b.bytes),
  length-drop b.position b.bytes,
)

-- What stands first in the stream fits, is what a copy of its length reads, and leaves the rest.
module _ {b : Buffer} (s rest : List ℕ) (v : IsValid b) (e : unread b ≡ s ++ rest) where
  pub unread-Fits : Fits b (length s)
  unread-Fits = omega (arith, length-unread v, ap length e, length-append s rest, v.below)

  pub slice-unread : slice b.bytes b.position (length s) ≡ s
  slice-unread =
      sym (take-unread b (length s) unread-Fits) ∙ ap (take (length s)) e ∙ take_of_length s rest

  pub unread_rest : unread (advance b (length s)) ≡ rest
  unread_rest = unread-advance b (length s) ∙ ap (drop (length s)) e ∙ drop_of_length s rest

get_elem?-eq-slice : (xs : List ℕ) (i x : ℕ) → slice xs i 1 ≡ x ∷ [] → get_elem? xs i ≡ some x
get_elem?-eq-slice [] zero x h = cc
get_elem?-eq-slice (y ∷ xs) zero x h = ground arith
get_elem?-eq-slice [] (suc i) x h = cc
get_elem?-eq-slice (y ∷ xs) (suc i) x h = get_elem?-eq-slice xs i x h

pub get_elem?-unread :
    {b : Buffer} (x : ℕ) (rest : List ℕ)
    → IsValid b
    → unread b ≡ x ∷ rest
    → get_elem? b.bytes b.position ≡ some x
get_elem?-unread {b} x rest v e =
    get_elem?-eq-slice b.bytes b.position x (slice-unread (x ∷ []) rest v e)
