-- ===== src/Io/ByteBuffer/Writes.antt =====
-- Calls that put bytes to a buffer of C/src/io/ByteBuffer.c, one after the other.
use mathlib.Core.List.{reverse-reverse}
use dcrud.Base.{
  ℕ, ◌^◌, ◌%◌, ◌<◌, ◌≡◌, refl, sym, ap, ◌∙◌, subst, Bool, true, false, Option, some, List, [], ◌∷◌,
  ◌++◌, length, take, take_of_length, length-append, arith,
}
use dcrud.Util.Status.{Status, no_error, check}
use dcrud.Io.ByteBuffer.{Buffer, Order, big_endian, little_endian, put_byte}
use dcrud.Io.ByteBuffer.Numbers.{put_word, le_bytes, from_le, host_bytes, from_host}
use dcrud.Io.ByteBuffer.Text.{put_string}
use dcrud.Io.ByteBuffer.Words.{
  wire, length-wire, length-le_bytes, length-reverse, from_le-le_bytes, IsSwap,
}
use dcrud.Io.ByteBuffer.Streams.{Fits, append, append-append}
use dcrud.Io.ByteBuffer.Wire.{
  IsOpen, append-IsOpen, Fits-append, order-append, put_byte-append, put_word-append,
}
use dcrud.Io.ByteBuffer.RoundTrip.{put_string-append}

-- The call puts these bytes, in the byte order of the buffer, if they fit.
pub record Writes (call : Option Buffer → Status × Option Buffer) (s : Order → List ℕ)
    : Type 0 where
  pub at :
      (b : Buffer)
      → IsOpen b
      → Fits b (length (s b.order))
      → call (some b) ≡ (no_error, some (append b (s b.order)))

-- `CHK`, or `if( UTIL_STATUS_NO_ERROR == status )`, between two calls.
abbrev pub then_call :
    (Option Buffer → Status × Option Buffer)
    → (Option Buffer → Status × Option Buffer)
    → Option Buffer
    → Status × Option Buffer
then_call first second b = let (status, b') = first b in check status (second b') (status, b')

pub then_call-Writes :
    {first second : Option Buffer → Status × Option Buffer} {s t : Order → List ℕ}
    → Writes first s
    → Writes second t
    → Writes (then_call first second) (λ order. s order ++ t order)
then_call-Writes {first} {second} {s} {t} f g = record { at = both_at }
  where
    both_at :
        (b : Buffer)
        → IsOpen b
        → Fits b (length (s b.order ++ t b.order))
        → then_call first second (some b) ≡ (no_error, some (append b (s b.order ++ t b.order)))
    both_at b o h =
        let both = length-append (s b.order) (t b.order) in
        let fits : Fits b (length (s b.order)) = omega arith in
        let same = order-append b (s b.order) in
        let room : Fits (append b (s b.order)) (length (t (append b (s b.order)).order)) =
          subst (λ order. Fits (append b (s b.order)) (length (t order))) (sym same)
            (Fits-append b (s b.order) (length (t b.order)) (omega arith)) in
        ap (λ r. check r.0 (second r.1) r) (f.at b o fits)
        ∙ g.at (append b (s b.order)) (append-IsOpen (s b.order) o fits) room
        ∙ ap (λ order. (no_error, some (append (append b (s b.order)) (t order)))) same
        ∙ ap (λ c. (no_error, some c)) (append-append b (s b.order) (t b.order))

pub put_byte-Writes : (x : ℕ) → Writes (λ b. put_byte b x) (λ order. x ∷ [])
put_byte-Writes x = record { at = λ b o h. put_byte-append o x h }

pub put_word-Writes :
    {w : ℕ} {swap : ℕ → ℕ} (host_big : Bool) (v : ℕ)
    → IsSwap w swap
    → w < 9
    → v < 256 ^ w
    → Writes (λ b. put_word w swap host_big b v) (λ order. wire order w v)
put_word-Writes {w} host_big v s small k = record {
  at = λ b o h.
      put_word-append o s (omega arith) host_big v k (omega (arith, length-wire b.order w v));
}

pub put_string-Writes :
    (host_big : Bool) (s : List ℕ)
    → length s < 256 ^ 4
    → Writes (λ b. put_string host_big b s) (λ order. wire order 4 (length s) ++ s)
put_string-Writes host_big s k = record {
  at = λ b o h. put_string-append host_big s o k (
      omega (arith, length-wire b.order 4 (length s), length-append (wire b.order 4 (length s)) s));
}

-- One byte has no order.
pub wire-one : (order : Order) (x : ℕ) → x < 256 → wire order 1 x ≡ x ∷ []
unfolding le_bytes
wire-one big_endian x h = let e : x % 256 ≡ x = omega arith in rw e refl
wire-one little_endian x h = let e : x % 256 ≡ x = omega arith in rw e refl

length-host_bytes : (host_big : Bool) (w x : ℕ) → length (host_bytes host_big w x) ≡ w
unfolding host_bytes
length-host_bytes true w x = length-reverse (le_bytes w x) ∙ length-le_bytes w x
length-host_bytes false w x = length-le_bytes w x

from_host-host_bytes :
    (host_big : Bool) (w x : ℕ) → x < 256 ^ w → from_host host_big (host_bytes host_big w x) ≡ x
unfolding host_bytes from_host
from_host-host_bytes true w x h =
    ap from_le (reverse-reverse (le_bytes w x)) ∙ from_le-le_bytes w x h
from_host-host_bytes false w x h = from_le-le_bytes w x h

-- A number that is stored at the start of some memory is read from there.
pub from_host-take :
    (host_big : Bool) (w x : ℕ) (rest : List ℕ)
    → x < 256 ^ w
    → from_host host_big (take w (host_bytes host_big w x ++ rest)) ≡ x
from_host-take host_big w x rest h =
    ap (λ n. from_host host_big (take n (host_bytes host_big w x ++ rest)))
      (sym (length-host_bytes host_big w x))
    ∙ ap (from_host host_big) (take_of_length (host_bytes host_big w x) rest)
    ∙ from_host-host_bytes host_big w x h
