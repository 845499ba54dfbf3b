-- ===== src/Io/ByteBuffer/Wire.antt =====
-- What the puts and gets of C/src/io/ByteBuffer.c do to the stream of a buffer, on both branches.
use dcrud.Base.{
  ℕ, ◌+◌, ◌^◌, ◌≤◌, ◌<◌, ◌≡◌, refl, Bool, none, some, List, [], ◌∷◌, ◌++◌, length, slice,
  length-slice, arith,
}
use dcrud.Util.Status.{no_error, overflow, underflow}
use dcrud.Io.ByteBuffer.{Buffer, buffer_magic, sub_size, put, get, put_byte, get_byte}
use dcrud.Io.ByteBuffer.Numbers.{put_word, get_word}
use dcrud.Io.ByteBuffer.Words.{wire, length-wire, IsSwap, host_bytes-wire, from_host-wire}
use dcrud.Io.ByteBuffer.Valid.{IsValid}
use dcrud.Io.ByteBuffer.Streams.{
  append-IsValid, advance-IsValid, Fits, append, advance, unread, get_elem?-unread, unread-Fits,
  slice-unread,
}

-- A valid buffer behind a handle that passes its cast.
pub record IsOpen (b : Buffer) : Type 0 where
  pub genuine : b.magic ≡ buffer_magic
  pub valid : IsValid b

module _ {b : Buffer} (o : IsOpen b) where
  pub put_byte-append :
      (x : ℕ) → Fits b 1 → put_byte (some b) x ≡ (no_error, some (append b (x ∷ [])))
  unfolding put_byte append
  put_byte-append x h = ground arith

  pub put_byte-overflow : (x : ℕ) → ¬ Fits b 1 → put_byte (some b) x ≡ (overflow, some b)
  unfolding put_byte
  put_byte-overflow x h = ground arith

  pub put-append :
      (src : List ℕ) (from n : ℕ)
      → Fits b n
      → from + n ≤ length src
      → length src < 2 ^ 63
      → put (some b) src from (from + n) ≡ (no_error, some (append b (slice src from n)))
  unfolding put append
  put-append src from n h k l =
      let count : sub_size (from + n) from ≡ n = omega arith in
      ground (arith, count, length-slice src from n k)

  pub get_byte-advance :
      (x : ℕ) (rest : List ℕ)
      → unread b ≡ x ∷ rest
      → get_byte (some b) ≡ (no_error, some x, some (advance b 1))
  unfolding get_byte advance
  get_byte-advance x rest e =
      ground (arith, get_elem?-unread x rest o.valid e, unread-Fits (x ∷ []) rest o.valid e)

  pub get_byte-underflow : ¬ Fits b 1 → get_byte (some b) ≡ (underflow, none, some b)
  unfolding get_byte
  get_byte-underflow h = ground arith

  pub put-overflow :
      (src : List ℕ) (from n : ℕ)
      → ¬ Fits b n
      → from + n ≤ length src
      → length src < 2 ^ 63
      → put (some b) src from (from + n) ≡ (overflow, some b)
  unfolding put
  put-overflow src from n h k l =
      let count : sub_size (from + n) from ≡ n = omega arith in ground (arith, count)

  pub get-advance :
      (s rest : List ℕ) (from : ℕ)
      → unread b ≡ s ++ rest
      → from + length s < 2 ^ 63
      → get (some b) from (from + length s) ≡ (no_error, some s, some (advance b (length s)))
  unfolding get advance
  get-advance s rest from e k =
      let count : sub_size (from + length s) from ≡ length s = omega arith in
      ground (arith, count, slice-unread s rest o.valid e, unread-Fits s rest o.valid e)

  pub get-underflow :
      (from n : ℕ)
      → ¬ Fits b n
      → from + n < 2 ^ 63
      → get (some b) from (from + n) ≡ (underflow, none, some b)
  unfolding get
  get-underflow from n h k =
      let count : sub_size (from + n) from ≡ n = omega arith in ground (arith, count)

  module _ {w : ℕ} {swap : ℕ → ℕ} (s : IsSwap w swap) (small : w ≤ 8) (host_big : Bool) where
    pub put_word-append :
        (v : ℕ)
        → v < 256 ^ w
        → Fits b w
        → put_word w swap host_big (some b) v ≡ (no_error, some (append b (wire b.order w v)))
    unfolding put_word append
    put_word-append v h k =
        ground (arith, host_bytes-wire s b.order host_big v h, length-wire b.order w v)

    pub put_word-overflow :
        (v : ℕ) → ¬ Fits b w → put_word w swap host_big (some b) v ≡ (overflow, some b)
    unfolding put_word
    put_word-overflow v h = ground arith

    pub get_word-advance :
        (v : ℕ) (rest : List ℕ)
        → v < 256 ^ w
        → unread b ≡ wire b.order w v ++ rest
        → get_word w swap host_big (some b) ≡ (no_error, some v, some (advance b w))
    unfolding get_word advance
    get_word-advance v rest h e = ground (
      arith,
      from_host-wire s b.order host_big v h,
      length-wire b.order w v,
      slice-unread (wire b.order w v) rest o.valid e,
      unread-Fits (wire b.order w v) rest o.valid e,
    )

    pub get_word-underflow :
        ¬ Fits b w → get_word w swap host_big (some b) ≡ (underflow, none, some b)
    unfolding get_word
    get_word-underflow h = ground arith

pub append-IsOpen : {b : Buffer} (s : List ℕ) → IsOpen b → Fits b (length s) → IsOpen (append b s)
append-IsOpen {b} s o h = record {
  genuine = unfold append in o.genuine;
  valid = append-IsValid s o.valid h;
}

pub advance-IsOpen : {b : Buffer} (n : ℕ) → IsOpen b → Fits b n → IsOpen (advance b n)
advance-IsOpen {b} n o h = record {
  genuine = unfold advance in o.genuine;
  valid = advance-IsValid n o.valid h;
}

pub order-append : (b : Buffer) (s : List ℕ) → (append b s).order ≡ b.order
unfolding append
order-append b s = refl

pub order-advance : (b : Buffer) (n : ℕ) → (advance b n).order ≡ b.order
unfolding advance
order-advance b n = refl

-- What still fits after a put.
pub Fits-append : (b : Buffer) (s : List ℕ) (n : ℕ) → Fits b (length s + n) → Fits (append b s) n
unfolding append
Fits-append b s n h = omega arith
