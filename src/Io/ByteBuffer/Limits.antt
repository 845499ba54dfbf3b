-- ===== src/Io/ByteBuffer/Limits.antt =====
-- Where the puts and gets of C/src/io/ByteBuffer.c stop: the room that is left, the size of a
-- destination, and ranges that run backwards.
use mathlib.Core.Option
use dcrud.Base.{
  ℕ, ◌+◌, ◌-◌, ◌^◌, ◌≤◌, ◌<◌, ◌≡◌, ◌∙◌, ap, Bool, Option, none, some, List, ◌++◌, length, leb,
  if◌then◌else◌, Bool-cases, leb→le, le→not_ltb, inl, inr, arith,
}
use dcrud.Util.Status.{Status, no_error, overflow, underflow}
use dcrud.Io.ByteBuffer.{Buffer, put, sub_size}
use dcrud.Io.ByteBuffer.Numbers.{put_word, put_ushort, put_uint, put_ulong, get_uint}
use dcrud.Io.ByteBuffer.Text.{get_string, get_chars, on_length}
use dcrud.Io.ByteBuffer.Words.{
  wire, length-wire, IsSwap, swap16-IsSwap, swap32-IsSwap, swap64-IsSwap,
}
use dcrud.Io.ByteBuffer.Streams.{append, advance, unread}
use dcrud.Io.ByteBuffer.Wire.{IsOpen, put_word-append, put_word-overflow, get_word-advance}

-- A put that appends its bytes if they fit, and else returns `overflow` and changes nothing.
abbrev pub bounded_put : Buffer → List ℕ → Status × Option Buffer
bounded_put b s =
    if leb (b.position + length s) b.limit
    then (no_error, some (append b s))
    else (overflow, some b)

module _ {b : Buffer} (o : IsOpen b) (host_big : Bool) where
  put_word-bounded :
      {w : ℕ} {swap : ℕ → ℕ} (s : IsSwap w swap) (v : ℕ)
      → w ≤ 8
      → v < 256 ^ w
      → put_word w swap host_big (some b) v ≡ bounded_put b (wire b.order w v)
  put_word-bounded {w} {swap} s v small h =
      rw (length-wire b.order w v) (elim (Bool-cases (leb (b.position + w) b.limit)) [
        | inl e ↦ rw e (put_word-append o s small host_big v h (leb→le _ _ e))
        | inr e ↦ rw e (put_word-overflow o s small host_big v (λ k. ground arith))
      ])

  -- Every number of two, four or eight bytes is put in the byte order of the buffer, whatever the
  -- host is, if it fits below the limit; else the status is `overflow` and nothing changes.
  pub put_numbers-bounded :
      (v16 v32 v64 : ℕ)
      → v16 < 2 ^ 16
      → v32 < 2 ^ 32
      → v64 < 2 ^ 64
      → (put_ushort host_big (some b) v16 ≡ bounded_put b (wire b.order 2 v16))
        × (put_uint host_big (some b) v32 ≡ bounded_put b (wire b.order 4 v32))
        × (put_ulong host_big (some b) v64 ≡ bounded_put b (wire b.order 8 v64))
  unfolding put_ushort put_uint put_ulong
  put_numbers-bounded v16 v32 v64 h k l = (
    put_word-bounded swap16-IsSwap v16 (omega arith) h,
    put_word-bounded swap32-IsSwap v32 (omega arith) k,
    put_word-bounded swap64-IsSwap v64 (omega arith) l,
  )

  -- A string that does not fit its destination is not copied, and stays unread behind its length.
  -- The status is `underflow` only if the string is as long as the destination; of a longer one the
  -- caller is told `no_error`.
  pub get_string_too_long :
      (s rest : List ℕ) (size : ℕ)
      → length s < 2 ^ 32
      → size ≤ length s
      → unread b ≡ wire b.order 4 (length s) ++ rest
      → get_string host_big (some b) size
        ≡ ((if leb (length s) size then underflow else no_error), none, some (advance b 4))
  unfolding get_string get_uint get_chars
  get_string_too_long s rest size h k e =
      ap (on_length size)
        (get_word-advance o swap32-IsSwap (omega arith) host_big (length s) rest h e)
      ∙ rw (le→not_ltb _ _ k)
          (elim (Bool-cases (leb (length s) size)) [ inl f ↦ rw f | inr f ↦ rw f ])

-- A range that runs backwards by no more than the position is accepted: its count wraps, the
-- position moves back by as much, and the `memcpy` was asked for nearly 2 ^ 64 bytes.
pub put_backwards :
    {b : Buffer} (src : List ℕ) (from to : ℕ)
    → IsOpen b
    → from < 2 ^ 63
    → to < from
    → from - to ≤ b.position
    → let (status, self) = put (some b) src from to in
      (status ≡ no_error)
      × (Option.map (λ c. c.position) self ≡ some (b.position - (from - to)))
      × (sub_size to from ≡ 2 ^ 64 - (from - to))
unfolding put
put_backwards src from to o h k l = ground arith
