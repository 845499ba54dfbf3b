-- ===== src/Io/ByteBuffer/Valid.antt =====
-- The well-formedness of an `ioByteBufferImpl`, and that every operation keeps it.
use dcrud.Base.{
  ℕ, ◌^◌, ◌≤◌, ◌<◌, Bool, Option, List, [], ◌∷◌, length, slice, length-overwrite, arith,
  if◌then◌else◌,
}
use dcrud.Util.Status.{Status}
use dcrud.Util.SafeCast.{with_self, read_self}
use dcrud.Util.SafeCast.Keeps.{Genuine, with_self-Genuine, read_self-Genuine}
use dcrud.Io.ByteBuffer
use dcrud.Io.ByteBuffer.{Buffer, buffer_magic, add_size, sub_size}
use dcrud.Io.ByteBuffer.Numbers.{put_word, get_word, host_bytes, must_swap, swap32, put_uint_at}

-- No object of C is larger than half of the address space, so no cursor arithmetic wraps.
pub record IsValid (b : Buffer) : Type 0 where
  pub below : b.position ≤ b.limit
  pub limited : b.limit ≤ b.capacity
  pub stored : b.capacity ≤ length b.bytes
  pub small : b.capacity < 2 ^ 63

-- A handle that is NULL, foreign, or points to a valid buffer.
abbrev pub Sound : Option Buffer → Type 0
Sound = Genuine (λ b. b.magic) buffer_magic IsValid

pub keeps :
    (body : Buffer → Status × Buffer)
    → ((b : Buffer) → IsValid b → IsValid (body b).1)
    → (self : Option Buffer) → Sound self
    → Sound (with_self (λ b. b.magic) buffer_magic self body).1
keeps body h = with_self-Genuine (λ b. b.magic) buffer_magic IsValid body h

pub read_keeps :
    {R : Type 0} (body : Buffer → Status × Option R × Buffer)
    → ((b : Buffer) → IsValid b → IsValid (body b).2)
    → (self : Option Buffer) → Sound self
    → Sound (read_self (λ b. b.magic) buffer_magic self body).2
read_keeps body h = read_self-Genuine (λ b. b.magic) buffer_magic IsValid body h

pub clear-Sound : (self : Option Buffer) → Sound self → Sound (ByteBuffer.clear self).1
unfolding ByteBuffer.clear
clear-Sound = keeps _ (λ b v. omega arith)

pub set_mark-Sound : (self : Option Buffer) → Sound self → Sound (ByteBuffer.set_mark self).1
unfolding ByteBuffer.set_mark
set_mark-Sound = keeps _ (λ b v. omega arith)

pub reset-Sound : (self : Option Buffer) → Sound self → Sound (ByteBuffer.reset self).1
unfolding ByteBuffer.reset
reset-Sound = keeps _ (λ b v. ground arith)

pub flip-Sound : (self : Option Buffer) → Sound self → Sound (ByteBuffer.flip self).1
unfolding ByteBuffer.flip
flip-Sound = keeps _ (λ b v. omega arith)

pub set_position-Sound :
    (self : Option Buffer) (position : ℕ)
    → Sound self
    → Sound (ByteBuffer.set_position self position).1
unfolding ByteBuffer.set_position
set_position-Sound self position = keeps _ (λ b v. ground arith) self

pub put-Sound :
    (self : Option Buffer) (src : List ℕ) (from to : ℕ)
    → Sound self
    → Sound (ByteBuffer.put self src from to).1
unfolding ByteBuffer.put
put-Sound self src from to =
    keeps _
      (λ b v.
        ground (arith, length-overwrite b.bytes b.position (slice src from (sub_size to from))))
      self

pub get-Sound :
    (self : Option Buffer) (from to : ℕ) → Sound self → Sound (ByteBuffer.get self from to).2
unfolding ByteBuffer.get
get-Sound self from to = read_keeps _ (λ b v. ground arith) self

pub put_byte-Sound :
    (self : Option Buffer) (value : ℕ) → Sound self → Sound (ByteBuffer.put_byte self value).1
unfolding ByteBuffer.put_byte
put_byte-Sound self value =
    keeps _ (λ b v. ground (arith, length-overwrite b.bytes b.position (value ∷ []))) self

pub get_byte-Sound : (self : Option Buffer) → Sound self → Sound (ByteBuffer.get_byte self).2
unfolding ByteBuffer.get_byte
get_byte-Sound = read_keeps _ (λ b v. ground arith)

module _ (w : ℕ) (swap : ℕ → ℕ) (host_big : Bool) where
  pub put_word-Sound :
      (self : Option Buffer) (value : ℕ)
      → Sound self
      → Sound (put_word w swap host_big self value).1
  unfolding put_word
  put_word-Sound self value =
      keeps _
        (λ b v. ground (
          arith,
          length-overwrite b.bytes b.position
              (host_bytes host_big w (if must_swap b.order host_big then swap value else value)),
        ))
        self

  pub get_word-Sound : (self : Option Buffer) → Sound self → Sound (get_word w swap host_big self).2
  unfolding get_word
  get_word-Sound = read_keeps _ (λ b v. ground arith)

pub put_uint_at-Sound :
    (host_big : Bool) (self : Option Buffer) (value index : ℕ)
    → Sound self
    → Sound (put_uint_at host_big self value index).1
unfolding put_uint_at
put_uint_at-Sound host_big self value index =
    keeps _
      (λ b v. ground (
        arith,
        length-overwrite b.bytes index
            (host_bytes host_big 4 (if must_swap b.order host_big then swap32 value else value)),
      ))
      self
