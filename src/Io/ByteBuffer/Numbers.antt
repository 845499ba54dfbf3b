-- ===== src/Io/ByteBuffer/Numbers.antt =====
-- The numbers of `ioByteBuffer` (C/src/io/ByteBuffer.c): `_putUShort` to `_getULong`, and the
-- signed and floating types that go through them.
-- A number of `w` bytes is a value below 256 ^ w; a `short`, `int`, `int64_t`, `float` or `double`
-- is its bit pattern. The C code masks a byte lane and shifts it: here `lane`. The lanes are
-- disjoint, so `|` is `+`. `host_big` is `hostIsBigEndian`.
use dcrud.Base.{
  ℕ, zero, suc, ◌+◌, ◌*◌, ◌/◌, ◌%◌, ◌^◌, ltb, if◌then◌else◌, Bool, true, false, not, ◌&&◌, ◌||◌,
  Option, none, some, List, [], ◌∷◌, slice, overwrite, reverse,
}
use dcrud.Util.Status.{Status, no_error, overflow, underflow}
use dcrud.Io.ByteBuffer.{
  Buffer, Order, big_endian, little_endian, add_size, with_buffer, read_buffer,
}

abbrev pub lane : ℕ → ℕ → ℕ
lane value shift = value / 2 ^ shift % 256

unfoldable pub swap16 : ℕ → ℕ
swap16 value = (lane value 8 + lane value 0 * 2 ^ 8) % 2 ^ 16

unfoldable pub swap32 : ℕ → ℕ
swap32 value =
    lane value 24 + lane value 16 * 2 ^ 8 + lane value 8 * 2 ^ 16 + value * 2 ^ 24 % 2 ^ 32

unfoldable pub swap64 : ℕ → ℕ
swap64 value =
    lane value 56
    + lane value 48 * 2 ^ 8
    + lane value 40 * 2 ^ 16
    + lane value 32 * 2 ^ 24
    + lane value 24 * 2 ^ 32
    + lane value 16 * 2 ^ 40
    + lane value 8 * 2 ^ 48
    + value * 2 ^ 56 % 2 ^ 64

-- A number in memory, the low byte first.
unfoldable pub le_bytes : ℕ → ℕ → List ℕ
le_bytes zero value = []
le_bytes (suc w) value = value % 256 ∷ le_bytes w (value / 256)

unfoldable pub from_le : List ℕ → ℕ
from_le [] = 0
from_le (x ∷ xs) = x + from_le xs * 256

-- `memcpy` from and to a variable of the host.
unfoldable pub host_bytes : Bool → ℕ → ℕ → List ℕ
host_bytes host_big w value = if host_big then reverse (le_bytes w value) else le_bytes w value

unfoldable pub from_host : Bool → List ℕ → ℕ
from_host host_big xs = if host_big then from_le (reverse xs) else from_le xs

-- `(order == LITTLE && hostIsBigEndian) || (order == BIG && !hostIsBigEndian)`
abbrev pub is_little : Order → Bool
is_little big_endian = false
is_little little_endian = true

abbrev pub is_big : Order → Bool
is_big big_endian = true
is_big little_endian = false

unfoldable pub must_swap : Order → Bool → Bool
must_swap order host_big = is_little order && host_big || is_big order && not host_big

-- The body that `_putUShort`, `_putUInt` and `_putULong` share, for a width and its swap.
unfoldable pub put_word : ℕ → (ℕ → ℕ) → Bool → Option Buffer → ℕ → Status × Option Buffer
put_word w swap host_big self value = with_buffer self λ b.
    if ltb b.limit (add_size b.position w)
    then (overflow, b)
    else let stored = if must_swap b.order host_big then swap value else value in
      (
        no_error,
        record b {
          bytes = overwrite b.bytes b.position (host_bytes host_big w stored);
          position = add_size b.position w;
        },
      )

-- The body that `_getUShort`, `_getUInt` and `_getULong` share.
unfoldable pub get_word : ℕ → (ℕ → ℕ) → Bool → Option Buffer → Status × Option ℕ × Option Buffer
get_word w swap host_big self = read_buffer self λ b.
    if ltb b.limit (add_size b.position w)
    then (underflow, none, b)
    else let stored = from_host host_big (slice b.bytes b.position w) in
      (
        no_error,
        some (if must_swap b.order host_big then swap stored else stored),
        record b { position = add_size b.position w },
      )

-- `ioByteBuffer_putUShort`
unfoldable pub put_ushort : Bool → Option Buffer → ℕ → Status × Option Buffer
put_ushort host_big self value = put_word 2 swap16 host_big self value

-- `ioByteBuffer_getUShort`
unfoldable pub get_ushort : Bool → Option Buffer → Status × Option ℕ × Option Buffer
get_ushort host_big self = get_word 2 swap16 host_big self

-- `ioByteBuffer_putShort`
unfoldable pub put_short : Bool → Option Buffer → ℕ → Status × Option Buffer
unfolding put_ushort
put_short host_big self value = put_ushort host_big self value

-- `ioByteBuffer_getShort`
unfoldable pub get_short : Bool → Option Buffer → Status × Option ℕ × Option Buffer
unfolding get_ushort
get_short host_big self = get_ushort host_big self

-- `ioByteBuffer_putUInt`
unfoldable pub put_uint : Bool → Option Buffer → ℕ → Status × Option Buffer
put_uint host_big self value = put_word 4 swap32 host_big self value

-- `ioByteBuffer_getUInt`
unfoldable pub get_uint : Bool → Option Buffer → Status × Option ℕ × Option Buffer
get_uint host_big self = get_word 4 swap32 host_big self

-- `ioByteBuffer_putInt`
unfoldable pub put_int : Bool → Option Buffer → ℕ → Status × Option Buffer
unfolding put_uint
put_int host_big self value = put_uint host_big self value

-- `ioByteBuffer_getInt`
unfoldable pub get_int : Bool → Option Buffer → Status × Option ℕ × Option Buffer
unfolding get_uint
get_int host_big self = get_uint host_big self

-- `ioByteBuffer_putFloat`
unfoldable pub put_float : Bool → Option Buffer → ℕ → Status × Option Buffer
unfolding put_uint
put_float host_big self value = put_uint host_big self value

-- `ioByteBuffer_getFloat`
unfoldable pub get_float : Bool → Option Buffer → Status × Option ℕ × Option Buffer
unfolding get_uint
get_float host_big self = get_uint host_big self

-- `ioByteBuffer_putULong`
unfoldable pub put_ulong : Bool → Option Buffer → ℕ → Status × Option Buffer
put_ulong host_big self value = put_word 8 swap64 host_big self value

-- `ioByteBuffer_getULong`
unfoldable pub get_ulong : Bool → Option Buffer → Status × Option ℕ × Option Buffer
get_ulong host_big self = get_word 8 swap64 host_big self

-- `ioByteBuffer_putLong`
unfoldable pub put_long : Bool → Option Buffer → ℕ → Status × Option Buffer
unfolding put_ulong
put_long host_big self value = put_ulong host_big self value

-- `ioByteBuffer_getLong`
unfoldable pub get_long : Bool → Option Buffer → Status × Option ℕ × Option Buffer
unfolding get_ulong
get_long host_big self = get_ulong host_big self

-- `ioByteBuffer_putDouble`
unfoldable pub put_double : Bool → Option Buffer → ℕ → Status × Option Buffer
unfolding put_ulong
put_double host_big self value = put_ulong host_big self value

-- `ioByteBuffer_getDouble`
unfoldable pub get_double : Bool → Option Buffer → Status × Option ℕ × Option Buffer
unfolding get_ulong
get_double host_big self = get_ulong host_big self

-- `ioByteBuffer_putUIntAt`: the position stays. An index so near 2 ^ 64 that the sum wraps passes,
-- and the code writes outside of the buffer; the bytes here are not meant for that.
unfoldable pub put_uint_at : Bool → Option Buffer → ℕ → ℕ → Status × Option Buffer
put_uint_at host_big self value index = with_buffer self λ b.
    if ltb b.limit (add_size index 4)
    then (overflow, b)
    else let stored = if must_swap b.order host_big then swap32 value else value in
      (no_error, record b { bytes = overwrite b.bytes index (host_bytes host_big 4 stored) })
