-- ===== src/Io/ByteBuffer.antt =====
-- `ioByteBuffer` (C/src/io/ByteBuffer.c): its state, the cursor operations and the copies of raw
-- bytes. `bytes` is the storage behind the pointer. `size_t` arithmetic wraps at 2 ^ 64.
pub mod Allocation
pub mod Numbers
pub mod Words
pub mod Text
pub mod Socket
pub mod Valid
pub mod Streams
pub mod Wire
pub mod Fields
pub mod RoundTrip
pub mod Exchange
pub mod Writes
pub mod Transfer
pub mod Copies
pub mod Calls
pub mod Reach
pub mod Limits
use dcrud.Base.{
  ℕ, ◌+◌, ◌-◌, ◌%◌, ◌^◌, ltb, leb, if◌then◌else◌, Bool, Option, none, some, List, [], ◌∷◌, slice,
  overwrite, get_elem?,
}
use dcrud.Util.Status.{Status, no_error, overflow, underflow, illegal_state, null_argument}
use dcrud.Util.SafeCast.{safe_cast, valid, failed, with_self, read_self}

-- `ioByteOrder`
pub data Order : Type 0 where
  big_endian : Order
  little_endian : Order

-- `ioByteBufferImpl`
pub record Buffer : Type 0 where
  pub magic : ℕ
  pub order : Order
  pub position : ℕ
  pub limit : ℕ
  pub capacity : ℕ
  pub mark : ℕ
  pub bytes : List ℕ

-- `ioByteBufferImplMAGIC`
abbrev pub buffer_magic : ℕ
buffer_magic = 0x04000001

-- `size_t` addition and subtraction
abbrev pub add_size : ℕ → ℕ → ℕ
add_size a b = (a + b) % 2 ^ 64

abbrev pub sub_size : ℕ → ℕ → ℕ
sub_size a b = (a + 2 ^ 64 - b) % 2 ^ 64

abbrev pub with_buffer : Option Buffer → (Buffer → Status × Buffer) → Status × Option Buffer
with_buffer = with_self (λ b. b.magic) buffer_magic

abbrev pub read_buffer :
    {R : Type 0}
    → Option Buffer
    → (Buffer → Status × Option R × Buffer)
    → Status × Option R × Option Buffer
read_buffer = read_self (λ b. b.magic) buffer_magic

-- `ioByteBuffer_clear`
unfoldable pub clear : Option Buffer → Status × Option Buffer
clear self = with_buffer self λ b. (no_error, record b { position = 0; limit = b.capacity })

-- `ioByteBuffer_mark`
unfoldable pub set_mark : Option Buffer → Status × Option Buffer
set_mark self = with_buffer self λ b. (no_error, record b { mark = b.position })

-- `ioByteBuffer_reset`
unfoldable pub reset : Option Buffer → Status × Option Buffer
reset self = with_buffer self λ b.
    if ltb b.mark b.limit
    then (no_error, record b { position = b.mark; mark = add_size b.capacity 1 })
    else (illegal_state, b)

-- `ioByteBuffer_flip`
unfoldable pub flip : Option Buffer → Status × Option Buffer
flip self = with_buffer self λ b. (no_error, record b { limit = b.position; position = 0 })

-- `ioByteBuffer_setPosition`
unfoldable pub set_position : Option Buffer → ℕ → Status × Option Buffer
set_position self position = with_buffer self λ b.
    if leb position b.limit then (no_error, record b { position = position }) else (overflow, b)

-- The read-outs: `target` tells if the out pointer is not NULL.
abbrev read_out :
    {R : Type 0} → Option Buffer → Bool → (Buffer → R) → Status × Option R × Option Buffer
read_out self target field =
    if target
    then (read_buffer self λ b. (no_error, some (field b), b))
    else (null_argument, none, self)

-- `ioByteBuffer_getPosition`
unfoldable pub get_position : Option Buffer → Bool → Status × Option ℕ × Option Buffer
get_position self target = read_out self target (λ b. b.position)

-- `ioByteBuffer_getLimit`
unfoldable pub get_limit : Option Buffer → Bool → Status × Option ℕ × Option Buffer
get_limit self target = read_out self target (λ b. b.limit)

-- `ioByteBuffer_remaining`
unfoldable pub remaining : Option Buffer → Bool → Status × Option ℕ × Option Buffer
remaining self target = read_out self target (λ b. sub_size b.limit b.position)

-- `ioByteBuffer_array`
unfoldable pub array : Option Buffer → Bool → Status × Option (List ℕ) × Option Buffer
array self target = read_out self target (λ b. b.bytes)

-- `ioByteBuffer_put`: `src + from` up to `src + to`. For a range that runs backwards the status and
-- the position are those of the code, but the bytes are not: its `memcpy` leaves the buffer.
unfoldable pub put : Option Buffer → List ℕ → ℕ → ℕ → Status × Option Buffer
put self src from to = with_buffer self λ b.
    let count = sub_size to from in
    if ltb b.limit (add_size b.position count) then (overflow, b) else (
      no_error,
      record b {
        bytes = overwrite b.bytes b.position (slice src from count);
        position = add_size b.position count;
      },
    )

-- `ioByteBuffer_get`: the bytes that are copied to `target + from`; for a range that runs backwards
-- the code reads on behind the buffer.
unfoldable pub get : Option Buffer → ℕ → ℕ → Status × Option (List ℕ) × Option Buffer
get self from to = read_buffer self λ b.
    let count = sub_size to from in
    if ltb b.limit (add_size b.position count) then (underflow, none, b) else (
      no_error,
      some (slice b.bytes b.position count),
      record b { position = add_size b.position count },
    )

-- `ioByteBuffer_putByte`
unfoldable pub put_byte : Option Buffer → ℕ → Status × Option Buffer
put_byte self value = with_buffer self λ b.
    if ltb b.limit (add_size b.position 1) then (overflow, b) else (
      no_error,
      record b {
        bytes = overwrite b.bytes b.position (value ∷ []);
        position = add_size b.position 1;
      },
    )

-- `ioByteBuffer_getByte`
unfoldable pub get_byte : Option Buffer → Status × Option ℕ × Option Buffer
get_byte self = read_buffer self λ b.
    if ltb b.limit (add_size b.position 1)
    then (underflow, none, b)
    else (no_error, get_elem? b.bytes b.position, record b { position = add_size b.position 1 })

-- `ioByteBuffer_putBuffer`: both buffers move on.
unfoldable pub put_buffer : Option Buffer → Option Buffer → Status × Option Buffer × Option Buffer
put_buffer self other = elim (safe_cast (λ b. b.magic) buffer_magic self) [
  | failed status ↦ (status, self, other)
  | valid this ↦ elim (safe_cast (λ b. b.magic) buffer_magic other) [
    | failed status ↦ (status, self, other)
    | valid source ↦
        let count = sub_size source.limit source.position in
        if ltb this.limit (add_size this.position count) then (overflow, self, other) else (
          no_error,
          some (record this {
            bytes = overwrite this.bytes this.position (slice source.bytes source.position count);
            position = add_size this.position count;
          }),
          some (record source { position = add_size source.position count }),
        )
  ]
]
