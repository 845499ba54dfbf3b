-- ===== src/Io/ByteBuffer/Allocation.antt =====
-- `ioByteBuffer_wrap`, `_new`, `_copy` and `_delete` (C/src/io/ByteBuffer.c) in both builds.
-- What the allocator answers is an argument: `reserve n` is the memory that `malloc`, or the pool
-- of chunks of `n` bytes, gives; `allocated` tells if there is room for an `ioByteBufferImpl`.
use mathlib.Core.Option
use dcrud.Base.{ℕ, leb, if◌then◌else◌, Bool, Option, none, some, List, replicate, slice, overwrite}
use dcrud.Util.Status.{
  Status, no_error, null_argument, too_many, Build, static_allocation, dynamic_allocation,
}
use dcrud.Util.SafeCast.{safe_cast, valid, failed}
use dcrud.Io.ByteBuffer.{Buffer, big_endian, buffer_magic, add_size}

-- `ioByteBuffer_wrap`
unfoldable pub wrap : Bool → ℕ → List ℕ → Status × Option Buffer
wrap allocated capacity array =
    if allocated
    then (
      no_error,
      some (record {
        magic = buffer_magic;
        order = big_endian;
        position = 0;
        limit = capacity;
        capacity = capacity;
        mark = add_size capacity 1;
        bytes = overwrite array 0 (replicate capacity 0);
      }),
    )
    else (too_many, none)

-- The pool that serves a capacity in the static build, by the size of its chunks.
unfoldable pub chunk_size : ℕ → Option ℕ
chunk_size capacity =
    if leb capacity 256
    then some 256
    else if leb capacity 512
    then some 512
    else if leb capacity 1024
    then some 1024
    else if leb capacity 2048
    then some 2048
    else if leb capacity 4096
    then some 4096
    else if leb capacity 8192
    then some 8192
    else if leb capacity 16384
    then some 16384
    else if leb capacity 32768
    then some 32768
    else if leb capacity 65536
    then some 65536
    else none

-- How many bytes `ioByteBuffer_new` asks for.
abbrev pub request : Build → ℕ → Option ℕ
request static_allocation capacity = chunk_size capacity
request dynamic_allocation capacity = some capacity

-- The end of `ioByteBuffer_new`, once the memory is reserved or not.
abbrev pub wrap_reserved : Bool → Option Buffer → ℕ → Option (List ℕ) → Status × Option Buffer
wrap_reserved allocated self capacity none = (too_many, self)
wrap_reserved allocated self capacity (some array) = wrap allocated capacity array

-- `ioByteBuffer_new`. The handle keeps its value if there is no memory for the bytes.
unfoldable pub new :
    Build → (ℕ → Option (List ℕ)) → Bool → Option Buffer → ℕ → Status × Option Buffer
new build reserve allocated self capacity =
    wrap_reserved allocated self capacity (Option.bind (request build capacity) reserve)

-- The `memcpy` of `ioByteBuffer_copy`. Nothing bounds `len` by what the source holds.
abbrev pub fill : Buffer → ℕ → Status × Option Buffer → Status × Option Buffer
fill this len (no_error, some target) = (
  no_error,
  some (record target { bytes = overwrite target.bytes 0 (slice this.bytes this.position len) }),
)
fill this len made = made

-- `ioByteBuffer_copy`: the status, and the handle `*to`.
unfoldable pub copy :
    Build
    → (ℕ → Option (List ℕ))
    → Bool
    → Option Buffer
    → Option Buffer
    → ℕ
    → Status × Option Buffer
copy build reserve allocated self to len = elim (safe_cast (λ b. b.magic) buffer_magic self) [
  | failed status ↦ (status, to)
  | valid this ↦ fill this len (new build reserve allocated to len)
]

-- `ioByteBuffer_delete` in the dynamic build: `none` is a NULL `self`, and the memory goes back to
-- the allocator. The result is the handle `*self`.
unfoldable pub delete : Option (Option Buffer) → Status × Option (Option Buffer)
delete none = (null_argument, none)
delete (some self) = elim (safe_cast (λ b. b.magic) buffer_magic self) [
  | failed status ↦ (status, some self)
  | valid this ↦ (no_error, some none)
]
