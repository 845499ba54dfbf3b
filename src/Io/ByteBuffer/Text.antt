-- ===== src/Io/ByteBuffer/Text.antt =====
-- `ioByteBuffer_putString` and `_getString` (C/src/io/ByteBuffer.c). A C string is the list of its
-- characters, the final NUL left out.
use dcrud.Base.{ℕ, ◌%◌, ◌^◌, ltb, leb, if◌then◌else◌, Bool, Option, none, some, List, length}
use dcrud.Util.Status.{Status, no_error, underflow, check}
use dcrud.Io.ByteBuffer.{Buffer, put, get}
use dcrud.Io.ByteBuffer.Numbers.{put_uint, get_uint}

-- `ioByteBuffer_putString`
unfoldable pub put_string : Bool → Option Buffer → List ℕ → Status × Option Buffer
put_string host_big self source =
    let (status, self') = put_uint host_big self (length source % 2 ^ 32) in
    check status (put self' source 0 (length source)) (status, self')

-- What `ioByteBuffer_getString` does once it has the length: the string that `dest` holds then,
-- or `none` if `dest` stays untouched.
unfoldable pub get_chars : Option Buffer → ℕ → ℕ → Status × Option (List ℕ) × Option Buffer
get_chars self size len =
    if ltb len size
    then get self 0 len
    else if leb len size
    then (underflow, none, self)
    else (no_error, none, self)

-- What follows the read of the length.
abbrev pub on_length :
    ℕ → Status × Option ℕ × Option Buffer → Status × Option (List ℕ) × Option Buffer
on_length size (status, none, self) = (status, none, self)
on_length size (status, some len, self) = get_chars self size len

-- `ioByteBuffer_getString`
unfoldable pub get_string : Bool → Option Buffer → ℕ → Status × Option (List ℕ) × Option Buffer
get_string host_big self size = on_length size (get_uint host_big self)
