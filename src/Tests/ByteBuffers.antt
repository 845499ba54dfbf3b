-- ===== src/Tests/ByteBuffers.antt =====
-- The theorems on byte buffers at concrete buffers.
use mathlib.Core.Option
use dcrud.Base.{◌-◌, ◌^◌, ◌≡◌, refl, true, false, none, some, List, [], ◌∷◌, replicate, arith}
use dcrud.Util.Status.{no_error}
use dcrud.Io.ByteBuffer
use dcrud.Io.ByteBuffer.{
  Buffer, big_endian, little_endian, buffer_magic, put, clear, flip, sub_size,
}
use dcrud.Io.ByteBuffer.Allocation.{chunk_size}
use dcrud.Io.ByteBuffer.Numbers.{le_bytes, put_ushort, put_uint, put_ulong}
use dcrud.Io.ByteBuffer.Text.{get_string}
use dcrud.Io.ByteBuffer.Words.{wire}
use dcrud.Io.ByteBuffer.Streams.{advance}
use dcrud.Io.ByteBuffer.Wire.{IsOpen}
use dcrud.Io.ByteBuffer.Fields.{Field, Shape, put_fields, get_fields, Agree, Agrees}
use dcrud.Io.ByteBuffer.Exchange.{put_fields-flip-get_fields}
use dcrud.Io.ByteBuffer.Limits.{
  bounded_put, put_numbers-bounded, get_string_too_long, put_backwards,
}
use dcrud.Io.ByteBuffer.Reach.{Reach}

-- A cleared buffer of 32 bytes.
abbrev empty : Buffer
empty = record {
  magic = buffer_magic;
  order = big_endian;
  position = 0;
  limit = 32;
  capacity = 32;
  mark = 33;
  bytes = replicate 32 0;
}

empty-IsOpen : IsOpen empty
empty-IsOpen = record { genuine = refl; valid = omega arith }

abbrev message : List Field
message = Field.byte 7 ∷ Field.uint 0x01020304 ∷ Field.text (104 ∷ 105 ∷ []) ∷ []

abbrev shapes : List Shape
shapes = Shape.byte ∷ Shape.uint ∷ Shape.text 10 ∷ []

message-Agree : Agree message shapes
message-Agree = Agree.next (Agrees.byte 7) (
    Agree.next (Agrees.uint 0x01020304)
      (Agree.next (Agrees.text (104 ∷ 105 ∷ []) 10 (omega arith)) Agree.end))

put_fields-flip-get_fields_example :
    let (put_status, sent) = put_fields true (clear (some empty)).1 message in
    let (get_status, got, _) = get_fields false (flip sent).1 shapes in
    (put_status ≡ no_error) × (get_status ≡ no_error) × (got ≡ some message)
unfolding le_bytes
put_fields-flip-get_fields_example =
    put_fields-flip-get_fields true false empty-IsOpen message-Agree (omega arith) (omega arith)

put_numbers-bounded_example :
    (put_ushort true (some empty) 258 ≡ bounded_put empty (wire big_endian 2 258))
    × (put_uint true (some empty) 1 ≡ bounded_put empty (wire big_endian 4 1))
    × (put_ulong true (some empty) 9 ≡ bounded_put empty (wire big_endian 8 9))
put_numbers-bounded_example =
    put_numbers-bounded empty-IsOpen true 258 1 9 (omega arith) (omega arith) (omega arith)

-- A string of three characters behind its length.
abbrev long_string : Buffer
long_string = record empty { bytes = 0 ∷ 0 ∷ 0 ∷ 3 ∷ 97 ∷ 98 ∷ 99 ∷ []; limit = 7; capacity = 7 }

get_string_too_long_example :
    get_string false (some long_string) 2 ≡ (no_error, none, some (advance long_string 4))
unfolding le_bytes
get_string_too_long_example =
    get_string_too_long (record { genuine = refl; valid = omega arith }) false (97 ∷ 98 ∷ 99 ∷ [])
      (97 ∷ 98 ∷ 99 ∷ []) 2 (omega arith) (omega arith) refl

put_backwards_example :
    let (status, self) = put (some (record empty { position = 5 })) (1 ∷ 2 ∷ 3 ∷ []) 3 1 in
    (status ≡ no_error)
    × (Option.map (λ c. c.position) self ≡ some 3)
    × (sub_size 1 3 ≡ 2 ^ 64 - (3 - 1))
put_backwards_example =
    put_backwards (1 ∷ 2 ∷ 3 ∷ []) 3 1 (record { genuine = refl; valid = omega arith })
      (omega arith) (omega arith) (omega arith)

-- The buffer after one byte was put.
abbrev one_byte : Buffer
one_byte = record empty { position = 1; bytes = 7 ∷ replicate 31 0 }

-- The static build serves 300 bytes from the chunks of 512, and nothing above 65536.
chunk_size_test : (chunk_size 300 ≡ some 512) × (chunk_size 65537 ≡ none)
unfolding chunk_size
chunk_size_test = (refl, refl)
