-- ===== src/Io/ByteBuffer/Fields.antt =====
-- Messages as sequences of typed fields, put to and got from a byte buffer one after the other.
use mathlib.Core.Option
use dcrud.Base.{ℕ, ◌^◌, ◌<◌, Bool, Option, none, some, List, [], ◌∷◌, ◌++◌, length}
use dcrud.Util.Status.{Status, no_error, check}
use dcrud.Io.ByteBuffer.{Buffer, Order, put_byte, get_byte}
use dcrud.Io.ByteBuffer.Numbers.{put_ushort, get_ushort, put_uint, get_uint, put_ulong, get_ulong}
use dcrud.Io.ByteBuffer.Text.{put_string, get_string}
use dcrud.Io.ByteBuffer.Words.{wire}

-- A field of a message: a number of one, two, four or eight bytes, or a string.
pub data Field : Type 0 where
  byte : ℕ → Field
  ushort : ℕ → Field
  uint : ℕ → Field
  ulong : ℕ → Field
  text : List ℕ → Field

-- What a reader must know to get a field; a string needs the size of its destination.
pub data Shape : Type 0 where
  byte : Shape
  ushort : Shape
  uint : Shape
  ulong : Shape
  text : ℕ → Shape

unfoldable pub put_field : Bool → Option Buffer → Field → Status × Option Buffer
put_field host_big self (Field.byte x) = put_byte self x
put_field host_big self (Field.ushort x) = put_ushort host_big self x
put_field host_big self (Field.uint x) = put_uint host_big self x
put_field host_big self (Field.ulong x) = put_ulong host_big self x
put_field host_big self (Field.text s) = put_string host_big self s

-- The reply with its value, if there is one, made a field.
abbrev pub reply {ℓ} :
    {A : Type ℓ}
    → (A → Field)
    → Status × Option A × Option Buffer
    → Status × Option Field × Option Buffer
reply f (status, value, self) = (status, Option.map f value, self)

unfoldable pub get_field : Bool → Option Buffer → Shape → Status × Option Field × Option Buffer
get_field host_big self Shape.byte = reply Field.byte (get_byte self)
get_field host_big self Shape.ushort = reply Field.ushort (get_ushort host_big self)
get_field host_big self Shape.uint = reply Field.uint (get_uint host_big self)
get_field host_big self Shape.ulong = reply Field.ulong (get_ulong host_big self)
get_field host_big self (Shape.text size) = reply Field.text (get_string host_big self size)

-- Puts stop at the first that fails.
unfoldable pub put_fields : Bool → Option Buffer → List Field → Status × Option Buffer
put_fields host_big self [] = (no_error, self)
put_fields host_big self (f ∷ fs) =
    let (status, self') = put_field host_big self f in
    let rest = put_fields host_big self' fs in check status rest (status, self')

-- Gets stop at the first that yields no field.
abbrev pub then_fields :
    Status × Option Field × Option Buffer
    → (Option Buffer → Status × Option (List Field) × Option Buffer)
    → Status × Option (List Field) × Option Buffer
then_fields (status, none, self) rest = (status, none, self)
then_fields (status, some f, self) rest =
    let (status', fields, self') = rest self in (status', Option.map (◌∷◌ f) fields, self')

unfoldable pub get_fields :
    Bool → Option Buffer → List Shape → Status × Option (List Field) × Option Buffer
get_fields host_big self [] = (no_error, some [], self)
get_fields host_big self (k ∷ ks) =
    then_fields (get_field host_big self k) (λ self'. get_fields host_big self' ks)

-- The values that a field can hold.
abbrev pub InRange : Field → Type 0
InRange (Field.byte x) = x < 256
InRange (Field.ushort x) = x < 256 ^ 2
InRange (Field.uint x) = x < 256 ^ 4
InRange (Field.ulong x) = x < 256 ^ 8
InRange (Field.text s) = length s < 256 ^ 4

-- A shape fits a field; the destination of a string has room for it and its NUL.
pub data Agrees : Field → Shape → Type 0 where
  byte : (x : ℕ) → Agrees (Field.byte x) Shape.byte
  ushort : (x : ℕ) → Agrees (Field.ushort x) Shape.ushort
  uint : (x : ℕ) → Agrees (Field.uint x) Shape.uint
  ulong : (x : ℕ) → Agrees (Field.ulong x) Shape.ulong
  text : (s : List ℕ) (size : ℕ) → length s < size → Agrees (Field.text s) (Shape.text size)

pub data Agree : List Field → List Shape → Type 0 where
  end : Agree [] []
  next :
      {f : Field} {fs : List Field} {k : Shape} {ks : List Shape}
      → Agrees f k
      → Agree fs ks
      → Agree (f ∷ fs) (k ∷ ks)

-- The bytes of a field on the wire.
abbrev pub encode : Order → Field → List ℕ
encode order (Field.byte x) = x ∷ []
encode order (Field.ushort x) = wire order 2 x
encode order (Field.uint x) = wire order 4 x
encode order (Field.ulong x) = wire order 8 x
encode order (Field.text s) = wire order 4 (length s) ++ s

abbrev pub encode_all : Order → List Field → List ℕ
encode_all order [] = []
encode_all order (f ∷ fs) = encode order f ++ encode_all order fs
