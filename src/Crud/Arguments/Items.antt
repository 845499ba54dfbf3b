-- ===== src/Crud/Arguments/Items.antt =====
-- The arguments of `dcrudArguments` (C/src/dcrud/Arguments.c) that a call can take to another host,
-- and their bytes in a frame.
use dcrud.Base.{
  ℕ, ◌+◌, ◌^◌, ◌*◌, ◌<◌, ◌≡◌, if◌then◌else◌, Bool, false, All, Option, none, some, List, [], ◌∷◌,
  ◌++◌, length,
}
use dcrud.Io.ByteBuffer.{Order}
use dcrud.Io.ByteBuffer.Words.{wire}
use dcrud.Crud.ClassId.{Instance}
use dcrud.Coll.Compare.{string_compare, is_eq}
use dcrud.Crud.ClassId.Order.{Same}
use dcrud.Crud.ClassId.Wire as ClassWire
use dcrud.Crud.Guid.{Guid}
use dcrud.Crud.Guid.Laws as GuidWire
use dcrud.Crud.Arguments.{ArgumentType, Name, Value, code, width, number_value}

pub data Item : Type 0 where
  number : ArgumentType → ℕ → Item
  text : List ℕ → Item
  class_id : Instance → Item
  guid : Guid → Item

-- The types of numbers that the receiver knows; it has no case for a character.
abbrev pub IsNumber : ArgumentType → Type 0
IsNumber ArgumentType.null = ⊥
IsNumber ArgumentType.char = ⊥
IsNumber ArgumentType.string = ⊥
IsNumber ArgumentType.class_id = ⊥
IsNumber ArgumentType.guid = ⊥
IsNumber ArgumentType.shareable = ⊥
IsNumber _ = Unit

-- The size of a number of a type in a frame: of a `bool` one byte is sent.
abbrev pub wire_width : ArgumentType → ℕ
wire_width ArgumentType.boolean = 1
wire_width type = width type

-- The numbers of a type are below this.
abbrev pub bound_of : ArgumentType → ℕ
bound_of ArgumentType.boolean = 256
bound_of type = 256 ^ width type

abbrev pub IsItem : Item → Type 0
IsItem (Item.number type x) = IsNumber type × (x < bound_of type)
IsItem (Item.text s) = length s + 1 < 64 * 1024
IsItem (Item.class_id x) = Unit
IsItem (Item.guid g) = GuidWire.IsValid g

-- The byte that is sent of a `bool` is its first. On a big-endian host that is 0, whatever the `bool`.
abbrev pub IsSentFrom : Bool → Item → Type 0
IsSentFrom host_big (Item.number ArgumentType.boolean x) = host_big ≡ false
IsSentFrom host_big item = Unit

abbrev pub type_of : Item → ArgumentType
type_of (Item.number type x) = type
type_of (Item.text s) = ArgumentType.string
type_of (Item.class_id x) = ArgumentType.class_id
type_of (Item.guid g) = ArgumentType.guid

-- How an item is stored on a host.
abbrev pub value_of : {P : Type 0} → Bool → Item → Value P
value_of host_big (Item.number type x) = number_value host_big (width type) x
value_of host_big (Item.text s) = Value.text s
value_of host_big (Item.class_id x) = Value.class_id (some x)
value_of host_big (Item.guid g) = Value.guid g

-- The bytes of an item, and of an item with its name and its type.
abbrev pub content : Item → Order → List ℕ
content (Item.number type x) order = wire order (wire_width type) x
content (Item.text s) order = wire order 4 (length s) ++ s
content (Item.class_id x) order = ClassWire.encoding x
content (Item.guid g) order = GuidWire.encoding order g

abbrev pub type_bytes : ArgumentType → List ℕ
type_bytes type = 0 ∷ 0 ∷ 0 ∷ code type ∷ []

abbrev pub argument_bytes : Name → Item → Order → List ℕ
argument_bytes key item order =
    (wire order 4 (length key) ++ key) ++ (type_bytes (type_of item) ++ content item order)

abbrev pub arguments_bytes : List (Name × Item) → Order → List ℕ
arguments_bytes [] order = []
arguments_bytes ((key, item) ∷ items) order =
    argument_bytes key item order ++ arguments_bytes items order

-- The type under which the receiver puts a number.
abbrev pub received_type : ArgumentType → ArgumentType
received_type ArgumentType.integer = ArgumentType.unsigned_integer
received_type type = type

-- How an item arrives: integers become unsigned, and a class is the receiver's object of it.
abbrev pub Arrives : Item → Item → Type 0
Arrives (Item.number type x) item = item ≡ Item.number (received_type type) x
Arrives (Item.class_id x) item = (y : Instance) × (item ≡ Item.class_id y) × Same x y
Arrives sent item = item ≡ sent

-- The item under a name.
abbrev pub find : Name → List (Name × Item) → Option Item
find k [] = none
find k ((key, item) ∷ items) = if is_eq (string_compare k key) then some item else find k items

-- The arguments that arrive, one for each that was sent, under the same names.
abbrev pub AllArrive : List (Name × Item) → List (Name × Item) → Type 0
AllArrive [] [] = Unit
AllArrive ((key, item) ∷ items) ((key', arrived) ∷ arriveds) =
    (key' ≡ key) × Arrives item arrived × AllArrive items arriveds
AllArrive [] (_ ∷ _) = ⊥
AllArrive (_ ∷ _) [] = ⊥

-- The items that are put one after the other, the last of them first.
abbrev pub onto : List (Name × Item) → List (Name × Item) → List (Name × Item)
onto [] acc = acc
onto (p ∷ ps) acc = onto ps (p ∷ acc)

-- A name and an item that can be read.
abbrev pub IsReadable : Name × Item → Type 0
IsReadable (key, item) = (length key < 1000) × IsItem item

-- No name is there twice.
abbrev pub DistinctNames : List (Name × Item) → Type 0
DistinctNames [] = Unit
DistinctNames ((key, item) ∷ items) =
    All (λ p. is_eq (string_compare key p.0) ≡ false) items × DistinctNames items
