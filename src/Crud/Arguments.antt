-- ===== src/Crud/Arguments.antt =====
-- `dcrudArguments` (C/src/dcrud/Arguments.c): the arguments of a call by their names, in two maps
-- with the same keys: one to the values, one to their types.
pub mod Puts
pub mod Gets
pub mod Serializing
pub mod Items
pub mod Wire
pub mod Stored
pub mod Finding
pub mod Putting
pub mod PutGet
pub mod Answers
pub mod Nulls
pub mod Clearing
pub mod Booleans
use dcrud.Base.{
  ℕ, zero, ◌-◌, ◌≡◌, ◌==◌, ==_true, if◌then◌else◌, Bool, true, false, Option, none, some, List,
  ◌++◌, length, take, replicate,
}
use dcrud.Util.Status.{Status, no_error, null_argument, check, Build}
use dcrud.Util.SafeCast.{valid, failed, safe_cast, with_self}
use dcrud.Coll.Compare.{Ordering, string_compare}
use dcrud.Coll.Libc.{Libc}
use dcrud.Coll.CollMap
use dcrud.Coll.CollMap.{CollMap, pair_compare}
use dcrud.Io.ByteBuffer.Numbers.{host_bytes, from_host}
use dcrud.Crud.ClassId.{Instance}
use dcrud.Crud.Guid.{Guid}
use dcrud.Crud.Shareable.{Shareable}

-- `dcrudType`
pub data ArgumentType : Type 0 where
  null : ArgumentType
  boolean : ArgumentType
  byte : ArgumentType
  char : ArgumentType
  short : ArgumentType
  unsigned_short : ArgumentType
  integer : ArgumentType
  unsigned_integer : ArgumentType
  long : ArgumentType
  unsigned_long : ArgumentType
  float : ArgumentType
  double : ArgumentType
  string : ArgumentType
  class_id : ArgumentType
  guid : ArgumentType
  shareable : ArgumentType

-- The number of a type.
abbrev pub code : ArgumentType → ℕ
code ArgumentType.null = 0
code ArgumentType.boolean = 1
code ArgumentType.byte = 2
code ArgumentType.char = 3
code ArgumentType.short = 4
code ArgumentType.unsigned_short = 5
code ArgumentType.integer = 6
code ArgumentType.unsigned_integer = 7
code ArgumentType.long = 8
code ArgumentType.unsigned_long = 9
code ArgumentType.float = 10
code ArgumentType.double = 11
code ArgumentType.string = 12
code ArgumentType.class_id = 13
code ArgumentType.guid = 14
code ArgumentType.shareable = 15

-- `dcrudArgumentsValue`, a union of eight bytes. A number is these bytes. A pointer stands for what
-- lies there: a text and an identity are the argument's own; classes and objects are shared.
pub data Value (P : Type 0) : Type 0 where
  number : List ℕ → Value P
  text : List ℕ → Value P
  class_id : Option Instance → Value P
  guid : Guid → Value P
  shareable : Option P → Value P

-- What the code reads in a value through a field that is not the one that was written: the bytes of
-- a pointer, and what lies where the bytes point. `object` is what lies at the value itself, read as
-- an object, and `user_data` the value read as the data of an object.
pub record Misread (P G D : Type 0) : Type 0 where
  pub bytes : Value P → List ℕ
  pub text : Value P → List ℕ
  pub class_id : Value P → Option Instance
  pub guid : Value P → Guid
  pub shareable : Value P → Option P
  pub object : Value P → Shareable G D
  pub user_data : Value P → Option D

-- The size of the field of the union for a type; a pointer has eight bytes, and a `bool` is an `int`
-- (C/inc/util/types.h).
abbrev pub width : ArgumentType → ℕ
width ArgumentType.boolean = 4
width ArgumentType.byte = 1
width ArgumentType.char = 1
width ArgumentType.short = 2
width ArgumentType.unsigned_short = 2
width ArgumentType.integer = 4
width ArgumentType.unsigned_integer = 4
width ArgumentType.float = 4
width _ = 8

-- `value->N = t` for a field of `w` bytes, after `memset( value, 0, ... )`.
abbrev pub number_value : {P : Type 0} → Bool → ℕ → ℕ → Value P
number_value host_big w t = Value.number (host_bytes host_big w t ++ replicate (8 - w) 0)

module _ {P G D : Type 0} (misread : Misread P G D) where
  -- `value->N`
  abbrev pub number_in : Bool → ℕ → Value P → ℕ
  number_in host_big w (Value.number bytes) = from_host host_big (take w bytes)
  number_in host_big w value = from_host host_big (take w (misread.bytes value))

  abbrev pub text_in : Value P → List ℕ
  text_in (Value.text s) = s
  text_in value = misread.text value

  abbrev pub class_in : Value P → Option Instance
  class_in (Value.class_id id) = id
  class_in value = misread.class_id value

  abbrev pub guid_in : Value P → Guid
  guid_in (Value.guid id) = id
  guid_in value = misread.guid value

  abbrev pub shareable_in : Value P → Option P
  shareable_in (Value.shareable item) = item
  shareable_in value = misread.shareable value

-- A name, with no NUL in it.
abbrev pub Name : Type 0
Name = List ℕ

-- `dcrudArgumentsImpl`
pub record Arguments (P : Type 0) : Type 0 where
  pub magic : ℕ
  pub mode : ℕ
  pub queue : ℕ
  pub args : Option (CollMap Name (Value P))
  pub types : Option (CollMap Name ArgumentType)

-- `dcrudArgumentsImplMAGIC`
abbrev pub arguments_magic : ℕ
arguments_magic = 0x03000001

-- `DCRUD_ASYNCHRONOUS_DEFERRED` and `DCRUD_DEFAULT_QUEUE`
abbrev pub asynchronous_deferred : ℕ
asynchronous_deferred = 1

abbrev pub default_queue : ℕ
default_queue = 100

-- What is asked of `bsearch` and `qsort`, for the maps of the arguments.
abbrev pub names_libc :
    ((A : Type 0) (cmp : A → A → Ordering) → Libc cmp)
    → (V : Type 0) → Libc (pair_compare {V = V} string_compare)
names_libc libc V = libc (Name × Option V) (pair_compare string_compare)

-- What `dcrudArguments_isEmpty` makes of the count.
abbrev pub empty_of : Status × Option ℕ → Status × Option Bool
empty_of (status, none) = (status, none)
empty_of (status, some count) = check status (no_error, some (count == 0)) (status, none)

module _ {P : Type 0} where
  -- The two maps of `dcrudArguments_new`; if there is no memory for one, the handle is set to NULL.
  abbrev pub created :
      Status × Option (CollMap Name (Value P))
      → Status × Option (CollMap Name ArgumentType)
      → Status × Option (Arguments P)
  created (no_error, args) (no_error, types) = (
    no_error,
    some (record {
      magic = arguments_magic;
      mode = asynchronous_deferred;
      queue = default_queue;
      args = args;
      types = types;
    }),
  )
  created (no_error, args) (status, types) = (status, none)
  created (status, args) types = (status, none)

  -- `dcrudArguments_new`, with memory for the object itself: the code goes on to read its maps
  -- through NULL if there is none. The two others tell if there is memory for each map and its array.
  unfoldable pub new : Build → Bool → Bool → Bool → Status × Option (Arguments P)
  new build given args_memory types_memory =
      if given
      then (created (CollMap.new build true args_memory args_memory)
          (CollMap.new build true types_memory types_memory))
      else (null_argument, none)

  abbrev pub with_arguments :
      Option (Arguments P) → (Arguments P → Status × Arguments P) → Status × Option (Arguments P)
  with_arguments = with_self (λ a. a.magic) arguments_magic

  -- An operation that reads.
  abbrev pub read_arguments {κ} :
      {R : Type κ} → Option (Arguments P) → (Arguments P → Status × Option R) → Status × Option R
  read_arguments self body = elim (safe_cast (λ a. a.magic) arguments_magic self) [
    | failed status ↦ (status, none)
    | valid this ↦ body this
  ]

  pub read_arguments-genuine {κ} :
      {R : Type κ} (this : Arguments P) (body : Arguments P → Status × Option R)
      → this.magic ≡ arguments_magic
      → read_arguments (some this) body ≡ body this
  read_arguments-genuine this body e = rw (==_true this.magic arguments_magic e, read_arguments)

  -- `dcrudArguments_clear`: the values go, their types stay.
  unfoldable pub clear : Build → Option (Arguments P) → Status × Option (Arguments P)
  clear build self = with_arguments self λ this.
      let (status, args) = CollMap.clear build this.args in (status, record this { args = args })

  -- `dcrudArguments_setMode`
  unfoldable pub set_mode : Option (Arguments P) → ℕ → Status × Option (Arguments P)
  set_mode self value = with_arguments self λ this. (no_error, record this { mode = value })

  -- `dcrudArguments_setQueue`
  unfoldable pub set_queue : Option (Arguments P) → ℕ → Status × Option (Arguments P)
  set_queue self value = with_arguments self λ this. (no_error, record this { queue = value })

  -- `dcrudArguments_getCount`
  unfoldable pub get_count : Option (Arguments P) → Bool → Status × Option ℕ
  get_count self given =
      if given
      then (read_arguments self λ this.
          let (status, size) = CollMap.size this.args true in
          check status (no_error, size) (status, none))
      else (null_argument, none)

  -- `dcrudArguments_isEmpty`
  unfoldable pub is_empty : Option (Arguments P) → Bool → Status × Option Bool
  is_empty self given =
      if given
      then (read_arguments self λ this. empty_of (get_count (some this) true))
      else (null_argument, none)

  -- `dcrudArguments_getMode`
  unfoldable pub get_mode : Option (Arguments P) → Bool → Status × Option ℕ
  get_mode self given =
      if given
      then (read_arguments self λ this. (no_error, some this.mode))
      else (null_argument, none)

  -- `dcrudArguments_getQueue`
  unfoldable pub get_queue : Option (Arguments P) → Bool → Status × Option ℕ
  get_queue self given =
      if given
      then (read_arguments self λ this. (no_error, some this.queue))
      else (null_argument, none)
