-- ===== src/Crud/Receiver/Operation.antt =====
-- `dcrudNetworkReceiver_operation` (C/src/dcrud/NetworkReceiver.c): a call is read from a frame. The
-- messages of `utilDebugSettings` are left out.
use mathlib.Core.Option
use dcrud.Base.{
  ℕ, zero, suc, ◌+◌, ◌*◌, ◌==◌, if◌then◌else◌, Bool, true, Option, none, some, List, [], ◌∷◌,
}
use dcrud.Util.Status.{Status, no_error, illegal_state, check, Build}
use dcrud.Coll.Compare.{Ordering}
use dcrud.Coll.Libc.{Libc}
use dcrud.Io.ByteBuffer.{Buffer, get_byte}
use dcrud.Io.ByteBuffer.Numbers.{
  get_short, get_ushort, get_uint, get_long, get_ulong, get_float, get_double,
}
use dcrud.Io.ByteBuffer.Text.{get_string}
use dcrud.Crud.ClassId
use dcrud.Crud.ClassId.{Instance, compare_instances, object}
use dcrud.Crud.Guid
use dcrud.Crud.Guid.{Guid}
use dcrud.Crud.Arguments.{ArgumentType, Name, Arguments}
use dcrud.Crud.Arguments.Puts.{
  PutMemory, put_null, put_number, put_string, put_guid, put_class_id, put_shareable,
}

-- `ARG_NAME_MAX_LENGTH`, which is also the size for the names of interfaces and operations, and the
-- size for a text.
abbrev pub name_size : ℕ
name_size = 1000

abbrev pub text_size : ℕ
text_size = 64 * 1024

-- `ICRUD_INTERFACE_NAME`, "dcrud.ICRUD"
abbrev pub crud_interface : Name
crud_interface = 100 ∷ 99 ∷ 114 ∷ 117 ∷ 100 ∷ 46 ∷ 73 ∷ 67 ∷ 82 ∷ 85 ∷ 68 ∷ []

-- The cases of the `switch`. It has none for `dcrudTYPE_CHAR`.
abbrev pub case_of : ℕ → Option ArgumentType
case_of type =
    if type == 0
    then some ArgumentType.null
    else if type == 1
    then some ArgumentType.boolean
    else if type == 2
    then some ArgumentType.byte
    else if type == 4
    then some ArgumentType.short
    else if type == 5
    then some ArgumentType.unsigned_short
    else if type == 6
    then some ArgumentType.integer
    else if type == 7
    then some ArgumentType.unsigned_integer
    else if type == 8
    then some ArgumentType.long
    else if type == 9
    then some ArgumentType.unsigned_long
    else if type == 10
    then some ArgumentType.float
    else if type == 11
    then some ArgumentType.double
    else if type == 12
    then some ArgumentType.string
    else if type == 13
    then some ArgumentType.class_id
    else if type == 14
    then some ArgumentType.guid
    else if type == 15
    then some ArgumentType.shareable
    else none

-- What changes while the arguments are read: the frame, `allClasses`, and the arguments.
pub record Session (P : Type 0) : Type 0 where
  pub frame : Option Buffer
  pub all_classes : List Instance
  pub args : Option (Arguments P)

-- The end of a round: the loop goes on, with what `status` is now, or the function returns.
pub data Round (P : Type 0) : Type 0 where
  goes_on : Status → Session P → Round P
  returns : Status → Session P → Round P

-- What the allocator answers in a round: the address of a new class for the type and for an argument
-- that is a class, if there is memory for an identity, and the put.
pub record RoundMemory : Type 0 where
  pub class : Option ℕ
  pub class_argument : Option ℕ
  pub guid : Bool
  pub put : PutMemory

-- What the arrays `name` and `item` hold before they are written.
pub record Stale : Type 0 where
  pub name : List ℕ
  pub item : List ℕ

abbrev pub or_stale {ℓ} : {A : Type ℓ} → A → Option A → A
or_stale stale none = stale
or_stale stale (some read) = read

module _ {P : Type 0} where
  -- A put that is followed by the end of the round; `CHK` returns if it fails.
  abbrev pub put_end : Status → Session P → Status × Option (Arguments P) → Round P
  put_end status s (put_status, args) =
      check put_status (Round.goes_on status (record s { args = args }))
        (Round.returns put_status (record s { args = args }))

  -- What follows a get in a case. A get that returns `no_error` gave a number.
  abbrev pub on_number :
      Status
      → Session P
      → (ℕ → Status × Option (Arguments P))
      → Status × Option ℕ × Option Buffer
      → Round P
  on_number status s put (no_error, some item, frame) =
      put_end status (record s { frame = frame }) (put item)
  on_number status s put (get_status, item, frame) =
      Round.returns get_status (record s { frame = frame })

  module _ (libc : (A : Type 0) (cmp : A → A → Ordering) → Libc cmp) (build : Build)
      (host_big : Bool)
      (new_instance : Option Buffer
        → List Instance
        → Status × Option P × Option Buffer × List Instance) where
    module _ (memory : RoundMemory) (stale : Stale) (name : Name) (status : Status)
        (s : Session P) where
      -- A number is put as one of a type.
      abbrev pub put_as : ArgumentType → ℕ → Status × Option (Arguments P)
      put_as type item = put_number libc build memory.put host_big type s.args (some name) item

      abbrev pub on_text : Status × Option (List ℕ) × Option Buffer → Round P
      on_text (get_status, item, frame) =
          check get_status
            (put_end status (record s { frame = frame })
              (put_string libc build memory.put s.args (some name)
                (some (or_stale stale.item item))))
            (Round.returns get_status (record s { frame = frame }))

      abbrev pub on_class : Status × Option Instance × List Instance × Option Buffer → Round P
      on_class (get_status, item, all_classes, frame) =
          check get_status
            (put_end status (record s { frame = frame; all_classes = all_classes })
              (put_class_id libc build memory.put s.args (some name) item))
            (Round.returns get_status (record s { frame = frame; all_classes = all_classes }))

      abbrev pub on_guid : Status × Option Guid × Option Buffer → Round P
      on_guid (get_status, item, frame) =
          check get_status
            (put_end status (record s { frame = frame })
              (put_guid libc build memory.put s.args (some name) item))
            (Round.returns get_status (record s { frame = frame }))

      abbrev pub on_instance : Status × Option P × Option Buffer × List Instance → Round P
      on_instance (get_status, item, frame, all_classes) =
          check get_status
            (put_end status (record s { frame = frame; all_classes = all_classes })
              (put_shareable libc build memory.put s.args (some name) item))
            (Round.returns get_status (record s { frame = frame; all_classes = all_classes }))

      -- The `switch`. Integers are put as unsigned ones.
      abbrev pub read_item : Option ArgumentType → Round P
      read_item (some ArgumentType.null) =
          put_end status s (put_null libc build memory.put s.args (some name))
      read_item (some ArgumentType.boolean) =
          on_number status s (put_as ArgumentType.boolean) (get_byte s.frame)
      read_item (some ArgumentType.byte) =
          on_number status s (put_as ArgumentType.byte) (get_byte s.frame)
      read_item (some ArgumentType.short) =
          on_number status s (put_as ArgumentType.short) (get_short host_big s.frame)
      read_item (some ArgumentType.unsigned_short) =
          on_number status s (put_as ArgumentType.unsigned_short) (get_ushort host_big s.frame)
      read_item (some ArgumentType.integer) =
          on_number status s (put_as ArgumentType.unsigned_integer) (get_uint host_big s.frame)
      read_item (some ArgumentType.unsigned_integer) =
          on_number status s (put_as ArgumentType.unsigned_integer) (get_uint host_big s.frame)
      read_item (some ArgumentType.long) =
          on_number status s (put_as ArgumentType.long) (get_long host_big s.frame)
      read_item (some ArgumentType.unsigned_long) =
          on_number status s (put_as ArgumentType.unsigned_long) (get_ulong host_big s.frame)
      read_item (some ArgumentType.float) =
          on_number status s (put_as ArgumentType.float) (get_float host_big s.frame)
      read_item (some ArgumentType.double) =
          on_number status s (put_as ArgumentType.double) (get_double host_big s.frame)
      read_item (some ArgumentType.string) = on_text (get_string host_big s.frame text_size)
      read_item (some ArgumentType.class_id) = on_class (
          ClassId.unserialize (libc Instance compare_instances) memory.class_argument s.all_classes
            true s.frame)
      read_item (some ArgumentType.guid) =
          on_guid (Guid.unserialize host_big true memory.guid s.frame)
      read_item (some ArgumentType.shareable) = on_instance (new_instance s.frame s.all_classes)
      read_item _ = Round.goes_on illegal_state s

    -- What follows `dcrudClassID_unserialize` and `dcrudClassID_getType`.
    abbrev pub read_typed :
        RoundMemory → Stale → Name → Status → Session P → Status × Option ℕ → Round P
    read_typed memory stale name status s (no_error, some type) =
        read_item memory stale name status s (case_of type)
    read_typed memory stale name status s (get_status, type) = Round.returns get_status s

    abbrev pub read_classed :
        RoundMemory
        → Stale
        → Name
        → Status
        → Option (Arguments P)
        → Status × Option Instance × List Instance × Option Buffer
        → Round P
    read_classed memory stale name status args (get_status, id, all_classes, frame) =
        let s : Session P = record { frame = frame; all_classes = all_classes; args = args } in
        check get_status
          (read_typed memory stale name status s (ClassId.get_type (Option.map object id) true))
          (Round.returns get_status s)

    -- A round of the loop over the arguments.
    unfoldable pub read_argument : RoundMemory → Stale → Status → Session P → Round P
    read_argument memory stale status s =
        let (get_status, name, frame) = get_string host_big s.frame name_size in
        check get_status
          (read_classed memory stale (or_stale stale.name name) status s.args (
            ClassId.unserialize (libc Instance compare_instances) memory.class s.all_classes true
              frame))
          (Round.returns get_status (record s { frame = frame }))

    -- `rounds` more rounds, from index `i` on.
    unfoldable pub read_arguments :
        (ℕ → RoundMemory) → (ℕ → Stale) → ℕ → ℕ → Status → Session P → Round P
    read_arguments memory stale zero i status s = Round.goes_on status s
    read_arguments memory stale (suc rounds) i status s =
        elim (read_argument (memory i) (stale i) status s) [
          | Round.returns status' s' ↦ Round.returns status' s'
          | Round.goes_on status' s' ↦ read_arguments memory stale rounds (i + 1) status' s'
        ]
