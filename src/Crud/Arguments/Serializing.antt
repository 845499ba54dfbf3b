-- ===== src/Crud/Arguments/Serializing.antt =====
-- `dcrudArguments_serialize` (C/src/dcrud/Arguments.c).
use mathlib.Core.Option
use dcrud.Base.{ℕ, ◌%◌, Bool, true, Option, none, some}
use dcrud.Util.Status.{Status, no_error, null_argument, illegal_state, check}
use dcrud.Util.SafeCast.{valid, failed, safe_cast}
use dcrud.Coll.Compare.{Ordering}
use dcrud.Coll.Libc.{Libc}
use dcrud.Coll.CollMap
use dcrud.Coll.CollMap.{Pair}
use dcrud.Io.ByteBuffer.{Buffer, put_byte}
use dcrud.Io.ByteBuffer.Numbers.{
  put_short, put_ushort, put_int, put_uint, put_long, put_ulong, put_float, put_double,
}
use dcrud.Io.ByteBuffer.Text.{put_string}
use dcrud.Crud.ClassId
use dcrud.Crud.ClassId.{object, serialize_type}
use dcrud.Crud.Guid
use dcrud.Crud.Outbox.{serialize_data}
use dcrud.Crud.Arguments.{
  ArgumentType, Value, Misread, Name, Arguments, arguments_magic, code, number_in, text_in,
  class_in, guid_in,
}
use dcrud.Crud.Arguments.Gets.{get_type}

module _ (host_big : Bool) {P G D : Type 0} (misread : Misread P G D) where
  -- The `switch` of `serializePair`.
  abbrev pub put_typed : ArgumentType → Value P → Option Buffer → Status × Option Buffer
  put_typed ArgumentType.null value target = (no_error, target)
  put_typed ArgumentType.boolean value target = put_byte target (number_in misread host_big 1 value)
  put_typed ArgumentType.byte value target = put_byte target (number_in misread host_big 1 value)
  put_typed ArgumentType.char value target = put_byte target (number_in misread host_big 1 value)
  put_typed ArgumentType.short value target =
      put_short host_big target (number_in misread host_big 2 value)
  put_typed ArgumentType.unsigned_short value target =
      put_ushort host_big target (number_in misread host_big 2 value)
  put_typed ArgumentType.integer value target =
      put_int host_big target (number_in misread host_big 4 value)
  put_typed ArgumentType.unsigned_integer value target =
      put_uint host_big target (number_in misread host_big 4 value)
  put_typed ArgumentType.long value target =
      put_long host_big target (number_in misread host_big 8 value)
  put_typed ArgumentType.unsigned_long value target =
      put_ulong host_big target (number_in misread host_big 8 value)
  put_typed ArgumentType.float value target =
      put_float host_big target (number_in misread host_big 4 value)
  put_typed ArgumentType.double value target =
      put_double host_big target (number_in misread host_big 8 value)
  put_typed ArgumentType.string value target = put_string host_big target (text_in misread value)
  put_typed ArgumentType.class_id value target =
      ClassId.serialize (Option.map object (class_in misread value)) target
  put_typed ArgumentType.guid value target =
      Guid.serialize host_big (some (guid_in misread value)) target
  put_typed ArgumentType.shareable value target = (illegal_state, target)

  -- What `serializePair` puts behind the name. An object is not found through the value: the value
  -- itself is taken for the object.
  abbrev pub put_value : ArgumentType → Value P → Option Buffer → Status × Option Buffer
  put_value ArgumentType.shareable value target =
      let item = misread.object value in
      let (status, target') = ClassId.serialize item.class_id target in
      check status (serialize_data item.factory (misread.user_data value) target') (status, target')
  put_value type value target =
      let (status, target') = serialize_type (code type) target in
      check status (put_typed type value target') (status, target')

  abbrev pub put_named : Name → Value P → Option Buffer → ArgumentType → Status × Option Buffer
  put_named key value target type =
      let (status, target') = put_string host_big target key in
      check status (put_value type value target') (status, target')

  abbrev pub put_found :
      Name → Value P → Option Buffer → Status × Option ArgumentType → Status × Option Buffer
  put_found key value target (status, none) = (status, target)
  put_found key value target (status, some type) =
      check status (put_named key value target type) (status, target)

module _ (libc : (A : Type 0) (cmp : A → A → Ordering) → Libc cmp) (host_big : Bool)
    {P G D : Type 0} (misread : Misread P G D) where
  -- `serializePair`
  abbrev pub serialize_pair :
      Arguments P → Option Buffer → ℕ → Pair Name (Value P) → Status × Option Buffer
  serialize_pair source target index (key, none) = (null_argument, target)
  serialize_pair source target index (key, some value) =
      put_found host_big misread key value target (get_type libc (some source) key true)

  -- The body of `dcrudArguments_serialize`: the mode, the queue and the arguments.
  abbrev pub serialize_this : Arguments P → Option Buffer → Status × Option Buffer
  serialize_this this target =
      let (status, target1) = put_byte target (this.mode % 256) in
      let (status', target2) = put_byte target1 (this.queue % 256) in
      check status
        (check status' (CollMap.foreach (serialize_pair this) this.args target2) (status', target2))
        (status, target1)

  -- `dcrudArguments_serialize`
  unfoldable pub serialize : Option (Arguments P) → Option Buffer → Status × Option Buffer
  serialize self none = (null_argument, none)
  serialize self (some target) = elim (safe_cast (λ a. a.magic) arguments_magic self) [
    | failed status ↦ (status, some target)
    | valid this ↦ serialize_this this (some target)
  ]
