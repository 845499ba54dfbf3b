-- ===== src/Crud/Arguments/Puts.antt =====
-- The puts of `dcrudArguments` (C/src/dcrud/Arguments.c). A value that is replaced is given back;
-- the code does not look at the status of that.
use dcrud.Base.{ℕ, if◌then◌else◌, Bool, true, Option, none, some, List}
use dcrud.Util.Status.{Status, no_error, null_argument, too_many, check, Build}
use dcrud.Util.Strings
use dcrud.Coll.Compare.{Ordering, string_compare}
use dcrud.Coll.Libc.{Libc}
use dcrud.Coll.CollMap
use dcrud.Crud.ClassId.{Instance}
use dcrud.Crud.Guid
use dcrud.Crud.Guid.{Guid}
use dcrud.Crud.Arguments.{
  ArgumentType, Value, Name, Arguments, width, number_value, with_arguments, names_libc,
}

-- What the allocator answers to a put: if there is memory for the value, its name, the text or the
-- identity that it points to, and for longer arrays of the two maps.
pub record PutMemory : Type 0 where
  pub value : Bool
  pub name : Bool
  pub content : Bool
  pub args : Bool
  pub types : Bool

-- `utilPool_reserve` of a value, or `malloc`.
abbrev pub reserved : Bool → Status
reserved allocated = if allocated then no_error else too_many

-- `utilString_clone` of the name.
abbrev pub cloned : Build → PutMemory → Name → Status
cloned build memory key = (Strings.clone build true memory.name (some key)).0

module _ (libc : (A : Type 0) (cmp : A → A → Ordering) → Libc cmp) (build : Build)
    (memory : PutMemory) {P : Type 0} where
  -- The value and its type, under the name.
  abbrev pub put_pair : Name → ArgumentType → Option (Value P) → Arguments P → Status × Arguments P
  put_pair key type value this =
      let (status, previous, args) =
        CollMap.put string_compare (names_libc libc (Value P)) build memory.args this.args key
          value in
      let (status', _, types) =
        CollMap.put string_compare (names_libc libc ArgumentType) build memory.types this.types key
          (some type) in
      check status (status', record this { args = args; types = types })
        (status, record this { args = args })

  -- `dcrudArguments_putNull`
  unfoldable pub put_null : Option (Arguments P) → Option Name → Status × Option (Arguments P)
  put_null self none = (null_argument, self)
  put_null self (some key) = with_arguments self λ this.
      check (cloned build memory key) (put_pair key ArgumentType.null none this)
        (cloned build memory key, this)

  -- `DCRUD_ARGS_DECLARE_PUT`
  unfoldable pub put_value :
      ArgumentType → Value P → Option (Arguments P) → Option Name → Status × Option (Arguments P)
  put_value type value self none = (null_argument, self)
  put_value type value self (some key) = with_arguments self λ this.
      check (reserved memory.value)
        (check (cloned build memory key) (put_pair key type (some value) this)
          (cloned build memory key, this))
        (reserved memory.value, this)

  -- What `putString` and `putGUID` do with a copy of what they are given.
  abbrev pub put_content :
      ArgumentType → Value P → Status → Option (Arguments P) → Name → Status × Option (Arguments P)
  put_content type value copied self key = with_arguments self λ this.
      check (reserved memory.value)
        (check (cloned build memory key)
          (check copied (put_pair key type (some value) this) (copied, this))
          (cloned build memory key, this))
        (reserved memory.value, this)

  -- `dcrudArguments_putString`
  unfoldable pub put_string :
      Option (Arguments P) → Option Name → Option (List ℕ) → Status × Option (Arguments P)
  put_string self (some key) (some value) =
      put_content ArgumentType.string (Value.text value)
        (Strings.clone build true memory.content (some value)).0 self key
  put_string self key value = (null_argument, self)

  -- `dcrudArguments_putGUID`
  unfoldable pub put_guid :
      Option (Arguments P) → Option Name → Option Guid → Status × Option (Arguments P)
  put_guid self (some key) (some value) =
      put_content ArgumentType.guid (Value.guid value)
        (Guid.clone true memory.content (some value)).0 self key
  put_guid self key value = (null_argument, self)

  -- `dcrudArguments_putBoolean` to `dcrudArguments_putDouble`, by their types.
  unfoldable pub put_number :
      Bool → ArgumentType → Option (Arguments P) → Option Name → ℕ → Status × Option (Arguments P)
  put_number host_big type self key t =
      put_value type (number_value host_big (width type) t) self key

  -- `dcrudArguments_putClassID`
  unfoldable pub put_class_id :
      Option (Arguments P) → Option Name → Option Instance → Status × Option (Arguments P)
  put_class_id self key t = put_value ArgumentType.class_id (Value.class_id t) self key

  -- `dcrudArguments_putShareable`
  unfoldable pub put_shareable :
      Option (Arguments P) → Option Name → Option P → Status × Option (Arguments P)
  put_shareable self key t = put_value ArgumentType.shareable (Value.shareable t) self key
