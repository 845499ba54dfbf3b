-- ===== src/Crud/Arguments/Gets.antt =====
-- The gets of `dcrudArguments` (C/src/dcrud/Arguments.c). A get reads the field that it is named for,
-- whatever the type of the argument is.
use dcrud.Base.{ℕ, ◌==◌, if◌then◌else◌, Bool, true, Option, none, some, List, ◌++◌, take, replicate}
use dcrud.Util.Status.{Status, no_error, not_found, null_argument, check}
use dcrud.Coll.Compare.{Ordering, string_compare}
use dcrud.Coll.Libc.{Libc}
use dcrud.Coll.CollMap
use dcrud.Crud.ClassId.{Instance}
use dcrud.Crud.Guid.{Guid}
use dcrud.Crud.Outbox.{stored}
use dcrud.Crud.Arguments.{
  ArgumentType, Value, Misread, Name, Arguments, width, number_in, text_in, class_in, guid_in,
  shareable_in, read_arguments, names_libc,
}

module _ (libc : (A : Type 0) (cmp : A → A → Ordering) → Libc cmp) {P : Type 0} where
  -- What the gets do with the value that was found: NULL is an argument that is null.
  abbrev pub read_field :
      {R : Type 0} → (Value P → R) → Status × Option (Option (Value P)) → Status × Option R
  read_field field (status, found) =
      check status
        (elim (stored found) [
          | none ↦ (not_found, none)
          | some value ↦ (no_error, some (field value))
        ])
        (status, none)

  abbrev pub find : Arguments P → Name → Status × Option (Option (Value P))
  find this key = CollMap.get string_compare (names_libc libc (Value P)) this.args key true

  -- `DCRUD_ARGS_DECLARE_GET`
  unfoldable pub get_value :
      {R : Type 0} → (Value P → R) → Option (Arguments P) → Name → Bool → Status × Option R
  get_value field self key given =
      if given
      then (read_arguments self λ this. read_field field (find this key))
      else (null_argument, none)

  -- `dcrudArguments_getType`: no entry of `types` is NULL.
  unfoldable pub get_type : Option (Arguments P) → Name → Bool → Status × Option ArgumentType
  get_type self key given =
      if given
      then (read_arguments self λ this.
          let (status, found) =
            CollMap.get string_compare (names_libc libc ArgumentType) this.types key true in
          check status (no_error, stored found) (status, none))
      else (null_argument, none)

  module _ {G D : Type 0} (misread : Misread P G D) (self : Option (Arguments P)) (key : Name) where
    -- `dcrudArguments_getBoolean` to `dcrudArguments_getDouble`, by their types.
    unfoldable pub get_number : Bool → ArgumentType → Bool → Status × Option ℕ
    get_number host_big type given =
        get_value (number_in misread host_big (width type)) self key given

    -- `dcrudArguments_getClassID`
    unfoldable pub get_class_id : Bool → Status × Option (Option Instance)
    get_class_id given = get_value (class_in misread) self key given

    -- `dcrudArguments_getGUID`
    unfoldable pub get_guid : Bool → Status × Option Guid
    get_guid given = get_value (guid_in misread) self key given

    -- `dcrudArguments_getShareable`
    unfoldable pub get_shareable : Bool → Status × Option (Option P)
    get_shareable given = get_value (shareable_in misread) self key given

    -- `dcrudArguments_getString`: the `size` bytes that `strncpy` writes. A longer text is cut, and
    -- has no NUL then.
    unfoldable pub get_string : ℕ → Bool → Status × Option (List ℕ)
    get_string size given =
        get_value (λ value. take size (text_in misread value ++ replicate size 0)) self key given

    -- `dcrudArguments_isNull`: a number of which all bytes are 0 counts as NULL.
    abbrev pub null_of : Status × Option (Option (Value P)) → Status × Option Bool
    null_of (status, found) =
        check status
          (
            no_error,
            elim (stored found) [
              | none ↦ some true
              | some value ↦ some (number_in misread true 8 value == 0)
            ],
          )
          (status, none)

    unfoldable pub is_null : Bool → Status × Option Bool
    is_null given =
        if given
        then (read_arguments self λ this. null_of (find this key))
        else (null_argument, none)
