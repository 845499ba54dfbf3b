-- ===== src/Crud/Shareable.antt =====
-- `dcrudShareable` (C/src/dcrud/Shareable.c): an object of the program with its identity, its class
-- and the factory that knows its data. `G` are the addresses of identities and `D` those of data; a
-- pointer that may be NULL is an `Option`. A factory is code of the program that uses the library.
use dcrud.Base.{ℕ, if◌then◌else◌, Bool, true, false, Option, none, some}
use dcrud.Util.Status.{Status, no_error, null_argument, too_many, check}
use dcrud.Util.SafeCast.{valid, failed, safe_cast, with_self}
use dcrud.Coll.Compare.{Ordering, number_compare}
use dcrud.Io.ByteBuffer.{Buffer}
use dcrud.Crud.ClassId.{ClassId}
use dcrud.Crud.Guid
use dcrud.Crud.Guid.{Guid}

-- `dcrudLocalFactory`
pub record Factory (D : Type 0) : Type 0 where
  pub class_id : Option ClassId
  pub allocate_user_data : Status × Option D
  pub serialize : Option D → Option Buffer → Status × Option Buffer
  pub unserialize : Option D → Option Buffer → Status × Option Buffer

-- `dcrudShareableImpl`
pub record Shareable (G D : Type 0) : Type 0 where
  pub magic : ℕ
  pub id : Option G
  pub class_id : Option ClassId
  pub factory : Option (Factory D)
  pub user_data : Option D

-- `dcrudShareableImplMAGIC`
abbrev pub shareable_magic : ℕ
shareable_magic = 0x0300000d

-- `dcrudShareable_compareTo`: the difference of two pointers to an `int`, cut to an `int`.
abbrev pub compare_to : ℕ → ℕ → Ordering
compare_to left right = number_compare 4 left right

-- An address was reserved.
abbrev is_given : {A : Type 0} → Option A → Bool
is_given none = false
is_given (some address) = true

module _ {G D : Type 0} where
  -- The second half of `dcrudShareable_new`, after `dcrudGUID_new` for `&This->id`. If there is no
  -- memory for the identity, the object stays as it is so far, and `*self` points to it.
  abbrev fill :
      Option G → Option ClassId → Factory D → Option D → Status → Status × Option (Shareable G D)
  fill id class_id factory user_data status =
      check status
        (
          no_error,
          some (record {
            magic = shareable_magic;
            id = id;
            class_id = class_id;
            factory = some factory;
            user_data = user_data;
          }),
        )
        (
          status,
          some (record {
            magic = shareable_magic;
            id = none;
            class_id = none;
            factory = none;
            user_data = none;
          }),
        )

  -- `dcrudShareable_new`: `given` tells if `self` is not NULL, `allocated` if there is memory for the
  -- object, and `id` is the address that `dcrudGUID_new` reserves. The second part is `*self`.
  unfoldable pub new :
      Bool
      → Bool
      → Option G
      → Option ClassId
      → Option (Factory D)
      → Option D
      → Status × Option (Shareable G D)
  new given allocated id class_id none user_data = (null_argument, none)
  new given allocated id class_id (some factory) user_data =
      if given
      then (if allocated
          then (fill id class_id factory user_data (Guid.new true (is_given id)).0)
          else (too_many, none))
      else (null_argument, none)

  -- An operation that reads a field.
  abbrev read_out :
      {R : Type 0} → Option (Shareable G D) → Bool → (Shareable G D → R) → Status × Option R
  read_out self given field =
      if given
      then (elim (safe_cast (λ s. s.magic) shareable_magic self) [
        | failed status ↦ (status, none)
        | valid this ↦ (no_error, some (field this))
      ])
      else (null_argument, none)

  -- `dcrudShareable_getGUID`
  unfoldable pub get_guid : Option (Shareable G D) → Bool → Status × Option (Option G)
  get_guid self given = read_out self given (λ s. s.id)

  -- `dcrudShareable_getClassID`
  unfoldable pub get_class_id : Option (Shareable G D) → Bool → Status × Option (Option ClassId)
  get_class_id self given = read_out self given (λ s. s.class_id)

  -- `dcrudShareable_getData`
  unfoldable pub get_data : Option (Shareable G D) → Bool → Status × Option (Option D)
  get_data self given = read_out self given (λ s. s.user_data)

  -- `dcrudShareable_detach`
  unfoldable pub detach : Option (Shareable G D) → Status × Option (Shareable G D)
  detach self =
      with_self (λ s. s.magic) shareable_magic self λ s. (no_error, record s { user_data = none })
