-- ===== src/Crud/Guid.antt =====
-- `dcrudGUID` (C/src/dcrud/GUID.c): the identity of an object, the number of its publisher and its
-- number there; instance 0 is an object that is not shared yet. The functions are given the object
-- that a pointer points to, `none` for NULL; whether there is memory for a new one is an argument.
pub mod Laws
use dcrud.Base.{
  ℕ, zero, suc, ◌+◌, ◌-◌, ◌%◌, ◌^◌, ◌==◌, ltb, if◌then◌else◌, Bool, true, false, ◌&&◌, Option, none,
  some,
}
use dcrud.Util.Status.{Status, no_error, null_argument, too_many, check}
use dcrud.Util.SafeCast.{Cast, valid, failed, safe_cast, with_self}
use dcrud.Coll.Compare.{Ordering, sign}
use dcrud.Io.ByteBuffer.{Buffer}
use dcrud.Io.ByteBuffer.Numbers.{put_uint, get_uint}

-- `dcrudGUIDImpl`
pub record Guid : Type 0 where
  pub magic : ℕ
  pub publisher : ℕ
  pub instance : ℕ

-- `dcrudGUIDImplMAGIC`
abbrev pub guid_magic : ℕ
guid_magic = 0x03000003

-- `dcrudGUID_new`: the second part is `*self`.
unfoldable pub new : Bool → Bool → Status × Option Guid
new given allocated =
    if given
    then (if allocated
        then (no_error, some (record { magic = guid_magic; publisher = 0; instance = 0 }))
        else (too_many, none))
    else (null_argument, none)

-- `dcrudGUID_clone`
unfoldable pub clone : Bool → Bool → Option Guid → Status × Option Guid
clone given allocated ref =
    if given
    then (elim (safe_cast (λ g. g.magic) guid_magic ref) [
      | failed status ↦ (status, none)
      | valid from ↦
          if allocated
          then (
            no_error,
            some (record {
              magic = guid_magic;
              publisher = from.publisher;
              instance = from.instance;
            }),
          )
          else (too_many, none)
    ])
    else (null_argument, none)

-- `dcrudGUID_set`
unfoldable pub set : Option Guid → Option Guid → Status × Option Guid
set self id = elim (safe_cast (λ g. g.magic) guid_magic self) [
  | failed status ↦ (status, self)
  | valid this ↦ elim (safe_cast (λ g. g.magic) guid_magic id) [
    | failed status ↦ (status, self)
    | valid right ↦
        (no_error, some (record this { publisher = right.publisher; instance = right.instance }))
  ]
]

-- `dcrudGUID_init`
unfoldable pub init : Option Guid → ℕ → ℕ → Status × Option Guid
init self publisher instance =
    with_self (λ g. g.magic) guid_magic self
      λ g. (no_error, record g { publisher = publisher; instance = instance })

-- `dcrudGUID_isShared`
unfoldable pub is_shared : Option Guid → Bool → Status × Option Bool
is_shared self given = elim (safe_cast (λ g. g.magic) guid_magic self) [
  | failed status ↦ (status, none)
  | valid this ↦ if given then (no_error, some (ltb 0 this.instance)) else (null_argument, none)
]

-- `dcrudGUID_isOwnedBy`
unfoldable pub is_owned_by : Option Guid → ℕ → Bool → Status × Option Bool
is_owned_by self publisher_id given = elim (safe_cast (λ g. g.magic) guid_magic self) [
  | failed status ↦ (status, none)
  | valid this ↦
      if given then (no_error, some (this.publisher == publisher_id)) else (null_argument, none)
]

-- `dcrudGUID_serialize`
unfoldable pub serialize : Bool → Option Guid → Option Buffer → Status × Option Buffer
serialize host_big self target = elim (safe_cast (λ g. g.magic) guid_magic self) [
  | failed status ↦ (status, target)
  | valid this ↦
      let (status, target') = put_uint host_big target this.publisher in
      check status (put_uint host_big target' this.instance) (status, target')
]

-- What a get writes to a field: nothing, if it fails.
abbrev pub written_over : ℕ → Option ℕ → ℕ
written_over old none = old
written_over old (some new) = new

-- The two reads of `dcrudGUID_unserialize` into a new object; the status of the first is not looked
-- at.
abbrev pub read_fields :
    Bool → Status → Option Guid → Option Buffer → Status × Option Guid × Option Buffer
read_fields host_big status none source = (status, none, source)
read_fields host_big status (some this) source =
    let (_, publisher, source') = get_uint host_big source in
    let (status', instance, source'') = get_uint host_big source' in
    (
      status',
      some (record this {
        publisher = written_over this.publisher publisher;
        instance = written_over this.instance instance;
      }),
      source'',
    )

-- `dcrudGUID_unserialize`
unfoldable pub unserialize :
    Bool → Bool → Bool → Option Buffer → Status × Option Guid × Option Buffer
unserialize host_big given allocated source =
    let (status, self) = new given allocated in read_fields host_big status self source

-- `dcrudGUID_compareTo`, of which the arguments point to pointers that are not NULL: the
-- differences are unsigned and then made an `int`.
unfoldable pub compare_to : Guid → Guid → Ordering
compare_to left right =
    if (left.magic == guid_magic) && (right.magic == guid_magic)
    then (elim (sign ((left.publisher + 2 ^ 32 - right.publisher) % 2 ^ 32)) [
      | Ordering.eq ↦ sign ((left.instance + 2 ^ 32 - right.instance) % 2 ^ 32)
      | Ordering.lt ↦ Ordering.lt
      | Ordering.gt ↦ Ordering.gt
    ])
    else Ordering.eq
