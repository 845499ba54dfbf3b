-- ===== src/Crud/Cache.antt =====
-- `dcrudICache` (C/src/dcrud/Cache.c): the objects that a program publishes, and what arrived from
-- the network and is not yet looked at. `P` and `G` are the addresses of objects and identities,
-- `Heap` what lies there. The mutexes are always taken at once: threads are not modelled.
pub mod Calls
pub mod Publishing
pub mod PublishLaws
pub mod Keys
pub mod Identities
pub mod Growth
pub mod Creation
pub mod History
pub mod Preservation
pub mod Reading
pub mod Refusals
use mathlib.Core.Option
use dcrud.Base.{
  ℕ, ◌+◌, ◌%◌, ◌^◌, if◌then◌else◌, Bool, true, false, not, ◌&&◌, Option, none, some, List, [], ◌∷◌,
  ◌++◌,
}
use dcrud.Util.Status.{
  Status, no_error, duplicate, illegal_state, null_argument, too_many, check, Build,
}
use dcrud.Util.SafeCast.{Cast, valid, failed, safe_cast, with_self}
use dcrud.Coll.Compare.{Ordering, pointer_compare}
use dcrud.Coll.Libc.{Libc}
use dcrud.Coll.CollSet
use dcrud.Coll.CollSet.{CollSet}
use dcrud.Coll.CollMap
use dcrud.Coll.CollMap.{CollMap, pair_compare}
use dcrud.Io.ByteBuffer.{Buffer}
use dcrud.Crud.ClassId.{Instance, compare_instances}
use dcrud.Crud.Guid
use dcrud.Crud.Guid.{Guid}
use dcrud.Crud.Shareable
use dcrud.Crud.Shareable.{Shareable, get_guid}
use dcrud.Crud.Outbox.{Outbox, stored, publish_updated, publish_deleted}

-- An `ioByteBuffer` that was received, at its address. Nobody else has it.
pub record Received : Type 0 where
  pub address : ℕ
  pub buffer : Option Buffer

abbrev pub compare_received : Received → Received → Ordering
compare_received r s = pointer_compare r.address s.address

-- `dcrudICacheImpl`
pub record Cache (P G : Type 0) : Type 0 where
  pub magic : ℕ
  pub classes : Option (CollSet Instance)
  pub updated : Option (CollSet P)
  pub deleted : Option (CollSet P)
  pub to_update : Option (CollSet Received)
  pub to_delete : Option (CollSet G)
  pub local : Option (CollMap G P)
  pub next_instance : ℕ
  pub ownership_check : Bool

-- `dcrudICacheImplMAGIC`
abbrev pub cache_magic : ℕ
cache_magic = 0x03000005

-- The objects of the program and their identities.
pub record Heap (P G D : Type 0) : Type 0 where
  pub guids : G → Guid
  pub items : P → Shareable G D

-- `dcrudShareable_compareTo` on the addresses of objects.
abbrev pub compare_items : {P : Type 0} → (P → ℕ) → P → P → Ordering
compare_items address p q = Shareable.compare_to (address p) (address q)

-- `dcrudGUID_compareTo` on addresses.
abbrev pub compare_guids : {G : Type 0} → (G → Guid) → G → G → Ordering
compare_guids guids g h = Guid.compare_to (guids g) (guids h)

-- A write to the object at an address.
abbrev pub write_guid : {G : Type 0} → (G → G → Bool) → (G → Guid) → G → Guid → G → Guid
write_guid same guids g new h = if same g h then new else guids h

-- What `dcrudGUID_init` leaves at an address that is not NULL.
abbrev pub or_else_guid : Option Guid → Guid → Guid
or_else_guid none old = old
or_else_guid (some new) old = new

module _ {P G : Type 0} where
  abbrev pub with_cache :
      Option (Cache P G) → (Cache P G → Status × Cache P G) → Status × Option (Cache P G)
  with_cache = with_self (λ c. c.magic) cache_magic

  abbrev collected :
      Status × Option (CollSet Instance)
      → Status × Option (CollSet P)
      → Status × Option (CollSet P)
      → Status × Option (CollSet Received)
      → Status × Option (CollSet G)
      → Status × Option (CollMap G P)
      → Status × Option (Cache P G)
  collected (no_error, classes) (no_error, updated) (no_error, deleted) (no_error, to_update)
        (no_error, to_delete) (no_error, local) =
      (
        no_error,
        some (record {
          magic = cache_magic;
          classes = classes;
          updated = updated;
          deleted = deleted;
          to_update = to_update;
          to_delete = to_delete;
          local = local;
          next_instance = 1;
          ownership_check = false;
        }),
      )
  collected _ _ _ _ _ _ = (no_error, none)

  -- `dcrudCache_new`: `allocated` tells if there is memory for the object, `memory` and `array` if
  -- there is some for each collection. If one is missing, everything is given back, and
  -- `UTIL_RELEASE` sets `*self` to NULL and the status to that of the release.
  unfoldable pub new : Build → Bool → Bool → (ℕ → Bool) → (ℕ → Bool) → Status × Option (Cache P G)
  new build given allocated memory array =
      if given
      then (if allocated
          then (collected (CollSet.new build true (memory 0) (array 0))
              (CollSet.new build true (memory 1) (array 1))
              (CollSet.new build true (memory 2) (array 2))
              (CollSet.new build true (memory 3) (array 3))
              (CollSet.new build true (memory 4) (array 4))
              (CollMap.new build true (memory 5) (array 5)))
          else (too_many, none))
      else (null_argument, none)

  -- `dcrudICache_setOwnership`
  unfoldable pub set_ownership : Option (Cache P G) → Bool → Status × Option (Cache P G)
  set_ownership self enabled =
      with_cache self λ c. (no_error, record c { ownership_check = enabled })

  -- `dcrudICache_owns`: `publisher` is `This->participant->publisherId`.
  unfoldable pub owns : Option (Cache P G) → ℕ → Option Guid → Bool → Status × Option Bool
  owns self publisher guid given = elim (safe_cast (λ c. c.magic) cache_magic self) [
    | failed status ↦ (status, none)
    | valid this ↦ Guid.is_owned_by guid publisher given
  ]

  -- `dcrudICache_foreach`
  unfoldable pub foreach :
      {S : Type 0} → (S → ℕ → G × Option P → Status × S) → Option (Cache P G) → S → Status × S
  foreach fn self state = elim (safe_cast (λ c. c.magic) cache_magic self) [
    | failed status ↦ (status, state)
    | valid this ↦ CollMap.foreach fn this.local state
  ]

  -- `dcrudICache_refresh`: `none` stands for what the code does with a NULL `This`. A cache whose
  -- cast succeeds is left alone: the code returns there.
  unfoldable pub refresh : Option (Cache P G) → Option (Status × Option (Cache P G))
  refresh self = elim (safe_cast (λ c. c.magic) cache_magic self) [
    | failed status ↦ none
    | valid this ↦ some (no_error, self)
  ]

module _ (libc : (A : Type 0) (cmp : A → A → Ordering) → Libc cmp) (build : Build)
    (reallocated : Bool) {P G : Type 0} where
  -- `dcrudICache_subscribe`: `collSet_add` returns 0 for success, and the code negates that.
  unfoldable pub subscribe : Option (Cache P G) → Instance → Status × Option (Cache P G)
  subscribe self id = with_cache self λ c.
      let (status, classes) =
        CollSet.add (libc Instance compare_instances) build reallocated c.classes id in
      (check status too_many no_error, record c { classes = classes })

  -- `dcrudCache_updateFromNetwork`: the status of `collSet_add` is not looked at.
  unfoldable pub update_from_network : Option (Cache P G) → Received → Status × Option (Cache P G)
  update_from_network self source = with_cache self λ c. (
    no_error,
    record c {
      to_update =
          (CollSet.add (libc Received compare_received) build reallocated c.to_update source).1;
    },
  )

  -- `dcrudCache_deleteFromNetwork`
  unfoldable pub delete_from_network :
      (G → Guid) → Option (Cache P G) → G → Status × Option (Cache P G)
  delete_from_network guids self id = with_cache self λ c. (
    no_error,
    record c {
      to_delete = (CollSet.add (libc G (compare_guids guids)) build reallocated c.to_delete id).1;
    },
  )

module _ (libc : (A : Type 0) (cmp : A → A → Ordering) → Libc cmp) (build : Build) {P G D : Type 0}
    (address : P → ℕ) where
  module _ (same : G → G → Bool) (publisher : ℕ) (put_memory add_memory : Bool) where
    -- What `dcrudICache_create` does with an object that is not shared: the statuses of
    -- `collMap_put` and `collSet_add` are not looked at.
    abbrev pub share : Heap P G D → Cache P G → P → G → Status × Option (Cache P G) × Heap P G D
    share heap this item id =
        let (_, guid) = Guid.init (some (heap.guids id)) publisher this.next_instance in
        let guids' = write_guid same heap.guids id (or_else_guid guid (heap.guids id)) in
        let (_, _, local) =
          CollMap.put (compare_guids guids')
            (libc (G × Option P) (pair_compare (compare_guids guids'))) build put_memory this.local
            id (some item) in
        let (_, updated) =
          CollSet.add (libc P (compare_items address)) build add_memory this.updated item in
        (
          no_error,
          some (record this {
            next_instance = (this.next_instance + 1) % 2 ^ 32;
            local = local;
            updated = updated;
          }),
          record heap { guids = guids' },
        )

    -- The branches of `dcrudICache_create` on what `dcrudGUID_isShared` answers. It fails for an
    -- identity or an object that is NULL.
    abbrev pub create_checked :
        Heap P G D
        → Cache P G
        → Option P
        → Option G
        → Status × Option Bool
        → Status × Option (Cache P G) × Heap P G D
    create_checked heap this (some item) (some id) (no_error, some false) = share heap this item id
    create_checked heap this item id (no_error, _) = (duplicate, some this, heap)
    create_checked heap this item id (status, _) = (status, some this, heap)

    -- `dcrudICache_create`
    unfoldable pub create :
        Heap P G D → Option (Cache P G) → Option P → Status × Option (Cache P G) × Heap P G D
    create heap self item = elim (safe_cast (λ c. c.magic) cache_magic self) [
      | failed status ↦ (status, self, heap)
      | valid this ↦
          let (status, id) = get_guid (Option.map heap.items item) true in
          check status
            (create_checked heap this item (stored id)
              (Guid.is_shared (Option.map heap.guids (stored id)) true))
            (status, self, heap)
    ]
