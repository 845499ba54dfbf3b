-- ===== src/Crud/Cache/Calls.antt =====
-- The calls of `dcrudICache` (C/src/dcrud/Cache.c) on objects that are shared: reading, updating,
-- deleting, selecting and publishing.
use mathlib.Core.Option
use dcrud.Base.{ℕ, if◌then◌else◌, Bool, true, false, Option, none, some}
use dcrud.Util.Status.{Status, no_error, illegal_state, null_argument, check, Build}
use dcrud.Util.SafeCast.{valid, failed, safe_cast}
use dcrud.Coll.Compare.{Ordering}
use dcrud.Coll.Libc.{Libc}
use dcrud.Coll.CollSet
use dcrud.Coll.CollSet.{CollSet}
use dcrud.Coll.CollMap
use dcrud.Coll.CollMap.{CollMap, Pair, pair_compare}
use dcrud.Crud.Guid
use dcrud.Crud.Shareable.{get_guid}
use dcrud.Crud.Outbox.{stored}
use dcrud.Crud.Cache.{Cache, Heap, cache_magic, compare_guids, compare_items, owns, with_cache}

-- `*target = value`, of a `value` that was NULL.
abbrev pub value_or_null : {P : Type 0} → Option (Option P) → Option P
value_or_null none = none
value_or_null (some value) = value

-- What a call that answers a Boolean said; it was false before.
abbrev pub said : Option Bool → Bool
said none = false
said (some b) = b

module _ (libc : (A : Type 0) (cmp : A → A → Ordering) → Libc cmp) {P G D : Type 0}
    (heap : Heap P G D) where
  abbrev pub guid_libc : Libc (pair_compare {V = P} (compare_guids heap.guids))
  guid_libc = libc (G × Option P) (pair_compare (compare_guids heap.guids))

  -- `dcrudICache_read`: `*target`, if it is written.
  unfoldable pub read : Option (Cache P G) → G → Bool → Status × Option (Option P)
  read self id given =
      if given
      then (elim (safe_cast (λ c. c.magic) cache_magic self) [
        | failed status ↦ (status, none)
        | valid this ↦
            let (status, value) =
              CollMap.get (compare_guids heap.guids) guid_libc this.local id true in
            (status, some (value_or_null value))
      ])
      else (null_argument, none)

  module _ (build : Build) (memory : Bool) (address : P → ℕ) where
    -- What `dcrudICache_update` does on the answer of `collMap_hasKey`.
    abbrev pub add_updated : Cache P G → P → Bool → Status × Cache P G
    add_updated this item true =
        let (status, updated) =
          CollSet.add (libc P (compare_items address)) build memory this.updated item in
        (status, record this { updated = updated })
    add_updated this item false = (no_error, this)

    -- The branches of `dcrudICache_update` on what `dcrudGUID_isShared` answers. It fails for an object
    -- or an identity that is NULL.
    abbrev pub update_shared : Cache P G → Option P → Option G → Bool → Status × Cache P G
    update_shared this (some item) (some id) true =
        let (status, exists) =
          CollMap.has_key (compare_guids heap.guids) guid_libc this.local id true in
        check status (add_updated this item (said exists)) (status, this)
    update_shared this item id shared = (illegal_state, this)

    -- `dcrudICache_update` after `dcrudGUID_isShared`, and after `dcrudShareable_getGUID`.
    abbrev pub update_checked :
        Cache P G → Option P → Option G → Status × Option Bool → Status × Cache P G
    update_checked this item id (status, shared) =
        check status (update_shared this item id (said shared)) (status, this)

    abbrev pub update_known : Cache P G → Option P → Status × Option (Option G) → Status × Cache P G
    update_known this item (status, id) =
        check status
          (update_checked this item (stored id)
            (Guid.is_shared (Option.map heap.guids (stored id)) true))
          (status, this)

    -- `dcrudICache_update`
    unfoldable pub update : Option (Cache P G) → Option P → Status × Option (Cache P G)
    update self item =
        with_cache self λ c. update_known c item (get_guid (Option.map heap.items item) true)

    -- The end of `dcrudICache_delete`. A NULL identity, which the comparator would read, is left out:
    -- `dcrudShareable_new` gives every object that it returns with `no_error` an identity.
    -- For an object without an identity the code reads through NULL; the answer here is not meant for
    -- that.
    abbrev pub remove_item : Cache P G → P → Option G → Status × Cache P G
    remove_item this item none = (null_argument, this)
    remove_item this item (some id) =
        let (status, _, local) =
          CollMap.remove (compare_guids heap.guids) guid_libc this.local id in
        let (status', deleted) =
          CollSet.add (libc P (compare_items address)) build memory this.deleted item in
        check status (status', record this { local = local; deleted = deleted })
          (status, record this { local = local })

    -- The test of the owner in `dcrudICache_delete`: the status after it.
    abbrev pub owner_status : ℕ → Cache P G → Status → Option G → Status
    owner_status publisher this status id =
        let (status', is_owner) = owns (some this) publisher (Option.map heap.guids id) true in
        if this.ownership_check
        then check status' (if said is_owner then no_error else illegal_state) status'
        else status

    -- `dcrudICache_delete` after `dcrudShareable_getGUID`, and after the test of the owner.
    abbrev pub delete_checked : Cache P G → P → Option G → Status → Status × Cache P G
    delete_checked this item id status = check status (remove_item this item id) (status, this)

    abbrev pub delete_known :
        ℕ → G → Cache P G → P → Status × Option (Option G) → Status × Cache P G
    delete_known publisher garbage this item (status, written) =
        let id = check status (stored written) (some garbage) in
        delete_checked this item id (owner_status publisher this status id)

    -- `dcrudICache_delete` of an item that is not NULL. `garbage` is what the variable `id` holds
    -- before it is written; with the test of the owner the status of `dcrudShareable_getGUID` is lost.
    unfoldable pub delete : ℕ → G → Option (Cache P G) → P → Status × Option (Cache P G)
    delete publisher garbage self item =
        with_cache self
          λ c. delete_known publisher garbage c item (get_guid (some (heap.items item)) true)

  -- `selectItem`: a query that is NULL is `none`.
  abbrev pub select_item :
      (Option (P → Bool))
      → Build
      → Bool
      → (P → ℕ)
      → Option (CollSet P)
      → ℕ
      → Pair G P
      → Status × Option (CollSet P)
  select_item query build memory address selection index (key, none) = (no_error, selection)
  select_item query build memory address selection index (key, some item) =
      if elim query [ none ↦ true | some wanted ↦ wanted item ]
      then CollSet.add (libc P (compare_items address)) build memory selection item
      else (no_error, selection)

  -- `dcrudICache_select`: the set `result` grows by the items that the query wants.
  unfoldable pub select :
      Build
      → Bool
      → (P → ℕ)
      → Option (Cache P G)
      → Option (P → Bool)
      → Option (CollSet P)
      → Status × Option (CollSet P)
  select build memory address self query none = (null_argument, none)
  select build memory address self query (some result) =
      elim (safe_cast (λ c. c.magic) cache_magic self) [
        | failed status ↦ (status, some result)
        | valid this ↦
            CollMap.foreach (select_item query build memory address) this.local (some result)
      ]
