-- ===== src/Crud/Cache/Publishing.antt =====
-- `dcrudICache_publish` (C/src/dcrud/Cache.c): what changed since the last time goes to the network.
use dcrud.Base.{ℕ, Bool, Option, none, some, List, [], ◌∷◌, ◌++◌}
use dcrud.Util.Status.{Status, no_error, check, Build}
use dcrud.Util.SafeCast.{valid, failed, safe_cast}
use dcrud.Coll.CollSet
use dcrud.Coll.CollSet.{CollSet}
use dcrud.Crud.Shareable.{shareable_magic}
use dcrud.Crud.Outbox.{Outbox, publish_updated, publish_deleted}
use dcrud.Crud.Cache.{Cache, Heap, cache_magic}

-- `This->participant` after `dcrudIParticipantImpl_publishUpdated`.
abbrev pub kept : Outbox → Option Outbox → Outbox
kept p none = p
kept p (some p') = p'

-- `releaseShareable`: the objects that were given back, in their order.
abbrev pub release_shareable : {P G D : Type 0} → Heap P G D → List P → ℕ → P → Status × List P
release_shareable heap released index item =
    elim (safe_cast (λ s. s.magic) shareable_magic (some (heap.items item))) [
      | failed status ↦ (status, released)
      | valid this ↦ (no_error, released ++ (item ∷ []))
    ]

-- What follows `dcrudIParticipantImpl_publishDeleted`.
abbrev pub release_deleted :
    {P G D : Type 0}
    → Build
    → Heap P G D
    → Cache P G
    → Status × Outbox
    → Status × Option (Cache P G) × Outbox × List P
release_deleted build heap this (status, p) =
    let (status', released) = CollSet.foreach (release_shareable heap) this.deleted [] in
    let (_, deleted) = CollSet.clear build this.deleted in
    check status (status', some (record this { deleted = deleted }), p, released)
      (status, some this, p, [])

module _ {P G D Address : Type 0} (host_big : Bool) (network : Address → List ℕ → Option ℕ)
    (target : Address) (build : Build) (heap : Heap P G D) where
  -- What follows `dcrudIParticipantImpl_publishUpdated`. The set of changed objects is emptied whether
  -- they could be sent or not.
  abbrev pub after_updated :
      Cache P G → Outbox → Status × Option Outbox → Status × Option (Cache P G) × Outbox × List P
  after_updated this p (status, sent) =
      let (_, updated) = CollSet.clear build this.updated in
      let this' = record this { updated = updated } in
      let p' = kept p sent in
      check status
        (release_deleted build heap this'
          (publish_deleted host_big network target heap.guids heap.items this'.deleted p'))
        (status, some this', p', [])

  -- `dcrudICache_publish`: the status, the cache, its participant, and the objects that were given
  -- back.
  unfoldable pub publish :
      Option (Cache P G) → Outbox → Status × Option (Cache P G) × Outbox × List P
  publish self p = elim (safe_cast (λ c. c.magic) cache_magic self) [
    | failed status ↦ (status, self, p, [])
    | valid this ↦
        after_updated this p
          (publish_updated host_big network target heap.guids heap.items this.updated (some p))
  ]
