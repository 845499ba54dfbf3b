-- ===== src/Crud/Cache/History.antt =====
-- Any sequence of calls of a cache (C/src/dcrud/Cache.c).
use mathlib.Core.Option
use dcrud.Base.{
  ℕ, ◌+◌, ◌^◌, ◌<◌, ◌≡◌, ◌≢◌, refl, sym, ap, ◌∙◌, subst, Bool, true, Option, some, List, length,
}
use dcrud.Util.Status.{Status, no_error, Build}
use dcrud.Coll.Compare.{Ordering}
use dcrud.Coll.Libc.{Libc}
use dcrud.Coll.Storage.{bound}
use dcrud.Coll.CollMap.{CollMap}
use dcrud.Crud.ClassId.{Instance}
use dcrud.Crud.Shareable.{shareable_magic, get_guid}
use dcrud.Crud.Cache
use dcrud.Crud.Cache.{Cache, Heap, Received, cache_magic, compare_guids, with_cache}
use dcrud.Crud.Cache.Calls
use dcrud.Crud.Cache.Calls.{
  add_updated, said, update_known, update_checked, delete_known, owner_status, update_shared,
  remove_item, guid_libc,
}
use dcrud.Crud.Cache.Publishing
use dcrud.Crud.Cache.Identities.{IsValid}
use dcrud.Crud.Cache.Keys.{AreSound}
use dcrud.Crud.Cache.Growth.{IsNew}
use dcrud.Crud.Cache.Creation.{create-IsValid}
use dcrud.Crud.Outbox.{Outbox}
use dcrud.Crud.Cache.Refusals.{create-failed}
use dcrud.Crud.Cache.Preservation.{
  refresh-same, with_fields, from_body, update_known-IsValid, delete_known-IsValid, publish-IsValid,
}

module _ (libc : (A : Type 0) (cmp : A → A → Ordering) → Libc cmp) (build : Build)
    {P G D Address : Type 0} (address : P → ℕ) (same : G → G → Bool) (publisher : ℕ)
    (host_big : Bool) (network : Address → List ℕ → Option ℕ) (target : Address) where
  -- A call on a genuine cache that left it as `c'`, and the heap as `h'`.
  pub data Step (h : Heap P G D) (c : Cache P G) : Heap P G D → Cache P G → Type 0 where
    create :
        (put_memory add_memory : Bool) (item : P) (g : G) {h' : Heap P G D} {c' : Cache P G}
        → IsNew same h.guids g publisher c.next_instance
        → (h.items item).magic ≡ shareable_magic
        → (h.items item).id ≡ some g
        → ((m : CollMap G P)
            → c.local ≡ some m
            → (length m.pairs < bound build m.limit) × (m.limit + 100 < 2 ^ 32))
        → Cache.create libc build address same publisher put_memory add_memory h
            (some c)
            (some item)
          ≡ (no_error, some c', h')
        → Step h c h' c'
    refused :
        (put_memory add_memory : Bool) (item : Option P) {status : Status} {h' : Heap P G D}
        {c' : Cache P G}
        → status ≢ no_error
        → Cache.create libc build address same publisher put_memory add_memory h (some c) item
          ≡ (status, some c', h')
        → Step h c h' c'
    update :
        (memory : Bool) (item : Option P) {status : Status} {c' : Cache P G}
        → Calls.update libc h build memory address (some c) item ≡ (status, some c')
        → Step h c h c'
    delete :
        (memory : Bool) (garbage : G) (item : P) {status : Status} {c' : Cache P G}
        → Calls.delete libc h build memory address publisher garbage (some c) item
          ≡ (status, some c')
        → Step h c h c'
    subscribe :
        (memory : Bool) (id : Instance) {status : Status} {c' : Cache P G}
        → Cache.subscribe libc build memory (some c) id ≡ (status, some c')
        → Step h c h c'
    update_from_network :
        (memory : Bool) (source : Received) {status : Status} {c' : Cache P G}
        → Cache.update_from_network libc build memory (some c) source ≡ (status, some c')
        → Step h c h c'
    delete_from_network :
        (memory : Bool) (id : G) {status : Status} {c' : Cache P G}
        → Cache.delete_from_network libc build memory h.guids (some c) id ≡ (status, some c')
        → Step h c h c'
    set_ownership :
        (enabled : Bool) {status : Status} {c' : Cache P G}
        → Cache.set_ownership (some c) enabled ≡ (status, some c')
        → Step h c h c'
    publish :
        (p : Outbox) {p' : Outbox} {status : Status} {released : List P} {c' : Cache P G}
        → Publishing.publish host_big network target build h (some c) p
          ≡ (status, some c', p', released)
        → Step h c h c'
    refresh :
        {status : Status} {c' : Cache P G}
        → Cache.refresh (some c) ≡ some (status, some c')
        → Step h c h c'

  -- The invariant, with the identities that it speaks of.
  abbrev pub Kept : Heap P G D → Cache P G → Type 0
  Kept h c = AreSound h.guids × IsValid build publisher h.guids c

  create-Kept :
      {h' : Heap P G D} {c' : Cache P G} {r : Status × Option (Cache P G) × Heap P G D}
      → r ≡ (no_error, some c', h')
      → (r.0 ≡ no_error)
        × ((d : Cache P G) × (r.1 ≡ some d) × IsValid build publisher r.2.guids d)
        × AreSound r.2.guids
      → Kept h' c'
  create-Kept {h' = h'} {c' = c'} {r = r} e (fine, (d, is_d, valid), sound) =
      let same_heap : r.2 ≡ h' = ap (λ t. t.2) e in
      let there : some d ≡ some c' = sym is_d ∙ ap (λ t. t.1) e in
      let same_cache : d ≡ c' = cc in
      (
        subst (λ t. AreSound t.guids) same_heap sound,
        subst (λ t. IsValid build publisher t c') (ap (λ t. t.guids) same_heap)
            (subst (IsValid build publisher r.2.guids) same_cache valid),
      )

  Step-Kept : {h h' : Heap P G D} {c c' : Cache P G} → Step h c h' c' → Kept h c → Kept h' c'
  unfolding Calls.update Calls.delete Cache.subscribe Cache.set_ownership Cache.update_from_network
      Cache.delete_from_network
  Step-Kept {h = h} {c = c} (Step.create put_memory add_memory item g w magic id room e)
        (sound, v) =
      create-Kept e (
        create-IsValid libc build address publisher put_memory add_memory h c item g w v magic id
          (room v.items v.has_items).0 (room v.items v.has_items).1)
  Step-Kept {h = h} {c = c} {c' = c'} (Step.refused put_memory add_memory item failed e)
        (sound, v) =
      let unchanged =
        create-failed libc build address same publisher put_memory add_memory h c item v.genuine
          failed e in
      (
        subst (λ t. AreSound t.guids) unchanged.1 sound,
        subst (λ t. IsValid build publisher t.guids c') unchanged.1
            (subst (IsValid build publisher h.guids) unchanged.0 v),
      )
  Step-Kept {h = h} {c = c} (Step.update memory item e) (sound, v) = (
    sound,
    from_body build publisher
        (λ t.
          update_known libc h build memory address t item (get_guid (Option.map h.items item) true))
        v e
        (update_known-IsValid libc build address publisher h memory item
          (get_guid (Option.map h.items item) true) v),
  )
  Step-Kept {h = h} {c = c} (Step.delete memory garbage item e) (sound, v) = (
    sound,
    from_body build publisher
        (λ t.
          delete_known libc h build memory address publisher garbage t item
            (get_guid (some (h.items item)) true))
        v e
        (delete_known-IsValid libc build address publisher h memory garbage item
          (get_guid (some (h.items item)) true) sound v),
  )
  Step-Kept (Step.subscribe memory id e) (sound, v) =
      (sound, from_body build publisher _ v e (with_fields build publisher _ refl refl refl v))
  Step-Kept (Step.update_from_network memory source e) (sound, v) =
      (sound, from_body build publisher _ v e (with_fields build publisher _ refl refl refl v))
  Step-Kept (Step.delete_from_network memory id e) (sound, v) =
      (sound, from_body build publisher _ v e (with_fields build publisher _ refl refl refl v))
  Step-Kept (Step.set_ownership enabled e) (sound, v) =
      (sound, from_body build publisher _ v e (with_fields build publisher _ refl refl refl v))
  Step-Kept (Step.publish p e) (sound, v) =
      (sound, publish-IsValid build host_big network target _ publisher p v e)
  Step-Kept (Step.refresh e) (sound, v) =
      (sound, subst (IsValid build publisher _) (refresh-same v.genuine e) v)

  -- The states of a program that uses one cache, call after call.
  pub data Reach (h : Heap P G D) (c : Cache P G) : Heap P G D → Cache P G → Type 0 where
    here : Reach h c h c
    next :
        {h' h'' : Heap P G D} {c' c'' : Cache P G}
        → Reach h c h' c'
        → Step h' c' h'' c''
        → Reach h c h'' c''

  -- No sequence of calls on a genuine cache whose map is well formed takes it out of its
  -- invariant: the map stays well formed, every object stays under a key whose identity this
  -- publisher gave out before, and no two keys get one identity. The identities in memory are
  -- valid, with numbers below 2 ^ 31. The calls are create, update, delete, subscribe,
  -- set_ownership, publish, refresh and the two that take in a frame of the network. They may all
  -- fail; a create that succeeds is of an object that is not shared, with an identity of its own,
  -- with room in the map, and with numbers below 2 ^ 31.
  pub Reach-Kept :
      {h : Heap P G D} {c : Cache P G} {h' : Heap P G D} {c' : Cache P G}
      → AreSound h.guids
      → IsValid build publisher h.guids c
      → Reach h c h' c'
      → AreSound h'.guids × IsValid build publisher h'.guids c'
  Reach-Kept sound v Reach.here = (sound, v)
  Reach-Kept sound v (Reach.next r s) = Step-Kept s (Reach-Kept sound v r)
