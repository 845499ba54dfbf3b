-- ===== src/Crud/Cache/Refusals.antt =====
-- A creation that `dcrudICache_create` (C/src/dcrud/Cache.c) refuses.
use mathlib.Core.Option
use dcrud.Base.{
  ℕ, ◌≡◌, ◌≢◌, ◌⊎◌, ==_true, refl, sym, ap, ◌∙◌, Bool, true, false, inl, inr, Option, some,
}
use dcrud.Util.Status.{Status, no_error, check_either, Build}
use dcrud.Coll.Compare.{Ordering}
use dcrud.Coll.Libc.{Libc}
use dcrud.Crud.Guid
use dcrud.Crud.Shareable.{get_guid}
use dcrud.Crud.Outbox.{stored}
use dcrud.Crud.Cache.{Cache, Heap, cache_magic, create, create_checked}

module _ (libc : (A : Type 0) (cmp : A → A → Ordering) → Libc cmp) (build : Build) {P G D : Type 0}
    (address : P → ℕ) (same : G → G → Bool) (publisher : ℕ) (put_memory add_memory : Bool)
    (heap : Heap P G D) (c : Cache P G) where
  -- An object is created, or nothing is changed.
  abbrev CreatedOrKept : Status × Option (Cache P G) × Heap P G D → Type 0
  CreatedOrKept (status, self, heap') = (status ≡ no_error) ⊎ ((self ≡ some c) × (heap' ≡ heap))

  create_checked-CreatedOrKept :
      (item : Option P) (id : Option G) (r : Status × Option Bool)
      → CreatedOrKept
          (create_checked libc build address same publisher put_memory add_memory heap c item id r)
  create_checked-CreatedOrKept (some item) (some id) (no_error, some false) = inl refl
  create_checked-CreatedOrKept item id (no_error, _) = inr (refl, refl)
  create_checked-CreatedOrKept item id (status, _) = inr (refl, refl)

  create-CreatedOrKept :
      (item : Option P)
      → c.magic ≡ cache_magic
      → CreatedOrKept
          (create libc build address same publisher put_memory add_memory heap (some c) item)
  unfolding create
  create-CreatedOrKept item genuine =
      let id = get_guid (Option.map heap.items item) true in
      rw (==_true c.magic cache_magic genuine, create)
        (check_either {A = Status × Option (Cache P G) × Heap P G D} CreatedOrKept id.0
          (create_checked-CreatedOrKept item (stored id.1)
            (Guid.is_shared (Option.map heap.guids (stored id.1)) true))
          (inr (refl, refl)))

  -- A creation that fails changes nothing.
  pub create-failed :
      (item : Option P) {status : Status} {c' : Cache P G} {heap' : Heap P G D}
      → c.magic ≡ cache_magic
      → status ≢ no_error
      → create libc build address same publisher put_memory add_memory heap (some c) item
        ≡ (status, some c', heap')
      → (c ≡ c') × (heap ≡ heap')
  create-failed item {c' = c'} {heap' = heap'} genuine failed e =
      elim (create-CreatedOrKept item genuine) [
        | inl fine ↦ absurd (failed (sym (ap (λ r. r.0) e) ∙ fine))
        | inr (same_cache, same_heap) ↦
            let there : some c ≡ some c' = sym same_cache ∙ ap (λ r. r.1) e in
            let both : c ≡ c' = cc in (both, sym same_heap ∙ ap (λ r. r.2) e)
      ]
