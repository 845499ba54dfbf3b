-- ===== src/Crud/Cache/Preservation.antt =====
-- What each call of a cache keeps of it (C/src/dcrud/Cache.c).
use mathlib.Core.Option
use dcrud.Base.{
  ℕ, ◌<◌, ◌≡◌, ==_true, refl, sym, ap, ◌∙◌, subst, Bool, true, false, Bool-cases, inl, inr, Option,
  none, some, List, if◌then◌else◌, arith,
}
use dcrud.Util.Status.{Status, no_error, check, check_either, Build}
use dcrud.Util.SafeCast.{with_self-genuine}
use dcrud.Coll.Compare.{Ordering, is_eq}
use dcrud.Coll.Libc.{Libc}
use dcrud.Coll.CollMap
use dcrud.Coll.CollMap.{Pair, CollMap, pair_compare}
use dcrud.Coll.CollMap.Valid.{MapRemoveOutcome}
use dcrud.Coll.CollMap.Lookup.{lookup}
use dcrud.Coll.CollMap.Laws.{remove-MapRemoveOutcome}
use dcrud.Crud.Guid
use dcrud.Crud.Guid.{Guid}
use dcrud.Crud.Outbox.{stored}
use dcrud.Crud.Cache
use dcrud.Crud.Cache.{Cache, Heap, Received, cache_magic, compare_guids, with_cache}
use dcrud.Crud.Cache.Calls.{
  add_updated, said, update_known, update_checked, delete_known, owner_status, update_shared,
  remove_item, guid_libc,
}
use dcrud.Crud.Cache.Publishing.{publish, release_deleted, after_updated}
use dcrud.Crud.Cache.Identities.{IsGiven, IsValid}
use dcrud.Crud.Cache.Keys.{AreSound, compare_guids-IsComparator}
use dcrud.Crud.Outbox.{Outbox, publish_updated}

refresh_lem :
    {P G : Type 0} (c : Cache P G)
    → c.magic ≡ cache_magic
    → Cache.refresh (some c) ≡ some (no_error, some c)
unfolding Cache.refresh
refresh_lem c e = rw (==_true c.magic cache_magic e, Cache.refresh) refl

pub refresh-same :
    {P G : Type 0} {c c' : Cache P G} {status : Status}
    → c.magic ≡ cache_magic
    → Cache.refresh (some c) ≡ some (status, some c')
    → c ≡ c'
refresh-same {c = c} magic e =
    let fine : Cache.refresh (some c) ≡ some (no_error, some c) = refresh_lem c magic in cc

module _ (build : Build) {P G : Type 0} (publisher : ℕ) where
  -- The same cache, as far as its map goes.
  pub with_fields :
      {guids : G → Guid} {c : Cache P G} (d : Cache P G)
      → d.magic ≡ c.magic
      → d.local ≡ c.local
      → d.next_instance ≡ c.next_instance
      → IsValid build publisher guids c
      → IsValid build publisher guids d
  with_fields {guids} {c} d em el en v = record {
    genuine = em ∙ v.genuine;
    items = v.items;
    has_items = el ∙ v.has_items;
    items_valid = v.items_valid;
    started = subst (λ n. 0 < n) (sym en) v.started;
    given = λ k w e. subst (λ n. IsGiven publisher n (guids k)) (sym en) (v.given k w e);
  }

  pub from_body :
      {guids : G → Guid} {c c' : Cache P G} (body : Cache P G → Status × Cache P G)
      {status : Status}
      → IsValid build publisher guids c
      → with_cache (some c) body ≡ (status, some c')
      → IsValid build publisher guids (body c).1
      → IsValid build publisher guids c'
  from_body {guids} {c} {c'} body v e h =
      let both : some (body c).1 ≡ some c' =
        sym (ap (λ r. r.1) (with_self-genuine (λ t. t.magic) cache_magic c body v.genuine))
        ∙ ap (λ r. r.1) e in
      let same_cache : (body c).1 ≡ c' = cc in subst (IsValid build publisher guids) same_cache h

  removed-IsValid :
      {guids : G → Guid} {c : Cache P G} (sound : AreSound guids)
      (v : IsValid build publisher guids c) (key : G)
      {r : Status × Option (Pair G P) × Option (CollMap G P)}
      → MapRemoveOutcome (compare_guids guids) build v.items key r
      → IsValid build publisher guids (record c { local = r.2 })
  removed-IsValid sound v key (MapRemoveOutcome.absent missing) =
      with_fields _ refl (sym v.has_items) refl v
  removed-IsValid {guids} {c} sound v key
        (MapRemoveOutcome.removed m' old found same_key valid others l) =
      record {
        genuine = v.genuine;
        items = m';
        has_items = refl;
        items_valid = valid;
        started = v.started;
        given = kept;
      }
    where
      kept :
          (k : G) (w : Option P)
          → lookup (compare_guids guids) k m'.pairs ≡ some w
          → IsGiven publisher c.next_instance (guids k)
      kept k w e = elim (Bool-cases (is_eq (compare_guids guids k key))) [
        | inl t ↦
            let gone : lookup (compare_guids guids) k m'.pairs ≡ none =
              others k
              ∙ ap (λ b. if b then none else lookup (compare_guids guids) k v.items.pairs) t in
            absurd (let no : ⊥ = ground (arith, e, gone) in no)
        | inr f ↦ v.given k w (
            sym (
              others k
              ∙ ap (λ b. if b then none else lookup (compare_guids guids) k v.items.pairs) f)
            ∙ e)
      ]

module _ (libc : (A : Type 0) (cmp : A → A → Ordering) → Libc cmp) (build : Build) {P G D : Type 0}
    (address : P → ℕ) (publisher : ℕ) where
  add_updated-IsValid :
      (h : Heap P G D) {guids : G → Guid} (memory : Bool) {c : Cache P G} (item : P) (exists : Bool)
      → IsValid build publisher guids c
      → IsValid build publisher guids (add_updated libc h build memory address c item exists).1
  add_updated-IsValid h memory item true v = with_fields build publisher _ refl refl refl v
  add_updated-IsValid h memory item false v = v

  update-IsValid :
      (h : Heap P G D) {guids : G → Guid} (memory : Bool) {c : Cache P G} (item : Option P)
      (id : Option G) (shared : Bool)
      → IsValid build publisher guids c
      → IsValid build publisher guids (update_shared libc h build memory address c item id shared).1
  update-IsValid h {guids} memory (some item) (some id) true v =
      check_either {A = Status × Cache P G} (λ r. IsValid build publisher guids r.1) _
        (add_updated-IsValid h memory item _ v) v
  update-IsValid h memory (some item) (some id) false v = v
  update-IsValid h memory (some item) none shared v = v
  update-IsValid h memory none id shared v = v

  remove_item-IsValid :
      (h : Heap P G D) (memory : Bool) {c : Cache P G} (item : P) (id : Option G)
      → AreSound h.guids
      → IsValid build publisher h.guids c
      → IsValid build publisher h.guids (remove_item libc h build memory address c item id).1
  remove_item-IsValid h memory item none sound v = v
  remove_item-IsValid h memory {c} item (some id) sound v =
      check_either {A = Status × Cache P G} (λ r. IsValid build publisher h.guids r.1) _
        (with_fields build publisher _ refl same_map refl smaller)
        (with_fields build publisher _ refl same_map refl smaller)
    where
      smaller : IsValid build publisher h.guids (record c {
        local = (CollMap.remove (compare_guids h.guids) (guid_libc libc h) (some v.items) id).2;
      })
      smaller = removed-IsValid build publisher sound v id (
          remove-MapRemoveOutcome (compare_guids-IsComparator sound) (guid_libc libc h) build
            v.items id v.items_valid)

      same_map :
          (CollMap.remove (compare_guids h.guids) (guid_libc libc h) c.local id).2
          ≡ (CollMap.remove (compare_guids h.guids) (guid_libc libc h) (some v.items) id).2
      same_map =
          ap (λ l. (CollMap.remove (compare_guids h.guids) (guid_libc libc h) l id).2) v.has_items

  update_checked-IsValid :
      (h : Heap P G D) {guids : G → Guid} (memory : Bool) {c : Cache P G} (item : Option P)
      (id : Option G) (r : Status × Option Bool)
      → IsValid build publisher guids c
      → IsValid build publisher guids (update_checked libc h build memory address c item id r).1
  update_checked-IsValid h {guids} memory item id (status, shared) v =
      check_either {A = Status × Cache P G} (λ r. IsValid build publisher guids r.1) status
        (update-IsValid h memory item id (said shared) v) v

  pub update_known-IsValid :
      (h : Heap P G D) {guids : G → Guid} (memory : Bool) {c : Cache P G} (item : Option P)
      (r : Status × Option (Option G))
      → IsValid build publisher guids c
      → IsValid build publisher guids (update_known libc h build memory address c item r).1
  update_known-IsValid h {guids} memory item (status, id) v =
      check_either {A = Status × Cache P G} (λ r. IsValid build publisher guids r.1) status
        (update_checked-IsValid h memory item (stored id)
          (Guid.is_shared (Option.map h.guids (stored id)) true) v)
        v

  pub delete_known-IsValid :
      (h : Heap P G D) (memory : Bool) (garbage : G) {c : Cache P G} (item : P)
      (r : Status × Option (Option G))
      → AreSound h.guids
      → IsValid build publisher h.guids c
      → IsValid build publisher h.guids
          (delete_known libc h build memory address publisher garbage c item r).1
  delete_known-IsValid h memory garbage {c} item (status, written) sound v =
      let id = check status (stored written) (some garbage) in
      check_either {A = Status × Cache P G} (λ r. IsValid build publisher h.guids r.1)
        (owner_status libc h build memory address publisher c status id)
        (remove_item-IsValid h memory item id sound v) v

module _ {P G D Address : Type 0} (build : Build) (host_big : Bool)
    (network : Address → List ℕ → Option ℕ) (target : Address) (heap : Heap P G D)
    (publisher : ℕ) where
  -- The caches that a publication can leave.
  abbrev Leaves : Status × Option (Cache P G) × Outbox × List P → Type 0
  Leaves r = (d : Cache P G) × (r.1 ≡ some d) × IsValid build publisher heap.guids d

  release_deleted-Leaves :
      {c : Cache P G} (r : Status × Outbox)
      → IsValid build publisher heap.guids c
      → Leaves (release_deleted build heap c r)
  release_deleted-Leaves (status, p) v =
      check_either {A = Status × Option (Cache P G) × Outbox × List P} Leaves _
        (_, refl, with_fields build publisher _ refl refl refl v) (_, refl, v)

  after_updated-Leaves :
      {c : Cache P G} (p : Outbox) (r : Status × Option Outbox)
      → IsValid build publisher heap.guids c
      → Leaves (after_updated host_big network target build heap c p r)
  after_updated-Leaves p (status, sent) v =
      check_either {A = Status × Option (Cache P G) × Outbox × List P} Leaves status
        (release_deleted-Leaves _ (with_fields build publisher _ refl refl refl v))
        (_, refl, with_fields build publisher _ refl refl refl v)

  pub publish-IsValid :
      {c c' : Cache P G} (p : Outbox) {p' : Outbox} {status : Status} {released : List P}
      → IsValid build publisher heap.guids c
      → publish host_big network target build heap (some c) p ≡ (status, some c', p', released)
      → IsValid build publisher heap.guids c'
  unfolding publish
  publish-IsValid {c} {c'} p v e =
      let (d, is_d, valid) = left in
      let whole : (publish host_big network target build heap (some c) p).1 ≡ some c' =
        ap (λ r. r.1) e in
      let whole' : (publish host_big network target build heap (some c) p).1 ≡ some d = is_d in
      let same_cache : d ≡ c' = cc in subst (IsValid build publisher heap.guids) same_cache valid
    where
      left : Leaves (publish host_big network target build heap (some c) p)
      left =
          rw (==_true c.magic cache_magic v.genuine, publish)
            (after_updated-Leaves p
              (publish_updated host_big network target heap.guids heap.items c.updated (some p)) v)
