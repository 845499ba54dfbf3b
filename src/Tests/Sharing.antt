-- ===== src/Tests/Sharing.antt =====
-- Objects that are created, published and received, at a small program.
use mathlib.Core.Option
use dcrud.Base.{
  Option, ℕ, ◌+◌, ◌≡◌, ◌==◌, ==_iff, refl, length, subst, ◌<◌, ◌^◌, true, false, none, some, [],
  ◌∷◌, replicate, arith,
}
use dcrud.Util.Status.{no_error, dynamic_allocation}
use dcrud.Coll.Compare.{is_eq}
use dcrud.Coll.Storage.{bound}
use dcrud.Coll.CollSet
use dcrud.Coll.CollSet.{CollSet, set_magic}
use dcrud.Io.ByteBuffer.{Buffer, big_endian}
use dcrud.Io.ByteBuffer.Streams.{unread}
use dcrud.Io.ByteBuffer.Numbers.{le_bytes}
use dcrud.Crud.Guid.{Guid, guid_magic}
use dcrud.Crud.Outbox.Frames.{update_frame, delete_frame}
use dcrud.Crud.Outbox.Ready.{HasSent}
use dcrud.Crud.Outbox.PublishAll.{frame_of}
use dcrud.Crud.Cache.{Cache, Heap, compare_guids, create, set_ownership, write_guid}
use dcrud.Crud.Cache.Calls.{read}
use dcrud.Crud.Cache.Publishing.{publish}
use dcrud.Crud.Cache.PublishLaws.{publish_lem}
use dcrud.Crud.Cache.Identities.{IsSame, IsGiven, IsValid}
use dcrud.Crud.Cache.Keys.{AreSound}
use dcrud.Coll.CollMap.Lookup.{lookup}
use dcrud.Crud.Cache.Growth.{IsNew}
use dcrud.Crud.Cache.Creation.{create-read}
use dcrud.Crud.Cache.History.{Step, Reach, Reach-Kept}
use dcrud.Crud.Receiver.{Memory, Handler, pick, data_update}
use dcrud.Crud.Receiver.Delivery.{Suffices, Delivered}
use dcrud.Crud.Receiver.Frames.{Reported, object_bytes, pick-Reported, update_frame-Delivered}
use dcrud.Tests.Programs.{
  libc, blank, blank-IsOpen, some_class, heap, view, all_Shown, participant, participant-IsReady,
  network, set_of, no_items, cache,
}

publish_lem_example :
    let (status, cache', p', released) =
      publish true network 0 dynamic_allocation heap (some cache) participant in
    (status ≡ no_error)
    × (cache'
        ≡ some (record cache {
          updated = (CollSet.clear dynamic_allocation (some (set_of (16 ∷ 24 ∷ [])))).1;
          deleted = (CollSet.clear dynamic_allocation (some (set_of (32 ∷ [])))).1;
        }))
    × (released ≡ 32 ∷ [])
    × HasSent big_endian
        (frame_of big_endian (view 16)
          ∷ frame_of big_endian (view 24)
          ∷ delete_frame big_endian (view 32).guid
          ∷ [])
        (no_error, some p')
publish_lem_example =
    publish_lem true 0 (λ a s. refl) dynamic_allocation heap view participant-IsReady cache
      (set_of (16 ∷ 24 ∷ [])) (set_of (32 ∷ [])) refl refl refl refl refl
      (all_Shown 16, (all_Shown 24, tt)) (all_Shown 32, tt)

-- A host with memory for every copy.
abbrev memory : ℕ → Memory
memory i = record { reserve = λ n. some (replicate n 0); allocated = true; address = 4096 + i }

memory-Suffices : Suffices dynamic_allocation memory 13
unfolding Option.bind
memory-Suffices = record {
  objects = λ i. refl;
  arrays = λ i. record { array = replicate 13 0; given = refl; large = omega arith };
}

abbrev guid : Guid
guid = record { magic = guid_magic; publisher = 1; instance = 5 }

blank_order : (n : ℕ) → (blank n).order ≡ big_endian
unfolding blank
blank_order n = refl

update_frame-Delivered_example :
    let frame = update_frame (blank 100).order guid some_class (7 ∷ []) in
    let (handler, r) =
      pick false
        (λ max. none)
        (λ max. some frame)
        false
        (record { in_buf = some (blank 100); signa = [] }) in
    let (status, left_over, caches') =
      data_update libc dynamic_allocation true false memory r.in_buf
        (some cache ∷ none ∷ some cache ∷ []) in
    (handler ≡ Handler.update)
    × (status ≡ no_error)
    × ((left : Buffer) × (left_over ≡ some left) × (unread left ≡ []))
    × Delivered libc dynamic_allocation true memory
        (object_bytes (blank 100).order guid some_class (7 ∷ []))
        0
        (some cache ∷ none ∷ some cache ∷ [])
        caches'
unfolding blank le_bytes
update_frame-Delivered_example =
    update_frame-Delivered libc dynamic_allocation true memory (blank-IsOpen 100 (omega arith)) guid
      some_class (7 ∷ []) (omega arith) (omega arith) memory-Suffices
      (some cache ∷ none ∷ some cache ∷ []) (refl, (tt, (refl, tt))) (λ max. none)
      (λ max. some (update_frame (blank 100).order guid some_class (7 ∷ []))) [] refl

pick-Reported_example :
    Reported
      (pick true
        (λ max. none)
        (λ max. some (update_frame big_endian guid some_class (7 ∷ [])))
        false
        (record { in_buf = some (blank 100); signa = [] })).0
pick-Reported_example =
    pick-Reported (λ max. none) (λ max. some (update_frame big_endian guid some_class (7 ∷ [])))
      false (record { in_buf = some (blank 100); signa = [] })

==-IsSame : IsSame ◌==◌
==-IsSame = record { at_self = λ g. ground arith; only_self = λ g h e. (==_iff g h).0 e }

heap-AreSound : AreSound heap.guids
heap-AreSound = record {
  valid = λ g. record { genuine = refl; publisher_fits = omega arith; instance_fits = omega arith };
  publishers = λ g. omega arith;
  instances = λ g. omega arith;
}

heap-IsNew : IsNew ◌==◌ heap.guids 40 1 1
heap-IsNew = record {
  is_same = ==-IsSame;
  sound = heap-AreSound;
  unshared = refl;
  publisher_small = omega arith;
  next_small = omega arith;
}

nothing-IsGiven :
    (k : ℕ) (v : Option ℕ)
    → lookup (compare_guids heap.guids) k no_items.pairs ≡ some v
    → IsGiven 1 1 (heap.guids k)
nothing-IsGiven k v e = let bad : ⊥ = ground arith in absurd bad

abbrev cache-IsValid : IsValid dynamic_allocation 1 heap.guids cache
cache-IsValid = record {
  genuine = refl;
  items = no_items;
  has_items = refl;
  items_valid = record {
    genuine = refl;
    ordered = record { sorted = tt; distinct = tt };
    fits = omega arith;
  };
  started = omega arith;
  given = nothing-IsGiven;
}

create-read_example :
    let (status, self, heap') =
      create libc dynamic_allocation (λ p. p) ◌==◌ 1 true true heap (some cache) (some 40) in
    (status ≡ no_error)
    × (read libc heap' self 40 true ≡ (no_error, some (some 40)))
    × ((k : ℕ)
        → IsGiven 1 1 (heap.guids k)
        → (is_eq (compare_guids heap'.guids k 40) ≡ false)
          × (read libc heap' self k true ≡ read libc heap (some cache) k true))
create-read_example =
    create-read libc dynamic_allocation (λ p. p) 1 true true heap cache 40 40 heap-IsNew
      cache-IsValid refl refl (omega arith) (omega arith)

-- The cache after the object 40 was created.
abbrev created : Cache ℕ ℕ
created = record cache {
  updated = some (set_of (16 ∷ 24 ∷ 40 ∷ []));
  local = some (record no_items { pairs = (40, some 40) ∷ [] });
  next_instance = 2;
}

abbrev heap_after : Heap ℕ ℕ ℕ
heap_after = record heap {
  guids = write_guid ◌==◌ heap.guids 40 (record (heap.guids 40) { publisher = 1; instance = 1 });
}

creates :
    create libc dynamic_allocation (λ p. p) ◌==◌ 1 true true heap (some cache) (some 40)
    ≡ (no_error, some created, heap_after)
unfolding create dcrud.Crud.Shareable.get_guid dcrud.Crud.Guid.is_shared CollSet.add
    dcrud.Coll.CollMap.put dcrud.Crud.Guid.init dcrud.Coll.Compare.number_compare
    dcrud.Coll.CollMap.insert CollSet.insert dcrud.Coll.Storage.make_room
creates = refl

-- The object is created, and then the ownership test is switched on.
Reach-Kept_example :
    AreSound heap_after.guids
    × IsValid dynamic_allocation 1 heap_after.guids (record created { ownership_check = true })
unfolding set_ownership
Reach-Kept_example =
    Reach-Kept libc dynamic_allocation (λ p. p) ◌==◌ 1 true network 0 {h = heap} {c = cache}
      heap-AreSound cache-IsValid
      (Reach.next
        (Reach.next Reach.here (
          Step.create true true 40 40 heap-IsNew refl refl
            (λ m e.
              let same : no_items ≡ m = cc in
              subst
                (λ t.
                  (length t.pairs < bound dynamic_allocation t.limit) × (t.limit + 100 < 2 ^ 32))
                same (omega arith, omega arith))
            creates))
        (Step.set_ownership true refl))
