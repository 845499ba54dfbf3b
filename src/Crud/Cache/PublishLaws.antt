-- ===== src/Crud/Cache/PublishLaws.antt =====
-- `dcrudICache_publish` (C/src/dcrud/Cache.c) as a whole.
use mathlib.Core.List.{append_assoc}
use dcrud.Base.{
  ℕ, ◌+◌, ◌≡◌, refl, sym, ap, ◌∙◌, subst, ==_true, Bool, Option, some, List, [], ◌∷◌, ◌++◌, map,
  All, append-nil,
}
use dcrud.Util.Status.{Status, no_error, Build}
use dcrud.Coll.Storage.{foreach_from}
use dcrud.Coll.CollSet
use dcrud.Coll.CollSet.{CollSet, set_magic}
use dcrud.Io.ByteBuffer.{Order}
use dcrud.Crud.Shareable.{shareable_magic}
use dcrud.Crud.Outbox.{Outbox, publish_updated, publish_deleted}
use dcrud.Crud.Outbox.Frames.{delete_frame}
use dcrud.Crud.Outbox.Messages.{Delivers}
use dcrud.Crud.Outbox.Ready.{IsReady, HasSent, View, Shown}
use dcrud.Crud.Outbox.PublishAll.{
  frame_of, publish_updated-HasSent, publish_deleted-HasSent, foreach-genuine,
}
use dcrud.Crud.Cache.{Cache, Heap, cache_magic}
use dcrud.Crud.Cache.Publishing.{publish, after_updated, release_shareable, release_deleted}

release_lem :
    {P G D : Type 0} (heap : Heap P G D) (view : P → View) (index : ℕ) (xs released : List P)
    → All (λ p. Shown heap.guids (heap.items p) (view p)) xs
    → foreach_from (release_shareable heap) index xs released ≡ (no_error, released ++ xs)
unfolding foreach_from
release_lem heap view index [] released h = ap (λ r. (no_error, r)) (sym (append-nil released))
release_lem heap view index (x ∷ xs) released h =
    rw (==_true (heap.items x).magic shareable_magic h.0.0.genuine, release_shareable)
      (release_lem heap view (index + 1) xs (released ++ (x ∷ [])) h.1
        ∙ ap (λ r. (no_error, r)) (append_assoc released (x ∷ []) xs))

module _ {P G D Address : Type 0} (host_big : Bool) {network : Address → List ℕ → Option ℕ}
    (target : Address) (works : Delivers network) (build : Build) (heap : Heap P G D)
    {order : Order} (view : P → View) where
  -- `dcrudICache_publish` sends a frame for every object that was changed and then one for every
  -- object that was deleted, in the order of the two sets, gives the deleted objects back, and empties
  -- both sets: if the network takes every datagram whole, and every factory writes what its object is
  -- seen as, which fits the payload. The participant is ready for the next time.
  pub publish_lem :
      {p : Outbox}
      → IsReady order p
      → (this : Cache P G) (updated deleted : CollSet P) → this.magic ≡ cache_magic
      → this.updated ≡ some updated
      → this.deleted ≡ some deleted
      → updated.magic ≡ set_magic
      → deleted.magic ≡ set_magic
      → All (λ q. Shown heap.guids (heap.items q) (view q)) updated.items
      → All (λ q. Shown heap.guids (heap.items q) (view q)) deleted.items
      → let (status, cache, p', released) =
          publish host_big network target build heap (some this) p in
        (status ≡ no_error)
        × (cache
            ≡ some (record this {
              updated = (CollSet.clear build (some updated)).1;
              deleted = (CollSet.clear build (some deleted)).1;
            }))
        × (released ≡ deleted.items)
        × HasSent order
            (p.sent
              ++ (map (λ q. frame_of order (view q)) updated.items
                  ++ map (λ q. delete_frame order (view q).guid) deleted.items))
            (no_error, some p')
  unfolding publish
  publish_lem {p} ready this updated deleted e eu ed gu gd hu hd =
      subst
        (λ t.
          (t.0 ≡ no_error)
          × (t.1 ≡ some this')
          × (t.3 ≡ deleted.items)
          × HasSent order (p.sent ++ (frames ++ farewells)) (no_error, some t.2))
        (sym whole)
        (
          refl,
          refl,
          refl,
          record {
            fine = refl;
            after = deletes.after;
            is_after = refl;
            ready = deletes.ready;
            has_sent = sent;
          },
        )
    where
      frames : List (List ℕ)
      frames = map (λ q. frame_of order (view q)) updated.items

      farewells : List (List ℕ)
      farewells = map (λ q. delete_frame order (view q).guid) deleted.items

      this' : Cache P G
      this' = record this {
        updated = (CollSet.clear build (some updated)).1;
        deleted = (CollSet.clear build (some deleted)).1;
      }

      updates :
          HasSent order
            (p.sent ++ frames)
            (publish_updated host_big network target heap.guids heap.items (some updated) (some p))
      updates =
          publish_updated-HasSent host_big target works heap.guids heap.items view ready updated gu
            hu

      after_deletes : Status × Outbox
      after_deletes =
          publish_deleted host_big network target heap.guids heap.items (some deleted) updates.after

      deletes :
          HasSent order (updates.after.sent ++ farewells) (after_deletes.0, some after_deletes.1)
      deletes =
          publish_deleted-HasSent host_big target works heap.guids heap.items view updates.ready
            deleted gd hd

      sent : deletes.after.sent ≡ p.sent ++ (frames ++ farewells)
      sent =
          deletes.has_sent
          ∙ ap (λ l. l ++ farewells) updates.has_sent
          ∙ append_assoc p.sent frames farewells

      on_cache : Cache P G
      on_cache = record this {
        updated = (CollSet.clear build (some updated)).1;
        deleted = some deleted;
      }

      tidy : this ≡ record this { updated = some updated; deleted = some deleted }
      tidy = λ i. record this { updated = eu i; deleted = ed i }

      released :
          release_deleted build heap on_cache (no_error, deletes.after)
          ≡ (no_error, some this', deletes.after, deleted.items)
      released =
          ap (λ t. (t.0, some this', deletes.after, t.1))
            (foreach-genuine (release_shareable heap) deleted [] gd
              ∙ release_lem heap view 0 deleted.items [] hd)

      deleting : after_deletes ≡ (no_error, deletes.after)
      deleting =
          let second : after_deletes.1 ≡ deletes.after = (let e' = deletes.is_after in cc) in
          λ i. (deletes.fine i, second i)

      whole :
          publish host_big network target build heap (some this) p
          ≡ (no_error, some this', deletes.after, deleted.items)
      whole =
          rw (==_true this.magic cache_magic e, publish)
            (ap
                (λ t. after_updated host_big network target build heap t p (
                  publish_updated host_big network target heap.guids heap.items t.updated (some p)))
                tidy
              ∙ ap
                  (after_updated host_big network target build heap
                    (record this { updated = some updated; deleted = some deleted }) p)
                  (λ i. (updates.fine i, updates.is_after i))
              ∙ ap (release_deleted build heap on_cache) deleting
              ∙ released)
