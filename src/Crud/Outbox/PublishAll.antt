-- ===== src/Crud/Outbox/PublishAll.antt =====
-- `dcrudIParticipantImpl_publishUpdated` and `_publishDeleted` (C/src/dcrud/ParticipantImpl.c): all
-- items of a set, in the order of the set.
use mathlib.Core.List.{append_assoc}
use dcrud.Base.{
  ℕ, ◌+◌, ◌≡◌, refl, sym, ap, ◌∙◌, subst, ==_true, Bool, Option, some, List, [], ◌∷◌, ◌++◌, map,
  All, append-nil,
}
use dcrud.Util.Status.{Status}
use dcrud.Coll.Storage.{foreach_from}
use dcrud.Coll.CollSet
use dcrud.Coll.CollSet.{CollSet, set_magic}
use dcrud.Io.ByteBuffer.{Order}
use dcrud.Crud.Guid.{Guid}
use dcrud.Crud.Shareable.{Shareable}
use dcrud.Crud.Outbox.{
  Outbox, push_create_or_update_item, push_delete_item, publish_updated, publish_deleted,
}
use dcrud.Crud.Outbox.Frames.{update_frame, delete_frame}
use dcrud.Crud.Outbox.Messages.{Delivers}
use dcrud.Crud.Outbox.PublishDeleted.{push_delete_item-HasSent}
use dcrud.Crud.Outbox.Publish.{push_create_or_update_item-HasSent}
use dcrud.Crud.Outbox.Ready.{IsReady, HasSent, View, Shown}

pub foreach-genuine :
    {S A : Type 0} (fn : S → ℕ → A → Status × S) (set : CollSet A) (s : S)
    → set.magic ≡ set_magic
    → CollSet.foreach fn (some set) s ≡ foreach_from fn 0 set.items s
unfolding CollSet.foreach
foreach-genuine fn set s e = rw (==_true set.magic set_magic e, CollSet.foreach) refl

abbrev pub frame_of : Order → View → List ℕ
frame_of order v = update_frame order v.guid v.of_class v.content

module _ {S A : Type 0} (order : Order) (fn : S → ℕ → A → Status × S) (state_of : S → Option Outbox)
    (frame : A → List ℕ) (Good : A → Type 0)
    (sends : (self : Outbox) (s : S) (index : ℕ) (a : A)
      → state_of s ≡ some self
      → IsReady order self
      → Good a
      → HasSent order
          (self.sent ++ (frame a ∷ []))
          ((fn s index a).0, state_of (fn s index a).1)) where
  -- Visits that each send a frame send the frames of all items.
  foreach_from-HasSent :
      (index : ℕ) (xs : List A) {self : Outbox} (s : S)
      → state_of s ≡ some self
      → IsReady order self
      → All Good xs
      → HasSent order
          (self.sent ++ map frame xs)
          ((foreach_from fn index xs s).0, state_of (foreach_from fn index xs s).1)
  unfolding foreach_from
  foreach_from-HasSent index [] {self} s e r h = record {
    fine = refl;
    after = self;
    is_after = e;
    ready = r;
    has_sent = sym (append-nil self.sent);
  }
  foreach_from-HasSent index (x ∷ xs) {self} s e r h =
      let first = sends self s index x e r h.0 in
      let later =
        foreach_from-HasSent (index + 1) xs (fn s index x).1 first.is_after first.ready h.1 in
      let sent : first.after.sent ++ map frame xs ≡ self.sent ++ (frame x ∷ map frame xs) =
        ap (λ l. l ++ map frame xs) first.has_sent
        ∙ append_assoc self.sent (frame x ∷ []) (map frame xs) in
      rw first.fine (record {
        fine = later.fine;
        after = later.after;
        is_after = later.is_after;
        ready = later.ready;
        has_sent = later.has_sent ∙ sent;
      })

module _ {G D P Address : Type 0} (host_big : Bool) {network : Address → List ℕ → Option ℕ}
    (target : Address) (works : Delivers network) (guids : G → Guid) {order : Order}
    (items : P → Shareable G D) (view : P → View) where
  -- `dcrudIParticipantImpl_publishUpdated` sends the frames of all items of the set, in the order of
  -- the set, and leaves the participant ready: if the network takes every datagram whole, the
  -- factories write what the items are seen as, and that fits the payload.
  pub publish_updated-HasSent :
      {self : Outbox}
      → IsReady order self
      → (updated : CollSet P) → updated.magic ≡ set_magic
      → All (λ p. Shown guids (items p) (view p)) updated.items
      → HasSent order
          (self.sent ++ map (λ p. frame_of order (view p)) updated.items)
          (publish_updated host_big network target guids items (some updated) (some self))
  unfolding publish_updated
  publish_updated-HasSent {self} r updated e h =
      subst (HasSent order (self.sent ++ map (λ p. frame_of order (view p)) updated.items))
        (sym (foreach-genuine push updated (some self) e))
        (foreach_from-HasSent order push (λ q. q) (λ p. frame_of order (view p))
          (λ p. Shown guids (items p) (view p)) one 0 updated.items (some self) refl r h)
    where
      push : Option Outbox → ℕ → P → Status × Option Outbox
      push p index item =
          push_create_or_update_item host_big network target guids p (some (items item))

      one :
          (q : Outbox) (s : Option Outbox) (index : ℕ) (a : P)
          → s ≡ some q
          → IsReady order q
          → Shown guids (items a) (view a)
          → HasSent order
              (q.sent ++ (frame_of order (view a) ∷ []))
              ((push s index a).0, (push s index a).1)
      one q s index a same ready good =
          subst (λ t. HasSent order (q.sent ++ (frame_of order (view a) ∷ [])) (push t index a))
            (sym same)
            (push_create_or_update_item-HasSent good.0 host_big target works ready good.1)

  -- `dcrudIParticipantImpl_publishDeleted` sends the identities of all items of the set, in the order
  -- of the set, and leaves the participant ready, if the network takes every datagram whole.
  pub publish_deleted-HasSent :
      {self : Outbox}
      → IsReady order self
      → (deleted : CollSet P) → deleted.magic ≡ set_magic
      → All (λ p. Shown guids (items p) (view p)) deleted.items
      → let r = publish_deleted host_big network target guids items (some deleted) self in
        HasSent order
          (self.sent ++ map (λ p. delete_frame order (view p).guid) deleted.items)
          (r.0, some r.1)
  unfolding publish_deleted
  publish_deleted-HasSent {self} r deleted e h =
      subst
        (λ t.
          HasSent order (self.sent ++ map (λ p. delete_frame order (view p).guid) deleted.items)
            (t.0, some t.1))
        (sym (foreach-genuine push deleted self e))
        (foreach_from-HasSent order push (λ q. some q) (λ p. delete_frame order (view p).guid)
          (λ p. Shown guids (items p) (view p)) one 0 deleted.items self refl r h)
    where
      push : Outbox → ℕ → P → Status × Outbox
      push p index item = push_delete_item host_big network target guids p (some (items item))

      one :
          (q s : Outbox) (index : ℕ) (a : P)
          → some s ≡ some q
          → IsReady order q
          → Shown guids (items a) (view a)
          → HasSent order
              (q.sent ++ (delete_frame order (view a).guid ∷ []))
              ((push s index a).0, some (push s index a).1)
      one q s index a same ready good =
          let eq : s ≡ q = cc in
          subst
            (λ t.
              HasSent order (q.sent ++ (delete_frame order (view a).guid ∷ []))
                ((push t index a).0, some (push t index a).1))
            (sym eq) (push_delete_item-HasSent host_big target works good ready)
