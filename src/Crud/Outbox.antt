-- ===== src/Crud/Outbox.antt =====
-- What a participant sends (C/src/dcrud/ParticipantImpl.c): the objects that were changed and those
-- that were deleted, a frame for each. `Outbox` are the fields of `dcrudIParticipantImpl` that this
-- uses. Steps under `if( UTIL_STATUS_NO_ERROR == status )` are a list.
pub mod Steps
pub mod Frames
pub mod Messages
pub mod Ready
pub mod Publish
pub mod PublishDeleted
pub mod PublishAll
pub mod Calls
pub mod CallFrames
use mathlib.Core.Option
use dcrud.Base.{
  ℕ, ◌-◌, ◌%◌, ◌^◌, if◌then◌else◌, Bool, true, Option, none, some, List, [], ◌∷◌, ◌++◌, slice,
}
use dcrud.Util.Status.{Status, no_error, check}
use dcrud.Util.SafeCast.{Cast, valid, failed, safe_cast, with_self}
use dcrud.Coll.CollSet
use dcrud.Coll.CollSet.{CollSet}
use dcrud.Io.ByteBuffer
use dcrud.Io.ByteBuffer.{Buffer, buffer_magic, sub_size}
use dcrud.Io.ByteBuffer.Numbers.{put_uint}
use dcrud.Io.ByteBuffer.Socket.{send_to}
use dcrud.Crud.ClassId
use dcrud.Crud.Guid
use dcrud.Crud.Guid.{Guid}
use dcrud.Crud.Protocol.{
  signature, signature_size, FrameType, data_create_or_update, data_delete, code,
}
use dcrud.Crud.Shareable.{Shareable, Factory, shareable_magic, get_data, get_guid}

-- The buffers of a `dcrudIParticipantImpl`. `sent` are the datagrams that `sendto` was given, in
-- their order.
pub record Outbox : Type 0 where
  pub magic : ℕ
  pub header : Option Buffer
  pub payload : Option Buffer
  pub message : Option Buffer
  pub sent : List (List ℕ)

-- `dcrudIParticipantImplMAGIC`
abbrev pub participant_magic : ℕ
participant_magic = 0x03000008

-- `if( UTIL_STATUS_NO_ERROR == status ) { status = ...; }`, one step after the other.
unfoldable pub run_steps : {S : Type 0} → List (S → Status × S) → S → Status × S
run_steps [] s = (no_error, s)
run_steps (step ∷ steps) s =
    let (status, s') = step s in let rest = run_steps steps s' in check status rest (status, s')

-- A call on one of the buffers.
abbrev pub on_header : (Option Buffer → Status × Option Buffer) → Outbox → Status × Outbox
on_header call p = let (status, b) = call p.header in (status, record p { header = b })

abbrev pub on_payload : (Option Buffer → Status × Option Buffer) → Outbox → Status × Outbox
on_payload call p = let (status, b) = call p.payload in (status, record p { payload = b })

abbrev pub on_message : (Option Buffer → Status × Option Buffer) → Outbox → Status × Outbox
on_message call p = let (status, b) = call p.message in (status, record p { message = b })

-- `ioByteBuffer_putBuffer( This->message, ... )`
abbrev pub header_to_message : Outbox → Status × Outbox
header_to_message p =
    let (status, message, header) = ByteBuffer.put_buffer p.message p.header in
    (status, record p { message = message; header = header })

abbrev pub payload_to_message : Outbox → Status × Outbox
payload_to_message p =
    let (status, message, payload) = ByteBuffer.put_buffer p.message p.payload in
    (status, record p { message = message; payload = payload })

-- What `ioByteBuffer_sendTo` hands to `sendto`: nothing, if the cast fails.
abbrev pub datagrams : Option Buffer → List (List ℕ)
datagrams self = elim (safe_cast (λ b. b.magic) buffer_magic self) [
  | failed status ↦ []
  | valid this ↦ slice this.bytes this.position (sub_size this.limit this.position) ∷ []
]

-- What `dcrudShareable_getData` and `dcrudShareable_getGUID` stored through their second argument.
abbrev pub stored : {A : Type 0} → Option (Option A) → Option A
stored none = none
stored (some pointer) = pointer

-- `item->factory->serialize( user_data, This->payload )`. The code does not ask if there is a factory: a
-- shared object has one.
abbrev pub serialize_data :
    {D : Type 0} → Option (Factory D) → Option D → Option Buffer → Status × Option Buffer
serialize_data none user_data target = (no_error, target)
serialize_data (some factory) user_data target = factory.serialize user_data target

module _ {Address : Type 0} (network : Address → List ℕ → Option ℕ) (target : Address) where
  -- `ioByteBuffer_sendTo( This->message, This->out, &This->target )`, and the same for the header.
  abbrev pub send_message : Outbox → Status × Outbox
  send_message p =
      let (status, b) = send_to network p.message target in
      (status, record p { message = b; sent = p.sent ++ datagrams p.message })

  abbrev pub send_header : Outbox → Status × Outbox
  send_header p =
      let (status, b) = send_to network p.header target in
      (status, record p { header = b; sent = p.sent ++ datagrams p.header })

  -- The steps that send both.
  abbrev pub message_steps : List (Outbox → Status × Outbox)
  message_steps =
      on_message ByteBuffer.clear
      ∷ header_to_message
      ∷ payload_to_message
      ∷ on_message ByteBuffer.flip
      ∷ send_message
      ∷ []

module _ {G D : Type 0} where
  -- The steps of `pushCreateOrUpdateItem` that write the data of the item to the payload.
  abbrev pub payload_steps : Shareable G D → Option D → List (Outbox → Status × Outbox)
  payload_steps item user_data =
      on_payload ByteBuffer.clear
      ∷ on_payload (serialize_data item.factory user_data)
      ∷ on_payload ByteBuffer.flip
      ∷ []

module _ {G D : Type 0} (host_big : Bool) (guids : G → Guid) where
  -- The steps that write the header, of a payload of `size` bytes.
  abbrev pub header_steps : Shareable G D → ℕ → List (Outbox → Status × Outbox)
  header_steps item size =
      on_header ByteBuffer.clear
      ∷ on_header (λ b. ByteBuffer.put b signature 0 signature_size)
      ∷ on_header (λ b. ByteBuffer.put_byte b (code data_create_or_update))
      ∷ on_header (λ b. put_uint host_big b (size % 2 ^ 32))
      ∷ on_header (Guid.serialize host_big (Option.map guids item.id))
      ∷ on_header (ClassId.serialize item.class_id)
      ∷ on_header ByteBuffer.flip
      ∷ []

module _ {G D Address : Type 0} (host_big : Bool) (network : Address → List ℕ → Option ℕ)
    (target : Address) (guids : G → Guid) where
  -- What follows `ioByteBuffer_remaining( This->payload, &size )`.
  abbrev pub after_remaining :
      Shareable G D → Status × Option ℕ × Option Buffer → Outbox → Status × Outbox
  after_remaining item (no_error, some size, payload) p =
      run_steps (header_steps host_big guids item size ++ message_steps network target) p
  after_remaining item (status, _, payload) p = (status, p)

  abbrev pub after_data : Shareable G D → Status × Option (Option D) → Outbox → Status × Outbox
  after_data item (status, user_data) p =
      let (status', p') = run_steps (payload_steps item (stored user_data)) p in
      check status
        (check status' (after_remaining item (ByteBuffer.remaining p'.payload true) p')
          (status', p'))
        (status, p)

  -- `pushCreateOrUpdateItem`: `self` is `context->user`, `value` what `context->value` points to.
  unfoldable pub push_create_or_update_item :
      Option Outbox → Option (Shareable G D) → Status × Option Outbox
  push_create_or_update_item self value =
      with_self (λ p. p.magic) participant_magic self
        λ p. elim (safe_cast (λ s. s.magic) shareable_magic value) [
          | failed status ↦ (status, p)
          | valid item ↦ after_data item (get_data (some item) true) p
        ]

  abbrev pub delete_steps : Shareable G D → List (Outbox → Status × Outbox)
  delete_steps item =
      on_header ByteBuffer.clear
      ∷ on_header (λ b. ByteBuffer.put b signature 0 signature_size)
      ∷ on_header (λ b. ByteBuffer.put_byte b (code data_delete))
      ∷ (λ p. let (status, guid) = get_guid (some item) true in (status, p))
      ∷ on_header
          (Guid.serialize host_big (Option.map guids (stored (get_guid (some item) true).1)))
      ∷ on_header ByteBuffer.flip
      ∷ send_header network target
      ∷ []

  -- `pushDeleteItem`, which does not cast `context->user`.
  unfoldable pub push_delete_item : Outbox → Option (Shareable G D) → Status × Outbox
  push_delete_item p value = elim (safe_cast (λ s. s.magic) shareable_magic value) [
    | failed status ↦ (status, p)
    | valid item ↦ run_steps (delete_steps item) p
  ]

  -- `dcrudIParticipantImpl_publishUpdated`. The set has the addresses of the items, and `items` are
  -- the objects there.
  unfoldable pub publish_updated :
      {P : Type 0}
      → (P → Shareable G D)
      → Option (CollSet P)
      → Option Outbox
      → Status × Option Outbox
  publish_updated items updated self =
      CollSet.foreach (λ p index item. push_create_or_update_item p (some (items item))) updated
        self

  -- `dcrudIParticipantImpl_publishDeleted`
  unfoldable pub publish_deleted :
      {P : Type 0} → (P → Shareable G D) → Option (CollSet P) → Outbox → Status × Outbox
  publish_deleted items deleted p =
      CollSet.foreach (λ q index item. push_delete_item q (some (items item))) deleted p
