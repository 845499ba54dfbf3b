-- ===== src/Crud/Receiver.antt =====
-- `dcrudNetworkReceiver` (C/src/dcrud/NetworkReceiver.c): what a participant does with a datagram.
-- `caches` are the entries of the array of the participant, `none` for NULL.
pub mod Delivery
pub mod Frames
pub mod Operation
pub mod Calling
pub mod Arriving
pub mod Items
pub mod Rounds
pub mod Holds
pub mod CallFrames
pub mod SentCalls
use mathlib.Core.Option
use dcrud.Base.{
  ℕ, ◌+◌, ◌*◌, ◌%◌, ◌^◌, ◌==◌, if◌then◌else◌, Bool, true, false, Option, none, some, List, [], ◌∷◌,
}
use dcrud.Util.Status.{Status, no_error, check, Build}
use dcrud.Coll.Compare.{Ordering, string_compare, is_eq}
use dcrud.Coll.Libc.{Libc}
use dcrud.Io.ByteBuffer
use dcrud.Io.ByteBuffer.{Buffer, add_size}
use dcrud.Io.ByteBuffer.Allocation.{copy}
use dcrud.Io.ByteBuffer.Numbers.{get_uint}
use dcrud.Io.ByteBuffer.Socket.{receive}
use dcrud.Crud.Guid
use dcrud.Crud.Guid.{Guid}
use dcrud.Crud.Protocol.{signature, signature_size, guid_size, class_id_size, FrameType, code}
use dcrud.Crud.Cache.{
  Cache, Received, update_from_network, delete_from_network, write_guid, or_else_guid,
}

-- The memory for a copy of a frame: the bytes, the object, and the address of the object.
pub record Memory : Type 0 where
  pub reserve : ℕ → Option (List ℕ)
  pub allocated : Bool
  pub address : ℕ

-- What `ioByteBuffer_getUInt` stored to `size`, which was 0.
abbrev pub or_zero : Option ℕ → ℕ
or_zero none = 0
or_zero (some size) = size

-- The end of `dcrudNetworkReceiver_dataUpdate`: the frame is left behind what was copied.
abbrev pub skip : Option Buffer → ℕ → Status × Option Buffer
skip frame size =
    let (status, position, frame') = ByteBuffer.get_position frame true in
    check status
      (ByteBuffer.set_position frame'
        (add_size (add_size (add_size (or_zero position) guid_size) class_id_size) size))
      (status, frame')

module _ (libc : (A : Type 0) (cmp : A → A → Ordering) → Libc cmp) (build : Build)
    (reallocated : Bool) {P G : Type 0} where
  module _ (memory : ℕ → Memory) (frame : Option Buffer) (size : ℕ) where
    -- The handle of the copy is given to the cache.
    abbrev pub hand_over : ℕ → Cache P G → Status × Option Buffer → Status × Option (Cache P G)
    hand_over index cache (no_error, copied) =
        update_from_network libc build reallocated (some cache)
          (record { address = (memory index).address; buffer = copied })
    hand_over index cache (status, copied) = (status, some cache)

    -- The loop of `dcrudNetworkReceiver_dataUpdate`, which stops at the first NULL.
    unfoldable pub update_caches :
        ℕ → List (Option (Cache P G)) → Status × List (Option (Cache P G))
    update_caches index [] = (no_error, [])
    update_caches index (none ∷ caches) = (no_error, none ∷ caches)
    update_caches index (some cache ∷ caches) =
        let m = memory index in
        let (status, cache') = hand_over index cache (
          copy build m.reserve m.allocated frame none
            ((guid_size + class_id_size + size) % 2 ^ 32)) in
        let (later, caches') = update_caches (index + 1) caches in
        check status (later, cache' ∷ caches') (status, cache' ∷ caches)

  -- `dcrudNetworkReceiver_dataUpdate`
  unfoldable pub data_update :
      Bool
      → (ℕ → Memory)
      → Option Buffer
      → List (Option (Cache P G))
      → Status × Option Buffer × List (Option (Cache P G))
  data_update host_big memory frame caches =
      let (status, size, frame') = get_uint host_big frame in
      let (status', caches') = update_caches memory frame' (or_zero size) 0 caches in
      let (status'', frame'') = skip frame' (or_zero size) in
      check status (check status' (status'', frame'', caches') (status', frame', caches'))
        (status, frame', caches)

  -- The loop of `dcrudNetworkReceiver_dataDelete`, which passes over NULL.
  abbrev pub delete_caches : (G → Guid) → G → List (Option (Cache P G)) → List (Option (Cache P G))
  delete_caches guids id [] = []
  delete_caches guids id (none ∷ caches) = none ∷ delete_caches guids id caches
  delete_caches guids id (some cache ∷ caches) =
      (delete_from_network libc build reallocated guids (some cache) id).1
      ∷ delete_caches guids id caches

  -- `dcrudNetworkReceiver_dataDelete`, with memory for the identity at the address `id`. The status of
  -- `dcrudGUID_unserialize` is not looked at.
  unfoldable pub data_delete :
      Bool
      → (G → G → Bool)
      → (G → Guid)
      → G
      → Option Buffer
      → List (Option (Cache P G))
      → Option Buffer × List (Option (Cache P G)) × (G → Guid)
  data_delete host_big same guids id frame caches =
      let (_, guid, frame') = Guid.unserialize host_big true true frame in
      let guids' = write_guid same guids id (or_else_guid guid (guids id)) in
      (frame', delete_caches guids' id caches, guids')

-- What `dcrudNetworkReceiver_run` does with a datagram.
pub data Handler : Type 0 where
  -- `dcrudNetworkReceiver_dataUpdate`
  update : Handler
  -- `dcrudNetworkReceiver_dataDelete`
  delete : Handler
  -- `dcrudNetworkReceiver_operation`
  call : Handler
  -- the message that this is not a valid type
  invalid : ℕ → Handler
  -- the message that garbage was received
  garbage : Handler
  -- the loop ends
  stop : Handler

-- The buffer of a `dcrudNetworkReceiverImpl`, and the array `signa` of the loop, which keeps its
-- bytes from one datagram to the next.
pub record Receiver : Type 0 where
  pub in_buf : Option Buffer
  pub signa : List ℕ

-- `frameType`, an `int` of which the first byte was written: the last of its four bytes counts least
-- on a little-endian host and most on the other.
abbrev pub frame_type : Bool → Option ℕ → ℕ
frame_type host_big none = code FrameType.no_op
frame_type host_big (some byte) = if host_big then byte * 2 ^ 24 else byte

abbrev pub switch : ℕ → Handler
switch type =
    if type == code FrameType.data_create_or_update
    then update
    else if type == code FrameType.data_delete
    then delete
    else if type == code FrameType.operation
    then call
    else invalid type

-- `signa` after `ioByteBuffer_get`.
abbrev pub signed : List ℕ → Option (List ℕ) → List ℕ
signed signa none = signa
signed signa (some read) = read

-- What the loop does with a datagram, once its signature is compared: `body` is the datagram behind
-- the signature, and `rest` behind the type.
abbrev pub judge :
    Bool → Bool → Option ℕ → List ℕ → Option Buffer → Option Buffer → Handler × Receiver
judge host_big true type signa body rest =
    (switch (frame_type host_big type), record { in_buf = rest; signa = signa })
judge host_big false type signa body rest = (garbage, record { in_buf = body; signa = signa })

-- One round of `dcrudNetworkReceiver_run` up to its `switch`: `recv` and `recvfrom` are those of the
-- system.
unfoldable pub pick :
    Bool → (ℕ → Option (List ℕ)) → (ℕ → Option (List ℕ)) → Bool → Receiver → Handler × Receiver
pick host_big recv recvfrom is_stream r =
    let (_, cleared) = ByteBuffer.clear r.in_buf in
    let (status, received) = receive recv recvfrom is_stream cleared in
    let (_, flipped) = ByteBuffer.flip received in
    let (_, read, body) = ByteBuffer.get flipped 0 signature_size in
    let signa = signed r.signa read in
    let (_, type, rest) = ByteBuffer.get_byte body in
    check status (judge host_big (is_eq (string_compare signa signature)) type signa body rest)
      (stop, record r { in_buf = received })
