-- ===== src/Io/ByteBuffer/Socket.antt =====
-- `ioByteBuffer_send`, `_sendTo` and `_receive` (C/src/io/ByteBuffer.c). What a system call answers
-- is an argument: `none` is a negative count.
use dcrud.Base.{ℕ, ◌==◌, if◌then◌else◌, Bool, Option, none, some, List, slice, overwrite, length}
use dcrud.Util.Status.{Status, no_error, std_api_error, illegal_state}
use dcrud.Io.ByteBuffer.{Buffer, add_size, sub_size, with_buffer}

-- `ioByteBuffer_send`, with the `send` of the system.
unfoldable pub send : (List ℕ → Option ℕ) → Option Buffer → Status × Option Buffer
send system self = with_buffer self λ b.
    let len = sub_size b.limit b.position in
    elim (system (slice b.bytes b.position len)) [
      | none ↦ (std_api_error, b)
      | some count ↦
          if len == count
          then (no_error, record b { position = add_size b.position count })
          else (std_api_error, b)
    ]

-- `ioByteBuffer_sendTo`, with the `sendto` of the system and its target address.
unfoldable pub send_to :
    {Address : Type 0}
    → (Address → List ℕ → Option ℕ)
    → Option Buffer
    → Address
    → Status × Option Buffer
send_to system self target = with_buffer self λ b.
    let len = sub_size b.limit b.position in
    elim (system target (slice b.bytes b.position len)) [
      | none ↦ (std_api_error, b)
      | some count ↦
          if len == count
          then (no_error, record b { position = add_size b.position count })
          else (std_api_error, b)
    ]

-- What `ioByteBuffer_receive` makes of the answer of `recv` or `recvfrom`.
unfoldable pub store : Buffer → Option (List ℕ) → Status × Buffer
store b none = (std_api_error, b)
store b (some received) = if length received == 0 then (illegal_state, b) else (
  no_error,
  record b {
    bytes = overwrite b.bytes b.position received;
    position = add_size b.position (length received);
  },
)

-- `ioByteBuffer_receive`. `recv` and `recvfrom` take the room that is left, and answer the bytes
-- that they stored; `is_stream` is the socket's type.
unfoldable pub receive :
    (ℕ → Option (List ℕ)) → (ℕ → Option (List ℕ)) → Bool → Option Buffer → Status × Option Buffer
receive recv recvfrom is_stream self = with_buffer self λ b.
    let max = sub_size b.limit b.position in store b (if is_stream then recv max else recvfrom max)
