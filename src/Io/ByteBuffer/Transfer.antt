-- ===== src/Io/ByteBuffer/Transfer.antt =====
-- `ioByteBuffer_putBuffer`, `_sendTo` and `_copy` (C/src/io/ByteBuffer.c) by what the buffers hold.
use dcrud.Base.{ℕ, ◌-◌, ◌≡◌, ap, true, Option, some, List, length, slice, arith}
use dcrud.Util.Status.{no_error}
use dcrud.Io.ByteBuffer.{Buffer, sub_size, put_buffer, remaining}
use dcrud.Io.ByteBuffer.Socket.{send_to}
use dcrud.Io.ByteBuffer.Streams.{Fits, append, advance, unread, length-unread}
use dcrud.Io.ByteBuffer.Wire.{IsOpen, advance-IsOpen}

-- How many bytes an open buffer has to read.
pub count-unread : {b : Buffer} → IsOpen b → sub_size b.limit b.position ≡ length (unread b)
count-unread {b} o = omega (arith, length-unread o.valid, o.valid.below)

pub slice-count :
    {b : Buffer} → IsOpen b → slice b.bytes b.position (sub_size b.limit b.position) ≡ unread b
slice-count {b} o =
    let e : sub_size b.limit b.position ≡ b.limit - b.position = omega arith in
    ap (slice b.bytes b.position) e

-- What one buffer has to read is put to the other.
pub put_buffer-append :
    {b other : Buffer}
    → IsOpen b
    → IsOpen other
    → Fits b (length (unread other))
    → put_buffer (some b) (some other)
      ≡ (no_error, some (append b (unread other)), some (advance other (length (unread other))))
unfolding put_buffer append advance
put_buffer-append {b} {other} o p h = ground (arith, count-unread p, slice-count p)

-- A buffer is sent whole, if the system takes all its bytes.
pub send_to-advance :
    {Address : Type 0} {b : Buffer} (system : Address → List ℕ → Option ℕ) (target : Address)
    → IsOpen b
    → system target (unread b) ≡ some (length (unread b))
    → send_to system (some b) target ≡ (no_error, some (advance b (length (unread b))))
unfolding send_to advance
send_to-advance {b = b} system target o e = ground (arith, count-unread o, slice-count o, e)

-- What is left of a buffer that was read whole.
pub unread_whole-IsOpen : {b : Buffer} → IsOpen b → IsOpen (advance b (length (unread b)))
unread_whole-IsOpen {b} o =
    advance-IsOpen (length (unread b)) o (omega (arith, length-unread o.valid, o.valid.below))

-- `ioByteBuffer_remaining` counts what is to be read.
pub remaining-unread :
    {b : Buffer} (s : List ℕ)
    → IsOpen b
    → unread b ≡ s
    → remaining (some b) true ≡ (no_error, some (length s), some b)
unfolding remaining
remaining-unread {b} s o e = ground (arith, count-unread o, ap length e)
