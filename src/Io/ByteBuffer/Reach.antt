-- ===== src/Io/ByteBuffer/Reach.antt =====
-- No sequence of such calls of C/src/io/ByteBuffer.c takes a buffer out of its invariant.
use dcrud.Base.{ℕ, length, ◌+◌, ◌≤◌, ◌^◌, ◌<◌, Bool, Option, List}
use dcrud.Io.ByteBuffer
use dcrud.Io.ByteBuffer.{Buffer}
use dcrud.Io.ByteBuffer.Numbers.{put_word, get_word, put_uint_at}
use dcrud.Io.ByteBuffer.Text.{put_string, get_string}
use dcrud.Io.ByteBuffer.Socket.{send, send_to, receive}
use dcrud.Io.ByteBuffer.Valid.{Sound}
use dcrud.Io.ByteBuffer.Calls.{Receives}

-- One call on a handle. What the allocator, the host and the sockets answer is free, within their
-- contracts. A range runs forwards and lies within what is copied from, and an index does not wrap: the
-- code copies outside of the buffer otherwise. The two buffers of `ioByteBuffer_putBuffer` are not one.
pub data Step : Option Buffer → Option Buffer → Type 0 where
  clear : (self : Option Buffer) → Step self (ByteBuffer.clear self).1
  mark : (self : Option Buffer) → Step self (ByteBuffer.set_mark self).1
  reset : (self : Option Buffer) → Step self (ByteBuffer.reset self).1
  flip : (self : Option Buffer) → Step self (ByteBuffer.flip self).1
  seek : (self : Option Buffer) (position : ℕ) → Step self (ByteBuffer.set_position self position).1
  copy_in :
      (self : Option Buffer) (src : List ℕ) (from to : ℕ)
      → from ≤ to
      → to ≤ length src
      → to < 2 ^ 64
      → Step self (ByteBuffer.put self src from to).1
  copy_out :
      (self : Option Buffer) (from to : ℕ)
      → from ≤ to
      → to < 2 ^ 64
      → Step self (ByteBuffer.get self from to).2
  put_one : (self : Option Buffer) (value : ℕ) → Step self (ByteBuffer.put_byte self value).1
  get_one : (self : Option Buffer) → Step self (ByteBuffer.get_byte self).2
  put_number :
      (w : ℕ) (swap : ℕ → ℕ) (host_big : Bool) (self : Option Buffer) (value : ℕ)
      → Step self (put_word w swap host_big self value).1
  get_number :
      (w : ℕ) (swap : ℕ → ℕ) (host_big : Bool) (self : Option Buffer)
      → Step self (get_word w swap host_big self).2
  patch :
      (host_big : Bool) (self : Option Buffer) (value index : ℕ)
      → index + 4 < 2 ^ 64
      → Step self (put_uint_at host_big self value index).1
  put_text :
      (host_big : Bool) (self : Option Buffer) (source : List ℕ)
      → Step self (put_string host_big self source).1
  get_text :
      (host_big : Bool) (self : Option Buffer) (size : ℕ)
      → Step self (get_string host_big self size).2
  transmit : (system : List ℕ → Option ℕ) (self : Option Buffer) → Step self (send system self).1
  transmit_to :
      (system : ℕ → List ℕ → Option ℕ) (self : Option Buffer) (target : ℕ)
      → Step self (send_to system self target).1
  take_from :
      (self other : Option Buffer) → Sound other → Step self (ByteBuffer.put_buffer self other).1
  give_to :
      (self other : Option Buffer) → Sound other → Step self (ByteBuffer.put_buffer other self).2
  fetch :
      (recv recvfrom : ℕ → Option (List ℕ)) (is_stream : Bool) (self : Option Buffer)
      → Receives recv
      → Receives recvfrom
      → Step self (receive recv recvfrom is_stream self).1

pub data Reach (self : Option Buffer) : Option Buffer → Type 0 where
  here : Reach self self
  next : {self' self'' : Option Buffer} → Reach self self' → Step self' self'' → Reach self self''
