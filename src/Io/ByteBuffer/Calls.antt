-- ===== src/Io/ByteBuffer/Calls.antt =====
-- The calls of C/src/io/ByteBuffer.c that allocate, receive or are made of others keep the
-- invariant of a buffer.
use mathlib.Core.Option
use dcrud.Base.{
  ◌==◌, ==_iff, slice, ℕ, ◌%◌, leb, Bool-cases, ◌^◌, ◌≤◌, ◌<◌, ◌≡◌, refl, Bool, true, false, Option,
  none, some, List, length, length-overwrite, replicate, ltb, inl, inr, arith,
}
use dcrud.Util.Status.{Status, no_error, check, Build, static_allocation, dynamic_allocation}
use dcrud.Io.ByteBuffer
use dcrud.Io.ByteBuffer.{Buffer, buffer_magic, put_buffer, sub_size, add_size}
use dcrud.Io.ByteBuffer.Allocation.{wrap, chunk_size, request, wrap_reserved, new}
use dcrud.Io.ByteBuffer.Numbers.{put_word, get_word, put_uint, get_uint, swap32}
use dcrud.Io.ByteBuffer.Text.{put_string, get_string, get_chars, on_length}
use dcrud.Io.ByteBuffer.Socket.{send, send_to, store, receive}
use dcrud.Io.ByteBuffer.Valid.{
  IsValid, Sound, keeps, put-Sound, get-Sound, put_word-Sound, get_word-Sound,
}

-- A pool of chunks gives chunks that hold what was asked for.
chunk_size-le : (capacity : ℕ) {size : ℕ} → chunk_size capacity ≡ some size → capacity ≤ size
unfolding chunk_size
chunk_size-le capacity h = ground arith

-- `reserve` is a working allocator: it gives memory of the size that it is asked for.
abbrev pub Serves : (ℕ → Option (List ℕ)) → Type 0
Serves reserve = (size : ℕ) (memory : List ℕ) → reserve size ≡ some memory → length memory ≡ size

wrap-Sound :
    (allocated : Bool) (capacity : ℕ) (array : List ℕ)
    → capacity ≤ length array
    → capacity < 2 ^ 63
    → Sound (wrap allocated capacity array).1
unfolding wrap
wrap-Sound true capacity array h k =
    λ _. omega (arith, length-overwrite array 0 (replicate capacity 0))
wrap-Sound false capacity array h k = tt

wrap_reserved-Sound :
    (allocated : Bool) (self : Option Buffer) (capacity : ℕ) (memory : Option (List ℕ))
    → ((array : List ℕ) → memory ≡ some array → capacity ≤ length array)
    → capacity < 2 ^ 63
    → Sound self
    → Sound (wrap_reserved allocated self capacity memory).1
wrap_reserved-Sound allocated self capacity none h k v = v
wrap_reserved-Sound allocated self capacity (some array) h k v =
    wrap-Sound allocated capacity array (h array refl) k

bind-le :
    (reserve : ℕ → Option (List ℕ)) (capacity : ℕ) (asked : Option ℕ)
    → Serves reserve
    → ((size : ℕ) → asked ≡ some size → capacity ≤ size)
    → (array : List ℕ) → Option.bind asked reserve ≡ some array
    → capacity ≤ length array
unfolding Option.bind
bind-le reserve capacity none serves h array e = let bad : ⊥ = ground arith in absurd bad
bind-le reserve capacity (some size) serves h array e =
    omega (arith, h size refl, serves size array e)

request-le :
    (build : Build) (capacity size : ℕ) → request build capacity ≡ some size → capacity ≤ size
request-le dynamic_allocation capacity size e = ground arith
request-le static_allocation capacity size e = chunk_size-le capacity e

-- What `ioByteBuffer_new` leaves in its handle is valid, in both builds.
pub new-Sound :
    (build : Build) (reserve : ℕ → Option (List ℕ)) (allocated : Bool) (self : Option Buffer)
    (capacity : ℕ)
    → Serves reserve
    → capacity < 2 ^ 63
    → Sound self
    → Sound (new build reserve allocated self capacity).1
unfolding new
new-Sound build reserve allocated self capacity serves small v =
    wrap_reserved-Sound allocated self capacity (Option.bind (request build capacity) reserve)
      (bind-le reserve capacity (request build capacity) serves (request-le build capacity)) small v

-- A system call stores no more than it was given room for.
abbrev pub Receives : (ℕ → Option (List ℕ)) → Type 0
Receives recv = (max : ℕ) (received : List ℕ) → recv max ≡ some received → length received ≤ max

store-IsValid :
    (b : Buffer) (answer : Option (List ℕ))
    → IsValid b
    → ((received : List ℕ) → answer ≡ some received → length received ≤ sub_size b.limit b.position)
    → IsValid (store b answer).1
unfolding store
store-IsValid b none v h = v
store-IsValid b (some received) v h =
    ground (arith, h received refl, length-overwrite b.bytes b.position received)

pub receive-Sound :
    (recv recvfrom : ℕ → Option (List ℕ)) (is_stream : Bool) (self : Option Buffer)
    → Receives recv
    → Receives recvfrom
    → Sound self
    → Sound (receive recv recvfrom is_stream self).1
unfolding receive
receive-Sound recv recvfrom true self h k =
    keeps _ (λ b v. store-IsValid b (recv (sub_size b.limit b.position)) v (h _)) self
receive-Sound recv recvfrom false self h k =
    keeps _ (λ b v. store-IsValid b (recvfrom (sub_size b.limit b.position)) v (k _)) self

pub send-Sound :
    (system : List ℕ → Option ℕ) (self : Option Buffer) → Sound self → Sound (send system self).1
unfolding send
send-Sound system = keeps _ (λ b v. ground arith)

pub send_to-Sound :
    {Address : Type 0} (system : Address → List ℕ → Option ℕ) (self : Option Buffer)
    (target : Address)
    → Sound self
    → Sound (send_to system self target).1
unfolding send_to
send_to-Sound system self target = keeps _ (λ b v. ground arith) self

-- Both buffers of `ioByteBuffer_putBuffer`.
pub put_buffer-Sound :
    (self other : Option Buffer)
    → Sound self
    → Sound other
    → Sound (put_buffer self other).1 × Sound (put_buffer self other).2
unfolding put_buffer
put_buffer-Sound none other v w = (tt, w)
put_buffer-Sound (some b) none v w = elim (Bool-cases (b.magic == buffer_magic)) [
  | inl e ↦ rw (e, put_buffer) (v, tt)
  | inr e ↦ rw (e, put_buffer) (v, tt)
]
put_buffer-Sound (some b) (some c) v w = elim (Bool-cases (b.magic == buffer_magic)) [
  | inr e ↦ rw (e, put_buffer) (v, w)
  | inl e ↦ elim (Bool-cases (c.magic == buffer_magic)) [
    | inr f ↦ rw (e, f, put_buffer) (v, w)
    | inl f ↦ elim (Bool-cases (ltb b.limit (add_size b.position (sub_size c.limit c.position)))) [
      | inl g ↦ rw (e, f, g, put_buffer) (v, w)
      | inr g ↦
          let x = v ((==_iff _ _).0 e) in
          let y = w ((==_iff _ _).0 f) in
          rw (e, f, g, put_buffer)
            (
              (λ _. ground (
                arith,
                length-overwrite b.bytes b.position
                    (slice c.bytes c.position (sub_size c.limit c.position)),
              )),
              λ _. ground arith,
            )
    ]
  ]
]

-- A second operation runs only if the first returned `no_error`.
check-Sound :
    (status failed : Status) (next : Status × Option Buffer) (self : Option Buffer)
    → Sound next.1
    → Sound self
    → Sound (check status next (failed, self)).1
check-Sound no_error failed next self h k = h
check-Sound _ failed next self h k = k

pub put_string-Sound :
    (host_big : Bool) (self : Option Buffer) (source : List ℕ)
    → Sound self
    → Sound (put_string host_big self source).1
unfolding put_string put_uint
put_string-Sound host_big self source v =
    let (status, self') = put_word 4 swap32 host_big self (length source % 2 ^ 32) in
    let v' = put_word-Sound 4 swap32 host_big self (length source % 2 ^ 32) v in
    check-Sound status status (ByteBuffer.put self' source 0 (length source)) self'
      (put-Sound self' source 0 (length source) v') v'

get_chars-Sound :
    (self : Option Buffer) (size len : ℕ) → Sound self → Sound (get_chars self size len).2
unfolding get_chars
get_chars-Sound self size len v = elim (Bool-cases (ltb len size)) [
  | inl e ↦ rw e (get-Sound self 0 len v)
  | inr e ↦ rw e (elim (Bool-cases (leb len size)) [ inl f ↦ rw f v | inr f ↦ rw f v ])
]

on_length-Sound :
    (size : ℕ) (reply : Status × Option ℕ × Option Buffer)
    → Sound reply.2
    → Sound (on_length size reply).2
on_length-Sound size (status, none, self) v = v
on_length-Sound size (status, some len, self) v = get_chars-Sound self size len v

pub get_string-Sound :
    (host_big : Bool) (self : Option Buffer) (size : ℕ)
    → Sound self
    → Sound (get_string host_big self size).2
unfolding get_string get_uint
get_string-Sound host_big self size v =
    on_length-Sound size (get_word 4 swap32 host_big self) (get_word-Sound 4 swap32 host_big self v)
