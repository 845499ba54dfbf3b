-- ===== src/Crud/Receiver/Frames.antt =====
-- What becomes of the frames that C/src/dcrud/ParticipantImpl.c sends, in
-- C/src/dcrud/NetworkReceiver.c.
use mathlib.Core.List.{append_assoc}
use dcrud.Base.{
  ℕ, ◌+◌, ◌*◌, ◌^◌, ◌≤◌, ◌<◌, ◌≡◌, ◌==◌, refl, sym, ap, ◌∙◌, subst, Bool, true, false, Option, none,
  some, List, [], ◌∷◌, ◌++◌, length, length-append, All, append-nil, arith,
}
use dcrud.Util.Status.{no_error, check_either, Build}
use dcrud.Coll.Compare.{Ordering, string_compare, is_eq}
use dcrud.Coll.Libc.{Libc}
use dcrud.Io.ByteBuffer
use dcrud.Io.ByteBuffer.{Buffer, Order, add_size}
use dcrud.Io.ByteBuffer.Socket.{receive, store}
use dcrud.Io.ByteBuffer.Words.{wire, length-wire}
use dcrud.Io.ByteBuffer.Streams.{Fits, append, advance, unread, unread_rest, unread-Fits}
use dcrud.Io.ByteBuffer.Wire.{IsOpen, advance-IsOpen, get-advance, get_byte-advance}
use dcrud.Io.ByteBuffer.Exchange.{
  cleared, clear-open, holding, flip-holding, holding-IsOpen, unread-holding,
}
use dcrud.Crud.ClassId.{Instance}
use dcrud.Crud.ClassId.Wire as ClassWire
use dcrud.Crud.Guid.{Guid}
use dcrud.Crud.Guid.Laws.{encoding, length-encoding}
use dcrud.Crud.Protocol.{signature, signature_size, FrameType, code}
use dcrud.Crud.Outbox.Frames.{update_frame}
use dcrud.Crud.Cache.{Cache}
use dcrud.Crud.Receiver.{
  Memory, Handler, Receiver, frame_type, switch, signed, judge, pick, data_update,
}
use dcrud.Crud.Receiver.Delivery.{IsCache, Suffices, Delivered, data_update-Delivered}

-- A datagram is stored in a cleared buffer.
receive-append :
    {b : Buffer} (recv recvfrom : ℕ → Option (List ℕ)) (x : ℕ) (s : List ℕ)
    → IsOpen b
    → recvfrom b.capacity ≡ some (x ∷ s)
    → length (x ∷ s) ≤ b.capacity
    → receive recv recvfrom false (some (cleared b)) ≡ (no_error, some (append (cleared b) (x ∷ s)))
unfolding receive store append
receive-append {b} recv recvfrom x s o e k = ground (arith, e)

module _ {b : Buffer} (o : IsOpen b) (t : ℕ) (body : List ℕ) where
  -- What is in a frame, behind its signature and its type.
  abbrev pub opened : Buffer
  opened = advance (advance (holding b (signature ++ (t ∷ body))) 5) 1

  module _ (k : length (signature ++ (t ∷ body)) ≤ b.capacity) where
    unread_signed : unread (holding b (signature ++ (t ∷ body))) ≡ signature ++ (t ∷ body)
    unread_signed = unread-holding o (signature ++ (t ∷ body)) k

    in_IsOpen : IsOpen (holding b (signature ++ (t ∷ body)))
    in_IsOpen = holding-IsOpen o (signature ++ (t ∷ body)) k

    typed_IsOpen : IsOpen (advance (holding b (signature ++ (t ∷ body))) 5)
    typed_IsOpen =
        advance-IsOpen 5 in_IsOpen (unread-Fits signature (t ∷ body) in_IsOpen.valid unread_signed)

    unread_typed : unread (advance (holding b (signature ++ (t ∷ body))) 5) ≡ t ∷ body
    unread_typed = unread_rest signature (t ∷ body) in_IsOpen.valid unread_signed

    pub opened-IsOpen : IsOpen opened
    opened-IsOpen =
        advance-IsOpen 1 typed_IsOpen (unread-Fits (t ∷ []) body typed_IsOpen.valid unread_typed)

    pub unread-opened : unread opened ≡ body
    unread-opened = unread_rest (t ∷ []) body typed_IsOpen.valid unread_typed

    -- A datagram with the signature is opened, and goes to the handler of its type.
    pub pick_lem :
        (host_big : Bool) (recv recvfrom : ℕ → Option (List ℕ)) (signa : List ℕ)
        → recvfrom b.capacity ≡ some (signature ++ (t ∷ body))
        → pick host_big recv recvfrom false (record { in_buf = some b; signa = signa }) ≡ (
          switch (frame_type host_big (some t)),
          record { in_buf = some opened; signa = signature },
        )
    unfolding pick string_compare
    pick_lem host_big recv recvfrom signa e =
        rw
          (
            clear-open o,
            receive-append recv recvfrom 68 _ o e k,
            flip-holding o (signature ++ (t ∷ body)) k,
            get-advance in_IsOpen signature (t ∷ body) 0 unread_signed (omega arith),
            get_byte-advance typed_IsOpen t body unread_typed,
          )
          refl

pub opened_order :
    {b : Buffer} (o : IsOpen b) (t : ℕ) (body : List ℕ) → (opened o t body).order ≡ b.order
unfolding advance append
opened_order o t body = refl

-- What a cache is handed of a frame: the identity, the class and the data of the object.
abbrev pub object_bytes : Order → Guid → Instance → List ℕ → List ℕ
object_bytes order g x s = (encoding order g ++ ClassWire.encoding x) ++ s

length-object_bytes :
    (order : Order) (g : Guid) (x : Instance) (s : List ℕ)
    → length (object_bytes order g x s) ≡ 12 + length s
length-object_bytes order g x s = omega (
  arith,
  length-append (encoding order g ++ ClassWire.encoding x) s,
  length-append (encoding order g) (ClassWire.encoding x),
  length-encoding order g,
)

module _ (libc : (A : Type 0) (cmp : A → A → Ordering) → Libc cmp) (build : Build)
    (reallocated : Bool) {P G : Type 0} (memory : ℕ → Memory) {b : Buffer} (o : IsOpen b) (g : Guid)
    (x : Instance) (s : List ℕ) (small : length s + 12 < 2 ^ 32)
    (k : length (update_frame b.order g x s) ≤ b.capacity)
    (enough : Suffices build memory (length (object_bytes b.order g x s)))
    (caches : List (Option (Cache P G))) (h : All IsCache caches) where
  -- A frame that `pushCreateOrUpdateItem` sent, on a little-endian host: `dcrudNetworkReceiver_run`
  -- calls `dcrudNetworkReceiver_dataUpdate`, which returns `no_error`, hands every cache before the
  -- first NULL a buffer with the identity, the class and the data of the object, and reads the frame
  -- to its end. The buffer has room for the frame and is of the byte order of the sender, there is
  -- memory, and the data are shorter than 2 ^ 32 - 12 bytes.
  pub update_frame-Delivered :
      (recv recvfrom : ℕ → Option (List ℕ)) (signa : List ℕ)
      → recvfrom b.capacity ≡ some (update_frame b.order g x s)
      → let (handler, r) =
          pick false recv recvfrom false (record { in_buf = some b; signa = signa }) in
        let (status, frame, caches') =
          data_update libc build reallocated false memory r.in_buf caches in
        (handler ≡ Handler.update)
        × (status ≡ no_error)
        × ((left : Buffer) × (frame ≡ some left) × (unread left ≡ []))
        × Delivered libc build reallocated memory (object_bytes b.order g x s) 0 caches caches'
  update_frame-Delivered recv recvfrom signa e =
      rw (pick_lem o 1 body k false recv recvfrom signa e)
        (refl, done.0, (_, done.1, nothing_left), done.2)
    where
      body : List ℕ
      body = (wire b.order 4 (length s) ++ (encoding b.order g ++ ClassWire.encoding x)) ++ s

      content : List ℕ
      content = object_bytes b.order g x s

      frame : Buffer
      frame = opened o 1 body

      stream : unread frame ≡ wire frame.order 4 (length s) ++ (content ++ [])
      stream =
          unread-opened o 1 body k
          ∙ append_assoc (wire b.order 4 (length s)) (encoding b.order g ++ ClassWire.encoding x) s
          ∙ ap (λ t. wire b.order 4 (length s) ++ t) (sym (append-nil content))
          ∙ ap (λ order. wire order 4 (length s) ++ (content ++ [])) (sym (opened_order o 1 body))

      l : length content ≡ 12 + length s
      l = length-object_bytes b.order g x s

      done :
          let r = data_update libc build reallocated false memory (some frame) caches in
          (r.0 ≡ no_error)
          × (r.1 ≡ some (advance (advance frame 4) (length content)))
          × Delivered libc build reallocated memory content 0 caches r.2
      done =
          data_update-Delivered libc build reallocated false memory (length s) content []
            (opened-IsOpen o 1 body k) stream l (omega (arith, l)) enough caches h

      w : length (wire frame.order 4 (length s)) ≡ 4
      w = length-wire frame.order 4 (length s)

      nothing_left : unread (advance (advance frame 4) (length content)) ≡ []
      nothing_left =
          let o1 = opened-IsOpen o 1 body k in
          let front = wire frame.order 4 (length s) in
          let fits : Fits frame 4 =
            subst (Fits frame) w (unread-Fits front (content ++ []) o1.valid stream) in
          let e1 : unread (advance frame 4) ≡ content ++ [] =
            subst (λ n. unread (advance frame n) ≡ content ++ []) w
              (unread_rest front (content ++ []) o1.valid stream) in
          unread_rest content [] (advance-IsOpen 4 o1 fits).valid e1

-- A round of the loop that calls no handler: it reports the datagram, or it is the last one.
pub data Reported : Handler → Type 0 where
  invalid_type : (n : ℕ) → Reported (Handler.invalid n)
  no_signature : Reported Handler.garbage
  finished : Reported Handler.stop

switch-Reported : (byte : Option ℕ) → Reported (switch (frame_type true byte))
switch-Reported none = Reported.invalid_type 0
switch-Reported (some n) =
    let a : (n * 2 ^ 24 == code FrameType.data_create_or_update) ≡ false = ground arith in
    let b : (n * 2 ^ 24 == code FrameType.data_delete) ≡ false = ground arith in
    let c : (n * 2 ^ 24 == code FrameType.operation) ≡ false = ground arith in
    rw (a, b, c) (Reported.invalid_type (n * 2 ^ 24))

judge-Reported :
    (host_big test : Bool) (byte : Option ℕ) (signa : List ℕ) (body rest : Option Buffer)
    → host_big ≡ true
    → Reported (judge host_big test byte signa body rest).0
judge-Reported host_big true byte signa body rest e =
    subst (λ b. Reported (switch (frame_type b byte))) (sym e) (switch-Reported byte)
judge-Reported host_big false byte signa body rest e = Reported.no_signature

-- On a big-endian host `frameType` gets the byte of the type as its first byte, and no datagram
-- reaches a handler: whatever its bytes are, `dcrudNetworkReceiver_run` reports it, or its loop ends.
pub pick-Reported :
    (recv recvfrom : ℕ → Option (List ℕ)) (is_stream : Bool) (r : Receiver)
    → Reported (pick true recv recvfrom is_stream r).0
unfolding pick
pick-Reported recv recvfrom is_stream r =
    let received = receive recv recvfrom is_stream (ByteBuffer.clear r.in_buf).1 in
    let read = ByteBuffer.get (ByteBuffer.flip received.1).1 0 signature_size in
    let typed = ByteBuffer.get_byte read.2 in
    let signa = signed r.signa read.1 in
    check_either {A = Handler × Receiver} (λ t. Reported t.0) received.0
      {rest = judge true (is_eq (string_compare signa signature)) typed.1 signa read.2 typed.2}
      {failed = (Handler.stop, record r { in_buf = received.1 })}
      (judge-Reported true (is_eq (string_compare signa signature)) typed.1 signa read.2 typed.2
        refl)
      Reported.finished
