-- ===== src/Crud/Outbox/CallFrames.antt =====
-- The frame that `dcrudIParticipantImpl_sendCall` (C/src/dcrud/ParticipantImpl.c) sends for a call.
use dcrud.Base.{
  ℕ, ◌*◌, ◌^◌, ◌%◌, ◌≤◌, ◌<◌, ◌≡◌, refl, sym, ap, ◌∙◌, subst, Bool, Option, some, List, [], ◌∷◌,
  ◌++◌, append-nil, length, arith,
}
use dcrud.Util.Status.{Status, no_error}
use dcrud.Coll.Compare.{Ordering}
use dcrud.Coll.Libc.{Libc}
use dcrud.Io.ByteBuffer
use dcrud.Io.ByteBuffer.{Buffer, Order}
use dcrud.Io.ByteBuffer.Numbers.{put_int}
use dcrud.Io.ByteBuffer.Words.{wire, swap32-IsSwap}
use dcrud.Io.ByteBuffer.Streams.{Fits, append, advance}
use dcrud.Io.ByteBuffer.Wire.{IsOpen, put-append}
use dcrud.Io.ByteBuffer.Writes.{Writes, put_byte-Writes, put_word-Writes, put_string-Writes}
use dcrud.Io.ByteBuffer.Exchange.{holding, holding-IsOpen, unread-holding}
use dcrud.Crud.Protocol.{signature, code, operation}
use dcrud.Crud.Arguments.{Name, Arguments, Misread}
use dcrud.Crud.Arguments.Items.{Item}
use dcrud.Crud.Arguments.Serializing.{serialize}
use dcrud.Crud.Arguments.Wire.{Carries, serialized, serialize-Writes, get_count-length}
use dcrud.Crud.Outbox.{Outbox, run_steps, on_message}
use dcrud.Crud.Outbox.Steps.{Runs, run_steps_lem, Runs-append, Appends, Puts, message-Runs}
use dcrud.Crud.Outbox.Frames.{outbox}
use dcrud.Crud.Outbox.Messages.{Delivers, on_message_lem, send_message_lem}
use dcrud.Crud.Outbox.Ready.{IsReady, HasSent, outbox_of, drained-IsOpen, drained_capacity}
use dcrud.Crud.Outbox.Calls.{call_puts, call_steps, counted, send_call}

-- A call: the interface, the operation, the number of the call, and the arguments with their mode and
-- their queue.
pub record CallView : Type 0 where
  pub interface : Name
  pub operation : Name
  pub call_id : ℕ
  pub mode : ℕ
  pub queue : ℕ
  pub items : List (Name × Item)

-- The names and the number have room in their fields.
pub record Fitting (v : CallView) : Type 0 where
  pub interface_fits : length v.interface < 256 ^ 4
  pub operation_fits : length v.operation < 256 ^ 4
  pub call_id_fits : v.call_id < 256 ^ 4

-- What follows the type in the frame of a call, and the frame.
abbrev pub call_body : CallView → Order → List ℕ
call_body v order =
    (wire order 4 (length v.interface) ++ v.interface)
    ++ ((wire order 4 (length v.operation) ++ v.operation)
        ++ (wire order 4 v.call_id
            ++ ((length v.items % 256 ∷ []) ++ serialized v.mode v.queue v.items order)))

abbrev pub call_frame : CallView → Order → List ℕ
call_frame v order = signature ++ ((code operation ∷ []) ++ call_body v order)

module _ (h p : Buffer) (log : List (List ℕ)) (order : Order) where
  abbrev in_message : Buffer → Outbox
  in_message m = outbox h p m log

  -- A call that writes bytes, as a step of the participant.
  Writes-Appends :
      {call : Option Buffer → Status × Option Buffer} {s : Order → List ℕ}
      → Writes call s
      → Appends in_message order (on_message call) (s order)
  Writes-Appends {call} {s} w b o e k =
      ap (λ r. (r.0, record (in_message b) { message = r.1 }))
        (w.at b o (subst (λ t. Fits b (length (s t))) (sym e) k)
          ∙ ap (λ t. (no_error, some (append b (s t)))) e)

  -- The steps of writes, one after the other.
  put_more :
      {call : Option Buffer → Status × Option Buffer} {calls : List (Outbox → Status × Outbox)}
      {s : Order → List ℕ} {t : List ℕ}
      → Writes call s
      → Puts in_message order calls t
      → Puts in_message order (on_message call ∷ calls) (s order ++ t)
  put_more w later = Puts.more _ _ (Writes-Appends w) later

  put_last :
      {call : Option Buffer → Status × Option Buffer} {s : Order → List ℕ}
      → Writes call s
      → Puts in_message order (on_message call ∷ []) (s order)
  put_last {call} {s} w =
      subst (Puts in_message order (on_message call ∷ [])) (append-nil (s order))
        (put_more w Puts.nothing)

signature-Writes : Writes (λ b. ByteBuffer.put b signature 0 5) (λ order. signature)
signature-Writes = record { at = λ b o k. put-append o signature 0 5 k (omega arith) (omega arith) }

module _ (libc : (A : Type 0) (cmp : A → A → Ordering) → Libc cmp) (host_big : Bool)
    {P G D Address : Type 0} (misread : Misread P G D) {network : Address → List ℕ → Option ℕ}
    (target : Address) (works : Delivers network) {self : Arguments P} {v : CallView}
    (mode : self.mode ≡ v.mode) (queue : self.queue ≡ v.queue)
    (carries : Carries libc host_big self v.items) (fitting : Fitting v) where
  args-Writes :
      Writes (serialize libc host_big misread (some self)) (serialized v.mode v.queue v.items)
  args-Writes =
      subst
        (λ m. Writes (serialize libc host_big misread (some self)) (serialized m v.queue v.items))
        mode
        (subst
          (λ q.
            Writes (serialize libc host_big misread (some self)) (serialized self.mode q v.items))
          queue (serialize-Writes libc host_big misread self carries))

  call-Puts :
      (h p : Buffer) (log : List (List ℕ)) (order : Order)
      → Puts
          (in_message h p log order)
          order
          (call_puts libc host_big misread network target v.interface v.operation
            (some self)
            v.call_id
            (length v.items))
          (call_frame v order)
  unfolding put_int
  call-Puts h p log order = put_more h p log order signature-Writes (
      put_more h p log order (put_byte-Writes 3) (
        put_more h p log order (put_string-Writes host_big v.interface fitting.interface_fits) (
          put_more h p log order (put_string-Writes host_big v.operation fitting.operation_fits) (
            put_more h p log order
              (put_word-Writes host_big v.call_id swap32-IsSwap (omega arith) fitting.call_id_fits)
              (put_more h p log order (put_byte-Writes (length v.items % 256))
                (put_last h p log order args-Writes))))))

  call-Runs :
      {h p m : Buffer} (log : List (List ℕ))
      → IsOpen m
      → length (call_frame v m.order) ≤ m.capacity
      → Runs
          (call_steps libc host_big misread network target v.interface v.operation
            (some self)
            v.call_id
            (length v.items))
          (outbox h p m log)
          (outbox h p
            (advance (holding m (call_frame v m.order)) (length (call_frame v m.order)))
            (log ++ (call_frame v m.order ∷ [])))
  call-Runs {h} {p} {m} log o k =
      Runs-append
        (message-Runs (in_message h p log m.order) m.order on_message
          (λ call b c e. on_message_lem log call h p b e) (call-Puts h p log m.order) o refl k)
        (Runs.step
          (send_message_lem target works h p log (holding-IsOpen o (call_frame v m.order) k)
            (unread-holding o (call_frame v m.order) k))
          (Runs.stop _))

  -- `dcrudIParticipantImpl_sendCall` sends one datagram, the frame of the call, and returns
  -- `no_error`; the participant is ready for the next time. The arguments can be sent, a `bool`
  -- only from a little-endian host; the network takes every datagram whole, and the frame has at most
  -- 64 * 1024 bytes.
  pub send_call_lem :
      {order : Order} {p : Outbox} (r : IsReady order p)
      → length (call_frame v r.message.order) ≤ 64 * 1024
      → let (status, p') =
          send_call libc host_big misread network target v.interface v.operation
            (some self)
            v.call_id
            p in
        HasSent order (p.sent ++ (call_frame v r.message.order ∷ [])) (status, some p')
  unfolding send_call
  send_call_lem {order} {p} r k = rw sends (record {
    fine = refl;
    after = after;
    is_after = refl;
    ready = record {
      genuine = refl;
      header = r.header;
      payload = r.payload;
      message = advance (holding r.message frame) (length frame);
      has_header = refl;
      has_payload = refl;
      has_message = refl;
      header_open = r.header_open;
      payload_open = r.payload_open;
      message_open = drained-IsOpen frame r.message_open room;
      header_order = r.header_order;
      header_room = r.header_room;
      payload_room = r.payload_room;
      message_room = drained_capacity r.message frame ∙ r.message_room;
    };
    has_sent = refl;
  })
    where
      frame : List ℕ
      frame = call_frame v r.message.order

      room : length frame ≤ r.message.capacity
      room = omega (arith, r.message_room, k)

      after : Outbox
      after =
          outbox r.header r.payload (advance (holding r.message frame) (length frame))
            (p.sent ++ (frame ∷ []))

      sends :
          send_call libc host_big misread network target v.interface v.operation
            (some self)
            v.call_id
            p
          ≡ (no_error, after)
      sends =
          ap
            (counted libc host_big misread network target v.interface v.operation (some self)
              v.call_id p)
            (get_count-length libc host_big misread self carries)
          ∙ ap
              (run_steps (
                call_steps libc host_big misread network target v.interface v.operation (some self)
                  v.call_id (length v.items)))
              (outbox_of r)
          ∙ run_steps_lem (call-Runs p.sent r.message_open room)
