-- ===== src/Crud/Outbox/Messages.antt =====
-- How a participant joins header and payload and sends them (C/src/dcrud/ParticipantImpl.c).
use dcrud.Base.{
  ℕ, ◌+◌, ◌≤◌, ◌≡◌, refl, sym, ap, ◌∙◌, ==_true, Option, some, List, [], ◌∷◌, ◌++◌, length,
  length-append, arith,
}
use dcrud.Util.Status.{Status, no_error}
use dcrud.Io.ByteBuffer
use dcrud.Io.ByteBuffer.{Buffer, Order, buffer_magic}
use dcrud.Io.ByteBuffer.Streams.{Fits, append, advance, append-append, unread}
use dcrud.Io.ByteBuffer.Wire.{IsOpen, append-IsOpen, Fits-append}
use dcrud.Io.ByteBuffer.Exchange.{
  cleared, clear-open, clear-IsOpen, holding, flip-holding, holding-IsOpen, unread-holding,
}
use dcrud.Io.ByteBuffer.Transfer.{put_buffer-append, send_to-advance, slice-count}
use dcrud.Crud.Outbox.{
  on_message, message_steps, datagrams, header_to_message, payload_to_message, send_message,
  send_header,
}
use dcrud.Crud.Outbox.Steps.{Runs}
use dcrud.Crud.Outbox.Frames.{outbox}

pub datagrams-open : {b : Buffer} → IsOpen b → datagrams (some b) ≡ unread b ∷ []
datagrams-open {b} o =
    rw (==_true b.magic buffer_magic o.genuine, datagrams) (ap (λ s. s ∷ []) (slice-count o))

-- The system takes every datagram whole.
abbrev pub Delivers : {Address : Type 0} → (Address → List ℕ → Option ℕ) → Type 0
Delivers {Address} network = (a : Address) (s : List ℕ) → network a s ≡ some (length s)

module _ {Address : Type 0} {network : Address → List ℕ → Option ℕ} (target : Address)
    (works : Delivers network) where
  pub send_message_lem :
      (h p : Buffer) {m : Buffer} (log : List (List ℕ)) {s : List ℕ}
      → IsOpen m
      → unread m ≡ s
      → send_message network target (outbox h p m log)
        ≡ (no_error, outbox h p (advance m (length s)) (log ++ (s ∷ [])))
  send_message_lem h p {m} log {s} o e =
      rw (sym e, send_to-advance network target o (works target (unread m)), datagrams-open o) refl

  pub send_header_lem :
      {h : Buffer} (p m : Buffer) (log : List (List ℕ)) {s : List ℕ}
      → IsOpen h
      → unread h ≡ s
      → send_header network target (outbox h p m log)
        ≡ (no_error, outbox (advance h (length s)) p m (log ++ (s ∷ [])))
  send_header_lem {h} p m log {s} o e =
      rw (sym e, send_to-advance network target o (works target (unread h)), datagrams-open o) refl

module _ (log : List (List ℕ)) where
  pub on_message_lem :
      (call : Option Buffer → Status × Option Buffer) (h p m : Buffer) {m' : Buffer}
      → call (some m) ≡ (no_error, some m')
      → on_message call (outbox h p m log) ≡ (no_error, outbox h p m' log)
  on_message_lem call h p m e = ap (λ r. (r.0, record (outbox h p m log) { message = r.1 })) e

  header_to_message_lem :
      (h p m : Buffer) {h' m' : Buffer}
      → ByteBuffer.put_buffer (some m) (some h) ≡ (no_error, some m', some h')
      → header_to_message (outbox h p m log) ≡ (no_error, outbox h' p m' log)
  header_to_message_lem h p m e =
      ap (λ r. (r.0, record (outbox h p m log) { message = r.1; header = r.2 })) e

  payload_to_message_lem :
      (h p m : Buffer) {p' m' : Buffer}
      → ByteBuffer.put_buffer (some m) (some p) ≡ (no_error, some m', some p')
      → payload_to_message (outbox h p m log) ≡ (no_error, outbox h p' m' log)
  payload_to_message_lem h p m e =
      ap (λ r. (r.0, record (outbox h p m log) { message = r.1; payload = r.2 })) e

module _ {Address : Type 0} {network : Address → List ℕ → Option ℕ} (target : Address)
    (works : Delivers network) where
  -- Header and payload go out as one datagram, if the message has room for both.
  pub message_steps-Runs :
      {h p m : Buffer} (log : List (List ℕ))
      → IsOpen h
      → IsOpen p
      → IsOpen m
      → length (unread h) + length (unread p) ≤ m.capacity
      → let whole = unread h ++ unread p in
        Runs (message_steps network target) (outbox h p m log) (
          outbox
            (advance h (length (unread h)))
            (advance p (length (unread p)))
            (advance (holding m whole) (length whole))
            (log ++ (whole ∷ [])))
  message_steps-Runs {h} {p} {m} log oh op om k =
      Runs.step (on_message_lem log ByteBuffer.clear h p m (clear-open om)) (
        Runs.step (header_to_message_lem log h p _ (put_buffer-append oc oh first)) (
          Runs.step (payload_to_message_lem log h' p _ (put_buffer-append o1 op second)) (
            Runs.step (on_message_lem log ByteBuffer.flip h' p' _ flipped) (
              Runs.step
                (send_message_lem target works h' p' log (holding-IsOpen om whole room)
                  (unread-holding om whole room))
                (Runs.stop _)))))
    where
      whole : List ℕ
      whole = unread h ++ unread p

      h' : Buffer
      h' = advance h (length (unread h))

      p' : Buffer
      p' = advance p (length (unread p))

      room : length whole ≤ m.capacity
      room = omega (arith, length-append (unread h) (unread p))

      oc : IsOpen (cleared m)
      oc = clear-IsOpen om

      first : Fits (cleared m) (length (unread h))
      first = omega arith

      o1 : IsOpen (append (cleared m) (unread h))
      o1 = append-IsOpen (unread h) oc first

      second : Fits (append (cleared m) (unread h)) (length (unread p))
      second = Fits-append (cleared m) (unread h) (length (unread p)) (omega arith)

      flipped :
          ByteBuffer.flip (some (append (append (cleared m) (unread h)) (unread p)))
          ≡ (no_error, some (holding m whole))
      flipped =
          ap (λ b. ByteBuffer.flip (some b)) (append-append (cleared m) (unread h) (unread p))
          ∙ flip-holding om whole room
