-- ===== src/Crud/Outbox/Calls.antt =====
-- `dcrudIParticipantImpl_sendCall` (C/src/dcrud/ParticipantImpl.c): a call goes to the network.
use dcrud.Base.{ℕ, ◌%◌, Bool, true, Option, none, some, List, [], ◌∷◌, ◌++◌}
use dcrud.Util.Status.{Status, check}
use dcrud.Coll.Compare.{Ordering}
use dcrud.Coll.Libc.{Libc}
use dcrud.Io.ByteBuffer
use dcrud.Io.ByteBuffer.{Buffer}
use dcrud.Io.ByteBuffer.Numbers.{put_int}
use dcrud.Io.ByteBuffer.Text.{put_string}
use dcrud.Crud.Protocol.{signature, signature_size, FrameType, code}
use dcrud.Crud.Outbox.{Outbox, run_steps, on_message, send_message}
use dcrud.Crud.Arguments.{Name, Arguments, Misread, get_count}
use dcrud.Crud.Arguments.Serializing.{serialize}

module _ (libc : (A : Type 0) (cmp : A → A → Ordering) → Libc cmp) (host_big : Bool)
    {P G D Address : Type 0} (misread : Misread P G D) (network : Address → List ℕ → Option ℕ)
    (target : Address) (interface operation : Name) (args : Option (Arguments P))
    (call_id : ℕ) where
  -- What is written to the message; the number of arguments is cut to a byte.
  abbrev pub call_puts : ℕ → List (Outbox → Status × Outbox)
  call_puts count =
      on_message (λ b. ByteBuffer.put b signature 0 signature_size)
      ∷ on_message (λ b. ByteBuffer.put_byte b (code FrameType.operation))
      ∷ on_message (λ b. put_string host_big b interface)
      ∷ on_message (λ b. put_string host_big b operation)
      ∷ on_message (λ b. put_int host_big b call_id)
      ∷ on_message (λ b. ByteBuffer.put_byte b (count % 256))
      ∷ on_message (serialize libc host_big misread args)
      ∷ []

  abbrev pub call_steps : ℕ → List (Outbox → Status × Outbox)
  call_steps count =
      (on_message ByteBuffer.clear ∷ (call_puts count ++ (on_message ByteBuffer.flip ∷ [])))
      ++ (send_message network target ∷ [])

  -- What follows `dcrudArguments_getCount`.
  abbrev pub counted : Outbox → Status × Option ℕ → Status × Outbox
  counted p (status, none) = (status, p)
  counted p (status, some count) = check status (run_steps (call_steps count) p) (status, p)

  -- `dcrudIParticipantImpl_sendCall`
  unfoldable pub send_call : Outbox → Status × Outbox
  send_call p = counted p (get_count args true)
