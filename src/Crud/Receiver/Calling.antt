-- ===== src/Crud/Receiver/Calling.antt =====
-- `dcrudNetworkReceiver_operation` (C/src/dcrud/NetworkReceiver.c): the head of a call, its arguments,
-- and to whom it is given.
use dcrud.Base.{ℕ, ◌+◌, ◌-◌, ◌*◌, ◌^◌, ltb, if◌then◌else◌, Bool, true, Option, none, some, List}
use dcrud.Util.Status.{Status, no_error, check, Build}
use dcrud.Coll.Compare.{Ordering, string_compare, is_eq}
use dcrud.Coll.Libc.{Libc}
use dcrud.Io.ByteBuffer.{Buffer, get_byte}
use dcrud.Io.ByteBuffer.Numbers.{get_int}
use dcrud.Io.ByteBuffer.Text.{get_string}
use dcrud.Crud.ClassId.{Instance}
use dcrud.Crud.Arguments
use dcrud.Crud.Arguments.{Name, Arguments, asynchronous_deferred, default_queue}
use dcrud.Crud.Receiver.Operation.{
  name_size, crud_interface, Session, Round, RoundMemory, Stale, or_stale, read_arguments,
}

-- To whom the arguments are given at the end.
pub data Call (P : Type 0) : Type 0 where
  -- `dcrudIDispatcher_executeCrud`: the operation and the arguments
  crud : Name → Option (Arguments P) → Call P
  -- `dcrudIDispatcher_execute`: the interface, the operation, the arguments and the number of the call
  execute : Name → Name → Option (Arguments P) → ℕ → Call P
  -- `dcrudIParticipantImpl_callback`, with the number of the call that is answered
  callback : Name → Name → Option (Arguments P) → ℕ → Call P
  -- `dcrudArguments_delete`: the participant is not alive
  dropped : Call P

-- An `enum` of which the first byte was written, and the others are as they were.
abbrev pub enum_of : Bool → ℕ → Option ℕ → ℕ
enum_of host_big initial none = initial
enum_of host_big initial (some byte) = if host_big then byte * 2 ^ 24 + initial else byte

-- The arrays on the stack, before they are written.
pub record StaleNames : Type 0 where
  pub interface : List ℕ
  pub operation : List ℕ
  pub rounds : ℕ → Stale

-- What the allocator answers.
pub record CallMemory : Type 0 where
  pub args : Bool
  pub types : Bool
  pub rounds : ℕ → RoundMemory

module _ {P : Type 0} where
  -- `callId` is the bit pattern of an `int`.
  abbrev pub receiver_of : Bool → Name → Name → ℕ → Option (Arguments P) → Call P
  receiver_of alive interface operation call_id args =
      if alive
      then (if is_eq (string_compare interface crud_interface)
          then Call.crud operation args
          else if ltb call_id (2 ^ 31)
          then Call.execute interface operation args call_id
          else Call.callback interface operation args (2 ^ 32 - call_id))
      else Call.dropped

  -- What follows the loop. The status is what the function returns if the call itself succeeds.
  abbrev pub on_round : Bool → Name → Name → ℕ → Round P → Status × Option (Call P) × Session P
  on_round alive interface operation call_id (Round.returns status s) = (status, none, s)
  on_round alive interface operation call_id (Round.goes_on status s) =
      (status, some (receiver_of alive interface operation call_id s.args), s)

  -- A `CHK` that has to succeed before the rest, in a state of the frame and `allClasses`.
  abbrev pub chk :
      {A : Type 0}
      → List Instance
      → A
      → Status × Option A × Option Buffer
      → (A → Option Buffer → Status × Option (Call P) × Session P)
      → Status × Option (Call P) × Session P
  chk all_classes stale (status, read, frame) rest =
      check status (rest (or_stale stale read) frame)
        (status, none, record { frame = frame; all_classes = all_classes; args = none })

  module _ (libc : (A : Type 0) (cmp : A → A → Ordering) → Libc cmp) (build : Build)
      (host_big : Bool)
      (new_instance : Option Buffer
        → List Instance
        → Status × Option P × Option Buffer × List Instance)
      (memory : CallMemory) (stale : StaleNames) (alive : Bool) (all_classes : List Instance) where
    -- The arguments, once the head of the call is read.
    abbrev pub with_head :
        Name → Name → ℕ → ℕ → ℕ → ℕ → Option Buffer → Status × Option (Call P) × Session P
    with_head interface operation call_id count mode queue frame =
        let (status, args) = Arguments.new build true memory.args memory.types in
        let (status1, args1) = Arguments.set_mode args mode in
        let (status2, args2) = Arguments.set_queue args1 queue in
        let s : Session P = record { frame = frame; all_classes = all_classes; args = args2 } in
        check status
          (check status1
            (check status2
              (on_round alive interface operation call_id (
                read_arguments libc build host_big new_instance memory.rounds stale.rounds count 0
                  no_error s))
              (status2, none, s))
            (status1, none, record s { args = args1 }))
          (status, none, record s { args = args })

    -- The reads of the head, each with what follows it.
    abbrev pub read_queue :
        Name → Name → ℕ → ℕ → ℕ → Option Buffer → Status × Option (Call P) × Session P
    read_queue interface operation call_id count mode frame =
        chk all_classes default_queue (get_byte frame) λ queue frame'.
          with_head interface operation call_id count
            (enum_of host_big asynchronous_deferred (some mode))
            (enum_of host_big default_queue (some queue)) frame'

    abbrev pub read_mode :
        Name → Name → ℕ → ℕ → Option Buffer → Status × Option (Call P) × Session P
    read_mode interface operation call_id count frame =
        chk all_classes asynchronous_deferred (get_byte frame)
          (read_queue interface operation call_id count)

    abbrev pub read_count : Name → Name → ℕ → Option Buffer → Status × Option (Call P) × Session P
    read_count interface operation call_id frame =
        chk all_classes 0 (get_byte frame) (read_mode interface operation call_id)

    abbrev pub read_call_id : Name → Name → Option Buffer → Status × Option (Call P) × Session P
    read_call_id interface operation frame =
        chk all_classes 0 (get_int host_big frame) (read_count interface operation)

    abbrev pub read_operation : Name → Option Buffer → Status × Option (Call P) × Session P
    read_operation interface frame =
        chk all_classes stale.operation (get_string host_big frame name_size)
          (read_call_id interface)

    -- `dcrudNetworkReceiver_operation`
    unfoldable pub operation : Option Buffer → Status × Option (Call P) × Session P
    operation frame =
        chk all_classes stale.interface (get_string host_big frame name_size) read_operation
