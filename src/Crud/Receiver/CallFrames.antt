-- ===== src/Crud/Receiver/CallFrames.antt =====
-- What becomes of a call that C/src/dcrud/ParticipantImpl.c sends, in C/src/dcrud/NetworkReceiver.c.
use dcrud.Base.{
  ℕ, ◌+◌, ◌%◌, ◌^◌, ◌<◌, ◌≤◌, ◌≡◌, refl, sym, ap, ◌∙◌, Bool, true, false, Option, some, List, ◌∷◌,
  ◌++◌, length, [], All, append-nil, arith,
}
use dcrud.Util.Status.{Status, no_error, Build}
use dcrud.Coll.Compare.{Ordering}
use dcrud.Coll.Libc.{Libc}
use dcrud.Coll.SortedArray.{Ordered}
use dcrud.Coll.Storage.{first_limit}
use dcrud.Coll.CollMap
use dcrud.Coll.CollMap.{map_magic}
use dcrud.Io.ByteBuffer.{Buffer, Order}
use dcrud.Io.ByteBuffer.Words.{wire, length-wire}
use dcrud.Io.ByteBuffer.Streams.{advance, unread}
use dcrud.Io.ByteBuffer.Wire.{IsOpen}
use dcrud.Crud.ClassId.{Instance, compare_instances}
use dcrud.Crud.Arguments
use dcrud.Crud.Arguments.{
  ArgumentType, Name, Value, Arguments, arguments_magic, names_libc, read_arguments-genuine,
  get_mode, get_queue, asynchronous_deferred, default_queue,
}
use dcrud.Crud.Arguments.Items.{
  Item, arguments_bytes, AllArrive, onto, IsReadable, find, DistinctNames,
}
use dcrud.Crud.Arguments.Finding.{onto-Found}
use dcrud.Crud.Arguments.Stored.{IsSmall, Stored}
use dcrud.Crud.Arguments.Wire.{serialized}
use dcrud.Crud.Outbox.CallFrames.{CallView, call_body, call_frame}
use dcrud.Crud.Receiver.{Handler, pick}
use dcrud.Crud.Receiver.Frames.{opened-IsOpen, unread-opened, pick_lem, opened_order}
use dcrud.Crud.Receiver.Operation.{Session, Round, read_arguments}
use dcrud.Crud.Receiver.Calling.{
  Call, CallMemory, StaleNames, chk, on_round, receiver_of, with_head, read_queue, read_mode,
  read_count, read_call_id, read_operation, operation,
}
use dcrud.Crud.Receiver.Rounds.{IsProvided, GoesOn, read_arguments-GoesOn}
use dcrud.Crud.Receiver.Holds.{
  Holds, advance-Holds, text_bytes, length-text_bytes, get_string-Holds, get_int-Holds,
  get_byte-Holds,
}
use dcrud.Crud.Arguments.Answers.{FoundIn, Stored-FoundIn}

-- The receiver can read the call: its names fit the arrays, its numbers their fields, and it has at
-- most as many arguments as the static build has room for, under distinct names.
pub record Readable (v : CallView) : Type 0 where
  pub interface_short : length v.interface < 1000
  pub operation_short : length v.operation < 1000
  pub call_id_fits : v.call_id < 256 ^ 4
  pub mode_fits : v.mode < 256
  pub queue_fits : v.queue < 256
  pub few : length v.items ≤ 100
  pub readable : All IsReadable v.items
  pub distinct : DistinctNames v.items

-- The call was read to its end, and is given to whom it is for, with the arguments.
pub record Called (libc : (A : Type 0) (cmp : A → A → Ordering) → Libc cmp) (host_big alive : Bool)
    {P : Type 0} (v : CallView) (r : Status × Option (Call P) × Session P) : Type 0 where
  pub fine : r.0 ≡ no_error
  pub this : Arguments P
  pub is_call : r.1 ≡ some (receiver_of alive v.interface v.operation v.call_id (some this))
  pub mode : get_mode (some this) true ≡ (no_error, some v.mode)
  pub queue : get_queue (some this) true ≡ (no_error, some v.queue)
  pub found : (k : Name) → FoundIn libc host_big this k (find k v.items)
  pub rest : Buffer
  pub has_rest : r.2.frame ≡ some rest
  pub nothing_left : unread rest ≡ []

chk_lem :
    {P A : Type 0} (all_classes : List Instance) (stale x : A) {c : Buffer}
    (rest : A → Option Buffer → Status × Option (Call P) × Session P)
    {r : Status × Option A × Option Buffer}
    → r ≡ (no_error, some x, some c)
    → chk all_classes stale r rest ≡ rest x (some c)
chk_lem all_classes stale x rest e = ap (λ r. chk all_classes stale r rest) e

module _ (libc : (A : Type 0) (cmp : A → A → Ordering) → Libc cmp) (build : Build) {P : Type 0}
    (new_instance : Option Buffer
      → List Instance
      → Status × Option P × Option Buffer × List Instance)
    {memory : CallMemory} (args_memory : memory.args ≡ true) (types_memory : memory.types ≡ true)
    (provided : (i : ℕ) → IsProvided (memory.rounds i)) (stale : StaleNames) (alive : Bool)
    (all_classes : List Instance) (known : Ordered compare_instances all_classes) {v : CallView}
    (readable : Readable v) where
  -- The arguments before the first is put.
  empty_args : Arguments P
  empty_args = record {
    magic = arguments_magic;
    mode = v.mode;
    queue = v.queue;
    args = some (record { magic = map_magic; limit = first_limit build 0; pairs = [] });
    types = some (record { magic = map_magic; limit = first_limit build 0; pairs = [] });
  }

  empty_IsSmall :
      {V : Type 0}
      → IsSmall {V = V} build 0
          (record { magic = map_magic; limit = first_limit build 0; pairs = [] })
  empty_IsSmall = record {
    valid = record {
      genuine = refl;
      ordered = record { sorted = tt; distinct = tt };
      fits = omega arith;
    };
    limit = refl;
    count = omega arith;
  }

  empty_Stored : Stored build false v.mode v.queue [] (some empty_args)
  unfolding empty_args
  empty_Stored = record {
    this = empty_args;
    is_this = refl;
    genuine = refl;
    has_mode = refl;
    has_queue = refl;
    values = _;
    has_values = refl;
    values_small = empty_IsSmall;
    types = _;
    has_types = refl;
    types_small = empty_IsSmall;
    value_at = λ k. refl;
    type_at = λ k. refl;
  }

  with_head_lem :
      (b : Option Buffer)
      → with_head libc build false new_instance memory stale alive all_classes v.interface
          v.operation v.call_id
          (length v.items)
          v.mode
          v.queue
          b
        ≡ on_round alive v.interface v.operation v.call_id (
            read_arguments libc build false new_instance memory.rounds stale.rounds
              (length v.items)
              0
              no_error
              (record { frame = b; all_classes = all_classes; args = some empty_args }))
  unfolding Arguments.new CollMap.new Arguments.set_mode Arguments.set_queue empty_args
  with_head_lem b = rw (args_memory, types_memory) refl

  module _ {order : Order} {b : Buffer} (h : Holds order (call_body v order) b) where
    abbrev args_bytes : List ℕ
    args_bytes = arguments_bytes v.items order

    abbrev after_names : List ℕ
    after_names =
        wire order 4 v.call_id
        ++ ((length v.items % 256 ∷ []) ++ serialized v.mode v.queue v.items order)

    abbrev b1 : Buffer
    b1 = advance b (4 + length v.interface)

    h1 : Holds order (text_bytes v.operation order ++ after_names) b1
    h1 =
        advance-Holds (4 + length v.interface) (text_bytes v.interface order) _
          (length-text_bytes v.interface order) h

    abbrev b2 : Buffer
    b2 = advance b1 (4 + length v.operation)

    h2 : Holds order after_names b2
    h2 =
        advance-Holds (4 + length v.operation) (text_bytes v.operation order) _
          (length-text_bytes v.operation order) h1

    abbrev b3 : Buffer
    b3 = advance b2 4

    h3 : Holds order ((length v.items % 256 ∷ []) ++ serialized v.mode v.queue v.items order) b3
    h3 = advance-Holds 4 (wire order 4 v.call_id) _ (length-wire order 4 v.call_id) h2

    h4 : Holds order (serialized v.mode v.queue v.items order) (advance b3 1)
    h4 = advance-Holds 1 (length v.items % 256 ∷ []) _ refl h3

    h5 : Holds order ((v.queue % 256 ∷ []) ++ args_bytes) (advance (advance b3 1) 1)
    h5 = advance-Holds 1 (v.mode % 256 ∷ []) _ refl h4

    abbrev b6 : Buffer
    b6 = advance (advance (advance b3 1) 1) 1

    h6 : Holds order args_bytes b6
    h6 = advance-Holds 1 (v.queue % 256 ∷ []) args_bytes refl h5

    ran :
        (arriveds : List (Name × Item)) × AllArrive v.items arriveds
        × GoesOn build false v.mode v.queue no_error order [] (onto arriveds []) (
            read_arguments libc build false new_instance memory.rounds stale.rounds
              (length v.items)
              0
              no_error
              (record { frame = some b6; all_classes = all_classes; args = some empty_args }))
    ran =
        read_arguments-GoesOn libc build false new_instance provided stale.rounds no_error order []
          v.items [] 0
          (record { frame = some b6; all_classes = all_classes; args = some empty_args }) h6.is_open
          refl h6.in_order known empty_Stored readable.readable (omega (arith, readable.few))
          (h6.stream ∙ sym (append-nil args_bytes))

    count_lem : length v.items % 256 ≡ length v.items
    count_lem = omega (arith, readable.few)

    mode_lem : v.mode % 256 ≡ v.mode
    mode_lem = omega (arith, readable.mode_fits)

    queue_lem : v.queue % 256 ≡ v.queue
    queue_lem = omega (arith, readable.queue_fits)

    abbrev head : ℕ → ℕ → ℕ → Option Buffer → Status × Option (Call P) × Session P
    head count mode queue f =
        with_head libc build false new_instance memory stale alive all_classes v.interface
          v.operation v.call_id count mode queue f

    operation_lem :
        operation libc build false new_instance memory stale alive all_classes (some b)
        ≡ on_round alive v.interface v.operation v.call_id (Round.goes_on no_error ran.2.session)
    unfolding operation
    operation_lem =
        chk_lem all_classes stale.interface v.interface
          (read_operation libc build false new_instance memory stale alive all_classes)
          (get_string-Holds _ false v.interface readable.interface_short h)
        ∙ chk_lem all_classes stale.operation v.operation
            (read_call_id libc build false new_instance memory stale alive all_classes v.interface)
            (get_string-Holds _ false v.operation readable.operation_short h1)
        ∙ chk_lem all_classes 0 v.call_id
            (read_count libc build false new_instance memory stale alive all_classes v.interface
              v.operation)
            (get_int-Holds _ false v.call_id readable.call_id_fits h2)
        ∙ chk_lem all_classes 0 (length v.items % 256)
            (read_mode libc build false new_instance memory stale alive all_classes v.interface
              v.operation v.call_id)
            (get_byte-Holds _ (length v.items % 256) h3)
        ∙ chk_lem all_classes asynchronous_deferred (v.mode % 256)
            (read_queue libc build false new_instance memory stale alive all_classes v.interface
              v.operation v.call_id (length v.items % 256))
            (get_byte-Holds _ (v.mode % 256) h4)
        ∙ chk_lem all_classes default_queue (v.queue % 256)
            (λ queue f. head (length v.items % 256) (v.mode % 256) queue f)
            (get_byte-Holds _ (v.queue % 256) h5)
        ∙ ap (λ n. head n (v.mode % 256) (v.queue % 256) (some b6)) count_lem
        ∙ ap (λ n. head (length v.items) n (v.queue % 256) (some b6)) mode_lem
        ∙ ap (λ n. head (length v.items) v.mode n (some b6)) queue_lem
        ∙ with_head_lem (some b6)
        ∙ ap (on_round alive v.interface v.operation v.call_id) ran.2.is_round

    read_call :
        Called libc false alive v
          (operation libc build false new_instance memory stale alive all_classes (some b))
    unfolding get_mode get_queue
    read_call = rw operation_lem (record {
      fine = refl;
      this = ran.2.stored.this;
      is_call =
          ap (λ a. some (receiver_of alive v.interface v.operation v.call_id a))
            ran.2.stored.is_this;
      mode =
          read_arguments-genuine ran.2.stored.this (λ this. (no_error, some this.mode))
            ran.2.stored.genuine
          ∙ ap (λ m. (no_error, some m)) ran.2.stored.has_mode;
      queue =
          read_arguments-genuine ran.2.stored.this (λ this. (no_error, some this.queue))
            ran.2.stored.genuine
          ∙ ap (λ m. (no_error, some m)) ran.2.stored.has_queue;
      found = λ k.
          Stored-FoundIn libc build false ran.2.stored k
            (onto-Found k v.items ran.0 ran.1 readable.distinct);
      rest = ran.2.frame;
      has_rest = ran.2.has_frame;
      nothing_left = ran.2.left;
    })

  pub call_frame-Called :
      {b : Buffer} (recv recvfrom : ℕ → Option (List ℕ)) (signa : List ℕ)
      → IsOpen b
      → length (call_frame v b.order) ≤ b.capacity
      → recvfrom b.capacity ≡ some (call_frame v b.order)
      → let (handler, r) =
          pick false recv recvfrom false (record { in_buf = some b; signa = signa }) in
        (handler ≡ Handler.call)
        × Called libc false alive v
            (operation libc build false new_instance memory stale alive all_classes r.in_buf)
  call_frame-Called {b} recv recvfrom signa o k e =
      rw (pick_lem o 3 (call_body v b.order) k false recv recvfrom signa e) (
        refl,
        read_call (record {
          is_open = opened-IsOpen o 3 (call_body v b.order) k;
          in_order = opened_order o 3 (call_body v b.order);
          stream = unread-opened o 3 (call_body v b.order) k;
        }),
      )
