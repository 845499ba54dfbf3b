-- ===== src/Tests/Calls.antt =====
-- A call with two arguments, sent and received, at a small program.
use dcrud.Base.{
  get_elem?, Option, ℕ, ◌*◌, ◌≤◌, length, ◌≡◌, ◌≢◌, ap, ◌∙◌, refl, true, false, none, some, List,
  [], ◌∷◌, arith,
}
use dcrud.Util.Status.{Status, no_error, illegal_state, dynamic_allocation}
use dcrud.Coll.Compare.{string_compare}
use dcrud.Coll.Compare.Strings.{string_compare-IsComparator}
use dcrud.Coll.CollMap
use dcrud.Coll.CollMap.{CollMap, map_magic}
use dcrud.Coll.CollMap.Valid as Maps
use dcrud.Coll.CollMap.Laws.{get-get_answer}
use dcrud.Io.ByteBuffer.{Buffer, Order, big_endian}
use dcrud.Io.ByteBuffer.Numbers.{le_bytes}
use dcrud.Crud.ClassId.{Instance}
use dcrud.Crud.Guid.{guid_magic}
use dcrud.Crud.Arguments.{
  ArgumentType, Name, Value, Misread, Arguments, arguments_magic, names_libc,
}
use dcrud.Crud.Arguments.Gets.{get_value, get_type, get_number}
use dcrud.Crud.Arguments.Items.{Item, value_of}
use dcrud.Util.Strings
use dcrud.Crud.Arguments.Puts.{PutMemory, put_null, put_value, put_number}
use dcrud.Crud.Arguments.Putting.{IsValid, IsOther}
use dcrud.Crud.Arguments.PutGet.{get_type_lem, type_answer, put_number-get_number}
use dcrud.Crud.Arguments.{clear, get_count}
use dcrud.Util.Status.{not_found}
use dcrud.Crud.Arguments.Clearing.{clear_lem}
use dcrud.Crud.Arguments.Nulls.{put_null-serialize}
use dcrud.Crud.Arguments.Serializing.{serialize}
use dcrud.Crud.Arguments.Wire.{Carries}
use dcrud.Crud.Outbox.Calls.{send_call}
use dcrud.Crud.Outbox.CallFrames.{CallView, call_frame, send_call_lem}
use dcrud.Crud.Outbox.Ready.{HasSent}
use dcrud.Crud.Receiver.{Handler, pick}
use dcrud.Crud.Receiver.Calling.{CallMemory, StaleNames, operation}
use dcrud.Crud.Receiver.Rounds.{IsProvided}
use dcrud.Io.ByteBuffer.Wire.{IsOpen}
use dcrud.Crud.Receiver.SentCalls.{send_call-Called}
use dcrud.Crud.Receiver.CallFrames.{Readable, Called}
use dcrud.Tests.Programs.{
  libc, blank, blank-IsOpen, heap, participant, participant-IsReady, network,
}

-- "a" with true, and "b" with the text "hi"
abbrev call_view : CallView
call_view = record {
  interface = 73 ∷ [];
  operation = 111 ∷ 112 ∷ [];
  call_id = 7;
  mode = 1;
  queue = 100;
  items =
      (97 ∷ [], Item.number ArgumentType.boolean 1) ∷ (98 ∷ [], Item.text (104 ∷ 105 ∷ [])) ∷ [];
}

abbrev values : CollMap Name (Value ℕ)
values = record {
  magic = map_magic;
  limit = 100;
  pairs =
      (97 ∷ [], some (value_of false (Item.number ArgumentType.boolean 1)))
      ∷ (98 ∷ [], some (value_of false (Item.text (104 ∷ 105 ∷ []))))
      ∷ [];
}

abbrev types : CollMap Name ArgumentType
types = record {
  magic = map_magic;
  limit = 100;
  pairs = (97 ∷ [], some ArgumentType.boolean) ∷ (98 ∷ [], some ArgumentType.string) ∷ [];
}

abbrev call_arguments : Arguments ℕ
call_arguments = record {
  magic = arguments_magic;
  mode = 1;
  queue = 100;
  args = some values;
  types = some types;
}

abbrev misread : Misread ℕ ℕ ℕ
misread = record {
  bytes = λ value. [];
  text = λ value. [];
  class_id = λ value. none;
  guid = λ value. record { magic = guid_magic; publisher = 0; instance = 0 };
  shareable = λ value. none;
  object = λ value. heap.items 0;
  user_data = λ value. none;
}

values-IsValid : Maps.IsValid string_compare dynamic_allocation values
unfolding string_compare
values-IsValid = record {
  genuine = refl;
  ordered = record {
    sorted = (((λ e. let bad : ⊥ = cc in bad), tt), (tt, tt));
    distinct = (((λ e. let bad : ⊥ = cc in bad), tt), (tt, tt));
  };
  fits = omega arith;
}

types-IsValid : Maps.IsValid string_compare dynamic_allocation types
unfolding string_compare
types-IsValid = record {
  genuine = refl;
  ordered = record {
    sorted = (((λ e. let bad : ⊥ = cc in bad), tt), (tt, tt));
    distinct = (((λ e. let bad : ⊥ = cc in bad), tt), (tt, tt));
  };
  fits = omega arith;
}

call_arguments-IsValid : IsValid dynamic_allocation call_arguments
call_arguments-IsValid = record {
  genuine = refl;
  values = values;
  has_values = refl;
  values_valid = values-IsValid;
  values_small = omega arith;
  types = types;
  has_types = refl;
  types_valid = types-IsValid;
  types_small = omega arith;
}

get_type_of :
    (k : Name)
    → get_type libc (some call_arguments) k true
      ≡ type_answer
          (Maps.get_answer (dcrud.Coll.CollMap.Lookup.lookup string_compare k types.pairs))
get_type_of k =
    get_type_lem libc call_arguments k refl
    ∙ ap type_answer (
        get-get_answer string_compare-IsComparator.0 (names_libc libc ArgumentType)
          dynamic_allocation types k types-IsValid)

call_arguments-Carries : Carries libc false call_arguments call_view.items
unfolding string_compare
call_arguments-Carries = record {
  genuine = refl;
  values = values;
  has_values = refl;
  values_genuine = refl;
  pairs = refl;
  sendable = (
    (omega arith, (tt, omega arith), refl, get_type_of (97 ∷ [])),
    ((omega arith, omega arith, tt, get_type_of (98 ∷ [])), tt),
  );
}

call_frame_short : (order : Order) → length (call_frame call_view order) ≤ 64 * 1024
unfolding le_bytes
call_frame_short Order.big_endian = omega arith
call_frame_short Order.little_endian = omega arith

send_call_lem_example :
    let (status, p') =
      send_call libc false misread network 0 call_view.interface call_view.operation
        (some call_arguments)
        call_view.call_id
        participant in
    HasSent big_endian
      (call_frame call_view participant-IsReady.message.order ∷ [])
      (status, some p')
send_call_lem_example =
    send_call_lem libc false misread 0 (λ a s. refl) {v = call_view} refl refl
      call_arguments-Carries
      (record {
        interface_fits = omega arith;
        operation_fits = omega arith;
        call_id_fits = omega arith;
      })
      participant-IsReady (call_frame_short participant-IsReady.message.order)

-- A host with memory for every put.
abbrev put_memory : PutMemory
put_memory = record { value = true; name = true; content = true; args = true; types = true }

abbrev call_memory : CallMemory
call_memory = record {
  args = true;
  types = true;
  rounds =
      λ i. record { class = some 200; class_argument = some 300; guid = true; put = put_memory };
}

call_memory-IsProvided : (i : ℕ) → IsProvided (call_memory.rounds i)
call_memory-IsProvided i = record {
  class_address = 200;
  class = refl;
  argument_address = 300;
  class_argument = refl;
  guid = refl;
  put = record { value = refl; name = refl; content = refl };
}

abbrev stale_names : StaleNames
stale_names = record {
  interface = [];
  operation = [];
  rounds = λ i. record { name = []; item = [] };
}

abbrev new_instance :
    Option Buffer → List Instance → Status × Option ℕ × Option Buffer × List Instance
new_instance frame all_classes = (illegal_state, none, frame, all_classes)

call_view-Readable : Readable call_view
unfolding string_compare
call_view-Readable = record {
  interface_short = omega arith;
  operation_short = omega arith;
  call_id_fits = omega arith;
  mode_fits = omega arith;
  queue_fits = omega arith;
  few = omega arith;
  readable = ((omega arith, (tt, omega arith)), ((omega arith, omega arith), tt));
  distinct = ((refl, tt), (tt, tt));
}

put_number-get_number_example :
    let self' =
      (put_number libc dynamic_allocation put_memory false ArgumentType.integer
        (some call_arguments)
        (some (99 ∷ []))
        70000).1 in
    (get_number libc misread self' (99 ∷ []) false ArgumentType.integer true
      ≡ (no_error, some 70000))
    × (get_type libc self' (99 ∷ []) true ≡ (no_error, some ArgumentType.integer))
    × ((k : Name)
        → IsOther (99 ∷ []) k
        → (get_type libc self' k true ≡ get_type libc (some call_arguments) k true)
          × ((R : Type 0) (field : Value ℕ → R)
              → get_value libc field self' k true
                ≡ get_value libc field (some call_arguments) k true))
unfolding put_number put_value CollMap.put CollMap.insert Strings.clone Strings.new string_compare
    dcrud.Coll.Storage.make_room
put_number-get_number_example =
    put_number-get_number libc dynamic_allocation put_memory false misread call_arguments-IsValid
      (99 ∷ []) ArgumentType.integer 70000 (omega arith) refl

put_null-serialize_example :
    (serialize libc false misread
      (put_null libc dynamic_allocation put_memory (some call_arguments) (some (97 ∷ []))).1
      (some (blank 100))).0
    ≢ no_error
unfolding put_null CollMap.put CollMap.insert Strings.clone Strings.new string_compare
put_null-serialize_example =
    put_null-serialize libc dynamic_allocation put_memory false misread call_arguments-IsValid
      (97 ∷ []) refl (some (blank 100))

-- The receive buffer of another host.
abbrev inbox : Buffer
inbox = record (blank 65536) { order = participant-IsReady.message.order }

inbox-IsOpen : IsOpen inbox
unfolding blank
inbox-IsOpen =
    let o = blank-IsOpen 65536 (omega arith) in
    record {
      genuine = refl;
      valid = record {
        below = o.valid.below;
        limited = o.valid.limited;
        stored = o.valid.stored;
        small = o.valid.small;
      };
    }

send_call-Called_example :
    let (status, p') =
      send_call libc false misread network 0 call_view.interface call_view.operation
        (some call_arguments)
        call_view.call_id
        participant in
    let (handler, s) =
      pick false
        (λ max. none)
        (λ max. get_elem? p'.sent 0)
        false
        (record { in_buf = some inbox; signa = [] }) in
    (status ≡ no_error)
    × (length p'.sent ≡ 1)
    × (handler ≡ Handler.call)
    × Called libc false true call_view (
        operation libc dynamic_allocation false new_instance call_memory stale_names true []
          s.in_buf)
unfolding blank
send_call-Called_example =
    send_call-Called libc call_view-Readable false misread 0 (λ a s. refl) refl refl
      call_arguments-Carries participant-IsReady dynamic_allocation new_instance refl refl
      call_memory-IsProvided stale_names true [] (record { sorted = tt; distinct = tt })
      inbox-IsOpen (λ max. none) [] refl (omega arith) refl
      (call_frame_short participant-IsReady.message.order)

clear_lem_example :
    let (status, self') = clear dynamic_allocation (some call_arguments) in
    (status ≡ no_error)
    × (get_count self' true ≡ (no_error, some 0))
    × ((k : Name) (R : Type 0) (field : Value ℕ → R)
        → get_value libc field self' k true ≡ (not_found, none))
    × ((k : Name) → get_type libc self' k true ≡ get_type libc (some call_arguments) k true)
clear_lem_example = clear_lem libc dynamic_allocation call_arguments-IsValid
