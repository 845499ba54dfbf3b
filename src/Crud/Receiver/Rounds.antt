-- ===== src/Crud/Receiver/Rounds.antt =====
-- The loop of `dcrudNetworkReceiver_operation` (C/src/dcrud/NetworkReceiver.c) over the arguments.
use dcrud.Base.{
  ℕ, ◌+◌, ◌<◌, ◌≤◌, ◌≡◌, refl, sym, ap, ◌∙◌, subst, Bool, true, Option, some, List, ◌∷◌, ◌++◌,
  length, [], All, length-append, append_assoc, arith,
}
use dcrud.Util.Status.{Status, no_error, check, Build}
use dcrud.Coll.Compare.{Ordering}
use dcrud.Coll.Libc.{Libc}
use dcrud.Coll.SortedArray.{Ordered}
use dcrud.Io.ByteBuffer.{Buffer, Order}
use dcrud.Io.ByteBuffer.Words.{wire, length-wire}
use dcrud.Io.ByteBuffer.Streams.{Fits, advance, unread, unread_rest, unread-Fits}
use dcrud.Io.ByteBuffer.Wire.{IsOpen, advance-IsOpen, order-advance}
use dcrud.Io.ByteBuffer.RoundTrip.{get_string-advance}
use dcrud.Crud.ClassId
use dcrud.Crud.ClassId.{Instance, compare_instances, object}
use dcrud.Crud.ClassId.Order.{Same}
use dcrud.Crud.ClassId.Registry.{key_of}
use dcrud.Crud.ClassId.Wire as ClassWire
use dcrud.Crud.Arguments.{Name, code}
use dcrud.Crud.Arguments.Items.{
  Item, IsItem, type_of, content, type_bytes, argument_bytes, arguments_bytes, Arrives, AllArrive,
  onto, IsReadable,
}
use dcrud.Crud.Arguments.Stored.{Stored}
use dcrud.Crud.Receiver.Operation.{
  Session, Round, RoundMemory, Stale, read_item, read_argument, read_arguments,
}
use dcrud.Crud.Receiver.Arriving.{IsEnough, put_item, put_item-Stored}
use dcrud.Crud.Receiver.Items.{IsTaken, IsRead, resolve-IsRead, case_of-code, read_item-IsTaken}

-- There is memory for what a round needs.
pub record IsProvided (m : RoundMemory) : Type 0 where
  pub class_address : ℕ
  pub class : m.class ≡ some class_address
  pub argument_address : ℕ
  pub class_argument : m.class_argument ≡ some argument_address
  pub guid : m.guid ≡ true
  pub put : IsEnough m.put

-- Read on without a failure: these bytes are left, and these items are stored.
pub record GoesOn {P : Type 0} (build : Build) (host_big : Bool) (mode queue : ℕ) (status : Status)
    (order : Order) (rest : List ℕ) (items : List (Name × Item)) (r : Round P) : Type 0 where
  pub session : Session P
  pub is_round : r ≡ Round.goes_on status session
  pub frame : Buffer
  pub has_frame : session.frame ≡ some frame
  pub is_open : IsOpen frame
  pub in_order : frame.order ≡ order
  pub left : unread frame ≡ rest
  pub ordered : Ordered compare_instances session.all_classes
  pub stored : Stored build host_big mode queue items session.args

get_type-Same :
    (n : ℕ) (y : Instance)
    → Same (key_of 0 0 0 n) y
    → ClassId.get_type (some (object y)) true ≡ (no_error, some n)
unfolding ClassId.get_type
get_type-Same n y s = rw (sym s.package_1, sym s.package_2, sym s.package_3, sym s.clazz) refl

module _ (libc : (A : Type 0) (cmp : A → A → Ordering) → Libc cmp) (build : Build) (host_big : Bool)
    {P : Type 0}
    (new_instance : Option Buffer
      → List Instance
      → Status × Option P × Option Buffer × List Instance) where
  module _ {memory : RoundMemory} (provided : IsProvided memory) (stale : Stale) (status : Status)
      (s : Session P) {b : Buffer} (o : IsOpen b) (at : s.frame ≡ some b)
      (d : Ordered compare_instances s.all_classes) (key : Name) (item : Item) (rest : List ℕ)
      (short : length key < 1000) (h : IsItem item)
      (e : unread b ≡ argument_bytes key item b.order ++ rest) where
    stream :
        unread b
        ≡ (wire b.order 4 (length key) ++ key)
          ++ ((type_bytes (type_of item) ++ content item b.order) ++ rest)
    stream =
        e
        ∙ append_assoc (wire b.order 4 (length key) ++ key)
            (type_bytes (type_of item) ++ content item b.order) rest

    front_length : length (wire b.order 4 (length key) ++ key) ≡ 4 + length key
    front_length =
        omega (
          arith,
          length-append (wire b.order 4 (length key)) key,
          length-wire b.order 4 (length key),
        )

    abbrev named : Buffer
    named = advance b (4 + length key)

    named_IsOpen : IsOpen named
    named_IsOpen =
        advance-IsOpen (4 + length key) o
          (subst (Fits b) front_length (unread-Fits _ _ o.valid stream))

    named-unread : unread named ≡ type_bytes (type_of item) ++ (content item b.order ++ rest)
    named-unread =
        subst
          (λ n. unread (advance b n) ≡ type_bytes (type_of item) ++ (content item b.order ++ rest))
          front_length (unread_rest _ _ o.valid stream)

    abbrev typed : Buffer
    typed = advance named 4

    typed_IsOpen : IsOpen typed
    typed_IsOpen =
        advance-IsOpen 4 named_IsOpen
          (unread-Fits (type_bytes (type_of item)) _ named_IsOpen.valid named-unread)

    typed_order : typed.order ≡ b.order
    typed_order = order-advance named 4 ∙ order-advance b (4 + length key)

    typed-unread : unread typed ≡ content item typed.order ++ rest
    typed-unread =
        unread_rest (type_bytes (type_of item)) _ named_IsOpen.valid named-unread
        ∙ ap (λ order. content item order ++ rest) (sym typed_order)

    class_read : IsRead (key_of 0 0 0 (code (type_of item))) (
        ClassId.resolve
          (libc Instance compare_instances)
          (some provided.class_address)
          s.all_classes
          true
          0
          0
          0
          (code (type_of item)))
    class_read =
        resolve-IsRead (libc Instance compare_instances) provided.class_address s.all_classes
          (key_of 0 0 0 (code (type_of item))) d

    abbrev known : List Instance
    known =
        (ClassId.resolve (libc Instance compare_instances) (some provided.class_address)
          s.all_classes true 0 0 0 (code (type_of item))).2

    abbrev item_session : Session P
    item_session = record { frame = some typed; all_classes = known; args = s.args }

    class_is :
        ClassId.unserialize
          (libc Instance compare_instances)
          memory.class
          s.all_classes
          true
          (some named)
        ≡ (no_error, some class_read.this, known, some typed)
    class_is =
        ap
          (λ a.
            ClassId.unserialize (libc Instance compare_instances) a s.all_classes true (some named))
          provided.class
        ∙ ClassWire.unserialize-resolve (libc Instance compare_instances)
            (some provided.class_address) s.all_classes (key_of 0 0 0 (code (type_of item))) _
            named_IsOpen named-unread
        ∙ rw (class_read.fine, class_read.is_this) refl

    read_argument-read_item :
        read_argument libc build host_big new_instance memory stale status s
        ≡ read_item libc build host_big new_instance memory stale key status item_session
            (some (type_of item))
    unfolding read_argument
    read_argument-read_item =
        rw
          (
            at,
            get_string-advance host_big key _ 1000 o (omega arith) short stream,
            class_is,
            get_type-Same (code (type_of item)) class_read.this class_read.same,
            case_of-code item h,
          )
          refl

    taken :
        IsTaken libc build host_big new_instance memory stale key status item_session typed_IsOpen
          refl rest item
          (read_item libc build host_big new_instance memory stale key status item_session
            (some (type_of item)))
    taken =
        read_item-IsTaken libc build host_big new_instance memory stale key status item_session
          typed_IsOpen refl rest item h provided.class_argument provided.guid class_read.ordered
          typed-unread

    abbrev last : Buffer
    last = advance typed (length (content item typed.order))

    -- A round takes the bytes of an argument, and stores it as it arrives.
    pub read_argument-GoesOn :
        {mode queue : ℕ} {items : List (Name × Item)}
        → Stored build host_big mode queue items s.args
        → length items < 100
        → (arrived : Item) × Arrives item arrived
          × GoesOn build host_big mode queue status b.order rest
              ((key, arrived) ∷ items)
              (read_argument libc build host_big new_instance memory stale status s)
    read_argument-GoesOn {mode} {queue} {items} stored few =
        let put = put_item libc build memory.put host_big s.args key taken.arrived in
        let done =
          put_item-Stored libc build provided.put host_big s.args key short taken.arrived
            taken.is_item stored few in
        (
          taken.arrived,
          taken.arrives,
          record {
            session = record { frame = some last; all_classes = taken.known; args = put.1 };
            is_round =
                read_argument-read_item
                ∙ taken.is_round
                ∙ ap
                    (λ t.
                      check t
                        (Round.goes_on status
                          (record { frame = some last; all_classes = taken.known; args = put.1 }))
                        (Round.returns put.0
                          (record { frame = some last; all_classes = taken.known; args = put.1 })))
                    done.0;
            frame = last;
            has_frame = refl;
            is_open =
                advance-IsOpen (length (content item typed.order)) typed_IsOpen
                  (unread-Fits _ _ typed_IsOpen.valid typed-unread);
            in_order = order-advance typed (length (content item typed.order)) ∙ typed_order;
            left = unread_rest _ _ typed_IsOpen.valid typed-unread;
            ordered = taken.ordered;
            stored = done.1;
          },
        )

  pub read_arguments-GoesOn :
      {memory : ℕ → RoundMemory} (provided : (i : ℕ) → IsProvided (memory i)) (stale : ℕ → Stale)
      (status : Status) {mode queue : ℕ} (order : Order) (rest : List ℕ)
      (items acc : List (Name × Item)) (i : ℕ) (s : Session P) {b : Buffer}
      → IsOpen b
      → s.frame ≡ some b
      → b.order ≡ order
      → Ordered compare_instances s.all_classes
      → Stored build host_big mode queue acc s.args
      → All IsReadable items
      → length acc + length items ≤ 100
      → unread b ≡ arguments_bytes items order ++ rest
      → (arriveds : List (Name × Item)) × AllArrive items arriveds
        × GoesOn build host_big mode queue status order rest
            (onto arriveds acc)
            (read_arguments libc build host_big new_instance memory stale (length items) i status s)
  unfolding read_arguments
  read_arguments-GoesOn provided stale status order rest [] acc i s {b} o at same d stored h few e =
      (
        [],
        tt,
        record {
          session = s;
          is_round = refl;
          frame = b;
          has_frame = at;
          is_open = o;
          in_order = same;
          left = e;
          ordered = d;
          stored = stored;
        },
      )
  read_arguments-GoesOn {memory} provided stale status {mode} {queue} order rest
        ((key, item) ∷ items) acc i s {b} o at same d stored h few e =
      let stream : unread b
          ≡ argument_bytes key item b.order ++ (arguments_bytes items order ++ rest) =
        e
        ∙ append_assoc (argument_bytes key item order) (arguments_bytes items order) rest
        ∙ ap (λ t. argument_bytes key item t ++ (arguments_bytes items order ++ rest)) (sym same) in
      let (arrived, arrives, g) =
        read_argument-GoesOn (provided i) (stale i) status s o at d key item
          (arguments_bytes items order ++ rest) h.0.0 h.0.1 stream stored (omega arith) in
      let (arriveds, all, last) =
        read_arguments-GoesOn provided stale status order rest items ((key, arrived) ∷ acc) (i + 1)
          g.session g.is_open g.has_frame (g.in_order ∙ same) g.ordered g.stored h.1 (omega arith)
          g.left in
      (
        (key, arrived) ∷ arriveds,
        (refl, arrives, all),
        subst
            (GoesOn build host_big mode queue status order rest
              (onto arriveds ((key, arrived) ∷ acc)))
            (ap (λ r. after r) (sym g.is_round)) last,
      )
    where
      after : Round P → Round P
      after r = elim r [
        | Round.returns status' s' ↦ Round.returns status' s'
        | Round.goes_on status' s' ↦
            read_arguments libc build host_big new_instance memory stale (length items) (i + 1)
              status' s'
      ]
