-- ===== src/Crud/Receiver/Items.antt =====
-- How `dcrudNetworkReceiver_operation` (C/src/dcrud/NetworkReceiver.c) reads the value of an argument.
use dcrud.Base.{
  ℕ, ◌*◌, ◌<◌, ◌≡◌, refl, sym, ap, ◌∙◌, Bool, true, Option, some, List, ◌++◌, length, length-append,
  arith,
}
use dcrud.Util.Status.{Status, no_error, Build}
use dcrud.Coll.Compare.{Ordering}
use dcrud.Coll.Libc.{Libc}
use dcrud.Coll.SortedArray.{Ordered}
use dcrud.Io.ByteBuffer.{Buffer, get_byte}
use dcrud.Io.ByteBuffer.Numbers.{
  get_short, get_ushort, get_int, get_uint, get_long, get_ulong, get_float, get_double,
}
use dcrud.Io.ByteBuffer.Words.{wire, length-wire, swap16-IsSwap, swap32-IsSwap, swap64-IsSwap}
use dcrud.Io.ByteBuffer.Streams.{advance, unread}
use dcrud.Io.ByteBuffer.Wire.{IsOpen, get_byte-advance, get_word-advance}
use dcrud.Io.ByteBuffer.Writes.{wire-one}
use dcrud.Io.ByteBuffer.Text.{get_string}
use dcrud.Io.ByteBuffer.RoundTrip.{get_string-advance}
use dcrud.Crud.ClassId
use dcrud.Crud.ClassId.{Instance, compare_instances, object}
use dcrud.Crud.ClassId.Order.{Same}
use dcrud.Crud.ClassId.Registry.{key_of, ResolveOutcome, resolved_outcome}
use dcrud.Crud.ClassId.Wire as ClassWire
use dcrud.Crud.Guid
use dcrud.Crud.Guid.Laws as GuidWire
use dcrud.Crud.Arguments.{ArgumentType, Name, Arguments, code}
use dcrud.Crud.Arguments.Items.{
  Item, IsNumber, bound_of, IsItem, type_of, wire_width, content, received_type, Arrives,
}
use dcrud.Crud.Receiver.Operation.{
  case_of, Session, Round, RoundMemory, Stale, put_end, on_number, on_text, on_class, on_guid,
  read_item, put_as,
}
use dcrud.Crud.Receiver.Arriving.{put_item}

-- The switch has the case of every type of number that can be sent.
pub case_of-code : (item : Item) → IsItem item → case_of (code (type_of item)) ≡ some (type_of item)
case_of-code (Item.number ArgumentType.null x) h = absurd h.0
case_of-code (Item.number ArgumentType.char x) h = absurd h.0
case_of-code (Item.number _ x) h = refl
case_of-code (Item.text s) h = refl
case_of-code (Item.class_id x) h = refl
case_of-code (Item.guid g) h = refl

-- A class that is read, in an `allClasses` that is sorted, with memory for a new one.
pub record IsRead (x : Instance) (r : Status × Option Instance × List Instance) : Type 0 where
  pub fine : r.0 ≡ no_error
  pub this : Instance
  pub is_this : r.1 ≡ some this
  pub same : Same x this
  pub ordered : Ordered compare_instances r.2

pub resolve-IsRead :
    (c : Libc compare_instances) (address : ℕ) (all_classes : List Instance) (x : Instance)
    → Ordered compare_instances all_classes
    → IsRead x (
        ClassId.resolve c
          (some address)
          all_classes
          true
          x.package_1
          x.package_2
          x.package_3
          x.clazz)
resolve-IsRead c address all_classes x o =
    of_outcome
      (resolved_outcome c (some address) all_classes o x.package_1 x.package_2 x.package_3 x.clazz)
  where
    of_outcome :
        {r : Status × Option Instance × List Instance}
        → ResolveOutcome
            (some address)
            all_classes
            (key_of x.package_1 x.package_2 x.package_3 x.clazz)
            r
        → IsRead x r
    of_outcome (ResolveOutcome.cached i y at same) = record {
      fine = refl;
      this = y;
      is_this = refl;
      same = record {
        package_1 = same.package_1;
        package_2 = same.package_2;
        package_3 = same.package_3;
        clazz = same.clazz;
      };
      ordered = o;
    }
    of_outcome (ResolveOutcome.made a known e h ordered other l) = record {
      fine = refl;
      this = _;
      is_this = refl;
      same = record { package_1 = refl; package_2 = refl; package_3 = refl; clazz = refl };
      ordered = ordered;
    }
    of_outcome (ResolveOutcome.no_memory e h) = let bad : ⊥ = cc in absurd bad

module _ (libc : (A : Type 0) (cmp : A → A → Ordering) → Libc cmp) (build : Build) (host_big : Bool)
    {P : Type 0}
    (new_instance : Option Buffer
      → List Instance
      → Status × Option P × Option Buffer × List Instance)
    (memory : RoundMemory) (stale : Stale) (name : Name) (status : Status) (s : Session P)
    {b : Buffer} (o : IsOpen b) (at : s.frame ≡ some b) (rest : List ℕ) where
  -- A get of a number, and the put of what it got.
  on_number_lem :
      (get : Option Buffer → Status × Option ℕ × Option Buffer)
      (put : ℕ → Status × Option (Arguments P)) {x : ℕ} {c : Buffer}
      → get (some b) ≡ (no_error, some x, some c)
      → on_number status s put (get s.frame) ≡ put_end status (record s { frame = some c }) (put x)
  on_number_lem get put e =
      ap (λ f. on_number status s put (get f)) at ∙ ap (on_number status s put) e

  one_byte :
      (x : ℕ)
      → x < 256
      → unread b ≡ wire b.order 1 x ++ rest
      → get_byte (some b) ≡ (no_error, some x, some (advance b 1))
  one_byte x h e = get_byte-advance o x rest (e ∙ ap (λ t. t ++ rest) (wire-one b.order x h))

  read_number :
      (type : ArgumentType) (x : ℕ)
      → IsNumber type
      → x < bound_of type
      → unread b ≡ wire b.order (wire_width type) x ++ rest
      → read_item libc build host_big new_instance memory stale name status s (some type)
        ≡ put_end status
            (record s { frame = some (advance b (wire_width type)) })
            (put_as libc build host_big new_instance memory stale name status s
              (received_type type)
              x)
  unfolding get_short get_ushort get_int get_uint get_long get_ulong get_float get_double
  read_number ArgumentType.null x n h e = absurd n
  read_number ArgumentType.char x n h e = absurd n
  read_number ArgumentType.string x n h e = absurd n
  read_number ArgumentType.class_id x n h e = absurd n
  read_number ArgumentType.guid x n h e = absurd n
  read_number ArgumentType.shareable x n h e = absurd n
  read_number ArgumentType.boolean x n h e = on_number_lem get_byte _ (one_byte x (omega arith) e)
  read_number ArgumentType.byte x n h e = on_number_lem get_byte _ (one_byte x (omega arith) e)
  read_number ArgumentType.short x n h e =
      on_number_lem (get_short host_big) _
        (get_word-advance o swap16-IsSwap (omega arith) host_big x rest h e)
  read_number ArgumentType.unsigned_short x n h e =
      on_number_lem (get_ushort host_big) _
        (get_word-advance o swap16-IsSwap (omega arith) host_big x rest h e)
  read_number ArgumentType.integer x n h e =
      on_number_lem (get_uint host_big) _
        (get_word-advance o swap32-IsSwap (omega arith) host_big x rest h e)
  read_number ArgumentType.unsigned_integer x n h e =
      on_number_lem (get_uint host_big) _
        (get_word-advance o swap32-IsSwap (omega arith) host_big x rest h e)
  read_number ArgumentType.long x n h e =
      on_number_lem (get_long host_big) _
        (get_word-advance o swap64-IsSwap (omega arith) host_big x rest h e)
  read_number ArgumentType.unsigned_long x n h e =
      on_number_lem (get_ulong host_big) _
        (get_word-advance o swap64-IsSwap (omega arith) host_big x rest h e)
  read_number ArgumentType.float x n h e =
      on_number_lem (get_float host_big) _
        (get_word-advance o swap32-IsSwap (omega arith) host_big x rest h e)
  read_number ArgumentType.double x n h e =
      on_number_lem (get_double host_big) _
        (get_word-advance o swap64-IsSwap (omega arith) host_big x rest h e)

  -- What a round puts for an item: the item as it arrives, and `allClasses` afterwards.
  pub record IsTaken (item : Item) (r : Round P) : Type 0 where
    pub arrived : Item
    pub arrives : Arrives item arrived
    pub is_item : IsItem arrived
    pub known : List Instance
    pub ordered : Ordered compare_instances known
    pub is_round :
        r
        ≡ put_end status
            (record s {
              frame = some (advance b (length (content item b.order)));
              all_classes = known;
            })
            (put_item libc build memory.put host_big s.args name arrived)

  received-IsItem :
      (type : ArgumentType) (x : ℕ)
      → IsNumber type
      → x < bound_of type
      → IsItem (Item.number (received_type type) x)
  received-IsItem ArgumentType.integer x n h = (tt, h)
  received-IsItem ArgumentType.null x n h = absurd n
  received-IsItem _ x n h = (n, h)

  pub read_item-IsTaken :
      (item : Item) {address : ℕ}
      → IsItem item
      → memory.class_argument ≡ some address
      → memory.guid ≡ true
      → Ordered compare_instances s.all_classes
      → unread b ≡ content item b.order ++ rest
      → IsTaken item (
          read_item libc build host_big new_instance memory stale name status s
            (some (type_of item)))
  read_item-IsTaken (Item.number type x) h m g d e = record {
    arrived = Item.number (received_type type) x;
    arrives = refl;
    is_item = received-IsItem type x h.0 h.1;
    known = s.all_classes;
    ordered = d;
    is_round =
        read_number type x h.0 h.1 e
        ∙ ap
            (λ n.
              put_end status (record s { frame = some (advance b n) })
                (put_as libc build host_big new_instance memory stale name status s
                  (received_type type) x))
            (sym (length-wire b.order (wire_width type) x));
  }
  read_item-IsTaken (Item.text t) h m g d e = record {
    arrived = Item.text t;
    arrives = refl;
    is_item = h;
    known = s.all_classes;
    ordered = d;
    is_round =
        ap
          (λ f.
            on_text libc build host_big new_instance memory stale name status s
              (get_string host_big f (64 * 1024)))
          at
        ∙ ap (on_text libc build host_big new_instance memory stale name status s)
            (get_string-advance host_big t rest (64 * 1024) o (omega arith) (omega arith) e)
        ∙ ap
            (λ n.
              put_end status (record s { frame = some (advance b n) })
                (put_item libc build memory.put host_big s.args name (Item.text t)))
            (sym (
              omega (
                arith,
                length-append (wire b.order 4 (length t)) t,
                length-wire b.order 4 (length t),
              )));
  }
  read_item-IsTaken (Item.class_id x) {address} h m g d e =
      let c = libc Instance compare_instances in
      let r = resolve-IsRead c address s.all_classes x d in
      record {
        arrived = Item.class_id r.this;
        arrives = (r.this, refl, r.same);
        is_item = tt;
        known =
            (ClassId.resolve c (some address) s.all_classes true x.package_1 x.package_2 x.package_3
              x.clazz).2;
        ordered = r.ordered;
        is_round =
            ap
              (λ f.
                on_class libc build host_big new_instance memory stale name status s
                  (ClassId.unserialize c memory.class_argument s.all_classes true f))
              at
            ∙ ap
                (λ a.
                  on_class libc build host_big new_instance memory stale name status s
                    (ClassId.unserialize c a s.all_classes true (some b)))
                m
            ∙ ap (on_class libc build host_big new_instance memory stale name status s)
                (ClassWire.unserialize-resolve c (some address) s.all_classes x rest o e)
            ∙ rw (r.fine, r.is_this) refl;
      }
  read_item-IsTaken (Item.guid i) h m g d e = record {
    arrived = Item.guid i;
    arrives = refl;
    is_item = h;
    known = s.all_classes;
    ordered = d;
    is_round =
        ap
          (λ f.
            on_guid libc build host_big new_instance memory stale name status s
              (Guid.unserialize host_big true memory.guid f))
          at
        ∙ ap
            (λ a.
              on_guid libc build host_big new_instance memory stale name status s
                (Guid.unserialize host_big true a (some b)))
            g
        ∙ ap (on_guid libc build host_big new_instance memory stale name status s)
            (GuidWire.unserialize-advance h host_big rest o e)
        ∙ ap
            (λ n.
              put_end status (record s { frame = some (advance b n) })
                (put_item libc build memory.put host_big s.args name (Item.guid i)))
            (sym (GuidWire.length-encoding b.order i));
  }
