-- ===== src/Crud/Arguments/Wire.antt =====
-- What `dcrudArguments_serialize` (C/src/dcrud/Arguments.c) writes for the arguments of a call.
use dcrud.Base.{
  ℕ, suc, ◌+◌, ◌-◌, ◌^◌, ◌%◌, ◌<◌, ◌≡◌, ==_true, refl, sym, ap, ◌∙◌, subst, Bool, true, false,
  Option, none, some, List, [], ◌∷◌, ◌++◌, All, length, replicate, arith,
}
use dcrud.Util.Status.{Status, no_error, check}
use dcrud.Coll.Compare.{Ordering}
use dcrud.Coll.Libc.{Libc}
use dcrud.Coll.CollMap
use dcrud.Coll.CollMap.{CollMap, Pair, map_magic, read_map-genuine}
use dcrud.Coll.Storage.{foreach_from}
use dcrud.Io.ByteBuffer.RoundTrip.{append_none}
use dcrud.Io.ByteBuffer.{Buffer, Order, put_byte}
use dcrud.Io.ByteBuffer.Numbers.{
  host_bytes, from_host, le_bytes, from_le, put_short, put_ushort, put_int, put_uint, put_long,
  put_ulong, put_float, put_double,
}
use dcrud.Io.ByteBuffer.Words.{wire, swap16-IsSwap, swap32-IsSwap, swap64-IsSwap}
use dcrud.Io.ByteBuffer.Streams.{Fits, append}
use dcrud.Io.ByteBuffer.Writes.{
  Writes, then_call, then_call-Writes, put_byte-Writes, put_word-Writes, put_string-Writes,
  wire-one, from_host-take,
}
use dcrud.Crud.ClassId.{serialize_type}
use dcrud.Crud.ClassId.Wire as ClassWire
use dcrud.Crud.Guid.Laws as GuidWire
use dcrud.Crud.Arguments.{
  ArgumentType, Name, Value, Misread, Arguments, arguments_magic, read_arguments-genuine, code,
  width, number_value, number_in, get_count,
}
use dcrud.Crud.Arguments.Gets.{get_type}
use dcrud.Crud.Arguments.Items.{
  Item, IsNumber, bound_of, IsItem, IsSentFrom, wire_width, type_of, value_of, content, type_bytes,
  argument_bytes, arguments_bytes,
}
use dcrud.Crud.Arguments.Serializing.{
  put_typed, put_value, put_named, put_found, serialize_pair, serialize_this, serialize,
}

-- A byte on the wire, as a number of one byte.
one_byte :
    {call : Option Buffer → Status × Option Buffer} (x : ℕ)
    → x < 256
    → Writes call (λ order. x ∷ [])
    → Writes call (λ order. wire order 1 x)
one_byte {call} x h w = record {
  at = λ b o k.
      subst (λ s. call (some b) ≡ (no_error, some (append b s))) (sym (wire-one b.order x h))
        (w.at b o (subst (λ s. Fits b (length s)) (wire-one b.order x h) k));
}

module _ (host_big : Bool) {P G D : Type 0} (misread : Misread P G D) where
  pub number_in-value :
      (w x : ℕ) → x < 256 ^ w → number_in misread host_big w (number_value host_big w x) ≡ x
  number_in-value w x h = from_host-take host_big w x (replicate (8 - w) 0) h

  -- The call that puts the number that was stored.
  of_stored :
      (put : ℕ → Option Buffer → Status × Option Buffer) (w x : ℕ) {s : Order → List ℕ}
      → x < 256 ^ w
      → Writes (put x) s
      → Writes (put (number_in misread host_big w (number_value host_big w x))) s
  of_stored put w x {s} h = subst (λ y. Writes (put y) s) (sym (number_in-value w x h))

  -- The first byte of a `bool`, on a little-endian host.
  first_byte :
      host_big ≡ false
      → (x : ℕ) → x < 256
      → number_in misread host_big 1 (number_value host_big 4 x) ≡ x
  unfolding host_bytes from_host le_bytes from_le
  first_byte e x h = rw e (omega arith)

  put_typed-number :
      (type : ArgumentType) (x : ℕ)
      → IsNumber type
      → x < bound_of type
      → IsSentFrom host_big (Item.number type x)
      → Writes
          (put_typed host_big misread type (number_value host_big (width type) x))
          (λ order. wire order (wire_width type) x)
  unfolding put_short put_ushort put_int put_uint put_long put_ulong put_float put_double
  put_typed-number ArgumentType.null x n h k = absurd n
  put_typed-number ArgumentType.char x n h k = absurd n
  put_typed-number ArgumentType.string x n h k = absurd n
  put_typed-number ArgumentType.class_id x n h k = absurd n
  put_typed-number ArgumentType.guid x n h k = absurd n
  put_typed-number ArgumentType.shareable x n h k = absurd n
  put_typed-number ArgumentType.boolean x n h k =
      subst (λ y. Writes (λ b. put_byte b y) (λ order. wire order 1 x)) (sym (first_byte k x h))
        (one_byte x h (put_byte-Writes x))
  put_typed-number ArgumentType.byte x n h k =
      of_stored (λ y b. put_byte b y) 1 x (omega arith)
        (one_byte x (omega arith) (put_byte-Writes x))
  put_typed-number ArgumentType.short x n h k =
      of_stored (λ y b. put_short host_big b y) 2 x h
        (put_word-Writes host_big x swap16-IsSwap (omega arith) h)
  put_typed-number ArgumentType.unsigned_short x n h k =
      of_stored (λ y b. put_ushort host_big b y) 2 x h
        (put_word-Writes host_big x swap16-IsSwap (omega arith) h)
  put_typed-number ArgumentType.integer x n h k =
      of_stored (λ y b. put_int host_big b y) 4 x h
        (put_word-Writes host_big x swap32-IsSwap (omega arith) h)
  put_typed-number ArgumentType.unsigned_integer x n h k =
      of_stored (λ y b. put_uint host_big b y) 4 x h
        (put_word-Writes host_big x swap32-IsSwap (omega arith) h)
  put_typed-number ArgumentType.long x n h k =
      of_stored (λ y b. put_long host_big b y) 8 x h
        (put_word-Writes host_big x swap64-IsSwap (omega arith) h)
  put_typed-number ArgumentType.unsigned_long x n h k =
      of_stored (λ y b. put_ulong host_big b y) 8 x h
        (put_word-Writes host_big x swap64-IsSwap (omega arith) h)
  put_typed-number ArgumentType.float x n h k =
      of_stored (λ y b. put_float host_big b y) 4 x h
        (put_word-Writes host_big x swap32-IsSwap (omega arith) h)
  put_typed-number ArgumentType.double x n h k =
      of_stored (λ y b. put_double host_big b y) 8 x h
        (put_word-Writes host_big x swap64-IsSwap (omega arith) h)

  put_typed-Writes :
      (item : Item)
      → IsItem item
      → IsSentFrom host_big item
      → Writes (put_typed host_big misread (type_of item) (value_of host_big item)) (content item)
  put_typed-Writes (Item.number type x) h sent = put_typed-number type x h.0 h.1 sent
  put_typed-Writes (Item.text s) h sent = put_string-Writes host_big s (omega arith)
  put_typed-Writes (Item.class_id x) h sent = record {
    at = λ b o k. ClassWire.serialize-append x o k;
  }
  put_typed-Writes (Item.guid g) h sent = record {
    at = λ b o k.
        GuidWire.serialize-append h host_big o (omega (arith, GuidWire.length-encoding b.order g));
  }

  -- An item is not of the type of objects.
  put_value-then :
      (item : Item)
      → IsItem item
      → put_value host_big misread (type_of item) (value_of host_big item)
        ≡ then_call
            (serialize_type (code (type_of item)))
            (put_typed host_big misread (type_of item) (value_of host_big item))
  put_value-then (Item.number ArgumentType.null x) h = absurd h.0
  put_value-then (Item.number ArgumentType.shareable x) h = absurd h.0
  put_value-then (Item.number _ x) h = refl
  put_value-then (Item.text s) h = refl
  put_value-then (Item.class_id x) h = refl
  put_value-then (Item.guid g) h = refl

  code-lt : (type : ArgumentType) → code type < 16
  code-lt ArgumentType.null = omega arith
  code-lt _ = omega arith

  serialize_type-Writes :
      (type : ArgumentType) → Writes (serialize_type (code type)) (λ order. type_bytes type)
  unfolding serialize_type
  serialize_type-Writes type = record {
    at = λ b o k.
        ClassWire.put_bytes-append (0 ∷ 0 ∷ 0 ∷ (code type % 256) ∷ []) o k
        ∙ ap (λ n. (no_error, some (append b (0 ∷ 0 ∷ 0 ∷ n ∷ []))))
            (let e : code type % 256 ≡ code type = omega (arith, code-lt type) in e);
  }

  put_named-Writes :
      (key : Name) (item : Item)
      → length key < 256 ^ 4
      → IsItem item
      → IsSentFrom host_big item
      → Writes
          (λ b. put_named host_big misread key (value_of host_big item) b (type_of item))
          (argument_bytes key item)
  put_named-Writes key item k h sent = then_call-Writes (put_string-Writes host_big key k) (
      subst (λ call. Writes call (λ order. type_bytes (type_of item) ++ content item order))
        (sym (put_value-then item h))
        (then_call-Writes (serialize_type-Writes (type_of item)) (put_typed-Writes item h sent)))

-- The pairs of the map that holds these items.
abbrev pub pairs_of : {P : Type 0} → Bool → List (Name × Item) → List (Pair Name (Value P))
pairs_of host_big [] = []
pairs_of host_big ((key, item) ∷ items) =
    (key, some (value_of host_big item)) ∷ pairs_of host_big items

pub length-pairs_of :
    (P : Type 0) (host_big : Bool) (items : List (Name × Item))
    → length (pairs_of {P = P} host_big items) ≡ length items
length-pairs_of P host_big [] = refl
length-pairs_of P host_big (p ∷ items) = ap (λ n. suc n) (length-pairs_of P host_big items)

module _ (libc : (A : Type 0) (cmp : A → A → Ordering) → Libc cmp) (host_big : Bool)
    {P : Type 0} where
  -- An argument that can be sent, and that `types` has with its type.
  abbrev pub IsSendable : Arguments P → Name × Item → Type 0
  IsSendable self (key, item) =
      (length key < 256 ^ 4)
      × IsItem item
      × IsSentFrom host_big item
      × (get_type libc (some self) key true ≡ (no_error, some (type_of item)))

  -- The arguments are these, in the order of the map.
  pub record Carries (self : Arguments P) (items : List (Name × Item)) : Type 0 where
    pub genuine : self.magic ≡ arguments_magic
    pub values : CollMap Name (Value P)
    pub has_values : self.args ≡ some values
    pub values_genuine : values.magic ≡ map_magic
    pub pairs : values.pairs ≡ pairs_of host_big items
    pub sendable : All (IsSendable self) items

-- The mode, the queue and the arguments.
abbrev pub serialized : ℕ → ℕ → List (Name × Item) → Order → List ℕ
serialized mode queue items order =
    (mode % 256 ∷ []) ++ ((queue % 256 ∷ []) ++ arguments_bytes items order)

module _ (libc : (A : Type 0) (cmp : A → A → Ordering) → Libc cmp) (host_big : Bool)
    {P G D : Type 0} (misread : Misread P G D) (self : Arguments P) where
  serialize_pair-Writes :
      (i : ℕ) (key : Name) (item : Item)
      → IsSendable libc host_big self (key, item)
      → Writes
          (λ b. serialize_pair libc host_big misread self b i (key, some (value_of host_big item)))
          (argument_bytes key item)
  serialize_pair-Writes i key item h =
      subst
        (λ r.
          Writes (λ b. put_found host_big misread key (value_of host_big item) b r)
            (argument_bytes key item))
        (sym h.3) (put_named-Writes host_big misread key item h.0 h.1 h.2)

  foreach-Writes :
      (i : ℕ) (items : List (Name × Item))
      → All (IsSendable libc host_big self) items
      → Writes
          (foreach_from (serialize_pair libc host_big misread self) i (pairs_of host_big items))
          (arguments_bytes items)
  unfolding foreach_from
  foreach-Writes i [] h = record {
    at = λ b o k. ap (λ c. (no_error, some c)) (sym (append_none b));
  }
  foreach-Writes i ((key, item) ∷ items) h =
      then_call-Writes (serialize_pair-Writes i key item h.0) (foreach-Writes (i + 1) items h.1)

  module _ {items : List (Name × Item)} (c : Carries libc host_big self items) where
    foreach_args :
        (b : Option Buffer)
        → CollMap.foreach (serialize_pair libc host_big misread self) self.args b
          ≡ foreach_from (serialize_pair libc host_big misread self) 0 (pairs_of host_big items) b
    unfolding CollMap.foreach
    foreach_args b =
        ap (λ m. CollMap.foreach (serialize_pair libc host_big misread self) m b) c.has_values
        ∙ read_map-genuine c.values b
            (λ m. foreach_from (serialize_pair libc host_big misread self) 0 m.pairs b)
            c.values_genuine
        ∙ ap (λ ps. foreach_from (serialize_pair libc host_big misread self) 0 ps b) c.pairs

    all-Writes :
        Writes (serialize_this libc host_big misread self) (serialized self.mode self.queue items)
    all-Writes = then_call-Writes (put_byte-Writes (self.mode % 256)) (
        then_call-Writes
          {second = λ b. CollMap.foreach (serialize_pair libc host_big misread self) self.args b}
          (put_byte-Writes (self.queue % 256))
          (record {
            at = λ b o k. foreach_args (some b) ∙ (foreach-Writes 0 items c.sendable).at b o k;
          }))

    pub serialize-Writes :
        Writes (serialize libc host_big misread (some self)) (serialized self.mode self.queue items)
    unfolding serialize
    serialize-Writes = record {
      at = λ b o k.
          rw (==_true self.magic arguments_magic c.genuine, serialize) (all-Writes.at b o k);
    }

    pub get_count-length : get_count (some self) true ≡ (no_error, some (length items))
    unfolding get_count CollMap.size
    get_count-length =
        read_arguments-genuine self (λ this. counted_of (CollMap.size this.args true)) c.genuine
        ∙ ap (λ m. counted_of (CollMap.size m true)) c.has_values
        ∙ ap counted_of (
            read_map-genuine c.values (some 0) (λ m. (no_error, some (length m.pairs)))
              c.values_genuine)
        ∙ ap (λ n. (no_error, some n)) (ap length c.pairs ∙ length-pairs_of P host_big items)
      where
        counted_of : Status × Option ℕ → Status × Option ℕ
        counted_of (status, size) = check status (no_error, size) (status, none)
