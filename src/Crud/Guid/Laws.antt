-- ===== src/Crud/Guid/Laws.antt =====
-- The identity of an object on the wire, and the order of identities (C/src/dcrud/GUID.c).
use dcrud.Base.{
  ℕ, ◌+◌, ◌^◌, ◌%◌, ◌<◌, ◌≤◌, ◌≡◌, ==_true, refl, sym, ap, ap₂, subst, ◌∙◌, Bool, true, some, List,
  [], ◌++◌, length, append-nil, length-append, arith,
}
use Prim.Native.Nat.{compare}
use mathlib.Core.List.{append_assoc}
use dcrud.Util.Status.{no_error}
use dcrud.Coll.Compare.{Ordering}
use dcrud.Io.ByteBuffer.{Buffer, clear, flip, Order}
use dcrud.Io.ByteBuffer.Numbers.{put_uint, get_uint}
use dcrud.Io.ByteBuffer.Words.{wire, length-wire, swap32-IsSwap}
use dcrud.Io.ByteBuffer.Streams.{
  Fits, append, advance, append-append, unread, unread_rest, unread-Fits,
}
use dcrud.Io.ByteBuffer.Wire.{
  IsOpen, append-IsOpen, advance-IsOpen, put_word-append, get_word-advance, order-append,
  order-advance, Fits-append,
}
use dcrud.Io.ByteBuffer.RoundTrip.{advance-advance}
use dcrud.Io.ByteBuffer.Exchange.{
  clear-open, clear-IsOpen, cleared, holding, flip-holding, holding-IsOpen, unread-holding,
}
use dcrud.Coll.Compare.{or_else}
use dcrud.Crud.Guid
use dcrud.Crud.Guid.{Guid, guid_magic, written_over}

-- The fields of an object are 32-bit numbers, and its magic number is right.
pub record IsValid (g : Guid) : Type 0 where
  pub genuine : g.magic ≡ guid_magic
  pub publisher_fits : g.publisher < 256 ^ 4
  pub instance_fits : g.instance < 256 ^ 4

abbrev pub encoding : Order → Guid → List ℕ
encoding order g = wire order 4 g.publisher ++ wire order 4 g.instance

pub length-encoding : (order : Order) (g : Guid) → length (encoding order g) ≡ 8
length-encoding order g = omega (
  arith,
  length-append (wire order 4 g.publisher) (wire order 4 g.instance),
  length-wire order 4 g.publisher,
  length-wire order 4 g.instance,
)

module _ {g : Guid} (v : IsValid g) where
  -- `dcrudGUID_serialize` puts the publisher and the instance, if both fit.
  pub serialize-append :
      (host_big : Bool) {b : Buffer}
      → IsOpen b
      → Fits b 8
      → Guid.serialize host_big (some g) (some b) ≡ (no_error, some (append b (encoding b.order g)))
  unfolding Guid.serialize put_uint
  serialize-append host_big {b} o h =
      let w = wire b.order 4 g.publisher in
      let l = length-wire b.order 4 g.publisher in
      let o' = append-IsOpen w o (omega (arith, l)) in
      let room : Fits (append b w) 4 = Fits-append b w 4 (omega (arith, l)) in
      rw
        (
          ==_true g.magic guid_magic v.genuine,
          put_word-append o swap32-IsSwap (omega arith) host_big g.publisher v.publisher_fits
              (omega arith),
          put_word-append o' swap32-IsSwap (omega arith) host_big g.instance v.instance_fits room,
          Guid.serialize,
        )
        (ap (λ order. (no_error, some (append (append b w) (wire order 4 g.instance))))
            (order-append b w)
          ∙ ap (λ c. (no_error, some c)) (append-append b w (wire b.order 4 g.instance)))

  pub unserialize-advance :
      (host_big : Bool) {b : Buffer} (rest : List ℕ)
      → IsOpen b
      → unread b ≡ encoding b.order g ++ rest
      → Guid.unserialize host_big true true (some b) ≡ (no_error, some g, some (advance b 8))
  unfolding Guid.unserialize Guid.new get_uint
  unserialize-advance host_big {b} rest o e =
      let w = wire b.order 4 g.publisher in
      let l = length-wire b.order 4 g.publisher in
      let e1 : unread b ≡ w ++ (wire b.order 4 g.instance ++ rest) =
        e ∙ append_assoc w (wire b.order 4 g.instance) rest in
      let fits : Fits b 4 = subst (λ n. Fits b n) l (unread-Fits w _ o.valid e1) in
      let o' = advance-IsOpen 4 o fits in
      let e2 : unread (advance b 4) ≡ wire b.order 4 g.instance ++ rest =
        subst (λ n. unread (advance b n) ≡ wire b.order 4 g.instance ++ rest) l
          (unread_rest w _ o.valid e1) in
      let e3 : unread (advance b 4) ≡ wire (advance b 4).order 4 g.instance ++ rest =
        e2 ∙ ap (λ order. wire order 4 g.instance ++ rest) (sym (order-advance b 4)) in
      rw
        (
          get_word-advance o swap32-IsSwap (omega arith) host_big g.publisher _ v.publisher_fits e1,
          get_word-advance o' swap32-IsSwap (omega arith) host_big g.instance rest v.instance_fits
              e3,
        )
        (ap₂ (λ m d. (no_error, some (record g { magic = m }), some d)) (sym v.genuine)
          (advance-advance b 4 4))

  -- An identity that one host serializes to a cleared buffer of at least eight bytes is, once the
  -- buffer is flipped, what `dcrudGUID_unserialize` makes on another host with memory for it,
  -- whatever the byte orders of the hosts; both return `no_error`.
  pub serialize-flip-unserialize_guid :
      (sender reader : Bool) {b : Buffer}
      → IsOpen b
      → 8 ≤ b.capacity
      → let (sent_status, sent) = Guid.serialize sender (some g) (clear (some b)).1 in
        let (status, self, _) = Guid.unserialize reader true true (flip sent).1 in
        (sent_status ≡ no_error) × (status ≡ no_error) × (self ≡ some g)
  serialize-flip-unserialize_guid sender reader {b} o k =
      rw put (refl, ap (λ r. r.0) got, ap (λ r. r.1) got)
    where
      enc : List ℕ
      enc = encoding b.order g

      room : length enc ≤ b.capacity
      room = omega (arith, length-encoding b.order g)

      put :
          Guid.serialize sender (some g) (clear (some b)).1
          ≡ (no_error, some (append (cleared b) enc))
      put =
          ap (λ r. Guid.serialize sender (some g) r.1) (clear-open o)
          ∙ serialize-append sender (clear-IsOpen o) (omega arith)

      got :
          Guid.unserialize reader true true (flip (some (append (cleared b) enc))).1
          ≡ (no_error, some g, some (advance (holding b enc) 8))
      got =
          ap (λ r. Guid.unserialize reader true true r.1) (flip-holding o enc room)
          ∙ unserialize-advance reader [] (holding-IsOpen o enc room) (
              unread-holding o enc room
              ∙ sym (append-nil enc)
              ∙ ap (λ order. encoding order g ++ []) (sym (order-append (cleared b) enc)))

-- The instance of a publisher with this number, as a 32-bit number.
abbrev pub numbered : ℕ → ℕ → Guid
numbered publisher instance = record {
  magic = guid_magic;
  publisher = publisher;
  instance = instance % 2 ^ 32;
}

-- The comparator of identities is not an order: for every publisher and every instance there are
-- two more instances such that each is less than the next, and the last is less than the first.
pub compare_to-cycle :
    (publisher first : ℕ)
    → publisher < 2 ^ 32
    → let a = numbered publisher first in
      let b = numbered publisher (first + 1431655766) in
      let c = numbered publisher (first + 2863311532) in
      (Guid.compare_to a b ≡ Ordering.lt)
      × (Guid.compare_to b c ≡ Ordering.lt)
      × (Guid.compare_to c a ≡ Ordering.lt)
unfolding Guid.compare_to
compare_to-cycle publisher first h = (ground arith, ground arith, ground arith)

-- For two identities with the right magic number and 32-bit fields the comparator answers
-- equality exactly if they have the same publisher and the same instance.
pub compare_to-eq-same :
    {g h : Guid}
    → IsValid g
    → IsValid h
    → (Guid.compare_to g h ≡ Ordering.eq → (g.publisher ≡ h.publisher) × (g.instance ≡ h.instance))
      × ((g.publisher ≡ h.publisher) × (g.instance ≡ h.instance)
          → Guid.compare_to g h ≡ Ordering.eq)
unfolding Guid.compare_to
compare_to-eq-same v w = ((λ e. (ground arith, ground arith)), (λ e. ground arith))

-- The comparator orders identities by publisher and then by instance, if the publishers lie less
-- than 2 ^ 31 apart and the instances too.
pub compare_to-eq-or_else :
    {g h : Guid}
    → IsValid g
    → IsValid h
    → g.publisher < h.publisher + 2 ^ 31
    → h.publisher < g.publisher + 2 ^ 31
    → g.instance < h.instance + 2 ^ 31
    → h.instance < g.instance + 2 ^ 31
    → Guid.compare_to g h
      ≡ or_else (compare g.publisher h.publisher) (compare g.instance h.instance)
unfolding Guid.compare_to
compare_to-eq-or_else v w a b c d = ground arith
