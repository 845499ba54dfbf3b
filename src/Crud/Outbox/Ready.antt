-- ===== src/Crud/Outbox/Ready.antt =====
-- A participant that can publish (C/src/dcrud/ParticipantImpl.c): its buffers before and after.
use dcrud.Base.{
  ℕ, ◌*◌, ◌≤◌, ◌≡◌, refl, ap, ◌∙◌, subst, Option, some, List, [], ◌∷◌, ◌++◌, length, length-append,
  arith,
}
use dcrud.Util.Status.{Status, no_error}
use dcrud.Io.ByteBuffer.{Buffer, Order}
use dcrud.Io.ByteBuffer.Words.{wire, length-wire}
use dcrud.Io.ByteBuffer.Streams.{append, advance}
use dcrud.Io.ByteBuffer.Wire.{IsOpen}
use dcrud.Io.ByteBuffer.Exchange.{holding, holding-IsOpen, unread-holding}
use dcrud.Io.ByteBuffer.Transfer.{unread_whole-IsOpen}
use dcrud.Crud.ClassId.{Instance}
use dcrud.Crud.Guid.{Guid}
use dcrud.Crud.ClassId.Wire as ClassWire
use dcrud.Crud.Guid.Laws.{encoding, length-encoding}
use dcrud.Crud.Protocol.{header_size, payload_size}
use dcrud.Crud.Shareable.{Shareable}
use dcrud.Crud.Outbox.{Outbox, participant_magic}
use dcrud.Crud.Outbox.Frames.{outbox, Represents, header_of}

-- A participant that can publish: its buffers are open and have the capacities that
-- `dcrudIParticipant_new` gives them. `order` is the byte order of its header.
pub record IsReady (order : Order) (self : Outbox) : Type 0 where
  pub genuine : self.magic ≡ participant_magic
  pub header : Buffer
  pub payload : Buffer
  pub message : Buffer
  pub has_header : self.header ≡ some header
  pub has_payload : self.payload ≡ some payload
  pub has_message : self.message ≡ some message
  pub header_open : IsOpen header
  pub payload_open : IsOpen payload
  pub message_open : IsOpen message
  pub header_order : header.order ≡ order
  pub header_room : header.capacity ≡ header_size
  pub payload_room : payload.capacity ≡ payload_size
  pub message_room : message.capacity ≡ 64 * 1024

-- The participant is ready again, and has sent these datagrams.
pub record HasSent (order : Order) (sent : List (List ℕ)) (r : Status × Option Outbox)
    : Type 0 where
  pub fine : r.0 ≡ no_error
  pub after : Outbox
  pub is_after : r.1 ≡ some after
  pub ready : IsReady order after
  pub has_sent : after.sent ≡ sent

-- An object as the network sees it.
pub record View : Type 0 where
  pub guid : Guid
  pub of_class : Instance
  pub content : List ℕ

-- The object is seen as this, and its data fit the payload.
abbrev pub Shown : {G D : Type 0} → (G → Guid) → Shareable G D → View → Type 0
Shown guids item v =
    Represents guids item v.guid v.of_class v.content × (length v.content ≤ payload_size)

pub length-header_of :
    (order : Order) (n : ℕ) (g : Guid) (x : Instance) → length (header_of order n g x) ≡ header_size
length-header_of order n g x = omega (
  arith,
  length-append (wire order 4 n) (encoding order g ++ ClassWire.encoding x),
  length-append (encoding order g) (ClassWire.encoding x),
  length-wire order 4 n,
  length-encoding order g,
)

pub outbox_of :
    {order : Order} {self : Outbox} (r : IsReady order self)
    → self ≡ outbox r.header r.payload r.message self.sent
outbox_of {self = self} r = λ i. record {
  magic = r.genuine i;
  header = r.has_header i;
  payload = r.has_payload i;
  message = r.has_message i;
  sent = self.sent;
}

-- The participant after a push of this header and this payload.
abbrev pub pushed : List ℕ → List ℕ → Buffer → Buffer → Buffer → List (List ℕ) → Outbox
pushed head s h p m log =
    outbox (advance (holding h head) (length head)) (advance (holding p s) (length s))
      (advance (holding m (head ++ s)) (length (head ++ s))) (log ++ ((head ++ s) ∷ []))

pub drained-IsOpen :
    {b : Buffer} (s : List ℕ)
    → IsOpen b
    → length s ≤ b.capacity
    → IsOpen (advance (holding b s) (length s))
drained-IsOpen {b} s o k =
    subst (λ n. IsOpen (advance (holding b s) n)) (ap length (unread-holding o s k))
      (unread_whole-IsOpen (holding-IsOpen o s k))

pub drained_order : (b : Buffer) (s : List ℕ) → (advance (holding b s) (length s)).order ≡ b.order
unfolding advance append
drained_order b s = refl

pub drained_capacity :
    (b : Buffer) (s : List ℕ) → (advance (holding b s) (length s)).capacity ≡ b.capacity
unfolding advance append
drained_capacity b s = refl

pub pushed-IsReady :
    {order : Order} {self : Outbox} (r : IsReady order self) (head s : List ℕ)
    → length head ≤ header_size
    → length s ≤ payload_size
    → IsReady order (pushed head s r.header r.payload r.message self.sent)
pushed-IsReady {self = self} r head s kh ks = record {
  genuine = refl;
  header = advance (holding r.header head) (length head);
  payload = advance (holding r.payload s) (length s);
  message = advance (holding r.message (head ++ s)) (length (head ++ s));
  has_header = refl;
  has_payload = refl;
  has_message = refl;
  header_open = drained-IsOpen head r.header_open (omega (arith, r.header_room));
  payload_open = drained-IsOpen s r.payload_open (omega (arith, r.payload_room));
  message_open =
      drained-IsOpen (head ++ s) r.message_open
        (omega (arith, r.message_room, length-append head s));
  header_order = drained_order r.header head ∙ r.header_order;
  header_room = drained_capacity r.header head ∙ r.header_room;
  payload_room = drained_capacity r.payload s ∙ r.payload_room;
  message_room = drained_capacity r.message (head ++ s) ∙ r.message_room;
}
