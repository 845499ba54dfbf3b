-- ===== src/Crud/Outbox/Frames.antt =====
-- The frames that `pushCreateOrUpdateItem` and `pushDeleteItem` send
-- (C/src/dcrud/ParticipantImpl.c).
use mathlib.Core.Option
use dcrud.Base.{
  ℕ, ◌≤◌, ◌%◌, ◌^◌, ◌<◌, ◌≡◌, refl, sym, ap, subst, Bool, Option, some, List, [], ◌∷◌, ◌++◌, length,
  arith,
}
use dcrud.Util.Status.{no_error}
use dcrud.Io.ByteBuffer
use dcrud.Io.ByteBuffer.{Buffer, Order}
use dcrud.Io.ByteBuffer.Numbers.{put_uint}
use dcrud.Io.ByteBuffer.Words.{wire, length-wire, swap32-IsSwap}
use dcrud.Io.ByteBuffer.Streams.{Fits, append}
use dcrud.Io.ByteBuffer.Wire.{IsOpen, put-append, put_byte-append, put_word-append}
use dcrud.Io.ByteBuffer.Exchange.{holding}
use dcrud.Crud.ClassId
use dcrud.Crud.ClassId.{Instance, object}
use dcrud.Crud.ClassId.Wire as ClassWire
use dcrud.Crud.Guid
use dcrud.Crud.Guid.{Guid}
use dcrud.Crud.Guid.Laws as GuidWire
use dcrud.Crud.Protocol.{signature, code, data_create_or_update, data_delete}
use dcrud.Crud.Shareable.{Shareable, Factory, shareable_magic}
use dcrud.Crud.Outbox.{Outbox, participant_magic, on_header, header_steps}
use dcrud.Crud.Outbox.Steps.{Runs, Appends, Puts, message-Runs}

-- The bytes of the header of an object, and of the whole frame.
abbrev pub header_of : Order → ℕ → Guid → Instance → List ℕ
header_of order size g x =
    signature
    ++ ((code data_create_or_update ∷ [])
        ++ (wire order 4 size ++ (GuidWire.encoding order g ++ ClassWire.encoding x)))

abbrev pub update_frame : Order → Guid → Instance → List ℕ → List ℕ
update_frame order g x s = header_of order (length s) g x ++ s

abbrev pub delete_frame : Order → Guid → List ℕ
delete_frame order g = signature ++ ((code data_delete ∷ []) ++ GuidWire.encoding order g)

-- A participant with these buffers, which has sent these datagrams.
abbrev pub outbox : Buffer → Buffer → Buffer → List (List ℕ) → Outbox
outbox h p m log = record {
  magic = participant_magic;
  header = some h;
  payload = some p;
  message = some m;
  sent = log;
}

-- An object of the program: its identity, its class, and the bytes that its factory writes for it
-- to any buffer with room for them.
pub record Represents {G D : Type 0} (guids : G → Guid) (item : Shareable G D) (g : Guid)
    (x : Instance) (s : List ℕ) : Type 0 where
  pub genuine : item.magic ≡ shareable_magic
  pub identity : Option.map guids item.id ≡ some g
  pub valid : GuidWire.IsValid g
  pub of_class : item.class_id ≡ some (object x)
  pub factory : Factory D
  pub made_by : item.factory ≡ some factory
  pub writes :
      (b : Buffer)
      → IsOpen b
      → Fits b (length s)
      → factory.serialize item.user_data (some b) ≡ (no_error, some (append b s))

module _ (host_big : Bool) (order : Order) (p m : Buffer) (log : List (List ℕ)) where
  abbrev pub in_header : Buffer → Outbox
  in_header b = outbox b p m log

  pub signature_step :
      Appends in_header order (on_header (λ b. ByteBuffer.put b signature 0 5)) signature
  signature_step b o e h =
      ap (λ r. (r.0, outbox_of r.1)) (put-append o signature 0 5 h (omega arith) (omega arith))
    where
      outbox_of : Option Buffer → Outbox
      outbox_of c = record (in_header b) { header = c }

  pub type_step :
      (n : ℕ) → Appends in_header order (on_header (λ b. ByteBuffer.put_byte b n)) (n ∷ [])
  type_step n b o e h = rw (put_byte-append o n h) refl

  size_step :
      (n : ℕ)
      → n < 2 ^ 32
      → Appends in_header order (on_header (λ b. put_uint host_big b (n % 2 ^ 32))) (wire order 4 n)
  unfolding put_uint
  size_step n k b o e h =
      let l = length-wire order 4 n in
      let word : n % 2 ^ 32 ≡ n = omega arith in
      rw
        (word, put_word-append o swap32-IsSwap (omega arith) host_big n (omega arith) (omega arith))
        (ap (λ c. (no_error, in_header (append b (wire c 4 n)))) e)

  pub guid_step :
      {G : Type 0} (guids : G → Guid) (id : Option G) {g : Guid}
      → Option.map guids id ≡ some g
      → GuidWire.IsValid g
      → Appends in_header order
          (on_header (Guid.serialize host_big (Option.map guids id)))
          (GuidWire.encoding order g)
  guid_step guids id {g} known v b o e h =
      let l = GuidWire.length-encoding order g in
      rw (known, GuidWire.serialize-append v host_big o (omega arith))
        (ap (λ c. (no_error, in_header (append b (GuidWire.encoding c g)))) e)

  class_step :
      (x : Instance)
      → Appends in_header order
          (on_header (ClassId.serialize (some (object x))))
          (ClassWire.encoding x)
  class_step x b o e h = rw (ClassWire.serialize-append x o h) refl

  module _ {G D : Type 0} {guids : G → Guid} {item : Shareable G D} {g : Guid} {x : Instance}
      {s : List ℕ} (i : Represents guids item g x s) where
    pub header-Runs :
        {b : Buffer} (n : ℕ)
        → n < 2 ^ 32
        → IsOpen b
        → b.order ≡ order
        → length (header_of order n g x) ≤ b.capacity
        → Runs
            (header_steps host_big guids item n)
            (in_header b)
            (in_header (holding b (header_of order n g x)))
    header-Runs n small o e k =
        message-Runs in_header order on_header (λ call b c q. rw q refl)
          (Puts.more signature _ signature_step (
            Puts.more _ _ (type_step 1) (
              Puts.more _ _ (size_step n small) (
                Puts.more _ _ (guid_step guids item.id i.identity i.valid) (
                  subst
                    (λ c.
                      Puts in_header order (on_header (ClassId.serialize c) ∷ [])
                        (ClassWire.encoding x))
                    (sym i.of_class) (Puts.more _ _ (class_step x) Puts.nothing))))))
          o e k
