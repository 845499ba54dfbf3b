-- ===== src/Io/ByteBuffer/Exchange.antt =====
-- A message from one host to another: what is put to a cleared buffer of C/src/io/ByteBuffer.c is
-- what is read once the buffer is flipped.
use dcrud.Base.{
  ℕ, ◌-◌, ◌≤◌, ◌≡◌, refl, ap, sym, ◌∙◌, Bool, some, List, [], ◌++◌, All, length, append-nil, arith,
}
use dcrud.Util.Status.{no_error}
use dcrud.Io.ByteBuffer.{Buffer, clear, flip}
use dcrud.Io.ByteBuffer.Streams.{Fits, append, advance, unread, written, written-append}
use dcrud.Io.ByteBuffer.Wire.{IsOpen, append-IsOpen, order-append}
use dcrud.Io.ByteBuffer.Fields.{Field, Shape, put_fields, get_fields, InRange, Agree, encode_all}
use dcrud.Io.ByteBuffer.RoundTrip.{put_fields-append, get_fields-advance}

-- What `clear` and `flip` leave of an open buffer.
pub clear-IsOpen : {b : Buffer} → IsOpen b → IsOpen (record b { position = 0; limit = b.capacity })
clear-IsOpen o = record { genuine = o.genuine; valid = omega arith }

flip-IsOpen : {b : Buffer} → IsOpen b → IsOpen (record b { limit = b.position; position = 0 })
flip-IsOpen o = record { genuine = o.genuine; valid = omega arith }

pub clear-open :
    {b : Buffer}
    → IsOpen b
    → clear (some b) ≡ (no_error, some (record b { position = 0; limit = b.capacity }))
unfolding clear
clear-open o = ground arith

flip-open :
    {b : Buffer}
    → IsOpen b
    → flip (some b) ≡ (no_error, some (record b { limit = b.position; position = 0 }))
unfolding flip
flip-open o = ground arith

unread-flip : (b : Buffer) → unread (record b { limit = b.position; position = 0 }) ≡ written b
unread-flip b = let e : b.position - 0 ≡ b.position = omega arith in rw e

-- The buffer that is ready for a message, and the buffer that holds one and is ready to be read.
abbrev pub cleared : Buffer → Buffer
cleared b = record b { position = 0; limit = b.capacity }

abbrev pub holding : Buffer → List ℕ → Buffer
holding b s = record (append (cleared b) s) {
  limit = (append (cleared b) s).position;
  position = 0;
}

module _ {b : Buffer} (o : IsOpen b) (s : List ℕ) (k : length s ≤ b.capacity) where
  cleared-Fits : Fits (cleared b) (length s)
  cleared-Fits = omega arith

  pub flip-holding : flip (some (append (cleared b) s)) ≡ (no_error, some (holding b s))
  flip-holding = flip-open (append-IsOpen s (clear-IsOpen o) cleared-Fits)

  pub holding-IsOpen : IsOpen (holding b s)
  holding-IsOpen = flip-IsOpen (append-IsOpen s (clear-IsOpen o) cleared-Fits)

  pub unread-holding : unread (holding b s) ≡ s
  unread-holding =
      unread-flip (append (cleared b) s) ∙ written-append s (clear-IsOpen o).valid cleared-Fits

-- Fields that one host puts to a cleared buffer with room for their encodings, another host gets
-- back once the buffer is flipped: every put and get returns `no_error`, the fields are the same,
-- and the byte orders of the two hosts do not matter.
pub put_fields-flip-get_fields :
    (sender reader : Bool) {b : Buffer} {fs : List Field} {shapes : List Shape}
    → IsOpen b
    → Agree fs shapes
    → All InRange fs
    → length (encode_all b.order fs) ≤ b.capacity
    → let (put_status, sent) = put_fields sender (clear (some b)).1 fs in
      let (get_status, got, _) = get_fields reader (flip sent).1 shapes in
      (put_status ≡ no_error) × (get_status ≡ no_error) × (got ≡ some fs)
put_fields-flip-get_fields sender reader {b} {fs} {shapes} o agree h k =
    rw put (refl, ap (λ r. r.0) got, ap (λ r. r.1) got)
  where
    enc : List ℕ
    enc = encode_all b.order fs

    put : put_fields sender (clear (some b)).1 fs ≡ (no_error, some (append (cleared b) enc))
    put =
        ap (λ r. put_fields sender r.1 fs) (clear-open o)
        ∙ put_fields-append sender fs (clear-IsOpen o) h (omega arith)

    stream : unread (holding b enc) ≡ encode_all (holding b enc).order fs ++ []
    stream =
        unread-holding o enc k
        ∙ sym (append-nil enc)
        ∙ ap (λ order. encode_all order fs ++ []) (sym (order-append (cleared b) enc))

    got : get_fields reader (flip (some (append (cleared b) enc))).1 shapes ≡ (
      no_error,
      some fs,
      some (advance (holding b enc) (length (encode_all (holding b enc).order fs))),
    )
    got =
        ap (λ r. get_fields reader r.1 shapes) (flip-holding o enc k)
        ∙ get_fields-advance reader [] agree (holding-IsOpen o enc k) h stream
