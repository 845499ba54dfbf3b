-- ===== src/Io/ByteBuffer/RoundTrip.antt =====
-- Fields that are put to a buffer are got back from it, whatever the byte orders of the hosts.
use mathlib.Core.List.{append_assoc}
use dcrud.Base.{
  ℕ, ◌+◌, ◌^◌, ◌%◌, ◌<◌, ◌≡◌, ap, sym, ◌∙◌, Bool, some, List, [], ◌∷◌, ◌++◌, All, length, slice,
  overwrite-nil, subst, lt→ltb, length-append, take_of_le, arith,
}
use dcrud.Util.Status.{no_error}
use dcrud.Io.ByteBuffer.{Buffer, put, get}
use dcrud.Io.ByteBuffer.Numbers.{put_ushort, get_ushort, put_uint, get_uint, put_ulong, get_ulong}
use dcrud.Io.ByteBuffer.Text.{put_string, get_chars, on_length, get_string}
use dcrud.Io.ByteBuffer.Words.{wire, length-wire, swap16-IsSwap, swap32-IsSwap, swap64-IsSwap}
use dcrud.Io.ByteBuffer.Streams.{
  Fits, append, advance, append-append, unread, unread_rest, unread-Fits,
}
use dcrud.Io.ByteBuffer.Wire.{
  IsOpen, append-IsOpen, advance-IsOpen, Fits-append, put-append, get-advance, put_byte-append,
  get_byte-advance, put_word-append, get_word-advance,
}
use dcrud.Io.ByteBuffer.Fields.{
  Field, Shape, put_field, get_field, put_fields, get_fields, InRange, Agrees, Agree, encode,
  encode_all, reply, then_fields,
}

slice_whole : (s : List ℕ) → slice s 0 (length s) ≡ s
slice_whole s = take_of_le (length s) s (omega arith)

put_whole :
    {b : Buffer} (s : List ℕ)
    → IsOpen b
    → length s < 2 ^ 63
    → Fits b (length s)
    → put (some b) s 0 (length s) ≡ (no_error, some (append b s))
put_whole {b} s o h k =
    let e : 0 + length s ≡ length s = omega arith in
    subst (λ n. put (some b) s 0 n ≡ (no_error, some (append b s))) e
      (put-append o s 0 (length s) k (omega arith) h
        ∙ ap (λ t. (no_error, some (append b t))) (slice_whole s))

get_whole :
    {b : Buffer} (s rest : List ℕ)
    → IsOpen b
    → length s < 2 ^ 63
    → unread b ≡ s ++ rest
    → get (some b) 0 (length s) ≡ (no_error, some s, some (advance b (length s)))
get_whole {b} s rest o h u =
    let e : 0 + length s ≡ length s = omega arith in
    subst (λ n. get (some b) 0 n ≡ (no_error, some s, some (advance b (length s)))) e
      (get-advance o s rest 0 u (omega arith))

-- Two advances are one.
pub advance-advance : (b : Buffer) (m n : ℕ) → advance (advance b m) n ≡ advance b (m + n)
unfolding advance
advance-advance b m n =
    let e : b.position + m + n ≡ b.position + (m + n) = omega arith in
    λ i. record b { position = e i }

get_chars_lem :
    {b : Buffer} (s rest : List ℕ) (size : ℕ)
    → IsOpen b
    → length s < 2 ^ 63
    → length s < size
    → unread b ≡ s ++ rest
    → get_chars (some b) size (length s) ≡ (no_error, some s, some (advance b (length s)))
unfolding get_chars
get_chars_lem s rest size o h k u = rw (lt→ltb _ _ k) (get_whole s rest o h u)

pub append_none : (b : Buffer) → append b [] ≡ b
unfolding append
append_none b =
    let bytes = overwrite-nil b.bytes b.position in
    let position : b.position + 0 ≡ b.position = omega arith in
    λ i. record b { bytes = bytes i; position = position i }

advance-zero : (b : Buffer) → advance b 0 ≡ b
unfolding advance
advance-zero b =
    let position : b.position + 0 ≡ b.position = omega arith in
    λ i. record b { position = position i }

module _ (host_big : Bool) where
  -- A string goes to the wire as its length and its characters.
  pub put_string-append :
      {b : Buffer} (s : List ℕ)
      → IsOpen b
      → length s < 256 ^ 4
      → Fits b (4 + length s)
      → put_string host_big (some b) s
        ≡ (no_error, some (append b (wire b.order 4 (length s) ++ s)))
  unfolding put_string put_uint
  put_string-append {b} s o h k =
      let m : length s % 2 ^ 32 ≡ length s = omega arith in
      let l = length-wire b.order 4 (length s) in
      rw (m, put_word-append o swap32-IsSwap (omega arith) host_big (length s) h (omega arith))
        (put_whole s (append-IsOpen (wire b.order 4 (length s)) o (omega arith)) (omega arith)
            (Fits-append b (wire b.order 4 (length s)) (length s) (omega arith))
          ∙ ap (λ c. (no_error, some c)) (append-append b (wire b.order 4 (length s)) s))

  pub get_string-advance :
      {b : Buffer} (s rest : List ℕ) (size : ℕ)
      → IsOpen b
      → length s < 256 ^ 4
      → length s < size
      → unread b ≡ (wire b.order 4 (length s) ++ s) ++ rest
      → get_string host_big (some b) size ≡ (no_error, some s, some (advance b (4 + length s)))
  unfolding get_string get_uint
  get_string-advance {b} s rest size o h k e =
      let l = length-wire b.order 4 (length s) in
      let e' : unread b ≡ wire b.order 4 (length s) ++ (s ++ rest) =
        e ∙ append_assoc (wire b.order 4 (length s)) s rest in
      let four : unread (advance b 4) ≡ s ++ rest =
        subst (λ n. unread (advance b n) ≡ s ++ rest) l
          (unread_rest (wire b.order 4 (length s)) (s ++ rest) o.valid e') in
      let fits : Fits b 4 =
        subst (λ n. Fits b n) l (unread-Fits (wire b.order 4 (length s)) (s ++ rest) o.valid e') in
      ap (on_length size)
        (get_word-advance o swap32-IsSwap (omega arith) host_big (length s) (s ++ rest) h e')
      ∙ get_chars_lem s rest size (advance-IsOpen 4 o fits) (omega arith) k four
      ∙ ap (λ c. (no_error, some s, some c)) (advance-advance b 4 (length s))

  -- A put appends the encoding of its field.
  put_field-append :
      {b : Buffer} (f : Field)
      → IsOpen b
      → InRange f
      → Fits b (length (encode b.order f))
      → put_field host_big (some b) f ≡ (no_error, some (append b (encode b.order f)))
  unfolding put_field put_ushort put_uint put_ulong
  put_field-append (Field.byte x) o h k = put_byte-append o x k
  put_field-append {b} (Field.ushort x) o h k =
      put_word-append o swap16-IsSwap (omega arith) host_big x h
        (omega (arith, length-wire b.order 2 x))
  put_field-append {b} (Field.uint x) o h k =
      put_word-append o swap32-IsSwap (omega arith) host_big x h
        (omega (arith, length-wire b.order 4 x))
  put_field-append {b} (Field.ulong x) o h k =
      put_word-append o swap64-IsSwap (omega arith) host_big x h
        (omega (arith, length-wire b.order 8 x))
  put_field-append {b} (Field.text s) o h k =
      put_string-append s o h (
        omega
          (arith, length-wire b.order 4 (length s), length-append (wire b.order 4 (length s)) s))

  -- A get reads the encoding of a field that stands first, and no more.
  get_field-advance :
      {b : Buffer} {f : Field} {shape : Shape} (rest : List ℕ)
      → Agrees f shape
      → IsOpen b
      → InRange f
      → unread b ≡ encode b.order f ++ rest
      → get_field host_big (some b) shape
        ≡ (no_error, some f, some (advance b (length (encode b.order f))))
  unfolding get_field get_ushort get_uint get_ulong
  get_field-advance rest (Agrees.byte x) o h e = ap (reply Field.byte) (get_byte-advance o x rest e)
  get_field-advance {b} rest (Agrees.ushort x) o h e =
      rw (length-wire b.order 2 x) (
        ap (reply Field.ushort)
          (get_word-advance o swap16-IsSwap (omega arith) host_big x rest h e))
  get_field-advance {b} rest (Agrees.uint x) o h e =
      rw (length-wire b.order 4 x)
        (ap (reply Field.uint) (get_word-advance o swap32-IsSwap (omega arith) host_big x rest h e))
  get_field-advance {b} rest (Agrees.ulong x) o h e =
      rw (length-wire b.order 8 x) (
        ap (reply Field.ulong) (get_word-advance o swap64-IsSwap (omega arith) host_big x rest h e))
  get_field-advance {b} rest (Agrees.text s size k) o h e =
      rw (length-append (wire b.order 4 (length s)) s, length-wire b.order 4 (length s))
        (ap (reply Field.text) (get_string-advance s rest size o h k e))

  -- Puts append the encodings of their fields.
  pub put_fields-append :
      (fs : List Field) {b : Buffer}
      → IsOpen b
      → All InRange fs
      → Fits b (length (encode_all b.order fs))
      → put_fields host_big (some b) fs ≡ (no_error, some (append b (encode_all b.order fs)))
  unfolding put_fields append
  put_fields-append [] {b} o h k = ap (λ c. (no_error, some c)) (sym (append_none b))
  put_fields-append (f ∷ fs) {b} o h k =
      let s = encode b.order f in
      let t = encode_all b.order fs in
      let both = length-append s t in
      let fits : Fits b (length s) = omega arith in
      rw (put_field-append f o h.0 fits) (
        put_fields-append fs (append-IsOpen s o fits) h.1 (Fits-append b s (length t) (omega arith))
        ∙ ap (λ c. (no_error, some c)) (append-append b s t))

  -- Gets read the encodings that stand first, and no more.
  pub get_fields-advance :
      {fs : List Field} {shapes : List Shape} {b : Buffer} (rest : List ℕ)
      → Agree fs shapes
      → IsOpen b
      → All InRange fs
      → unread b ≡ encode_all b.order fs ++ rest
      → get_fields host_big (some b) shapes
        ≡ (no_error, some fs, some (advance b (length (encode_all b.order fs))))
  unfolding get_fields advance
  get_fields-advance {b = b} rest Agree.end o h e =
      ap (λ c. (no_error, some [], some c)) (sym (advance-zero b))
  get_fields-advance {b = b} rest (Agree.next {f} {fs} {k} {ks} a agree) o h e =
      let s = encode b.order f in
      let t = encode_all b.order fs in
      let e' = e ∙ append_assoc s t rest in
      let fits = unread-Fits s (t ++ rest) o.valid e' in
      let later =
        get_fields-advance rest agree (advance-IsOpen (length s) o fits) h.1
          (unread_rest s (t ++ rest) o.valid e') in
      ap (λ r. then_fields r (λ self'. get_fields host_big self' ks))
        (get_field-advance (t ++ rest) a o h.0 e')
      ∙ ap (λ r. then_fields (no_error, some f, some (advance b (length s))) (λ _. r)) later
      ∙ ap (λ c. (no_error, some (f ∷ fs), some c))
          (advance-advance b (length s) (length t) ∙ ap (advance b) (sym (length-append s t)))
