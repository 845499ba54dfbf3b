-- ===== src/Crud/Receiver/Holds.antt =====
-- A buffer of a frame of which these bytes are still to be read (C/src/dcrud/NetworkReceiver.c).
use dcrud.Base.{
  ℕ, ◌+◌, ◌^◌, ◌<◌, ◌≡◌, sym, ap, ◌∙◌, subst, Bool, some, List, ◌∷◌, ◌++◌, length, length-append,
  arith,
}
use dcrud.Util.Status.{no_error}
use dcrud.Io.ByteBuffer.{Buffer, Order, get_byte}
use dcrud.Io.ByteBuffer.Numbers.{get_int}
use dcrud.Io.ByteBuffer.Words.{wire, length-wire, swap32-IsSwap}
use dcrud.Io.ByteBuffer.Streams.{Fits, advance, unread, unread_rest, unread-Fits}
use dcrud.Io.ByteBuffer.Wire.{
  IsOpen, advance-IsOpen, get_byte-advance, get_word-advance, order-advance,
}
use dcrud.Io.ByteBuffer.Text.{get_string}
use dcrud.Io.ByteBuffer.RoundTrip.{get_string-advance}

-- An open buffer of this byte order, with these bytes to read.
pub record Holds (order : Order) (s : List ℕ) (b : Buffer) : Type 0 where
  pub is_open : IsOpen b
  pub in_order : b.order ≡ order
  pub stream : unread b ≡ s

pub advance-Holds :
    {order : Order} {b : Buffer} (n : ℕ) (front rest : List ℕ)
    → length front ≡ n
    → Holds order (front ++ rest) b
    → Holds order rest (advance b n)
advance-Holds {order} {b} n front rest l h = record {
  is_open =
      advance-IsOpen n h.is_open
        (subst (Fits b) l (unread-Fits front rest h.is_open.valid h.stream));
  in_order = order-advance b n ∙ h.in_order;
  stream =
      subst (λ m. unread (advance b m) ≡ rest) l (unread_rest front rest h.is_open.valid h.stream);
}

abbrev pub text_bytes : List ℕ → Order → List ℕ
text_bytes s order = wire order 4 (length s) ++ s

pub length-text_bytes : (s : List ℕ) (order : Order) → length (text_bytes s order) ≡ 4 + length s
length-text_bytes s order =
    omega (arith, length-append (wire order 4 (length s)) s, length-wire order 4 (length s))

module _ {order : Order} {b : Buffer} (rest : List ℕ) where
  pub get_string-Holds :
      (host_big : Bool) (s : List ℕ)
      → length s < 1000
      → Holds order (text_bytes s order ++ rest) b
      → get_string host_big (some b) 1000 ≡ (no_error, some s, some (advance b (4 + length s)))
  get_string-Holds host_big s k h =
      get_string-advance host_big s rest 1000 h.is_open (omega arith) k
        (h.stream ∙ ap (λ o. text_bytes s o ++ rest) (sym h.in_order))

  pub get_int-Holds :
      (host_big : Bool) (x : ℕ)
      → x < 256 ^ 4
      → Holds order (wire order 4 x ++ rest) b
      → get_int host_big (some b) ≡ (no_error, some x, some (advance b 4))
  unfolding get_int
  get_int-Holds host_big x k h =
      get_word-advance h.is_open swap32-IsSwap (omega arith) host_big x rest k
        (h.stream ∙ ap (λ o. wire o 4 x ++ rest) (sym h.in_order))

  pub get_byte-Holds :
      (x : ℕ)
      → Holds order (x ∷ rest) b
      → get_byte (some b) ≡ (no_error, some x, some (advance b 1))
  get_byte-Holds x h = get_byte-advance h.is_open x rest h.stream
