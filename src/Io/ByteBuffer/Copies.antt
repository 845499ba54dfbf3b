-- ===== src/Io/ByteBuffer/Copies.antt =====
-- `ioByteBuffer_copy` (C/src/io/ByteBuffer.c) by what the copy holds.
use mathlib.Core.Option
use dcrud.Base.{
  ℕ, ◌+◌, ◌-◌, ◌^◌, ◌≤◌, ◌<◌, ◌≡◌, ==_true, refl, sym, ap, ◌∙◌, true, Option, some, List, ◌++◌,
  length, take, replicate, overwrite, length-overwrite, take-overwrite, subst, arith,
}
use dcrud.Util.Status.{Status, no_error, Build}
use dcrud.Io.ByteBuffer.{Buffer, big_endian, buffer_magic, add_size}
use dcrud.Io.ByteBuffer.Allocation.{copy, new, wrap, wrap_reserved, fill, request}
use dcrud.Io.ByteBuffer.Streams.{unread, slice-unread}
use dcrud.Io.ByteBuffer.Wire.{IsOpen}

-- There is memory for a buffer of this capacity.
pub record HasMemory (build : Build) (reserve : ℕ → Option (List ℕ)) (capacity : ℕ) : Type 0 where
  pub array : List ℕ
  pub given : Option.bind (request build capacity) reserve ≡ some array
  pub large : capacity ≤ length array

-- A new buffer, ready to be read, that holds these bytes.
pub record Holds (s : List ℕ) (r : Status × Option Buffer) : Type 0 where
  pub fine : r.0 ≡ no_error
  pub copied : Buffer
  pub is_copied : r.1 ≡ some copied
  pub copied_open : IsOpen copied
  pub content : unread copied ≡ s

copy_of : ℕ → List ℕ → List ℕ → Buffer
copy_of len array s = record {
  magic = buffer_magic;
  order = big_endian;
  position = 0;
  limit = len;
  capacity = len;
  mark = add_size len 1;
  bytes = overwrite (overwrite array 0 (replicate len 0)) 0 s;
}

copy_of-content :
    (array s : List ℕ) → length s ≤ length array → unread (copy_of (length s) array s) ≡ s
unfolding copy_of
copy_of-content array s k =
    (let n : length s - 0 ≡ length s = omega arith in
      let m : 0 + length s ≡ length s = omega arith in
      let base = overwrite array 0 (replicate (length s) 0) in
      let room : 0 + length s ≤ length base =
        omega (arith, length-overwrite array 0 (replicate (length s) 0)) in
      rw n (subst (λ k. take k (overwrite base 0 s) ≡ s) m (take-overwrite base 0 s room)))

-- A copy of the next bytes of a buffer holds these bytes, if there are so many and there is memory.
pub copy-Holds :
    {build : Build} {reserve : ℕ → Option (List ℕ)} {b : Buffer} (to : Option Buffer)
    (s rest : List ℕ)
    → IsOpen b
    → unread b ≡ s ++ rest
    → HasMemory build reserve (length s)
    → length s < 2 ^ 63
    → Holds s (copy build reserve true (some b) to (length s))
unfolding copy copy_of new wrap
copy-Holds {build} {reserve} {b} to s rest o e m small = subst (Holds s) (sym whole) (record {
  fine = refl;
  copied = copy_of (length s) m.array s;
  is_copied = refl;
  copied_open = record {
    genuine = refl;
    valid = record {
      below = omega arith;
      limited = omega arith;
      stored = omega (
        arith,
        m.large,
        length-overwrite (overwrite m.array 0 (replicate (length s) 0)) 0 s,
        length-overwrite m.array 0 (replicate (length s) 0),
      );
      small = small;
    };
  };
  content = copy_of-content m.array s m.large;
})
  where
    whole :
        copy build reserve true (some b) to (length s)
        ≡ (no_error, some (copy_of (length s) m.array s))
    whole =
        rw (==_true b.magic buffer_magic o.genuine, copy)
          (ap (λ a. fill b (length s) (wrap_reserved true to (length s) a)) m.given
            ∙ ap (λ t. (no_error, some (copy_of (length s) m.array t)))
                (slice-unread s rest o.valid e))
