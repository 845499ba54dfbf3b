-- ===== src/Crud/ClassId/Wire.antt =====
-- `dcrudClassID_serialize` and `_unserialize` (C/src/dcrud/ClassID.c) against each other.
use mathlib.Core.Option
use dcrud.Base.{
  ℕ, ◌<◌, ◌%◌, subst, ◌≤◌, ◌≡◌, refl, sym, ap, ◌∙◌, true, Option, some, List, [], ◌∷◌, ◌++◌, length,
  append-nil, arith,
}
use dcrud.Util.Status.{Status, no_error}
use dcrud.Coll.Libc.{Libc}
use dcrud.Io.ByteBuffer.{Buffer, clear, flip}
use dcrud.Io.ByteBuffer.Streams.{
  Fits, append, advance, append-append, unread, unread_rest, unread-Fits,
}
use dcrud.Io.ByteBuffer.Wire.{
  IsOpen, append-IsOpen, advance-IsOpen, put_byte-append, get_byte-advance, Fits-append,
}
use dcrud.Io.ByteBuffer.RoundTrip.{append_none, advance-advance}
use dcrud.Io.ByteBuffer.Exchange.{
  clear-open, clear-IsOpen, cleared, holding, flip-holding, holding-IsOpen, unread-holding,
}
use dcrud.Coll.SortedArray.{Ordered}
use dcrud.Crud.ClassId.Registry.{key_of, ResolveOutcome, resolved_outcome}
use dcrud.Crud.ClassId.{
  Instance, compare_instances, object, put_bytes, serialize, serialize_type, get_type, resolve,
  unserialize,
}

-- The four bytes of a class.
abbrev pub encoding : Instance → List ℕ
encoding x = x.package_1 ∷ x.package_2 ∷ x.package_3 ∷ x.clazz ∷ []

pub put_bytes-append :
    (xs : List ℕ) {b : Buffer}
    → IsOpen b
    → Fits b (length xs)
    → put_bytes (some b) xs ≡ (no_error, some (append b xs))
unfolding put_bytes
put_bytes-append [] {b} o h = ap (λ c. (no_error, some c)) (sym (append_none b))
put_bytes-append (x ∷ xs) {b} o h =
    let first : Fits b 1 = omega arith in
    let o' = append-IsOpen (x ∷ []) o first in
    rw
      (
        put_byte-append o x first,
        put_bytes-append xs o' (Fits-append b (x ∷ []) (length xs) (omega arith)),
      )
      (ap (λ c. (no_error, some c)) (append-append b (x ∷ []) xs))

-- `dcrudClassID_serialize` puts the four bytes of the class, if they fit.
pub serialize-append :
    {b : Buffer} (x : Instance)
    → IsOpen b
    → Fits b 4
    → serialize (some (object x)) (some b) ≡ (no_error, some (append b (encoding x)))
unfolding serialize
serialize-append x o h = put_bytes-append (encoding x) o h

-- What is resolved is of the class that was asked for.
resolved-get_type :
    {allocated : Option ℕ} {all_classes : List Instance} {key : Instance}
    {r : Status × Option Instance × List Instance}
    → ResolveOutcome allocated all_classes key r
    → r.0 ≡ no_error
    → get_type (Option.map object r.1) true ≡ get_type (some (object key)) true
unfolding get_type
resolved-get_type (ResolveOutcome.cached i x at same) ok =
    rw (same.package_1, same.package_2, same.package_3, same.clazz)
resolved-get_type (ResolveOutcome.made address known a h o other l) ok = refl
resolved-get_type (ResolveOutcome.no_memory a h) ok = let bad : ⊥ = ground arith in absurd bad

module _ (c : Libc compare_instances) (allocated : Option ℕ) (all_classes : List Instance) where
  pub unserialize-resolve :
      {b : Buffer} (x : Instance) (rest : List ℕ)
      → IsOpen b
      → unread b ≡ encoding x ++ rest
      → let (status, self, known) =
          resolve c allocated all_classes true x.package_1 x.package_2 x.package_3 x.clazz in
        unserialize c allocated all_classes true (some b)
        ≡ (status, self, known, some (advance b 4))
  unfolding unserialize
  unserialize-resolve {b} x rest o e =
      let f1 = unread-Fits (x.package_1 ∷ []) _ o.valid e in
      let o1 = advance-IsOpen 1 o f1 in
      let e1 = unread_rest (x.package_1 ∷ []) _ o.valid e in
      let f2 = unread-Fits (x.package_2 ∷ []) _ o1.valid e1 in
      let o2 = advance-IsOpen 1 o1 f2 in
      let e2 = unread_rest (x.package_2 ∷ []) _ o1.valid e1 in
      let f3 = unread-Fits (x.package_3 ∷ []) _ o2.valid e2 in
      let o3 = advance-IsOpen 1 o2 f3 in
      let e3 = unread_rest (x.package_3 ∷ []) _ o2.valid e2 in
      rw
        (
          get_byte-advance o x.package_1 _ e,
          get_byte-advance o1 x.package_2 _ e1,
          get_byte-advance o2 x.package_3 _ e2,
          get_byte-advance o3 x.clazz _ e3,
        )
        (ap
          (λ d.
            let (status, self, known) =
              resolve c allocated all_classes true x.package_1 x.package_2 x.package_3 x.clazz in
            (status, self, known, some d))
          (advance-advance (advance (advance b 1) 1) 1 1
            ∙ advance-advance (advance b 1) 1 2
            ∙ advance-advance b 1 3))

  -- A class that is serialized to a cleared buffer of at least four bytes is, once the buffer is
  -- flipped, read back as what `dcrudClassID_resolve` answers for it in the reader's `allClasses`;
  -- the put returns `no_error`, and the reading returns the status of `dcrudClassID_resolve`.
  pub serialize-flip-unserialize :
      {b : Buffer} (x : Instance)
      → IsOpen b
      → 4 ≤ b.capacity
      → let (sent_status, sent) = serialize (some (object x)) (clear (some b)).1 in
        let (status, self, known, _) = unserialize c allocated all_classes true (flip sent).1 in
        (sent_status ≡ no_error)
        × ((status, self, known)
            ≡ resolve c allocated all_classes true x.package_1 x.package_2 x.package_3 x.clazz)
  serialize-flip-unserialize {b} x o k = rw put (refl, ap (λ r. (r.0, r.1, r.2)) got)
    where
      put :
          serialize (some (object x)) (clear (some b)).1
          ≡ (no_error, some (append (cleared b) (encoding x)))
      put =
          ap (λ r. serialize (some (object x)) r.1) (clear-open o)
          ∙ serialize-append x (clear-IsOpen o) (omega arith)

      got :
          unserialize c allocated all_classes true (flip (some (append (cleared b) (encoding x)))).1
          ≡ (let (status, self, known) =
                resolve c allocated all_classes true x.package_1 x.package_2 x.package_3 x.clazz in
              (status, self, known, some (advance (holding b (encoding x)) 4)))
      got =
          ap (λ r. unserialize c allocated all_classes true r.1) (flip-holding o (encoding x) k)
          ∙ unserialize-resolve x [] (holding-IsOpen o (encoding x) k)
              (unread-holding o (encoding x) k ∙ sym (append-nil (encoding x)))

  reply-get_type :
      (type : ℕ)
      → Ordered compare_instances all_classes
      → (reply : Status × Option Instance × List Instance × Option Buffer)
      → (reply.0, reply.1, reply.2) ≡ resolve c allocated all_classes true 0 0 0 type
      → reply.0 ≡ no_error
      → get_type (Option.map object reply.1) true ≡ (no_error, some type)
  unfolding get_type
  reply-get_type type ord reply e = resolved-get_type (
      subst (ResolveOutcome allocated all_classes (key_of 0 0 0 type)) (sym e)
        (resolved_outcome c allocated all_classes ord 0 0 0 type))

  -- The class of a type that the library knows, as `dcrudClassID_serializeType` puts it to a cleared
  -- buffer of at least four bytes, is read from the flipped buffer as an object of which
  -- `dcrudClassID_getType` answers the type, if `dcrudClassID_unserialize` returns `no_error` and
  -- `allClasses` is sorted and has no class twice. The type is a byte.
  pub serialize_type-flip-get_type :
      {b : Buffer} (type : ℕ)
      → IsOpen b
      → 4 ≤ b.capacity
      → type < 256
      → Ordered compare_instances all_classes
      → (unserialize c allocated all_classes true
          (flip (serialize_type type (clear (some b)).1).1).1).0
        ≡ no_error
      → let (_, self, _, _) =
          unserialize c allocated all_classes true
            (flip (serialize_type type (clear (some b)).1).1).1 in
        get_type (Option.map object self) true ≡ (no_error, some type)
  serialize_type-flip-get_type {b} type o k small ord = rw same (
      reply-get_type type ord
        (unserialize c allocated all_classes true
          (flip (serialize (some (object (key_of 0 0 0 type))) (clear (some b)).1).1).1)
        (serialize-flip-unserialize (key_of 0 0 0 type) o k).1)
    where
      whole : type % 256 ≡ type
      whole = omega arith

      same :
          serialize_type type (clear (some b)).1
          ≡ serialize (some (object (key_of 0 0 0 type))) (clear (some b)).1
      same = unfold serialize serialize_type in rw whole refl
