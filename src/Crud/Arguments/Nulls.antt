-- ===== src/Crud/Arguments/Nulls.antt =====
-- An argument that is null, in `dcrudArguments_serialize` (C/src/dcrud/Arguments.c).
use dcrud.Base.{
  ℕ, ◌+◌, ◌%◌, ◌≡◌, ◌≢◌, ==_true, refl, sym, ap, ◌∙◌, subst, if◌then◌else◌, Bool, Bool-cases, inl,
  inr, Option, none, some, List, [], ◌∷◌,
}
use dcrud.Util.Status.{no_error, check, Build}
use dcrud.Util.SafeCast.{with_self-genuine}
use dcrud.Coll.Storage.{foreach_from}
use dcrud.Coll.Compare.{Ordering, string_compare, is_eq}
use dcrud.Coll.Compare.Strings.{string_compare-IsComparator}
use dcrud.Coll.Libc.{Libc}
use dcrud.Coll.CollMap
use dcrud.Coll.CollMap.{CollMap, Pair, map_magic, read_map-genuine}
use dcrud.Io.ByteBuffer.{Buffer, put_byte}
use dcrud.Crud.Arguments.Serializing.{serialize_pair, serialize_this, serialize}
use dcrud.Coll.CollMap.Lookup.{lookup}
use dcrud.Crud.Arguments.{
  ArgumentType, Name, Value, Misread, Arguments, arguments_magic, names_libc,
}
use dcrud.Crud.Arguments.Puts.{PutMemory, cloned, put_pair, put_null}
use dcrud.Coll.CollMap.PutGet.{put-IsUpdate}
use dcrud.Crud.Arguments.Putting.{check_fine, IsValid, with_put, cloned_put, cloned_put-IsPut}

module _ (libc : (A : Type 0) (cmp : A → A → Ordering) → Libc cmp) (host_big : Bool)
    {P G D : Type 0} (misread : Misread P G D) where
  serialize_pair_null :
      (this : Arguments P) (key : Name) (ps : List (Pair Name (Value P)))
      → lookup string_compare key ps ≡ some none
      → (index : ℕ) (target : Option Buffer)
      → (foreach_from (serialize_pair libc host_big misread this) index ps target).0 ≢ no_error
  unfolding foreach_from
  serialize_pair_null this key [] e index target = λ ok. let bad : ⊥ = cc in bad
  serialize_pair_null this key ((k, w) ∷ ps) e index target = λ ok.
      let (_, later, _) =
        check_fine (serialize_pair libc host_big misread this target index (k, w)).0
          (foreach_from (serialize_pair libc host_big misread this) (index + 1) ps
            (serialize_pair libc host_big misread this target index (k, w)).1)
          (serialize_pair libc host_big misread this target index (k, w)) refl ok in
      elim (Bool-cases (is_eq (string_compare key k))) [
        | inl t ↦
            let same : some w ≡ some none =
              sym (ap (λ b. if b then some w else lookup string_compare key ps) t) ∙ e in
            let null : w ≡ none = cc in
            subst
              (λ w'.
                (foreach_from (serialize_pair libc host_big misread this) index ((k, w') ∷ ps)
                  target).0
                ≢ no_error)
              (sym null) (λ fine. let bad : ⊥ = cc in bad) ok
        | inr f ↦
            serialize_pair_null this key ps
              (sym (ap (λ b. if b then some w else lookup string_compare key ps) f) ∙ e) (index + 1)
              (serialize_pair libc host_big misread this target index (k, w)).1 later
      ]

  -- What holds of the object that a put of NULL left.
  serialize_null :
      (this : Arguments P) (key : Name) (m : CollMap Name (Value P)) (target : Option Buffer)
      → this.magic ≡ arguments_magic
      → this.args ≡ some m
      → m.magic ≡ map_magic
      → lookup string_compare key m.pairs ≡ some none
      → (serialize libc host_big misread (some this) target).0 ≢ no_error
  unfolding serialize CollMap.foreach
  serialize_null this key m none e f g absent = λ ok. let bad : ⊥ = cc in bad
  serialize_null this key m (some b) e f g absent = λ ok.
      let step = serialize_pair libc host_big misread this in
      let (status1, target1) = put_byte (some b) (this.mode % 256) in
      let (status2, target2) = put_byte target1 (this.queue % 256) in
      let visits = CollMap.foreach step this.args target2 in
      let opened : serialize libc host_big misread (some this) (some b)
          ≡ serialize_this libc host_big misread this (some b) =
        rw (==_true this.magic arguments_magic e, serialize) in
      let (_, ok1, _) =
        check_fine status1 (check status2 visits (status2, target2)) (status1, target1) refl
          (sym (ap (λ r. r.0) opened) ∙ ok) in
      let (_, ok2, _) = check_fine status2 visits (status2, target2) refl ok1 in
      let visited : visits ≡ foreach_from step 0 m.pairs target2 =
        ap (λ n. CollMap.foreach step n target2) f
        ∙ read_map-genuine m target2 (λ n. foreach_from step 0 n.pairs target2) g in
      serialize_pair_null this key m.pairs absent 0 target2 (sym (ap (λ r. r.0) visited) ∙ ok2)

module _ (libc : (A : Type 0) (cmp : A → A → Ordering) → Libc cmp) (build : Build)
    (memory : PutMemory) (host_big : Bool) {P G D : Type 0} (misread : Misread P G D)
    {self : Arguments P} (v : IsValid build self) (key : Name) where
  put_null_lem : put_null libc build memory (some self) (some key) ≡ (
    (cloned_put libc build memory v key ArgumentType.null none).0,
    some (cloned_put libc build memory v key ArgumentType.null none).1,
  )
  unfolding put_null
  put_null_lem =
      with_self-genuine (λ a. a.magic) arguments_magic self
        (λ this.
          check (cloned build memory key)
            (put_pair libc build memory key ArgumentType.null none this)
            (cloned build memory key, this))
        v.genuine

  -- After a `dcrudArguments_putNull` on valid arguments that returned `no_error`,
  -- `dcrudArguments_serialize` of these arguments does not return `no_error`, whatever the buffer.
  pub put_null-serialize :
      (put_null libc build memory (some self) (some key)).0 ≡ no_error
      → (target : Option Buffer)
      → (serialize libc host_big misread
          (put_null libc build memory (some self) (some key)).1
          target).0
        ≢ no_error
  put_null-serialize ok target =
      let (whole, first, _) =
        cloned_put-IsPut libc build memory v key ArgumentType.null none
          (sym (ap (λ r. r.0) put_null_lem) ∙ ok) in
      let (m, left, u) =
        put-IsUpdate string_compare-IsComparator.0 (names_libc libc (Value P)) build memory.args
          v.values key none v.values_valid v.values_small first in
      subst (λ self'. (serialize libc host_big misread self' target).0 ≢ no_error)
        (sym (ap (λ r. r.1) put_null_lem ∙ ap (λ r. some r.1) whole))
        (serialize_null libc host_big misread
          (with_put libc build memory v key ArgumentType.null none) key m target v.genuine left
          u.valid.genuine
          (u.at_key key
            ∙ ap (λ b. if b then some none else lookup string_compare key v.values.pairs)
                (ap is_eq (string_compare-IsComparator.0.self_eq key))))
