-- ===== src/Crud/Arguments/PutGet.antt =====
-- What the puts of `dcrudArguments` (C/src/dcrud/Arguments.c) do to what its gets find.
use dcrud.Base.{ℕ, ◌^◌, ◌<◌, ◌≡◌, sym, ap, ◌∙◌, subst, Bool, true, Option, none, some}
use dcrud.Util.Status.{Status, no_error, check, Build}
use dcrud.Util.SafeCast.{with_self-genuine}
use dcrud.Coll.Compare.{Ordering, string_compare}
use dcrud.Coll.Libc.{Libc}
use dcrud.Coll.CollMap
use dcrud.Coll.CollMap.{CollMap, Pair, read_map-genuine}
use dcrud.Crud.Outbox.{stored}
use dcrud.Crud.Arguments.{
  ArgumentType, Name, Value, Misread, Arguments, arguments_magic, names_libc,
  read_arguments-genuine, width, number_value, number_in,
}
use dcrud.Crud.Arguments.Gets.{read_field, get_value, get_type, get_number}
use dcrud.Crud.Arguments.Puts.{PutMemory, reserved, cloned, put_pair, put_value, put_number}
use dcrud.Crud.Arguments.Wire.{number_in-value}
use dcrud.Crud.Arguments.Putting.{
  IsValid, IsOther, put_values, put_types, with_put, reserved_put, reserved_put-IsPut, values_at,
  types_at, values_other, types_other,
}

-- What `dcrudArguments_getType` makes of an entry of `types`.
abbrev pub type_answer : Status × Option (Option ArgumentType) → Status × Option ArgumentType
type_answer r = check r.0 (no_error, stored r.1) (r.0, none)

module _ (libc : (A : Type 0) (cmp : A → A → Ordering) → Libc cmp) {P : Type 0} where
  pub get_value_lem :
      {R : Type 0} (field : Value P → R) (this : Arguments P) (k : Name)
      → this.magic ≡ arguments_magic
      → get_value libc field (some this) k true
        ≡ read_field libc field
            (CollMap.get string_compare (names_libc libc (Value P)) this.args k true)
  unfolding get_value
  get_value_lem field this k e =
      read_arguments-genuine this
        (λ t.
          read_field libc field
            (CollMap.get string_compare (names_libc libc (Value P)) t.args k true))
        e

  pub get_type_lem :
      (this : Arguments P) (k : Name)
      → this.magic ≡ arguments_magic
      → get_type libc (some this) k true
        ≡ type_answer (CollMap.get string_compare (names_libc libc ArgumentType) this.types k true)
  unfolding get_type
  get_type_lem this k e =
      read_arguments-genuine this
        (λ t.
          type_answer (CollMap.get string_compare (names_libc libc ArgumentType) t.types k true))
        e

module _ (libc : (A : Type 0) (cmp : A → A → Ordering) → Libc cmp) (build : Build)
    (memory : PutMemory) (host_big : Bool) {P G D : Type 0} (misread : Misread P G D)
    {self : Arguments P} (v : IsValid build self) (key : Name) (type : ArgumentType) (x : ℕ) where
  abbrev value : Value P
  value = number_value host_big (width type) x

  put_number_lem : put_number libc build memory host_big type (some self) (some key) x ≡ (
    (reserved_put libc build memory v key type (some value)).0,
    some (reserved_put libc build memory v key type (some value)).1,
  )
  unfolding put_number put_value
  put_number_lem =
      with_self-genuine (λ a. a.magic) arguments_magic self
        (λ this.
          check (reserved memory.value)
            (check (cloned build memory key) (put_pair libc build memory key type (some value) this)
              (cloned build memory key, this))
            (reserved memory.value, this))
        v.genuine

  abbrev after : Arguments P
  after = with_put libc build memory v key type (some value)

  module _ (first : (put_values libc build memory v key type (some value)).0 ≡ no_error)
      (second : (put_types libc build memory v key type (some value)).0 ≡ no_error) where
    get_number-after :
        x < 256 ^ width type
        → get_number libc misread (some after) key host_big type true ≡ (no_error, some x)
    unfolding get_number
    get_number-after small =
        get_value_lem libc (number_in misread host_big (width type)) after key v.genuine
        ∙ ap (read_field libc (number_in misread host_big (width type)))
            (values_at libc build memory v key type (some value) first)
        ∙ ap (λ n. (no_error, some n)) (number_in-value host_big misread (width type) x small)

    get_type-after : get_type libc (some after) key true ≡ (no_error, some type)
    get_type-after =
        get_type_lem libc after key v.genuine
        ∙ ap type_answer (types_at libc build memory v key type (some value) second)

    get_type-other :
        (k : Name)
        → IsOther key k
        → get_type libc (some after) k true ≡ get_type libc (some self) k true
    get_type-other k other =
        get_type_lem libc after k v.genuine
        ∙ ap type_answer (types_other libc build memory v key type (some value) second k other)
        ∙ sym (get_type_lem libc self k v.genuine)

    get_value-other :
        (k : Name)
        → IsOther key k
        → (R : Type 0) (field : Value P → R)
        → get_value libc field (some after) k true ≡ get_value libc field (some self) k true
    get_value-other k other R field =
        get_value_lem libc field after k v.genuine
        ∙ ap (read_field libc field)
            (values_other libc build memory v key type (some value) first k other)
        ∙ sym (get_value_lem libc field self k v.genuine)

  -- If a put of a number below 2 ^ (8 * w), for the w bytes of its type, returned `no_error` on valid
  -- arguments, then the get for that type answers the number and `dcrudArguments_getType` the type.
  -- What is got under any other name, and its type, are what they were before.
  pub put_number-get_number :
      x < 256 ^ width type
      → (put_number libc build memory host_big type (some self) (some key) x).0 ≡ no_error
      → let self' = (put_number libc build memory host_big type (some self) (some key) x).1 in
        (get_number libc misread self' key host_big type true ≡ (no_error, some x))
        × (get_type libc self' key true ≡ (no_error, some type))
        × ((k : Name)
            → IsOther key k
            → (get_type libc self' k true ≡ get_type libc (some self) k true)
              × ((R : Type 0) (field : Value P → R)
                  → get_value libc field self' k true ≡ get_value libc field (some self) k true))
  put_number-get_number small ok =
      let (whole, first, second) =
        reserved_put-IsPut libc build memory v key type (some value)
          (sym (ap (λ r. r.0) put_number_lem) ∙ ok) in
      subst
        (λ self'.
          (get_number libc misread self' key host_big type true ≡ (no_error, some x))
          × (get_type libc self' key true ≡ (no_error, some type))
          × ((k : Name)
              → IsOther key k
              → (get_type libc self' k true ≡ get_type libc (some self) k true)
                × ((R : Type 0) (field : Value P → R)
                    → get_value libc field self' k true ≡ get_value libc field (some self) k true)))
        (sym (ap (λ r. r.1) put_number_lem ∙ ap (λ r. some r.1) whole))
        (
          get_number-after first second small,
          get_type-after first second,
          λ k other. (get_type-other first second k other, get_value-other first second k other),
        )
