-- ===== src/Crud/Arguments/Putting.antt =====
-- What a put of `dcrudArguments` (C/src/dcrud/Arguments.c) that succeeded did to the two maps.
use dcrud.Base.{
  ◌+◌, ◌^◌, ◌<◌, ◌≡◌, refl, sym, ap, ◌∙◌, subst, if◌then◌else◌, true, false, Option, some,
}
use dcrud.Util.Status.{
  Status, no_error, bad_cast, duplicate, illegal_state, not_found, null_argument, out_of_range,
  overflow, std_api_error, too_many, type_mismatch, underflow, check, Build,
}
use dcrud.Coll.Compare.{Ordering, string_compare, is_eq}
use dcrud.Coll.Compare.Strings.{string_compare-IsComparator}
use dcrud.Coll.Libc.{Libc}
use dcrud.Coll.CollMap
use dcrud.Coll.CollMap.{CollMap, Pair, read_map-genuine}
use dcrud.Coll.CollMap.Lookup.{lookup}
use dcrud.Coll.CollMap.Valid as Maps
use dcrud.Coll.CollMap.Valid.{get_answer}
use dcrud.Coll.CollMap.PutGet as MapPutGet
use dcrud.Coll.CollMap.Laws.{get-get_answer}
use dcrud.Crud.Arguments.{ArgumentType, Name, Value, Arguments, arguments_magic, names_libc}
use dcrud.Crud.Arguments.Puts.{PutMemory, reserved, cloned, put_pair}

-- What follows a `CHK` succeeded, if the whole did.
pub check_fine {ℓ} :
    {A : Type ℓ} (status : Status) (rest failed : Status × A)
    → failed.0 ≡ status
    → (check status rest failed).0 ≡ no_error
    → (status ≡ no_error) × (rest.0 ≡ no_error) × (check status rest failed ≡ rest)
check_fine no_error rest failed e h = (refl, h, refl)
check_fine bad_cast rest failed e h = let bad : ⊥ = cc in absurd bad
check_fine duplicate rest failed e h = let bad : ⊥ = cc in absurd bad
check_fine illegal_state rest failed e h = let bad : ⊥ = cc in absurd bad
check_fine not_found rest failed e h = let bad : ⊥ = cc in absurd bad
check_fine null_argument rest failed e h = let bad : ⊥ = cc in absurd bad
check_fine out_of_range rest failed e h = let bad : ⊥ = cc in absurd bad
check_fine overflow rest failed e h = let bad : ⊥ = cc in absurd bad
check_fine std_api_error rest failed e h = let bad : ⊥ = cc in absurd bad
check_fine too_many rest failed e h = let bad : ⊥ = cc in absurd bad
check_fine type_mismatch rest failed e h = let bad : ⊥ = cc in absurd bad
check_fine underflow rest failed e h = let bad : ⊥ = cc in absurd bad

-- The two maps of the arguments are valid, and may grow.
pub record IsValid {P : Type 0} (build : Build) (self : Arguments P) : Type 0 where
  pub genuine : self.magic ≡ arguments_magic
  pub values : CollMap Name (Value P)
  pub has_values : self.args ≡ some values
  pub values_valid : Maps.IsValid string_compare build values
  pub values_small : values.limit + 100 < 2 ^ 32
  pub types : CollMap Name ArgumentType
  pub has_types : self.types ≡ some types
  pub types_valid : Maps.IsValid string_compare build types
  pub types_small : types.limit + 100 < 2 ^ 32

-- A name that is not equal to another one.
abbrev pub IsOther : Name → Name → Type 0
IsOther key k = is_eq (string_compare k key) ≡ false

module _ (libc : (A : Type 0) (cmp : A → A → Ordering) → Libc cmp) (build : Build)
    (memory : PutMemory) {P : Type 0} {self : Arguments P} (v : IsValid build self) (key : Name)
    (type : ArgumentType) (value : Option (Value P)) where
  abbrev pub put_values :
      Status × Option (Name × Option (Value P)) × Option (CollMap Name (Value P))
  put_values =
      CollMap.put string_compare (names_libc libc (Value P)) build memory.args (some v.values) key
        value

  abbrev pub put_types :
      Status × Option (Name × Option ArgumentType) × Option (CollMap Name ArgumentType)
  put_types =
      CollMap.put string_compare (names_libc libc ArgumentType) build memory.types (some v.types)
        key (some type)

  abbrev pub with_put : Arguments P
  with_put = record self { args = put_values.2; types = put_types.2 }

  -- What is known of a put that succeeded.
  abbrev pub IsPut : Status × Arguments P → Type 0
  IsPut r = (r ≡ (no_error, with_put)) × (put_values.0 ≡ no_error) × (put_types.0 ≡ no_error)

  pair_of :
      put_pair libc build memory key type value self
      ≡ check put_values.0
          (put_types.0, with_put)
          (put_values.0, record self { args = put_values.2 })
  pair_of = rw (v.has_values, v.has_types) refl

  put_pair-IsPut :
      (put_pair libc build memory key type value self).0 ≡ no_error
      → IsPut (put_pair libc build memory key type value self)
  put_pair-IsPut h =
      let (first, second, same) =
        check_fine put_values.0 (put_types.0, with_put)
          (put_values.0, record self { args = put_values.2 }) refl
          (sym (ap (λ r. r.0) pair_of) ∙ h) in
      (pair_of ∙ same ∙ ap (λ s. (s, with_put)) second, first, second)

  abbrev pub cloned_put : Status × Arguments P
  cloned_put =
      check (cloned build memory key) (put_pair libc build memory key type value self)
        (cloned build memory key, self)

  pub cloned_put-IsPut : cloned_put.0 ≡ no_error → IsPut cloned_put
  cloned_put-IsPut h =
      let (_, second, same) =
        check_fine (cloned build memory key) (put_pair libc build memory key type value self)
          (cloned build memory key, self) refl h in
      subst IsPut (sym same) (put_pair-IsPut second)

  abbrev pub reserved_put : Status × Arguments P
  reserved_put = check (reserved memory.value) cloned_put (reserved memory.value, self)

  pub reserved_put-IsPut : reserved_put.0 ≡ no_error → IsPut reserved_put
  reserved_put-IsPut h =
      let (_, second, same) =
        check_fine (reserved memory.value) cloned_put (reserved memory.value, self) refl h in
      subst IsPut (sym same) (cloned_put-IsPut second)

  same_key : is_eq (string_compare key key) ≡ true
  same_key = ap is_eq (string_compare-IsComparator.0.self_eq key)

  -- The map of the values, and of the types, after the put.
  values_after :
      put_values.0 ≡ no_error
      → (k : Name)
      → CollMap.get string_compare (names_libc libc (Value P)) put_values.2 k true
        ≡ get_answer (
            if is_eq (string_compare k key)
            then some value
            else lookup string_compare k v.values.pairs)
  values_after ok k =
      MapPutGet.put-get string_compare-IsComparator.0 (names_libc libc (Value P)) build memory.args
        v.values key value v.values_valid v.values_small k ok

  types_after :
      put_types.0 ≡ no_error
      → (k : Name)
      → CollMap.get string_compare (names_libc libc ArgumentType) put_types.2 k true
        ≡ get_answer (
            if is_eq (string_compare k key)
            then some (some type)
            else lookup string_compare k v.types.pairs)
  types_after ok k =
      MapPutGet.put-get string_compare-IsComparator.0 (names_libc libc ArgumentType) build
        memory.types v.types key (some type) v.types_valid v.types_small k ok

  pub values_at :
      put_values.0 ≡ no_error
      → CollMap.get string_compare (names_libc libc (Value P)) put_values.2 key true
        ≡ (no_error, some value)
  values_at ok =
      values_after ok key
      ∙ ap (λ b. get_answer (if b then some value else lookup string_compare key v.values.pairs))
          same_key

  pub types_at :
      put_types.0 ≡ no_error
      → CollMap.get string_compare (names_libc libc ArgumentType) put_types.2 key true
        ≡ (no_error, some (some type))
  types_at ok =
      types_after ok key
      ∙ ap
          (λ b.
            get_answer (if b then some (some type) else lookup string_compare key v.types.pairs))
          same_key

  pub values_other :
      put_values.0 ≡ no_error
      → (k : Name) → IsOther key k
      → CollMap.get string_compare (names_libc libc (Value P)) put_values.2 k true
        ≡ CollMap.get string_compare (names_libc libc (Value P)) self.args k true
  values_other ok k other =
      values_after ok k
      ∙ ap (λ b. get_answer (if b then some value else lookup string_compare k v.values.pairs))
          other
      ∙ sym (
          get-get_answer string_compare-IsComparator.0 (names_libc libc (Value P)) build v.values k
            v.values_valid)
      ∙ ap (λ m. CollMap.get string_compare (names_libc libc (Value P)) m k true) (sym v.has_values)

  pub types_other :
      put_types.0 ≡ no_error
      → (k : Name) → IsOther key k
      → CollMap.get string_compare (names_libc libc ArgumentType) put_types.2 k true
        ≡ CollMap.get string_compare (names_libc libc ArgumentType) self.types k true
  types_other ok k other =
      types_after ok k
      ∙ ap (λ b. get_answer (if b then some (some type) else lookup string_compare k v.types.pairs))
          other
      ∙ sym (
          get-get_answer string_compare-IsComparator.0 (names_libc libc ArgumentType) build v.types
            k v.types_valid)
      ∙ ap (λ m. CollMap.get string_compare (names_libc libc ArgumentType) m k true)
          (sym v.has_types)
