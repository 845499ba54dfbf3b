-- ===== src/Crud/Arguments/Clearing.antt =====
-- What `dcrudArguments_clear` (C/src/dcrud/Arguments.c) leaves for the gets to find.
use dcrud.Base.{ℕ, ◌≡◌, refl, sym, ap, ◌∙◌, true, Option, none, some, [], length, arith}
use dcrud.Util.Status.{Status, no_error, not_found, check, Build}
use dcrud.Util.SafeCast.{with_self-genuine}
use dcrud.Coll.Compare.{Ordering, string_compare}
use dcrud.Coll.Compare.Strings.{string_compare-IsComparator}
use dcrud.Coll.Libc.{Libc}
use dcrud.Coll.Storage.{first_limit}
use dcrud.Coll.CollMap
use dcrud.Coll.CollMap.{CollMap, map_magic, read_map-genuine}
use dcrud.Coll.CollMap.Valid as Maps
use dcrud.Coll.CollMap.Laws.{get-get_answer}
use dcrud.Crud.Arguments.{
  Name, Value, Arguments, arguments_magic, names_libc, read_arguments-genuine, clear, get_count,
}
use dcrud.Crud.Arguments.Gets.{read_field, get_value, get_type}
use dcrud.Crud.Arguments.Putting.{IsValid}
use dcrud.Crud.Arguments.PutGet.{get_value_lem, get_type_lem}

module _ (libc : (A : Type 0) (cmp : A → A → Ordering) → Libc cmp) (build : Build) {P : Type 0}
    {self : Arguments P} (v : IsValid build self) where
  abbrev emptied : CollMap Name (Value P)
  emptied = record v.values { pairs = []; limit = first_limit build v.values.limit }

  abbrev after : Arguments P
  after = record self { args = some emptied }

  clear_opened : clear build (some self) ≡ (no_error, some after)
  unfolding clear CollMap.clear
  clear_opened =
      with_self-genuine (λ a. a.magic) arguments_magic self
        (λ this.
          let (status, args) = CollMap.clear build this.args in
          (status, record this { args = args }))
        v.genuine
      ∙ ap (λ r. (r.0, some (record self { args = r.1 })))
          (ap (CollMap.clear build) v.has_values
            ∙ with_self-genuine (λ m. m.magic) map_magic v.values
                (λ m. (no_error, record m { pairs = []; limit = first_limit build m.limit }))
                v.values_valid.genuine)

  emptied-IsValid : Maps.IsValid string_compare build emptied
  emptied-IsValid = record {
    genuine = v.values_valid.genuine;
    ordered = record { sorted = tt; distinct = tt };
    fits = omega arith;
  }

  get_count-after : get_count (some after) true ≡ (no_error, some 0)
  unfolding get_count CollMap.size
  get_count-after =
      read_arguments-genuine after (λ this. counted_of (CollMap.size this.args true)) v.genuine
      ∙ ap counted_of (
          read_map-genuine emptied (some 0) (λ m. (no_error, some (length m.pairs)))
            v.values_valid.genuine)
    where
      counted_of : Status × Option ℕ → Status × Option ℕ
      counted_of (status, size) = check status (no_error, size) (status, none)

  -- `dcrudArguments_clear` on valid arguments returns `no_error`. After it their number is 0, and no
  -- get finds a value under any name; but the type of a name is still what it was before.
  pub clear_lem :
      let (status, self') = clear build (some self) in
      (status ≡ no_error)
      × (get_count self' true ≡ (no_error, some 0))
      × ((k : Name) (R : Type 0) (field : Value P → R)
          → get_value libc field self' k true ≡ (not_found, none))
      × ((k : Name) → get_type libc self' k true ≡ get_type libc (some self) k true)
  clear_lem = rw clear_opened (
    refl,
    get_count-after,
    (λ k R field.
        get_value_lem libc field after k v.genuine
        ∙ ap (read_field libc field) (
            get-get_answer string_compare-IsComparator.0 (names_libc libc (Value P)) build emptied k
              emptied-IsValid)),
    λ k. get_type_lem libc after k v.genuine ∙ sym (get_type_lem libc self k v.genuine),
  )
