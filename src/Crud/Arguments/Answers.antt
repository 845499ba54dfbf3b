-- ===== src/Crud/Arguments/Answers.antt =====
-- What the gets of `dcrudArguments` (C/src/dcrud/Arguments.c) answer for arguments that arrived.
use dcrud.Base.{ℕ, ◌≡◌, ap, ◌∙◌, Bool, true, Option, none, some, List}
use dcrud.Util.Status.{Status, no_error, not_found, check, Build}
use dcrud.Coll.Compare.{Ordering, string_compare}
use dcrud.Coll.Compare.Strings.{string_compare-IsComparator}
use dcrud.Coll.Libc.{Libc}
use dcrud.Coll.CollMap
use dcrud.Coll.CollMap.{map_magic}
use dcrud.Coll.CollMap.Laws.{get-get_answer}
use dcrud.Coll.CollMap.Valid.{get_answer}
use dcrud.Crud.Arguments.{ArgumentType, Name, Value, Arguments, names_libc, read_arguments-genuine}
use dcrud.Crud.Arguments.Gets.{read_field, get_value, get_type}
use dcrud.Crud.Arguments.Items.{Item, type_of, value_of, Arrives, find}
use dcrud.Crud.Arguments.Finding.{Found}
use dcrud.Crud.Arguments.Stored.{Stored, value_entry, type_entry}
use dcrud.Crud.Outbox.{stored}

-- What a get finds under a name in arguments that arrived.
abbrev pub FoundIn :
    ((A : Type 0) (cmp : A → A → Ordering) → Libc cmp)
    → Bool
    → {P : Type 0} → Arguments P
    → Name
    → Option Item
    → Type 0
FoundIn libc host_big this k none =
    (get_type libc (some this) k true ≡ (not_found, none))
    × (get_value libc (λ value. value) (some this) k true ≡ (not_found, none))
FoundIn libc host_big this k (some item) =
    (arrived : Item) × Arrives item arrived
    × (get_type libc (some this) k true ≡ (no_error, some (type_of arrived)))
    × (get_value libc (λ value. value) (some this) k true
        ≡ (no_error, some (value_of host_big arrived)))

module _ (libc : (A : Type 0) (cmp : A → A → Ordering) → Libc cmp) (build : Build) (host_big : Bool)
    {P : Type 0} {mode queue : ℕ} {items : List (Name × Item)} {self : Option (Arguments P)}
    (s : Stored build host_big mode queue items self) (k : Name) where
  get_type-Stored :
      let (status, found) = get_answer (type_entry (find k items)) in
      get_type libc (some s.this) k true ≡ check status (no_error, stored found) (status, none)
  unfolding get_type
  get_type-Stored =
      read_arguments-genuine s.this
        (λ this.
          answer (CollMap.get string_compare (names_libc libc ArgumentType) this.types k true))
        s.genuine
      ∙ ap (λ m. answer (CollMap.get string_compare (names_libc libc ArgumentType) m k true))
          s.has_types
      ∙ ap answer (
          get-get_answer string_compare-IsComparator.0 (names_libc libc ArgumentType) build s.types
            k s.types_small.valid
          ∙ ap get_answer (s.type_at k))
    where
      answer : Status × Option (Option ArgumentType) → Status × Option ArgumentType
      answer (status, found) = check status (no_error, stored found) (status, none)

  get_value-Stored :
      get_value libc (λ value. value) (some s.this) k true
      ≡ read_field libc (λ value. value) (get_answer (value_entry host_big (find k items)))
  unfolding get_value
  get_value-Stored =
      read_arguments-genuine s.this
        (λ this.
          read_field libc (λ value. value)
            (CollMap.get string_compare (names_libc libc (Value P)) this.args k true))
        s.genuine
      ∙ ap
          (λ m.
            read_field libc (λ value. value)
              (CollMap.get string_compare (names_libc libc (Value P)) m k true))
          s.has_values
      ∙ ap (read_field libc (λ value. value)) (
          get-get_answer string_compare-IsComparator.0 (names_libc libc (Value P)) build s.values k
            s.values_small.valid
          ∙ ap get_answer (s.value_at k))

  pub Stored-FoundIn :
      {sent : Option Item} → Found sent (find k items) → FoundIn libc host_big s.this k sent
  Stored-FoundIn f = by_cases f get_type-Stored get_value-Stored
    where
      by_cases :
          {sent found : Option Item}
          → Found sent found
          → (let (status, got) = get_answer (type_entry found) in
              get_type libc (some s.this) k true
              ≡ check status (no_error, stored got) (status, none))
          → get_value libc (λ value. value) (some s.this) k true
            ≡ read_field libc (λ value. value) (get_answer (value_entry host_big found))
          → FoundIn libc host_big s.this k sent
      by_cases Found.nothing t g = (t, g)
      by_cases (Found.something sent arrived a) t g = (arrived, a, t, g)
