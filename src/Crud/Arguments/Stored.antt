-- ===== src/Crud/Arguments/Stored.antt =====
-- What the puts of `dcrudArguments` (C/src/dcrud/Arguments.c) keep of it, and what its gets find.
use dcrud.Base.{
  ℕ, suc, ◌+◌, ◌^◌, ◌<◌, ◌≤◌, ◌≡◌, refl, sym, ap, ◌∙◌, subst, if◌then◌else◌, Bool, true, false,
  Option, none, some, List, ◌∷◌, length, arith,
}
use dcrud.Util.Status.{Status, no_error, Build, static_allocation, dynamic_allocation}
use dcrud.Util.SafeCast.{with_self-genuine, read_self-genuine}
use dcrud.Coll.Compare.{Ordering, string_compare, is_eq}
use dcrud.Coll.Compare.Strings.{string_compare-IsComparator}
use dcrud.Coll.Libc.{Libc}
use dcrud.Coll.Storage.{make_room, first_limit}
use dcrud.Coll.CollMap
use dcrud.Coll.CollMap.{CollMap, Pair, map_magic, put_searched}
use dcrud.Coll.CollMap.Lookup.{lookup}
use dcrud.Coll.CollMap.Valid as Maps
use dcrud.Coll.CollMap.Valid.{PutOutcome, get_answer}
use dcrud.Coll.CollMap.Laws.{put-PutOutcome}
use dcrud.Crud.Arguments.{
  ArgumentType, Name, Value, Arguments, arguments_magic, names_libc, with_arguments,
}
use dcrud.Crud.Arguments.Items.{Item, type_of, value_of, find}
use dcrud.Crud.Arguments.Puts.{PutMemory, put_pair}

-- A map of arguments that has not grown: `limit` is what `collMap_new` gives it.
module _ {V : Type 0} (build : Build) where
  pub record IsSmall (n : ℕ) (m : CollMap Name V) : Type 0 where
    pub valid : Maps.IsValid string_compare build m
    pub limit : m.limit ≡ first_limit build 0
    pub count : length m.pairs ≤ n

  -- A put that succeeded.
  pub record IsPut (n : ℕ) (m : CollMap Name V) (key : Name) (value : Option V)
      (r : Status × Option (Pair Name V) × Option (CollMap Name V)) : Type 0 where
    pub fine : r.0 ≡ no_error
    pub after : CollMap Name V
    pub is_after : r.2 ≡ some after
    pub small : IsSmall (suc n) after
    pub at_key :
        (k : Name)
        → lookup string_compare k after.pairs
          ≡ (if is_eq (string_compare k key) then some value else lookup string_compare k m.pairs)

module _ (libc : (A : Type 0) (cmp : A → A → Ordering) → Libc cmp) (build : Build)
    (reallocated : Bool) {V : Type 0} (n : ℕ) {m : CollMap Name V} (s : IsSmall build n m)
    (few : n < 100) (key : Name) (value : Option V) where
  put_searched-limit :
      (found : Option ℕ)
      → (put_searched string_compare
          (names_libc libc V)
          build
          reallocated
          m
          key
          value
          found).2.limit
        ≡ m.limit
  unfolding CollMap.insert make_room
  put_searched-limit (some i) = refl
  put_searched-limit none = by_build build s.limit
    where
      by_build :
          (b : Build)
          → m.limit ≡ first_limit b 0
          → (put_searched string_compare (names_libc libc V) b reallocated m key value none).2.limit
            ≡ m.limit
      by_build static_allocation e = ground (arith, s.count)
      by_build dynamic_allocation e = ground (arith, s.count)

  put-limit :
      {m' : CollMap Name V}
      → (CollMap.put string_compare (names_libc libc V) build reallocated (some m) key value).2
        ≡ some m'
      → m'.limit ≡ m.limit
  unfolding CollMap.put
  put-limit {m'} e =
      let found = (names_libc libc V).bsearch (key, none) m.pairs in
      let whole =
        read_self-genuine (λ t. t.magic) map_magic m
          (λ t.
            put_searched string_compare (names_libc libc V) build reallocated t key value
              ((names_libc libc V).bsearch (key, none) t.pairs))
          s.valid.genuine in
      let there : some
            (put_searched string_compare (names_libc libc V) build reallocated m key value found).2
          ≡ some m' =
        sym (ap (λ r. r.2) whole) ∙ e in
      let same : (put_searched string_compare (names_libc libc V) build reallocated m key value
            found).2
          ≡ m' =
        cc in
      ap (λ t. t.limit) (sym same) ∙ put_searched-limit found

  of_outcome :
      {r : Status × Option (Pair Name V) × Option (CollMap Name V)}
      → PutOutcome string_compare build reallocated m key value r
      → ((m' : CollMap Name V) → r.2 ≡ some m' → m'.limit ≡ m.limit)
      → IsPut build n m key value r
  of_outcome (PutOutcome.replaced m' old found same u l) keeps = record {
    fine = refl;
    after = m';
    is_after = refl;
    small = record {
      valid = u.valid;
      limit = keeps m' refl ∙ s.limit;
      count = omega (arith, l, s.count);
    };
    at_key = u.at_key;
  }
  of_outcome (PutOutcome.added m' new has_room u l) keeps = record {
    fine = refl;
    after = m';
    is_after = refl;
    small = record {
      valid = u.valid;
      limit = keeps m' refl ∙ s.limit;
      count = omega (arith, l, s.count);
    };
    at_key = u.at_key;
  }
  of_outcome (PutOutcome.full new static at_max) keeps = absurd (omega (arith, s.count, at_max))
  of_outcome (PutOutcome.lost_all m' new dynamic at_limit failed v empty) keeps =
      let hundred : m.limit ≡ 100 = s.limit ∙ ap (λ b. first_limit b 0) dynamic in
      absurd (omega (arith, s.count, at_limit, hundred))

  limit-lt : m.limit + 100 < 2 ^ 32
  limit-lt = by_build build s.limit
    where
      by_build : (b : Build) → m.limit ≡ first_limit b 0 → m.limit + 100 < 2 ^ 32
      by_build static_allocation e = omega arith
      by_build dynamic_allocation e = omega arith

  pub put-IsPut :
      IsPut build n m key value
        (CollMap.put string_compare (names_libc libc V) build reallocated (some m) key value)
  put-IsPut =
      of_outcome
        (put-PutOutcome string_compare-IsComparator.0 (names_libc libc V) build reallocated m key
          value s.valid limit-lt)
        (λ m' e. put-limit e)

-- The map of the values, and the map of the types, of arguments under their names.
abbrev pub value_entry : {P : Type 0} → Bool → Option Item → Option (Option (Value P))
value_entry host_big none = none
value_entry host_big (some item) = some (some (value_of host_big item))

abbrev pub type_entry : Option Item → Option (Option ArgumentType)
type_entry none = none
type_entry (some item) = some (some (type_of item))

-- The handle is of arguments with this mode and this queue, in which these items were put.
pub record Stored {P : Type 0} (build : Build) (host_big : Bool) (mode queue : ℕ)
    (items : List (Name × Item)) (self : Option (Arguments P)) : Type 0 where
  pub this : Arguments P
  pub is_this : self ≡ some this
  pub genuine : this.magic ≡ arguments_magic
  pub has_mode : this.mode ≡ mode
  pub has_queue : this.queue ≡ queue
  pub values : CollMap Name (Value P)
  pub has_values : this.args ≡ some values
  pub values_small : IsSmall build (length items) values
  pub types : CollMap Name ArgumentType
  pub has_types : this.types ≡ some types
  pub types_small : IsSmall build (length items) types
  pub value_at :
      (k : Name) → lookup string_compare k values.pairs ≡ value_entry host_big (find k items)
  pub type_at : (k : Name) → lookup string_compare k types.pairs ≡ type_entry (find k items)

module _ (libc : (A : Type 0) (cmp : A → A → Ordering) → Libc cmp) (build : Build)
    (memory : PutMemory) {P : Type 0} (host_big : Bool) {mode queue : ℕ}
    {items : List (Name × Item)} where
  -- An item that is put under a name is stored.
  pub put_pair-Stored :
      {self : Option (Arguments P)} (key : Name) (item : Item)
      → Stored build host_big mode queue items self
      → length items < 100
      → let (status, self') =
          with_arguments self
            (put_pair libc build memory key (type_of item) (some (value_of host_big item))) in
        (status ≡ no_error) × Stored build host_big mode queue ((key, item) ∷ items) self'
  put_pair-Stored {self} key item s few =
      subst (λ r. (r.0 ≡ no_error) × Stored build host_big mode queue ((key, item) ∷ items) r.1)
        (sym whole)
        (
          refl,
          record {
            this = after;
            is_this = refl;
            genuine = s.genuine;
            has_mode = s.has_mode;
            has_queue = s.has_queue;
            values = v.after;
            has_values = refl;
            values_small = v.small;
            types = t.after;
            has_types = refl;
            types_small = t.small;
            value_at = λ k.
                v.at_key k
                ∙ ap
                    (λ e.
                      if is_eq (string_compare k key)
                      then some (some (value_of host_big item))
                      else e)
                    (s.value_at k)
                ∙ value_entry_if (is_eq (string_compare k key)) (find k items);
            type_at = λ k.
                t.at_key k
                ∙ ap (λ e. if is_eq (string_compare k key) then some (some (type_of item)) else e)
                    (s.type_at k)
                ∙ type_entry_if (is_eq (string_compare k key)) (find k items);
          },
        )
    where
      v : IsPut build (length items) s.values key (some (value_of host_big item)) (
          CollMap.put string_compare
            (names_libc libc (Value P))
            build
            memory.args
            (some s.values)
            key
            (some (value_of host_big item)))
      v =
          put-IsPut libc build memory.args (length items) s.values_small few key
            (some (value_of host_big item))

      t : IsPut build (length items) s.types key (some (type_of item)) (
          CollMap.put string_compare
            (names_libc libc ArgumentType)
            build
            memory.types
            (some s.types)
            key
            (some (type_of item)))
      t =
          put-IsPut libc build memory.types (length items) s.types_small few key
            (some (type_of item))

      after : Arguments P
      after = record s.this { args = some v.after; types = some t.after }

      value_entry_if :
          (b : Bool) (e : Option Item)
          → (if b then some (some (value_of host_big item)) else value_entry {P = P} host_big e)
            ≡ value_entry host_big (if b then some item else e)
      value_entry_if true e = refl
      value_entry_if false e = refl

      type_entry_if :
          (b : Bool) (e : Option Item)
          → (if b then some (some (type_of item)) else type_entry e)
            ≡ type_entry (if b then some item else e)
      type_entry_if true e = refl
      type_entry_if false e = refl

      put_this :
          put_pair libc build memory key (type_of item) (some (value_of host_big item)) s.this
          ≡ (no_error, after)
      put_this = rw (s.has_values, s.has_types, v.fine, v.is_after, t.fine, t.is_after) refl

      whole :
          with_arguments self
            (put_pair libc build memory key (type_of item) (some (value_of host_big item)))
          ≡ (no_error, some after)
      whole =
          ap
            (λ a.
              with_arguments a
                (put_pair libc build memory key (type_of item) (some (value_of host_big item))))
            s.is_this
          ∙ with_self-genuine (λ a. a.magic) arguments_magic s.this
              (put_pair libc build memory key (type_of item) (some (value_of host_big item)))
              s.genuine
          ∙ ap (λ r. (r.0, some r.1)) put_this
