-- ===== src/Crud/Cache/Keys.antt =====
-- The map of a cache (C/src/dcrud/Cache.c) when an identity outside it is written.
use Prim.Native.Nat.{compare}
use dcrud.Base.{
  ◌^◌, ◌<◌, ◌≡◌, ◌≢◌, refl, sym, subst, Bool-cases, inl, inr, Option, some, List, [], ◌∷◌, All,
  arith,
}
use dcrud.Util.Status.{Build}
use dcrud.Coll.Compare.{Ordering, IsComparator, is_eq, or_else}
use dcrud.Coll.Compare.Keys.{key-IsComparator, both-IsComparator}
use dcrud.Coll.Array.{Pairs}
use dcrud.Coll.CollMap.{Pair, CollMap}
use dcrud.Coll.CollMap.Valid.{IsValid}
use dcrud.Coll.CollMap.Lookup.{lookup}
use dcrud.Crud.Guid.{Guid}
use dcrud.Crud.Guid.Laws as Guids
use dcrud.Crud.Guid.Laws.{compare_to-eq-or_else}
use dcrud.Crud.Cache.{compare_guids}

-- All identities are valid, and their numbers are below 2 ^ 31.
pub record AreSound {G : Type 0} (guids : G → Guid) : Type 0 where
  pub valid : (g : G) → Guids.IsValid (guids g)
  pub publishers : (g : G) → (guids g).publisher < 2 ^ 31
  pub instances : (g : G) → (guids g).instance < 2 ^ 31

-- Then `dcrudGUID_compareTo` is an order.
pub compare_guids-IsComparator :
    {G : Type 0} {guids : G → Guid} → AreSound guids → IsComparator (compare_guids guids)
compare_guids-IsComparator {guids = guids} a =
    subst IsComparator (λ i g h. sym (by_numbers g h) i)
      (both-IsComparator (key-IsComparator (λ g. (guids g).publisher))
        (key-IsComparator (λ g. (guids g).instance)))
  where
    by_numbers :
        (g h : _)
        → compare_guids guids g h
          ≡ or_else
              (compare (guids g).publisher (guids h).publisher)
              (compare (guids g).instance (guids h).instance)
    by_numbers g h =
        let pg = a.publishers g in
        let ph = a.publishers h in
        let ig = a.instances g in
        let ih = a.instances h in
        compare_to-eq-or_else (a.valid g) (a.valid h) (omega arith) (omega arith) (omega arith)
          (omega arith)

-- What holds of every key that can be looked up holds of every key of the array.
pub lookup-All :
    {K V : Type 0} {cmp : K → K → Ordering} (order : IsComparator cmp) (P : K → Type 0)
    (ps : List (Pair K V))
    → ((k : K) (v : Option V) → lookup cmp k ps ≡ some v → P k)
    → All (λ p. P p.0) ps
lookup-All order P [] h = tt
lookup-All {cmp = cmp} order P ((k, v) ∷ ps) h =
    (h k v (rw (order.self_eq k) refl), lookup-All order P ps later)
  where
    later : (l : _) (w : _) → lookup cmp l ps ≡ some w → P l
    later l w e = elim (Bool-cases (is_eq (cmp l k))) [
      | inl t ↦ h l v (rw t refl)
      | inr f ↦ h l w (rw f e)
    ]

module _ {G : Type 0} (guids guids' : G → Guid) where
  -- The map does not see that identities outside it are written.
  pub lookup_kept :
      {V : Type 0} (k : G) (ps : List (Pair G V))
      → guids k ≡ guids' k
      → All (λ p. guids p.0 ≡ guids' p.0) ps
      → lookup (compare_guids guids) k ps ≡ lookup (compare_guids guids') k ps
  lookup_kept k [] e h = refl
  lookup_kept k ((l, v) ∷ ps) e h = rw (e, h.0, lookup_kept k ps e h.1) refl

  All-kept :
      {V : Type 0} (Q : Ordering → Type 0) (k : G) (ps : List (Pair G V))
      → guids k ≡ guids' k
      → All (λ p. guids p.0 ≡ guids' p.0) ps
      → All (λ p. Q (compare_guids guids k p.0)) ps
      → All (λ p. Q (compare_guids guids' k p.0)) ps
  All-kept Q k [] e h a = tt
  All-kept Q k ((l, v) ∷ ps) e h a = (rw (sym e, sym h.0) a.0, All-kept Q k ps e h.1 a.1)

  Pairs-kept :
      {V : Type 0} (Q : Ordering → Type 0) (ps : List (Pair G V))
      → All (λ p. guids p.0 ≡ guids' p.0) ps
      → Pairs (λ p q. Q (compare_guids guids p.0 q.0)) ps
      → Pairs (λ p q. Q (compare_guids guids' p.0 q.0)) ps
  Pairs-kept Q [] h a = tt
  Pairs-kept Q ((k, v) ∷ ps) h a = (All-kept Q k ps h.0 h.1 a.0, Pairs-kept Q ps h.1 a.1)

  pub map_kept :
      {V : Type 0} {build : Build} {m : CollMap G V}
      → All (λ p. guids p.0 ≡ guids' p.0) m.pairs
      → IsValid (compare_guids guids) build m
      → IsValid (compare_guids guids') build m
  map_kept {m = m} h v = record {
    genuine = v.genuine;
    ordered = record {
      sorted = Pairs-kept (λ c. c ≢ Ordering.gt) m.pairs h v.ordered.sorted;
      distinct = Pairs-kept (λ c. c ≢ Ordering.eq) m.pairs h v.ordered.distinct;
    };
    fits = v.fits;
  }
