-- ===== src/Crud/Cache/Identities.antt =====
-- The identities that a cache gives out (C/src/dcrud/Cache.c), and the invariant of a cache.
use dcrud.Base.{ℕ, ◌^◌, ◌<◌, ◌≡◌, ◌≢◌, refl, ap, Bool, true, Bool-cases, inl, inr, Option, some}
use dcrud.Util.Status.{Build}
use dcrud.Coll.CollMap.{CollMap}
use dcrud.Coll.CollMap.Valid as Maps
use dcrud.Coll.CollMap.Lookup.{lookup}
use dcrud.Crud.Guid.{Guid}
use dcrud.Crud.Guid.Laws as Guids
use dcrud.Crud.Cache.{Cache, cache_magic, compare_guids, write_guid}
use dcrud.Crud.Cache.Keys.{AreSound}

-- Two addresses are the same or not.
pub record IsSame {G : Type 0} (same : G → G → Bool) : Type 0 where
  pub at_self : (g : G) → same g g ≡ true
  pub only_self : (g h : G) → same g h ≡ true → g ≡ h

-- An identity that this publisher gave out before the next one.
abbrev pub IsGiven : ℕ → ℕ → Guid → Type 0
IsGiven publisher next g = (g.publisher ≡ publisher) × (0 < g.instance) × (g.instance < next)

-- The invariant of a cache: its map is valid, and its keys are identities that it gave out.
pub record IsValid {P G : Type 0} (build : Build) (publisher : ℕ) (guids : G → Guid)
    (this : Cache P G) : Type 0 where
  pub genuine : this.magic ≡ cache_magic
  pub items : CollMap G P
  pub has_items : this.local ≡ some items
  pub items_valid : Maps.IsValid (compare_guids guids) build items
  pub started : 0 < this.next_instance
  pub given :
      (k : G) (v : Option P)
      → lookup (compare_guids guids) k items.pairs ≡ some v
      → IsGiven publisher this.next_instance (guids k)

module _ {G : Type 0} {same : G → G → Bool} (is_same : IsSame same) (guids : G → Guid) (g : G)
    (new : Guid) where
  pub write_guid_at : write_guid same guids g new g ≡ new
  write_guid_at = rw (is_same.at_self g) refl

  pub write_guid_off : (k : G) → guids g ≢ guids k → write_guid same guids g new k ≡ guids k
  write_guid_off k differ = elim (Bool-cases (same g k)) [
    | inl t ↦ absurd (differ (ap guids (is_same.only_self g k t)))
    | inr f ↦ rw (f, write_guid) refl
  ]

  write_guid_either :
      (Q : Guid → Type 0)
      → Q new
      → ((k : G) → Q (guids k))
      → (k : G) → Q (write_guid same guids g new k)
  write_guid_either Q n h k = elim (Bool-cases (same g k)) [
    | inl t ↦ rw (t, write_guid) n
    | inr f ↦ rw (f, write_guid) (h k)
  ]

  pub write_guid-AreSound :
      AreSound guids
      → Guids.IsValid new
      → new.publisher < 2 ^ 31
      → new.instance < 2 ^ 31
      → AreSound (write_guid same guids g new)
  write_guid-AreSound a v p i = record {
    valid = write_guid_either Guids.IsValid v a.valid;
    publishers = write_guid_either (λ x. x.publisher < 2 ^ 31) p a.publishers;
    instances = write_guid_either (λ x. x.instance < 2 ^ 31) i a.instances;
  }
