-- ===== src/Crud/Cache/Growth.antt =====
-- The heap when a new identity is given out (C/src/dcrud/Cache.c).
use dcrud.Base.{
  ℕ, ◌+◌, ◌^◌, ◌%◌, ◌<◌, ◌≡◌, refl, sym, ap, ◌∙◌, subst, Bool, true, false, Bool-cases, inl, inr,
  Option, some, All, if◌then◌else◌, arith,
}
use dcrud.Util.Status.{Build}
use dcrud.Coll.Compare.{Ordering, IsComparator, is_eq}
use dcrud.Coll.Array.{All-imp}
use dcrud.Coll.CollMap.{CollMap}
use dcrud.Coll.CollMap.Valid.{IsUpdate}
use dcrud.Coll.CollMap.Lookup.{lookup}
use dcrud.Crud.Guid
use dcrud.Crud.Guid.{Guid}
use dcrud.Crud.Guid.Laws as Guids
use dcrud.Crud.Guid.Laws.{compare_to-eq-same}
use dcrud.Crud.Cache.{compare_guids, write_guid}
use dcrud.Crud.Cache.Identities.{
  IsSame, IsGiven, write_guid_at, write_guid_off, write_guid-AreSound,
}
use dcrud.Crud.Cache.Keys.{AreSound, compare_guids-IsComparator, lookup-All, lookup_kept}

-- The identity at an address, once `dcrudGUID_init` gave it these numbers.
abbrev pub new_guid : {G : Type 0} → (G → Guid) → G → ℕ → ℕ → Guid
new_guid guids g publisher next = record (guids g) { publisher = publisher; instance = next }

abbrev pub guids_with : {G : Type 0} → (G → G → Bool) → (G → Guid) → G → ℕ → ℕ → G → Guid
guids_with same guids g publisher next = write_guid same guids g (new_guid guids g publisher next)

-- The next identity of a publisher can be given to this one, which is not shared.
pub record IsNew {G : Type 0} (same : G → G → Bool) (guids : G → Guid) (g : G) (publisher next : ℕ)
    : Type 0 where
  pub is_same : IsSame same
  pub sound : AreSound guids
  pub unshared : (guids g).instance ≡ 0
  pub publisher_small : publisher < 2 ^ 31
  pub next_small : next + 1 < 2 ^ 31

module _ {G : Type 0} {same : G → G → Bool} {guids : G → Guid} {g : G} {publisher next : ℕ}
    (w : IsNew same guids g publisher next) where
  pub at_g : (guids_with same guids g publisher next) g ≡ (new_guid guids g publisher next)
  at_g = write_guid_at w.is_same guids g (new_guid guids g publisher next)

  pub new_guid-IsValid : Guids.IsValid (new_guid guids g publisher next)
  new_guid-IsValid = record {
    genuine = (w.sound.valid g).genuine;
    publisher_fits = omega (arith, w.publisher_small);
    instance_fits = omega (arith, w.next_small);
  }

  pub guids_with-AreSound : AreSound (guids_with same guids g publisher next)
  guids_with-AreSound =
      write_guid-AreSound w.is_same guids g (new_guid guids g publisher next) w.sound
        new_guid-IsValid w.publisher_small (omega (arith, w.next_small))

  pub order_with : IsComparator (compare_guids (guids_with same guids g publisher next))
  order_with = compare_guids-IsComparator guids_with-AreSound

  pub kept_of_given :
      (k : G)
      → IsGiven publisher next (guids k)
      → guids k ≡ (guids_with same guids g publisher next) k
  kept_of_given k given = sym (
      write_guid_off w.is_same guids g (new_guid guids g publisher next) k (λ e.
        let i : (guids g).instance ≡ (guids k).instance = ap (λ x. x.instance) e in
        ground (arith, w.unshared)))

  other_key :
      (k : G)
      → IsGiven publisher next (guids k)
      → is_eq (compare_guids (guids_with same guids g publisher next) g k) ≡ false
  other_key k given =
      rw (at_g, sym (kept_of_given k given))
        (elim (Bool-cases (is_eq (Guid.compare_to (new_guid guids g publisher next) (guids k)))) [
          | inl t ↦
              let e : Guid.compare_to (new_guid guids g publisher next) (guids k) ≡ Ordering.eq =
                ground arith in
              let (p, i) = (compare_to-eq-same new_guid-IsValid (w.sound.valid k)).0 e in
              absurd (let (q, lo, hi) = given in omega arith)
          | inr f ↦ f
        ])

  pub apart :
      (k : G)
      → IsGiven publisher next (guids k)
      → is_eq (compare_guids (guids_with same guids g publisher next) k g) ≡ false
  apart k given =
      elim (Bool-cases (is_eq (compare_guids (guids_with same guids g publisher next) k g))) [
        | inl t ↦
            let e : compare_guids (guids_with same guids g publisher next) k g ≡ Ordering.eq =
              ground arith in
            let t' : is_eq (compare_guids (guids_with same guids g publisher next) g k) ≡ true =
              ap is_eq (order_with.eq_sym k g e) in
            let f = other_key k given in absurd (let no : ⊥ = ground (arith, t', f) in no)
        | inr f ↦ f
      ]

  module _ {P : Type 0} (m : CollMap G P)
      (given : (k : G) (v : Option P)
        → lookup (compare_guids guids) k m.pairs ≡ some v
        → IsGiven publisher next (guids k)) where
    keys-IsGiven : All (λ p. IsGiven publisher next (guids p.0)) m.pairs
    keys-IsGiven =
        lookup-All (compare_guids-IsComparator w.sound) (λ k. IsGiven publisher next (guids k))
          m.pairs given

    pub All-kept : All (λ p. guids p.0 ≡ (guids_with same guids g publisher next) p.0) m.pairs
    All-kept =
        All-imp (λ p. IsGiven publisher next (guids p.0))
          (λ p. guids p.0 ≡ (guids_with same guids g publisher next) p.0) m.pairs
          (λ p. kept_of_given p.0) keys-IsGiven

    pub IsGiven-after :
        {build : Build} {items : CollMap G P} {item : P}
        → IsUpdate
            (compare_guids (guids_with same guids g publisher next))
            build
            m
            items
            g
            (some item)
        → 0 < next
        → (k : G) (w' : Option P)
        → lookup (compare_guids (guids_with same guids g publisher next)) k items.pairs ≡ some w'
        → IsGiven publisher ((next + 1) % 2 ^ 32) ((guids_with same guids g publisher next) k)
    IsGiven-after {item = item} update started k w' e =
        elim (Bool-cases (is_eq (compare_guids (guids_with same guids g publisher next) k g))) [
          | inl t ↦
              let eq : compare_guids (guids_with same guids g publisher next) k g ≡ Ordering.eq =
                ground arith in
              let (p, i) =
                (compare_to-eq-same (guids_with-AreSound.valid k) (guids_with-AreSound.valid g)).0
                  eq in
              let p' = ap (λ x. x.publisher) at_g in
              let i' = ap (λ x. x.instance) at_g in
              (p ∙ p', omega (arith, i, i', started), omega (arith, i, i', w.next_small))
          | inr f ↦ elim (Bool-cases (same g k)) [
            | inl t ↦
                let at_itself : is_eq (compare_guids (guids_with same guids g publisher next) g g)
                    ≡ true =
                  ap is_eq (order_with.self_eq g) in
                let apart : is_eq (compare_guids (guids_with same guids g publisher next) g g)
                    ≡ false =
                  subst
                    (λ h.
                      is_eq (compare_guids (guids_with same guids g publisher next) h g) ≡ false)
                    (sym (w.is_same.only_self g k t)) f in
                let bad : true ≡ false = sym at_itself ∙ apart in
                absurd (let no : ⊥ = ground (arith, bad) in no)
            | inr off ↦
                let kept : guids k ≡ (guids_with same guids g publisher next) k =
                  rw (off, write_guid) refl in
                let old : lookup (compare_guids (guids_with same guids g publisher next)) k m.pairs
                    ≡ some w' =
                  sym (
                    update.at_key k
                    ∙ ap
                        (λ b.
                          if b
                          then some (some item)
                          else lookup (compare_guids (guids_with same guids g publisher next)) k
                              m.pairs)
                        f)
                  ∙ e in
                let (p, lo, hi) = given k w' (
                  lookup_kept guids (guids_with same guids g publisher next) k m.pairs kept All-kept
                  ∙ old) in
                subst (IsGiven publisher ((next + 1) % 2 ^ 32)) kept
                  (p, lo, omega (arith, hi, w.next_small))
          ]
        ]
