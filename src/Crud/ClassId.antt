-- ===== src/Crud/ClassId.antt =====
-- `dcrudClassID` (C/src/dcrud/ClassID.c): the class of an object, as four bytes. Equal classes are
-- one object: `resolve` looks it up in `allClasses`, a sorted array of pointers, before it makes
-- one. Such an object always has the right magic number and never changes.
pub mod Order
pub mod Registry
pub mod Wire
use Prim.Native.Nat.{compare}
use dcrud.Base.{
  ℕ, zero, suc, ◌+◌, ◌-◌, ◌%◌, ◌^◌, ◌==◌, if◌then◌else◌, Bool, true, false, not, ◌||◌, Option, none,
  some, List, [], ◌∷◌, ◌++◌, get_elem?,
}
use dcrud.Util.Status.{Status, no_error, null_argument, too_many, check}
use dcrud.Util.SafeCast.{Cast, valid, failed, safe_cast}
use dcrud.Coll.Compare.{Ordering, sign, or_else}
use dcrud.Coll.Libc.{Libc}
use dcrud.Io.ByteBuffer.{Buffer, put_byte, get_byte}

-- `dcrudClassIDImpl`
pub record ClassId : Type 0 where
  pub magic : ℕ
  pub package_1 : ℕ
  pub package_2 : ℕ
  pub package_3 : ℕ
  pub clazz : ℕ

-- `dcrudClassIDImplMAGIC`
abbrev pub class_id_magic : ℕ
class_id_magic = 0x03000002

-- `dcrudLAST_TYPE`
abbrev pub last_type : ℕ
last_type = 16

-- An object of `resolve`, at its address.
pub record Instance : Type 0 where
  pub address : ℕ
  pub package_1 : ℕ
  pub package_2 : ℕ
  pub package_3 : ℕ
  pub clazz : ℕ

abbrev pub object : Instance → ClassId
object x = record {
  magic = class_id_magic;
  package_1 = x.package_1;
  package_2 = x.package_2;
  package_3 = x.package_3;
  clazz = x.clazz;
}

-- `dcrudClassID_compareTo`; a NULL class is `none`.
unfoldable pub compare_to : Option ClassId → Option ClassId → Ordering
compare_to none none = Ordering.eq
compare_to none (some r) = Ordering.lt
compare_to (some l) none = Ordering.gt
compare_to (some l) (some r) = or_else (sign ((l.magic + 2 ^ 32 - r.magic) % 2 ^ 32)) (
    or_else (compare l.package_1 r.package_1) (
      or_else (compare l.package_2 r.package_2)
        (or_else (compare l.package_3 r.package_3) (compare l.clazz r.clazz))))

-- The comparator on the items of `allClasses`.
abbrev pub compare_instances : Instance → Instance → Ordering
compare_instances x y = compare_to (some (object x)) (some (object y))

-- How many classes `allClasses` has room for.
abbrev pub class_slots : ℕ
class_slots = 1000

-- `dcrudClassID_resolve` after the search. The code does not ask if `allClasses` is full: with
-- `class_slots` classes in it, it writes behind the array, and this is not what it does. `allocated` is the address of the new object, if there
-- is memory for it.
unfoldable pub resolve_searched :
    Libc compare_instances
    → Option ℕ
    → List Instance
    → Instance
    → Option ℕ
    → Status × Option Instance × List Instance
resolve_searched c allocated all_classes key (some cached) =
    (no_error, get_elem? all_classes cached, all_classes)
resolve_searched c none all_classes key none = (too_many, none, all_classes)
resolve_searched c (some address) all_classes key none =
    let this = record key { address = address } in
    (no_error, some this, c.qsort (all_classes ++ (this ∷ [])))

module _ (c : Libc compare_instances) (allocated : Option ℕ) (all_classes : List Instance) where
  -- `dcrudClassID_resolve`: the second part is `*self`. The key lies on the stack, at no address
  -- that matters.
  unfoldable pub resolve : Bool → ℕ → ℕ → ℕ → ℕ → Status × Option Instance × List Instance
  resolve given package1 package2 package3 clazz =
      let key : Instance = record {
        address = 0;
        package_1 = package1;
        package_2 = package2;
        package_3 = package3;
        clazz = clazz;
      } in
      if given
      then (resolve_searched c allocated all_classes key (c.bsearch key all_classes))
      else (null_argument, none, all_classes)

  -- What follows the four reads of `dcrudClassID_unserialize`. A byte is missing if its read failed;
  -- the code looks at the status of the last read only.
  abbrev pub resolve_read :
      Status → Option ℕ → Option ℕ → Option ℕ → Option ℕ → Status × Option Instance × List Instance
  resolve_read no_error (some p1) (some p2) (some p3) (some k) = resolve true p1 p2 p3 k
  resolve_read status _ _ _ _ = (status, none, all_classes)

  -- `dcrudClassID_unserialize`
  unfoldable pub unserialize :
      Bool → Option Buffer → Status × Option Instance × List Instance × Option Buffer
  unserialize given source =
      let (s1, p1, source1) = get_byte source in
      let (s2, p2, source2) = get_byte source1 in
      let (s3, p3, source3) = get_byte source2 in
      let (status, k, source4) = get_byte source3 in
      let (status', self, all_classes') = resolve_read status p1 p2 p3 k in
      if given
      then (status', self, all_classes', source4)
      else (null_argument, none, all_classes, source)

-- `dcrudClassID_done`: all objects are given back.
abbrev pub done : List Instance → Status × List Instance
done all_classes = (no_error, [])

-- `dcrudClassID_delete` only forgets the pointer.
abbrev pub delete : Option Instance → Status × Option Instance
delete self = (no_error, none)

-- `dcrudClassID_get`
unfoldable pub get : Option ClassId → Status × Option (ℕ × ℕ × ℕ × ℕ)
get self = elim (safe_cast (λ x. x.magic) class_id_magic self) [
  | failed status ↦ (status, none)
  | valid this ↦ (no_error, some (this.package_1, this.package_2, this.package_3, this.clazz))
]

-- Puts that stop at the first that fails.
unfoldable pub put_bytes : Option Buffer → List ℕ → Status × Option Buffer
put_bytes target [] = (no_error, target)
put_bytes target (x ∷ xs) =
    let (status, target') = put_byte target x in
    let rest = put_bytes target' xs in check status rest (status, target')

-- `dcrudClassID_serialize`
unfoldable pub serialize : Option ClassId → Option Buffer → Status × Option Buffer
serialize self target = elim (safe_cast (λ x. x.magic) class_id_magic self) [
  | failed status ↦ (status, target)
  | valid this ↦
      put_bytes target (this.package_1 ∷ this.package_2 ∷ this.package_3 ∷ this.clazz ∷ [])
]

-- `dcrudClassID_serializeType`
unfoldable pub serialize_type : ℕ → Option Buffer → Status × Option Buffer
serialize_type type target = put_bytes target (0 ∷ 0 ∷ 0 ∷ type % 256 ∷ [])

-- `dcrudClassID_getType`
unfoldable pub get_type : Option ClassId → Bool → Status × Option ℕ
get_type self given =
    if given
    then (elim (safe_cast (λ x. x.magic) class_id_magic self) [
      | failed status ↦ (status, none)
      | valid this ↦ (
        no_error,
        if not (this.package_1 == 0) || not (this.package_2 == 0) || not (this.package_3 == 0)
            then some last_type
            else some this.clazz,
      )
    ])
    else (null_argument, none)
