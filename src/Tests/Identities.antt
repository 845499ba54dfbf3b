-- ===== src/Tests/Identities.antt =====
-- Classes and identities of objects.
use dcrud.Base.{length, ◌≤◌, ◌≡◌, refl, true, false, some, none, List, [], ◌∷◌, replicate, arith}
use dcrud.Util.Status.{no_error}
use dcrud.Coll.Compare.{Ordering}
use dcrud.Coll.Libc.{Libc}
use dcrud.Coll.SortedArray.{Ordered}
use dcrud.Io.ByteBuffer.{Buffer, buffer_magic, Order, clear, flip}
use dcrud.Io.ByteBuffer.Wire.{IsOpen}
use dcrud.Crud.ClassId
use dcrud.Crud.ClassId.{Instance, compare_instances, object, resolve_searched}
use dcrud.Crud.ClassId.Registry.{key_of, ResolveOutcome, resolve-ResolveOutcome, resolve-resolve}
use dcrud.Crud.ClassId.Wire.{serialize-flip-unserialize}
use dcrud.Crud.Guid
use dcrud.Crud.Guid.{Guid, guid_magic}
use dcrud.Crud.Guid.Laws
use dcrud.Crud.Guid.Laws.{
  compare_to-eq-same, compare_to-eq-or_else, numbered, serialize-flip-unserialize_guid,
  compare_to-cycle,
}
use dcrud.Tests.Sorting.{linear}

abbrev instances : Libc compare_instances
instances = linear compare_instances

abbrev known : List Instance
known = record { address = 64; package_1 = 1; package_2 = 2; package_3 = 3; clazz = 4 } ∷ []

known-Ordered : Ordered compare_instances known
known-Ordered = record { sorted = (tt, tt); distinct = (tt, tt) }

resolve-ResolveOutcome_example :
    ResolveOutcome
      (some 72)
      known
      (key_of 1 2 3 5)
      (ClassId.resolve instances (some 72) known true 1 2 3 5)
    × (length (ClassId.resolve instances (some 72) known true 1 2 3 5).2 ≤ 1000)
resolve-ResolveOutcome_example =
    resolve-ResolveOutcome instances (some 72) known known-Ordered (omega arith) 1 2 3 5

resolve-resolve_example :
    let (_, _, more) = ClassId.resolve instances (some 72) known true 1 2 3 5 in
    (ClassId.resolve instances none more true 1 2 3 5
      ≡ ClassId.resolve instances (some 72) known true 1 2 3 5)
    × (length more ≤ 1000)
unfolding ClassId.resolve resolve_searched ClassId.compare_to
resolve-resolve_example =
    resolve-resolve instances known known-Ordered (some 72) none 1 2 3 5 (omega arith) refl

-- A buffer of 16 bytes.
abbrev empty : Buffer
empty = record {
  magic = buffer_magic;
  order = Order.little_endian;
  position = 0;
  limit = 16;
  capacity = 16;
  mark = 17;
  bytes = replicate 16 0;
}

empty-IsOpen : IsOpen empty
empty-IsOpen = record { genuine = refl; valid = omega arith }

abbrev class_1234 : Instance
class_1234 = record { address = 80; package_1 = 1; package_2 = 2; package_3 = 3; clazz = 4 }

serialize-flip-unserialize_example :
    let (sent_status, sent) = ClassId.serialize (some (object class_1234)) (clear (some empty)).1 in
    let (status, self, more, _) = ClassId.unserialize instances none known true (flip sent).1 in
    (sent_status ≡ no_error)
    × ((status, self, more) ≡ ClassId.resolve instances none known true 1 2 3 4)
serialize-flip-unserialize_example =
    serialize-flip-unserialize instances none known class_1234 empty-IsOpen (omega arith)

abbrev seventh : Guid
seventh = record { magic = guid_magic; publisher = 0x10203; instance = 7 }

seventh-IsValid : Laws.IsValid seventh
seventh-IsValid = record {
  genuine = refl;
  publisher_fits = omega arith;
  instance_fits = omega arith;
}

serialize-flip-unserialize_guid_example :
    let (sent_status, sent) = Guid.serialize true (some seventh) (clear (some empty)).1 in
    let (status, self, _) = Guid.unserialize false true true (flip sent).1 in
    (sent_status ≡ no_error) × (status ≡ no_error) × (self ≡ some seventh)
serialize-flip-unserialize_guid_example =
    serialize-flip-unserialize_guid {g = seventh} seventh-IsValid true false empty-IsOpen
      (omega arith)

compare_to-cycle_example :
    (Guid.compare_to (numbered 1 1) (numbered 1 1431655767) ≡ Ordering.lt)
    × (Guid.compare_to (numbered 1 1431655767) (numbered 1 2863311533) ≡ Ordering.lt)
    × (Guid.compare_to (numbered 1 2863311533) (numbered 1 1) ≡ Ordering.lt)
compare_to-cycle_example = compare_to-cycle 1 1 (omega arith)

-- The type of a string.
compare_to-eq-same_example :
    (Guid.compare_to seventh seventh ≡ Ordering.eq
      → (seventh.publisher ≡ seventh.publisher) × (seventh.instance ≡ seventh.instance))
    × ((seventh.publisher ≡ seventh.publisher) × (seventh.instance ≡ seventh.instance)
        → Guid.compare_to seventh seventh ≡ Ordering.eq)
compare_to-eq-same_example = compare_to-eq-same seventh-IsValid seventh-IsValid

abbrev ninth : Guid
ninth = record seventh { instance = 9 }

ninth-IsValid : Laws.IsValid ninth
ninth-IsValid = record { genuine = refl; publisher_fits = omega arith; instance_fits = omega arith }
