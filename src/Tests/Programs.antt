-- ===== src/Tests/Programs.antt =====
-- A small program: its objects, a cache and a participant of C/src/dcrud.
use dcrud.Base.{
  ℕ, ◌+◌, ◌^◌, ◌<◌, refl, false, Option, some, List, [], ◌∷◌, replicate, length, length-replicate,
  arith,
}
use dcrud.Util.Status.{no_error}
use dcrud.Coll.Compare.{Ordering}
use dcrud.Coll.Libc.{Libc}
use dcrud.Coll.CollSet.{CollSet, set_magic}
use dcrud.Coll.CollMap.{CollMap, map_magic}
use dcrud.Io.ByteBuffer.{Buffer, big_endian, buffer_magic, put_byte}
use dcrud.Io.ByteBuffer.Wire.{IsOpen, put_byte-append}
use dcrud.Crud.ClassId.{Instance, object}
use dcrud.Crud.Guid.{guid_magic}
use dcrud.Crud.Shareable.{Factory, shareable_magic}
use dcrud.Crud.Outbox.{Outbox, participant_magic}
use dcrud.Crud.Outbox.Ready.{IsReady, View, Shown}
use dcrud.Crud.Cache.{Cache, Heap, cache_magic}
use dcrud.Tests.Sorting.{linear}

abbrev pub libc : (A : Type 0) (cmp : A → A → Ordering) → Libc cmp
libc A cmp = linear cmp

-- An empty buffer of a capacity.
unfoldable pub blank : ℕ → Buffer
blank n = record {
  magic = buffer_magic;
  order = big_endian;
  position = 0;
  limit = n;
  capacity = n;
  mark = n + 1;
  bytes = replicate n 0;
}

pub blank-IsOpen : (n : ℕ) → n < 2 ^ 63 → IsOpen (blank n)
unfolding blank
blank-IsOpen n h = record {
  genuine = refl;
  valid = record {
    below = omega arith;
    limited = omega arith;
    stored = omega (arith, length-replicate {A = ℕ} n 0);
    small = h;
  };
}

abbrev pub some_class : Instance
some_class = record { address = 80; package_1 = 1; package_2 = 2; package_3 = 3; clazz = 4 }

-- The data of an object is a byte.
abbrev pub factory : Factory ℕ
factory = record {
  class_id = some (object some_class);
  allocate_user_data = (no_error, some 0);
  serialize = λ user_data target. put_byte target 7;
  unserialize = λ user_data source. (no_error, source);
}

abbrev pub heap : Heap ℕ ℕ ℕ
heap = record {
  guids = λ g. record { magic = guid_magic; publisher = 1; instance = 0 };
  items = λ p. record {
    magic = shareable_magic;
    id = some p;
    class_id = some (object some_class);
    factory = some factory;
    user_data = some 7;
  };
}

abbrev pub view : ℕ → View
view p = record {
  guid = record { magic = guid_magic; publisher = 1; instance = 0 };
  of_class = some_class;
  content = 7 ∷ [];
}

pub all_Shown : (p : ℕ) → Shown heap.guids (heap.items p) (view p)
all_Shown p = (
  record {
    genuine = refl;
    identity = refl;
    valid = record { genuine = refl; publisher_fits = omega arith; instance_fits = omega arith };
    of_class = refl;
    factory = factory;
    made_by = refl;
    writes = λ b o h. put_byte-append o 7 h;
  },
  omega arith,
)

abbrev pub participant : Outbox
participant = record {
  magic = participant_magic;
  header = some (blank 22);
  payload = some (blank 65514);
  message = some (blank 65536);
  sent = [];
}

pub participant-IsReady : IsReady big_endian participant
unfolding blank
participant-IsReady = record {
  genuine = refl;
  header = blank 22;
  payload = blank 65514;
  message = blank 65536;
  has_header = refl;
  has_payload = refl;
  has_message = refl;
  header_open = blank-IsOpen 22 (omega arith);
  payload_open = blank-IsOpen 65514 (omega arith);
  message_open = blank-IsOpen 65536 (omega arith);
  header_order = refl;
  header_room = refl;
  payload_room = refl;
  message_room = refl;
}

-- The network of a host that loses nothing.
abbrev pub network : ℕ → List ℕ → Option ℕ
network target s = some (length s)

abbrev pub set_of : List ℕ → CollSet ℕ
set_of items = record { magic = set_magic; limit = 100; items = items }

abbrev pub no_items : CollMap ℕ ℕ
no_items = record { magic = map_magic; limit = 100; pairs = [] }

abbrev pub cache : Cache ℕ ℕ
cache = record {
  magic = cache_magic;
  classes = some (record { magic = set_magic; limit = 100; items = [] });
  updated = some (set_of (16 ∷ 24 ∷ []));
  deleted = some (set_of (32 ∷ []));
  to_update = some (record { magic = set_magic; limit = 100; items = [] });
  to_delete = some (set_of []);
  local = some no_items;
  next_instance = 1;
  ownership_check = false;
}
