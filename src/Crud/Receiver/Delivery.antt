-- ===== src/Crud/Receiver/Delivery.antt =====
-- `dcrudNetworkReceiver_dataUpdate` (C/src/dcrud/NetworkReceiver.c) by what the caches get.
use dcrud.Base.{
  ℕ, ◌+◌, ◌^◌, ◌%◌, ◌<◌, ◌≡◌, refl, sym, ap, ◌∙◌, subst, Bool, true, Option, none, some, List, [],
  ◌∷◌, ◌++◌, length, All, arith,
}
use dcrud.Util.Status.{no_error, Build}
use dcrud.Coll.Compare.{Ordering}
use dcrud.Coll.Libc.{Libc}
use dcrud.Io.ByteBuffer
use dcrud.Io.ByteBuffer.{Buffer, Order, add_size}
use dcrud.Io.ByteBuffer.Allocation.{copy}
use dcrud.Io.ByteBuffer.Copies.{HasMemory, Holds, copy-Holds}
use dcrud.Io.ByteBuffer.Numbers.{get_uint}
use dcrud.Io.ByteBuffer.Words.{wire, length-wire, swap32-IsSwap}
use dcrud.Io.ByteBuffer.Streams.{Fits, advance, unread, unread_rest, unread-Fits}
use dcrud.Io.ByteBuffer.Wire.{IsOpen, advance-IsOpen, get_word-advance}
use dcrud.Crud.Protocol.{guid_size, class_id_size}
use dcrud.Util.SafeCast.{with_self-genuine}
use dcrud.Coll.CollSet
use dcrud.Crud.Cache.{Cache, Received, compare_received, cache_magic, update_from_network}
use dcrud.Crud.Receiver.{Memory, hand_over, update_caches, skip, data_update}

-- An entry of the array of caches is NULL or a cache.
abbrev pub IsCache : {P G : Type 0} → Option (Cache P G) → Type 0
IsCache none = Unit
IsCache (some cache) = cache.magic ≡ cache_magic

-- There is memory for every copy of so many bytes.
pub record Suffices (build : Build) (memory : ℕ → Memory) (size : ℕ) : Type 0 where
  pub objects : (i : ℕ) → (memory i).allocated ≡ true
  pub arrays : (i : ℕ) → HasMemory build (memory i).reserve size

module _ {frame : Buffer} (body rest : List ℕ) (o : IsOpen frame) (e : unread frame ≡ body ++ rest)
    (size : ℕ) (l : length body ≡ guid_size + class_id_size + size) where
  -- `dcrudNetworkReceiver_dataUpdate` leaves the frame behind the object that it copied.
  skip_lem : skip (some frame) size ≡ (no_error, some (advance frame (length body)))
  unfolding ByteBuffer.get_position ByteBuffer.set_position advance
  skip_lem = ground (arith, unread-Fits body rest o.valid e)

  module _ (build : Build) (memory : ℕ → Memory) (small : length body < 2 ^ 32)
      (enough : Suffices build memory (length body)) where
    copies :
        (i : ℕ)
        → Holds body (
            copy build
              (memory i).reserve
              (memory i).allocated
              (some frame)
              none
              ((guid_size + class_id_size + size) % 2 ^ 32))
    copies i =
        let n : (guid_size + class_id_size + size) % 2 ^ 32 ≡ length body = omega arith in
        rw (enough.objects i, n) (copy-Holds none body rest o e (enough.arrays i) (omega arith))

module _ (libc : (A : Type 0) (cmp : A → A → Ordering) → Libc cmp) (build : Build)
    (reallocated : Bool) {P G : Type 0} (memory : ℕ → Memory) (body : List ℕ) where
  -- Every cache before the first NULL was handed a buffer of its own with these bytes, by
  -- `dcrudCache_updateFromNetwork`.
  pub data Delivered : ℕ → List (Option (Cache P G)) → List (Option (Cache P G)) → Type 0 where
    finished : (i : ℕ) → Delivered i [] []
    null :
        (i : ℕ) (caches : List (Option (Cache P G))) → Delivered i (none ∷ caches) (none ∷ caches)
    handed :
        (i : ℕ) (cache : Cache P G) {caches caches' : List (Option (Cache P G))} (b : Buffer)
        → IsOpen b
        → unread b ≡ body
        → Delivered (i + 1) caches caches'
        → Delivered i (some cache ∷ caches) (
            (update_from_network libc build reallocated
              (some cache)
              (record { address = (memory i).address; buffer = some b })).1
            ∷ caches')

  module _ {frame : Buffer} (rest : List ℕ) (o : IsOpen frame) (e : unread frame ≡ body ++ rest)
      (size : ℕ) (l : length body ≡ guid_size + class_id_size + size) (small : length body < 2 ^ 32)
      (enough : Suffices build memory (length body)) where
    one :
        (i : ℕ) (cache : Cache P G)
        → cache.magic ≡ cache_magic
        → hand_over libc build reallocated memory (some frame) size i cache (
            copy build
              (memory i).reserve
              (memory i).allocated
              (some frame)
              none
              ((guid_size + class_id_size + size) % 2 ^ 32))
          ≡ (
            no_error,
            (update_from_network libc build reallocated (some cache) (record {
              address = (memory i).address;
              buffer = some (copies body rest o e size l build memory small enough i).copied;
            })).1,
          )
    unfolding update_from_network
    one i cache g =
        ap (hand_over libc build reallocated memory (some frame) size i cache) (λ j. (
          (copies body rest o e size l build memory small enough i).fine j,
          (copies body rest o e size l build memory small enough i).is_copied j,
        ))
        ∙ (let given : Received = record {
          address = (memory i).address;
          buffer = some (copies body rest o e size l build memory small enough i).copied;
        } in
            let frame =
              with_self-genuine (λ c. c.magic) cache_magic cache
                (λ c. (
                  no_error,
                  record c {
                    to_update =
                        (CollSet.add (libc Received compare_received) build reallocated c.to_update
                          given).1;
                  },
                ))
                g in
            ap (λ t. (t.0, t.1)) frame ∙ ap (λ t. (no_error, t.1)) (sym frame))

    update_caches-Delivered :
        (i : ℕ) (caches : List (Option (Cache P G)))
        → All IsCache caches
        → let r = update_caches libc build reallocated memory (some frame) size i caches in
          (r.0 ≡ no_error) × Delivered i caches r.1
    unfolding update_caches
    update_caches-Delivered i [] h = (refl, Delivered.finished i)
    update_caches-Delivered i (none ∷ caches) h = (refl, Delivered.null i caches)
    update_caches-Delivered i (some cache ∷ caches) h =
        let (fine, later) = update_caches-Delivered (i + 1) caches h.1 in
        let c = copies body rest o e size l build memory small enough i in
        rw (one i cache h.0) (fine, Delivered.handed i cache c.copied c.copied_open c.content later)

module _ (libc : (A : Type 0) (cmp : A → A → Ordering) → Libc cmp) (build : Build)
    (reallocated host_big : Bool) {P G : Type 0} (memory : ℕ → Memory) where
  -- A frame of `dcrudNetworkReceiver_dataUpdate` is a size and then as many bytes behind the identity
  -- and the class. Every cache before the first NULL is handed a copy of these, and they are skipped.
  pub data_update-Delivered :
      {frame : Buffer} (size : ℕ) (body rest : List ℕ)
      → IsOpen frame
      → unread frame ≡ wire frame.order 4 size ++ (body ++ rest)
      → length body ≡ guid_size + class_id_size + size
      → length body < 2 ^ 32
      → Suffices build memory (length body)
      → (caches : List (Option (Cache P G))) → All IsCache caches
      → let r = data_update libc build reallocated host_big memory (some frame) caches in
        (r.0 ≡ no_error)
        × (r.1 ≡ some (advance (advance frame 4) (length body)))
        × Delivered libc build reallocated memory body 0 caches r.2
  unfolding data_update get_uint
  data_update-Delivered {frame} size body rest o e l small enough caches h =
      let w = length-wire frame.order 4 size in
      let fits : Fits frame 4 =
        subst (Fits frame) w (unread-Fits (wire frame.order 4 size) (body ++ rest) o.valid e) in
      let o' = advance-IsOpen 4 o fits in
      let e' : unread (advance frame 4) ≡ body ++ rest =
        subst (λ n. unread (advance frame n) ≡ body ++ rest) w
          (unread_rest (wire frame.order 4 size) (body ++ rest) o.valid e) in
      let (fine, delivered) =
        update_caches-Delivered libc build reallocated memory body rest o' e' size l small enough 0
          caches h in
      rw
        (
          get_word-advance o swap32-IsSwap (omega arith) host_big size (body ++ rest) (omega arith)
              e,
          fine,
          skip_lem body rest o' e' size l,
        )
        (refl, refl, delivered)
