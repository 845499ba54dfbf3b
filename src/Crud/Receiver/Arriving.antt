-- ===== src/Crud/Receiver/Arriving.antt =====
-- How `dcrudNetworkReceiver_operation` (C/src/dcrud/NetworkReceiver.c) stores what it reads.
use dcrud.Base.{
  ℕ, ◌+◌, ◌*◌, ◌<◌, ◌≡◌, refl, sym, subst, Bool, true, Option, some, List, ◌∷◌, length, arith,
}
use dcrud.Util.Status.{Status, no_error, Build, static_allocation, dynamic_allocation}
use dcrud.Util.Strings
use dcrud.Coll.Compare.{Ordering}
use dcrud.Coll.Libc.{Libc}
use dcrud.Crud.Guid
use dcrud.Crud.Guid.{Guid}
use dcrud.Crud.Guid.Laws as GuidWire
use dcrud.Crud.Arguments.{Name, Arguments, with_arguments}
use dcrud.Crud.Arguments.Items.{Item, IsItem, type_of, value_of}
use dcrud.Crud.Arguments.Puts.{
  PutMemory, cloned, put_pair, put_value, put_number, put_string, put_guid, put_class_id,
}
use dcrud.Crud.Arguments.Stored.{Stored, put_pair-Stored}

-- The put for an item that was read.
abbrev pub put_item :
    ((A : Type 0) (cmp : A → A → Ordering) → Libc cmp)
    → Build
    → PutMemory
    → Bool
    → {P : Type 0} → Option (Arguments P)
    → Name
    → Item
    → Status × Option (Arguments P)
put_item libc build memory host_big self key (Item.number type x) =
    put_number libc build memory host_big type self (some key) x
put_item libc build memory host_big self key (Item.text s) =
    put_string libc build memory self (some key) (some s)
put_item libc build memory host_big self key (Item.class_id x) =
    put_class_id libc build memory self (some key) (some x)
put_item libc build memory host_big self key (Item.guid g) =
    put_guid libc build memory self (some key) (some g)

-- There is memory for the value, its name, and what it points to.
pub record IsEnough (memory : PutMemory) : Type 0 where
  pub value : memory.value ≡ true
  pub name : memory.name ≡ true
  pub content : memory.content ≡ true

clone-fine :
    (build : Build) (s : List ℕ)
    → length s + 1 < 64 * 1024
    → (Strings.clone build true true (some s)).0 ≡ no_error
unfolding Strings.clone Strings.new Strings.item_size
clone-fine static_allocation s h = ground arith
clone-fine dynamic_allocation s h = refl

clone_guid-fine : (g : Guid) → GuidWire.IsValid g → (Guid.clone true true (some g)).0 ≡ no_error
unfolding Guid.clone
clone_guid-fine g v = ground (arith, v.genuine)

module _ (libc : (A : Type 0) (cmp : A → A → Ordering) → Libc cmp) (build : Build)
    {memory : PutMemory} (enough : IsEnough memory) (host_big : Bool) {P : Type 0}
    (self : Option (Arguments P)) (key : Name) (short : length key < 1000) where
  cloned-fine : cloned build memory key ≡ no_error
  cloned-fine = rw enough.name (clone-fine build key (omega arith))

  -- With memory, the put is the one of the pair.
  put_item-put_pair :
      (item : Item)
      → IsItem item
      → put_item libc build memory host_big self key item
        ≡ with_arguments self
            (put_pair libc build memory key (type_of item) (some (value_of host_big item)))
  unfolding put_number put_string put_class_id put_guid put_value
  put_item-put_pair (Item.number type x) h = rw (enough.value, cloned-fine) refl
  put_item-put_pair (Item.text s) h =
      rw (enough.value, cloned-fine, enough.content, clone-fine build s h) refl
  put_item-put_pair (Item.class_id x) h = rw (enough.value, cloned-fine) refl
  put_item-put_pair (Item.guid g) h =
      rw (enough.value, cloned-fine, enough.content, clone_guid-fine g h) refl

  pub put_item-Stored :
      {mode queue : ℕ} {items : List (Name × Item)} (item : Item)
      → IsItem item
      → Stored build host_big mode queue items self
      → length items < 100
      → let (status, self') = put_item libc build memory host_big self key item in
        (status ≡ no_error) × Stored build host_big mode queue ((key, item) ∷ items) self'
  put_item-Stored {mode} {queue} {items} item h s few =
      subst (λ r. (r.0 ≡ no_error) × Stored build host_big mode queue ((key, item) ∷ items) r.1)
        (sym (put_item-put_pair item h)) (put_pair-Stored libc build memory host_big key item s few)
