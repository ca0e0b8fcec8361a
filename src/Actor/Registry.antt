-- ===== src/Actor/Registry.antt =====
-- The actor registry, src/actor/registry.c: a map from actor ids to actors by open addressing with
-- tombstones. A pointer is a number, 0 for NULL. Each operation runs under the registry's mutex, so
-- it is one step here; whether `calloc` succeeds is an argument.
pub mod Slot
pub mod Invariant
pub mod Growth
pub mod Register
pub mod Update
pub mod Insert
pub mod Answers
pub mod Laws
pub mod Unregister
pub mod Create
use smalltalk_a_vm.Prelude.{
  ℕ, zero, suc, ◌+◌, ◌-◌, ◌*◌, ◌%◌, ◌^◌, ◌≡◌, Bool, true, false, not, ◌&&◌, ◌||◌, Option, none,
  some, List, get_or, set, replicate, leb, ◌==◌, if◌then◌else◌, bit_and,
}
use smalltalk_a_vm.Prelude.Words.{u32_max}
use smalltalk_a_vm.Prelude.Pow2.{next_pow2}
use smalltalk_a_vm.Probe.{walk}
use smalltalk_a_vm.Probe.Rehash.{rehash}

abbrev pub entry_empty : ℕ
entry_empty = 0

abbrev pub entry_tombstone : ℕ
entry_tombstone = u32_max

-- `RegistryEntry`
pub record Entry : Type 0 where
  pub actor_id : ℕ
  pub actor : ℕ

-- What `calloc` leaves in a slot.
abbrev pub no_entry : Entry
no_entry = record { actor_id = entry_empty; actor = 0 }

-- `STA_ActorRegistry`
pub record Registry : Type 0 where
  pub entries : List Entry
  pub capacity : ℕ
  pub count : ℕ
  pub used : ℕ

abbrev pub entry_at : List Entry → ℕ → Entry
entry_at es i = get_or es i no_entry

-- `used * 10 >= capacity * 7`, in 32 bits.
unfoldable pub needs_grow : Registry → Bool
needs_grow reg = leb (reg.capacity * 7 % 2 ^ 32) (reg.used * 10 % 2 ^ 32)

-- The static function `probe`.
abbrev pub start_slot : ℕ → ℕ → ℕ
start_slot id mask = bit_and id mask

abbrev pub next_slot : ℕ → ℕ → ℕ
next_slot mask idx = bit_and ((idx + 1) % 2 ^ 32) mask

abbrev pub is_live : Entry → Bool
is_live e = not (e.actor_id == entry_empty || e.actor_id == entry_tombstone)

-- The inner loop of `registry_rehash`: the first empty slot from the entry's start on.
unfoldable pub rehash_spot : ℕ → List Entry → Entry → Option ℕ
rehash_spot cap fresh e =
    walk (λ x. x.actor_id == entry_empty) (entry_at fresh) (next_slot (cap - 1)) cap
      (start_slot e.actor_id (cap - 1))

-- `registry_rehash`, after `calloc`.
unfoldable pub registry_rehash : Registry → ℕ → Registry
registry_rehash reg new_cap = record reg {
  entries = rehash is_live (rehash_spot new_cap) reg.entries (replicate new_cap no_entry);
  capacity = new_cap;
  used = reg.count;
}

-- `sta_registry_create`, where every allocation succeeds.
unfoldable pub create : ℕ → Registry
create initial_capacity =
    let cap = next_pow2 (if leb 8 initial_capacity then initial_capacity else 8) in
    record { entries = replicate cap no_entry; capacity = cap; count = 0; used = 0 }

-- What the loop of `sta_registry_register` does where it stops, at `idx` with the first tombstone
-- that it passed.
unfoldable pub register_at : Registry → ℕ → ℕ → ℕ → ℕ → Registry
register_at reg id actor idx first_tombstone =
    if (entry_at reg.entries idx).actor_id == entry_empty
    then (if first_tombstone == u32_max
        then record reg {
          entries = set reg.entries idx (record { actor_id = id; actor = actor });
          count = (reg.count + 1) % 2 ^ 32;
          used = (reg.used + 1) % 2 ^ 32;
        }
        else record reg {
          entries = set reg.entries first_tombstone (record { actor_id = id; actor = actor });
          count = (reg.count + 1) % 2 ^ 32;
        })
    else record reg {
      entries = set reg.entries idx (record (entry_at reg.entries idx) { actor = actor });
    }

-- The loop of `sta_registry_register`, on fuel.
unfoldable pub register_loop : Registry → ℕ → ℕ → ℕ → ℕ → ℕ → ℕ → Option Registry
register_loop reg mask id actor zero idx first_tombstone = none
register_loop reg mask id actor (suc fuel) idx first_tombstone =
    let eid = (entry_at reg.entries idx).actor_id in
    let rest =
      register_loop reg mask id actor fuel (next_slot mask idx)
        (if eid == entry_tombstone && first_tombstone == u32_max then idx else first_tombstone) in
    if eid == entry_empty || eid == id
    then some (register_at reg id actor idx first_tombstone)
    else rest

-- What `sta_registry_register` does once there is room.
unfoldable pub insert_into : Registry → ℕ → ℕ → Option Registry
insert_into reg id actor =
    register_loop reg (reg.capacity - 1) id actor reg.capacity (start_slot id (reg.capacity - 1))
      u32_max

-- `sta_registry_register`; `memory` says whether `calloc` succeeds. `none` is a loop that does not
-- end within one turn.
unfoldable pub register : Registry → Bool → ℕ → ℕ → Option Registry
register reg memory id actor =
    if actor == 0 || id == entry_empty || id == entry_tombstone
    then some reg
    else if needs_grow reg
    then (if memory
        then insert_into (registry_rehash reg (reg.capacity * 2 % 2 ^ 32)) id actor
        else some reg)
    else insert_into reg id actor

-- The loops of `sta_registry_unregister` and `sta_registry_lookup`: stop at an empty entry or at
-- the id.
unfoldable pub search : Registry → ℕ → Option ℕ
search reg id =
    walk (λ e. e.actor_id == entry_empty || e.actor_id == id) (entry_at reg.entries)
      (next_slot (reg.capacity - 1)) reg.capacity (start_slot id (reg.capacity - 1))

-- `sta_registry_unregister`
unfoldable pub unregister : Registry → ℕ → Option Registry
unregister reg id =
    if id == entry_empty || id == entry_tombstone then some reg else elim (search reg id) [
      | none ↦ none
      | some idx ↦
          if (entry_at reg.entries idx).actor_id == entry_empty
          then some reg
          else some (record reg {
            entries = set reg.entries idx (record { actor_id = entry_tombstone; actor = 0 });
            count = (reg.count + 2 ^ 32 - 1) % 2 ^ 32;
          })
    ]

-- `atomic_fetch_add(&result->refcount, 1)` where the result is not NULL.
unfoldable pub retained : (ℕ → ℕ) → ℕ → ℕ → ℕ
retained refcounts result a =
    if not (result == 0) && a == result then (refcounts a + 1) % 2 ^ 32 else refcounts a

-- `sta_registry_lookup`. The second part is the reference counts of all actors, by address: the
-- count of the actor that is found goes up before the mutex is released.
unfoldable pub lookup : Registry → (ℕ → ℕ) → ℕ → Option (ℕ × (ℕ → ℕ))
lookup reg refcounts id =
    if id == entry_empty || id == entry_tombstone
    then some (0, refcounts)
    else elim (search reg id) [
      | none ↦ none
      | some idx ↦
          let e = entry_at reg.entries idx in
          let result : ℕ = if e.actor_id == entry_empty then 0 else e.actor in
          some (result, retained refcounts result)
    ]
