-- ===== src/Actor/Registry/Update.antt =====
-- What `register_at` stores, in each of its three cases.
use smalltalk_a_vm.Prelude.{
  ℕ, suc, ◌+◌, ◌*◌, ◌≤◌, ◌<◌, ◌≡◌, ◌≢◌, sym, ap, ◌∙◌, arith, true, false, some, length, set,
  length-set, ◌==◌,
}
use smalltalk_a_vm.Prelude.Words.{u32_max}
use smalltalk_a_vm.Probe.{load, content, IsProbed, Absent, Reaches}
use smalltalk_a_vm.Probe.Invariant.{load-set_fresh, load-set_same}
use smalltalk_a_vm.Probe.Entries.{live_count, live_count-set}
use smalltalk_a_vm.Probe.Content.{store_lem}
use smalltalk_a_vm.Actor.Registry.{
  Entry, Registry, entry_empty, entry_tombstone, entry_at, is_live, register_at,
}
use smalltalk_a_vm.Actor.Registry.Slot.{slots}
use smalltalk_a_vm.Actor.Registry.Invariant.{IsValid, room}
use smalltalk_a_vm.Actor.Registry.Growth.{live-le-load}

abbrev pub new_entry : ℕ → ℕ → Entry
new_entry id actor = record { actor_id = id; actor = actor }

-- The registry that holds `actor` under `id` and is otherwise `reg`.
pub record Updated (reg : Registry) (id actor : ℕ) (reg' : Registry) : Type 0 where
  pub valid : IsValid reg'
  pub here : content slots reg'.entries id ≡ some (new_entry id actor)
  pub elsewhere : (j : ℕ) → j ≢ id → content slots reg'.entries j ≡ content slots reg.entries j

module _ (reg : Registry) (id actor : ℕ) (v : IsValid reg) (not_empty : id ≢ entry_empty)
    (not_tombstone : id ≢ entry_tombstone) where
  -- The slot `q` is empty or a tombstone.
  fresh_at :
      (q : ℕ)
      → q < length reg.entries
      → Reaches slots reg.entries id q
      → Absent slots reg.entries id
      → is_live (entry_at reg.entries q) ≡ false
      → load slots (set reg.entries q (new_entry id actor)) < length reg.entries
      → IsProbed slots (set reg.entries q (new_entry id actor))
        × (content slots (set reg.entries q (new_entry id actor)) id ≡ some (new_entry id actor))
        × ((j : ℕ)
            → j ≢ id
            → content slots (set reg.entries q (new_entry id actor)) j
              ≡ content slots reg.entries j)
  fresh_at q inside r absent dead room' =
      store_lem slots reg.entries id q (new_entry id actor) v.probed (room v) inside (ground arith)
        r (λ i a h. let f = absent i a in absurd (ground arith)) (λ j h. absurd (ground arith))
        (rw (length-set reg.entries q (new_entry id actor)) room')

  -- An entry with the id is there: its pointer is replaced.
  pub replaced :
      (p tomb : ℕ)
      → p < length reg.entries
      → Reaches slots reg.entries id p
      → (entry_at reg.entries p).actor_id ≡ id
      → Updated reg id actor (register_at reg id actor p tomb)
  unfolding register_at
  replaced p tomb inside r here =
      let (probed, at, other) =
        store_lem slots reg.entries id p entry v.probed (room v) inside (ground arith) r
          (λ q a h. v.probed.one id q p a inside h (ground arith)) (λ j h. ground arith)
          (rw (length-set reg.entries p entry, loads) (room v)) in
      rw taken (record {
        valid = record {
          power = v.power;
          sized = length-set reg.entries p entry ∙ v.sized;
          probed = probed;
          counted = lives;
          loaded = v.loaded ∙ sym loads;
          slack = v.slack;
          large = v.large;
          small = v.small;
        };
        here = at ∙ ap some whole;
        elsewhere = other;
      })
    where
      entry : Entry
      entry = record (entry_at reg.entries p) { actor = actor }

      whole : entry ≡ new_entry id actor
      whole = ap (λ i. record { actor_id = i; actor = actor }) here

      taken : ((entry_at reg.entries p).actor_id == entry_empty) ≡ false
      taken = ground arith

      loads : load slots (set reg.entries p entry) ≡ load slots reg.entries
      loads = load-set_same slots reg.entries p entry inside (ground arith) (ground arith)

      lives : reg.count ≡ live_count slots is_live (set reg.entries p entry)
      lives = ground (arith, live_count-set slots is_live reg.entries p entry inside, v.counted)

  -- The search ended at an empty entry, and passed no tombstone.
  pub appended :
      (p : ℕ)
      → reg.used * 10 < reg.capacity * 7
      → p < length reg.entries
      → Reaches slots reg.entries id p
      → Absent slots reg.entries id
      → (entry_at reg.entries p).actor_id ≡ entry_empty
      → Updated reg id actor (register_at reg id actor p u32_max)
  unfolding register_at
  appended p slack inside r absent vacant =
      let (probed, at, other) =
        fresh_at p inside r absent (ground arith) (omega (arith, loads, v.loaded, v.sized)) in
      rw taken (record {
        valid = record {
          power = v.power;
          sized = length-set reg.entries p entry ∙ v.sized;
          probed = probed;
          counted = omega (arith, lives, live-le);
          loaded = omega (arith, loads, v.loaded);
          slack = omega arith;
          large = v.large;
          small = v.small;
        };
        here = at;
        elsewhere = other;
      })
    where
      entry : Entry
      entry = new_entry id actor

      taken : ((entry_at reg.entries p).actor_id == entry_empty) ≡ true
      taken = ground arith

      loads : load slots (set reg.entries p entry) ≡ suc (load slots reg.entries)
      loads = load-set_fresh slots reg.entries p entry inside (ground arith) (ground arith)

      live-le : live_count slots is_live reg.entries ≤ load slots reg.entries
      live-le = live-le-load reg.entries

      lives : live_count slots is_live (set reg.entries p entry) ≡ reg.count + 1
      lives = ground (arith, live_count-set slots is_live reg.entries p entry inside, v.counted)

  -- It passed a tombstone, which is used again.
  pub recycled :
      (p q : ℕ)
      → q ≢ u32_max
      → q < length reg.entries
      → Reaches slots reg.entries id q
      → Absent slots reg.entries id
      → (entry_at reg.entries p).actor_id ≡ entry_empty
      → (entry_at reg.entries q).actor_id ≡ entry_tombstone
      → Updated reg id actor (register_at reg id actor p q)
  unfolding register_at
  recycled p q ne inside r absent vacant buried =
      let (probed, at, other) =
        fresh_at q inside r absent (ground arith) (omega (arith, loads, room v)) in
      rw (taken, passed)
        (record {
          valid = record {
            power = v.power;
            sized = length-set reg.entries q entry ∙ v.sized;
            probed = probed;
            counted = omega (arith, lives, live-le-load reg.entries);
            loaded = v.loaded ∙ sym loads;
            slack = v.slack;
            large = v.large;
            small = v.small;
          };
          here = at;
          elsewhere = other;
        })
    where
      entry : Entry
      entry = new_entry id actor

      taken : ((entry_at reg.entries p).actor_id == entry_empty) ≡ true
      taken = ground arith

      passed : (q == u32_max) ≡ false
      passed = ground arith

      loads : load slots (set reg.entries q entry) ≡ load slots reg.entries
      loads = load-set_same slots reg.entries q entry inside (ground arith) (ground arith)

      lives : live_count slots is_live (set reg.entries q entry) ≡ reg.count + 1
      lives = ground (arith, live_count-set slots is_live reg.entries q entry inside, v.counted)
