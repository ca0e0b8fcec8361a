-- ===== src/Actor/Registry/Unregister.antt =====
-- `sta_registry_unregister`: the entry becomes a tombstone, and the other paths stay.
use smalltalk_a_vm.Prelude.{
  ℕ, suc, ◌+◌, ◌-◌, ◌%◌, ◌^◌, ◌<◌, ◌≡◌, ◌≢◌, refl, sym, ap, ◌∙◌, arith, true, false, ◌||◌, none,
  some, length, set, length-set, ◌==◌, if◌then◌else◌, inl, inr, Bool-cases,
}
use smalltalk_a_vm.Probe.{load, content}
use smalltalk_a_vm.Probe.Invariant.{bury-IsProbed, load-set_same}
use smalltalk_a_vm.Probe.Entries.{live_count, live_count-set}
use smalltalk_a_vm.Probe.Content.{content_elsewhere, content_buried}
use smalltalk_a_vm.Actor.Registry.{
  Entry, Registry, entry_empty, entry_tombstone, entry_at, is_live, unregister, lookup,
}
use smalltalk_a_vm.Actor.Registry.Slot.{slots}
use smalltalk_a_vm.Actor.Registry.Invariant.{
  IsValid, room, actor_in, search_cases, retained-null, sentinel_content,
}
use smalltalk_a_vm.Actor.Registry.Growth.{live-le-load}
use smalltalk_a_vm.Actor.Registry.Answers.{Answers-of_content}

-- The entry at `p` becomes a tombstone.
module _ (reg : Registry) (id p : ℕ) (v : IsValid reg) (inside : p < length reg.entries)
    (not_empty : id ≢ entry_empty) (not_tombstone : id ≢ entry_tombstone)
    (here : (entry_at reg.entries p).actor_id ≡ id) where
  abbrev tombstone : Entry
  tombstone = record { actor_id = entry_tombstone; actor = 0 }

  abbrev buried : Registry
  buried = record reg {
    entries = set reg.entries p tombstone;
    count = (reg.count + 2 ^ 32 - 1) % 2 ^ 32;
  }

  buried_load : load slots buried.entries ≡ load slots reg.entries
  buried_load = load-set_same slots reg.entries p tombstone inside (ground arith) (ground arith)

  buried_count : suc (live_count slots is_live buried.entries) ≡ reg.count
  buried_count =
      ground (arith, live_count-set slots is_live reg.entries p tombstone inside, v.counted)

  buried-IsValid : IsValid buried
  buried-IsValid = record {
    power = v.power;
    sized = length-set reg.entries p tombstone ∙ v.sized;
    probed =
        bury-IsProbed slots reg.entries p tombstone v.probed inside (ground arith)
          (λ k. ground arith);
    counted = omega (arith, buried_count, live-le-load reg.entries);
    loaded = v.loaded ∙ sym buried_load;
    slack = v.slack;
    large = v.large;
    small = v.small;
  }

  buried_gone : content slots buried.entries id ≡ none
  buried_gone =
      content_buried slots reg.entries p tombstone inside id v.probed (ground arith) (ground arith)
        (room buried-IsValid)

  buried_others : (j : ℕ) → j ≢ id → content slots buried.entries j ≡ content slots reg.entries j
  buried_others j ne =
      content_elsewhere slots reg.entries p tombstone inside j v.probed (room v)
        buried-IsValid.probed (room buried-IsValid) (ground arith) (ground arith)

-- Unregistering always ends, keeps the invariant, and removes the id from the map and nothing else.
pub unregister-lookup :
    (reg : Registry) (id : ℕ)
    → IsValid reg
    → (reg' : Registry) × (unregister reg id ≡ some reg')
      × IsValid reg'
      × ((j : ℕ) (refcounts : ℕ → ℕ)
          → lookup reg' refcounts j
            ≡ (if j == id then some (0, refcounts) else lookup reg refcounts j))
unfolding unregister
unregister-lookup reg id v = elim (Bool-cases (id == entry_empty || id == entry_tombstone)) [
  | inl s ↦ (reg, rw s, v, removed reg v (sentinel_content reg id v (ground arith)) (λ j ne. refl))
  | inr s ↦
      let not_empty : id ≢ entry_empty = ground arith in
      let not_tombstone : id ≢ entry_tombstone = ground arith in
      let (p, found, inside, c) = search_cases reg id v not_empty not_tombstone in
      elim c [
        | inr (e, gone) ↦
            let vacant : ((entry_at reg.entries p).actor_id == entry_empty) ≡ true = ground arith in
            (reg, rw (s, found, unregister, vacant), v, removed reg v gone (λ j ne. refl))
        | inl (here, _) ↦
            let taken : ((entry_at reg.entries p).actor_id == entry_empty) ≡ false = ground arith in
            (
              buried reg id p v inside not_empty not_tombstone here,
              rw (s, found, unregister, taken),
              buried-IsValid reg id p v inside not_empty not_tombstone here,
              removed _ (buried-IsValid reg id p v inside not_empty not_tombstone here)
                  (buried_gone reg id p v inside not_empty not_tombstone here)
                  (buried_others reg id p v inside not_empty not_tombstone here),
            )
      ]
]
  where
    removed :
        (reg' : Registry)
        → IsValid reg'
        → content slots reg'.entries id ≡ none
        → ((j : ℕ) → j ≢ id → content slots reg'.entries j ≡ content slots reg.entries j)
        → (j : ℕ) (refcounts : ℕ → ℕ)
        → lookup reg' refcounts j
          ≡ (if j == id then some (0, refcounts) else lookup reg refcounts j)
    removed reg' v' gone other j refcounts =
        Answers-of_content reg reg' id 0 v v' (ap actor_in gone) other j refcounts
        ∙ ap (λ r. if j == id then some (0, r) else lookup reg refcounts j)
            (retained-null refcounts)
