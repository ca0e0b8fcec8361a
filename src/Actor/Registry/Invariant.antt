-- ===== src/Actor/Registry/Invariant.antt =====
-- The registry's representation invariant, and what a lookup returns under it.
use smalltalk_a_vm.Prelude.{
  ℕ, ◌+◌, ◌*◌, ◌^◌, ◌≤◌, ◌<◌, ◌≡◌, ◌≢◌, refl, ◌∙◌, arith, false, ◌||◌, Option, none, some, length,
  ◌==◌, ◌⊎◌, inl, inr, Bool-cases,
}
use smalltalk_a_vm.Probe.{load, content, IsProbed}
use smalltalk_a_vm.Probe.Entries.{live_count}
use smalltalk_a_vm.Probe.Find.{find_cases, content_stored, content-Absent}
use smalltalk_a_vm.Actor.Registry.{
  Entry, Registry, entry_empty, entry_tombstone, entry_at, is_live, search, lookup, retained,
}
use smalltalk_a_vm.Actor.Registry.Slot.{slots, search-eq-find}

pub record IsValid (reg : Registry) : Type 0 where
  pub power : (e : ℕ) × (reg.capacity ≡ 2 ^ e)
  pub sized : length reg.entries ≡ reg.capacity
  pub probed : IsProbed slots reg.entries
  pub counted : reg.count ≡ live_count slots is_live reg.entries
  pub loaded : reg.used ≡ load slots reg.entries
  pub slack : reg.used * 10 < reg.capacity * 7 + 10
  pub large : 8 ≤ reg.capacity
  pub small : reg.capacity ≤ 2 ^ 29

-- There is an empty entry, so every search ends.
pub room : {reg : Registry} → IsValid reg → load slots reg.entries < length reg.entries
room v = omega arith

-- The actor that stands under an id, 0 for none.
abbrev pub actor_in : Option Entry → ℕ
actor_in none = 0
actor_in (some e) = e.actor

unfoldable pub actor_of : Registry → ℕ → ℕ
actor_of reg id = actor_in (content slots reg.entries id)

-- Where `search` stops.
pub search_cases :
    (reg : Registry) (id : ℕ)
    → IsValid reg
    → id ≢ entry_empty
    → id ≢ entry_tombstone
    → (idx : ℕ) × (search reg id ≡ some idx)
      × (idx < length reg.entries)
      × (((entry_at reg.entries idx).actor_id ≡ id)
            × (content slots reg.entries id ≡ some (entry_at reg.entries idx))
          ⊎ ((entry_at reg.entries idx).actor_id ≡ entry_empty)
            × (content slots reg.entries id ≡ none))
search_cases reg id v a b =
    let (e, c) = v.power in
    let (p, found, inside, _, split) = find_cases slots reg.entries id v.probed (room v) in
    (
      p,
      search-eq-find reg e id c (omega arith) v.sized a b ∙ found,
      inside,
      elim split [
        | inl h ↦
            inl (ground arith, content_stored slots reg.entries id _ v.probed (p, inside, refl, h))
        | inr (f, absent) ↦ inr (ground arith, content-Absent slots reg.entries id absent (room v))
      ],
    )

pub retained-null : (refcounts : ℕ → ℕ) → retained refcounts 0 ≡ refcounts
unfolding retained
retained-null refcounts = refl

pub sentinel_content :
    (reg : Registry) (id : ℕ)
    → IsValid reg
    → (id ≡ entry_empty) ⊎ (id ≡ entry_tombstone)
    → content slots reg.entries id ≡ none
sentinel_content reg id v s = content-Absent slots reg.entries id (λ p a. ground arith) (room v)

pub lookup-eq-actor_of :
    (reg : Registry) (refcounts : ℕ → ℕ) (id : ℕ)
    → IsValid reg
    → lookup reg refcounts id ≡ some (actor_of reg id, retained refcounts (actor_of reg id))
unfolding lookup actor_of
lookup-eq-actor_of reg refcounts id v =
    elim (Bool-cases (id == entry_empty || id == entry_tombstone)) [
      | inl s ↦ rw (s, sentinel_content reg id v (ground arith), retained-null refcounts)
      | inr s ↦
          let (idx, found, _, c) = search_cases reg id v (ground arith) (ground arith) in
          elim c [
            | inl (e, h) ↦
                let ne : (id == entry_empty) ≡ false = ground arith in
                rw (s, found, h, e, ne, lookup)
            | inr (e, h) ↦ rw (s, found, h, e, lookup)
          ]
    ]
