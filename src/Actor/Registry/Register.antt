-- ===== src/Actor/Registry/Register.antt =====
-- The loop of `sta_registry_register`: it stops where a search stops, and remembers the first
-- tombstone on the way.
use smalltalk_a_vm.Prelude.{
  ℕ, zero, suc, ◌+◌, ◌-◌, ◌^◌, ◌≤◌, ◌<◌, ◌≡◌, ◌≢◌, refl, sym, ◌∙◌, subst, arith, true, ◌&&◌, ◌||◌,
  some, ◌==◌, if◌then◌else◌, ◌⊎◌, inl, inr, Bool-cases, dec_lt,
}
use smalltalk_a_vm.Prelude.Words.{u32_max}
use smalltalk_a_vm.Probe.{ring_pos, slot_at, stops_at}
use smalltalk_a_vm.Probe.Seek.{Passes}
use smalltalk_a_vm.Probe.Ring.{step_mask32}
use smalltalk_a_vm.Actor.Registry.{
  Registry, entry_empty, entry_tombstone, entry_at, register_loop, register_at,
}
use smalltalk_a_vm.Actor.Registry.Slot.{slots, same_stops}

-- No tombstone so far, or the position of one that was passed.
abbrev pub Passed : Registry → ℕ → ℕ → ℕ → Type 0
Passed reg id i tomb =
    (tomb ≡ u32_max)
    ⊎ ((d : ℕ) × (d < i)
        × (tomb ≡ ring_pos slots reg.capacity id d)
        × ((entry_at reg.entries tomb).actor_id ≡ entry_tombstone))

module _ (reg : Registry) (e id actor : ℕ) (power : reg.capacity ≡ 2 ^ e)
    (small : reg.capacity < 2 ^ 32) (not_empty : id ≢ entry_empty)
    (not_tombstone : id ≢ entry_tombstone) where
  abbrev pub pos : ℕ → ℕ
  pos = ring_pos slots reg.capacity id

  Passed-next :
      (i tomb : ℕ)
      → Passed reg id i tomb
      → Passed reg id (i + 1) (
          if (entry_at reg.entries (pos i)).actor_id == entry_tombstone && tomb == u32_max
          then pos i
          else tomb)
  Passed-next i tomb p =
      elim (Bool-cases
        ((entry_at reg.entries (pos i)).actor_id == entry_tombstone && tomb == u32_max)) [
          | inl c ↦ rw c (inr (i, omega arith, refl, ground arith))
          | inr c ↦
              rw c (elim p [ inl m ↦ inl m | inr (d, a, at, h) ↦ inr (d, omega arith, at, h) ])
        ]

  pub register_loop_lem :
      (n i d tomb : ℕ)
      → i ≤ d
      → d < i + n
      → stops_at slots id (slot_at slots reg.entries (pos d)) ≡ true
      → Passes (stops_at slots id) (slot_at slots reg.entries) pos i d
      → Passed reg id i tomb
      → (tomb' : ℕ) × Passed reg id d tomb'
        × (register_loop reg (reg.capacity - 1) id actor n (pos i) tomb
            ≡ some (register_at reg id actor (pos d) tomb'))
  unfolding register_loop
  register_loop_lem zero i d tomb a b s before t = absurd (omega arith)
  register_loop_lem (suc n) i d tomb a b s before t = elim (dec_lt i d) [
    | yes later ↦
        let miss =
          same_stops id (entry_at reg.entries (pos i)) not_empty not_tombstone
          ∙ before i (omega arith) later in
        let (tomb', t', e') =
          register_loop_lem n (i + 1) d _ (omega arith) (omega arith) s
            (λ j u v. before j (omega arith) v) (Passed-next i tomb t) in
        (tomb', t', rw (miss, step_mask32 e reg.capacity id i power small) e')
    | no here ↦
        let same : d ≡ i = omega arith in
        let stop = same_stops id (entry_at reg.entries (pos d)) not_empty not_tombstone ∙ s in
        let stop' =
          subst
            (λ k.
              ((entry_at reg.entries (pos k)).actor_id == entry_empty
                || (entry_at reg.entries (pos k)).actor_id == id)
              ≡ true)
            same stop in
        (tomb, subst (λ k. Passed reg id k tomb) (sym same) t, rw (stop', same))
  ]
