-- ===== src/Actor/Registry/Insert.antt =====
-- `sta_registry_register` as an update of the map from ids to actors.
use native.Mathlib.Nat.{mod-lt}
use smalltalk_a_vm.Prelude.{
  ℕ, ◌+◌, ◌-◌, ◌*◌, ◌<◌, ◌≡◌, ◌≢◌, refl, sym, ap, ◌∙◌, subst, arith, true, false, some, length, ◌⊎◌,
  inl, inr,
}
use smalltalk_a_vm.Prelude.Words.{u32_max}
use smalltalk_a_vm.Probe.{seek, Absent, Reaches, ring_pos, slot_at, stops_at}
use smalltalk_a_vm.Probe.Seek.{Passes, seek_sound}
use smalltalk_a_vm.Probe.Ring.{start_mask}
use smalltalk_a_vm.Probe.Find.{find_cases}
use smalltalk_a_vm.Actor.Registry.{
  Registry, entry_empty, entry_tombstone, register_loop, register_at, insert_into,
}
use smalltalk_a_vm.Actor.Registry.Slot.{slots}
use smalltalk_a_vm.Actor.Registry.Invariant.{IsValid, room}
use smalltalk_a_vm.Actor.Registry.Register.{Passed, register_loop_lem}
use smalltalk_a_vm.Actor.Registry.Update.{Updated, replaced, appended, recycled}

module _ (reg : Registry) (id actor : ℕ) (v : IsValid reg)
    (slack : reg.used * 10 < reg.capacity * 7) (not_empty : id ≢ entry_empty)
    (not_tombstone : id ≢ entry_tombstone) where
  -- Where the loop stops, whatever tombstone it remembers.
  stopped :
      (p d tomb : ℕ)
      → p < length reg.entries
      → Reaches slots reg.entries id p
      → (((slots.holds id (slot_at slots reg.entries p)) ≡ true)
          ⊎ ((slots.occupied (slot_at slots reg.entries p) ≡ false) × Absent slots reg.entries id))
      → d < reg.capacity
      → Passes (stops_at slots id) (slot_at slots reg.entries) (ring_pos slots reg.capacity id) 0 d
      → Passed reg id d tomb
      → Updated reg id actor (register_at reg id actor p tomb)
  stopped p d tomb inside r (inl h) d_in before t =
      replaced reg id actor v not_empty not_tombstone p tomb inside r (ground arith)
  stopped p d tomb inside r (inr (f, absent)) d_in before (inl m) =
      subst (λ m. Updated reg id actor (register_at reg id actor p m)) (sym m)
        (appended reg id actor v not_empty not_tombstone p slack inside r absent (ground arith))
  stopped p d tomb inside r (inr (f, absent)) d_in before (inr (d', a, at, h)) =
      let bound : ring_pos slots reg.capacity id d' < reg.capacity =
        mod-lt (id + d') {m = reg.capacity} (omega arith) in
      recycled reg id actor v not_empty not_tombstone p tomb (omega arith) (omega (arith, v.sized))
        (d', omega (arith, v.sized), at ∙ ap (λ n. ring_pos slots n id d') (sym v.sized), clear)
        absent (ground arith) h
    where
      clear :
          (j : ℕ)
          → j < d'
          → slots.occupied (slot_at slots reg.entries (ring_pos slots (length reg.entries) id j))
            ≡ true
      clear j b = rw v.sized (ground (arith, before j (omega arith) (omega arith)))

  pub insert_into-Updated :
      (reg' : Registry) × (insert_into reg id actor ≡ some reg') × Updated reg id actor reg'
  unfolding insert_into
  insert_into-Updated =
      let (e, c) = v.power in
      let (p, found, inside, r, split) = find_cases slots reg.entries id v.probed (room v) in
      let found' =
        ap (λ n. seek (stops_at slots id) (slot_at slots reg.entries) (ring_pos slots n id) n 0)
          (sym v.sized)
        ∙ found in
      let (d, _, d_in, at, stop, before) =
        seek_sound (stops_at slots id) (slot_at slots reg.entries) (ring_pos slots reg.capacity id)
          reg.capacity 0 p found' in
      let stop' = subst (λ q. stops_at slots id (slot_at slots reg.entries q) ≡ true) at stop in
      let (tomb, t, ends) =
        register_loop_lem reg e id actor c (omega arith) not_empty not_tombstone reg.capacity 0 d
          u32_max (omega arith) d_in stop' before (inl refl) in
      (
        register_at reg id actor p tomb,
        ap (λ i. register_loop reg (reg.capacity - 1) id actor reg.capacity i u32_max)
              (start_mask e reg.capacity id c)
            ∙ ends
            ∙ ap (λ q. some (register_at reg id actor q tomb)) (sym at),
        stopped p d tomb inside r split (omega arith) before t,
      )
