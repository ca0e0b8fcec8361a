-- ===== src/Probe/Find.antt =====
-- The search of a probed table finds exactly the keys that it holds.
use smalltalk_a_vm.Prelude.{
  ℕ, ◌+◌, ◌≤◌, ◌<◌, ◌≡◌, ◌∙◌, subst, arith, Bool, true, false, none, some, List, length, Bool-cases,
  ◌⊎◌, inl, inr,
}
use native.Mathlib.Nat.{mod-lt}
use smalltalk_a_vm.Probe.{
  seek, Slots, slot_at, ring_pos, load, Clear, Reaches, Absent, IsProbed, stops_at, find, content,
  Stored,
}
use smalltalk_a_vm.Probe.Ring.{ring_injective, ring_surjective}
use smalltalk_a_vm.Probe.Seek.{seek_sound, seek_first, seek_total}
use smalltalk_a_vm.Probe.Invariant.{room_of_load}

module _ {S K : Type 0} (t : Slots S K) (xs : List S) (k : K) where
  pub find_hit :
      (p : ℕ)
      → IsProbed t xs
      → p < length xs
      → t.holds k (slot_at t xs p) ≡ true
      → find t xs k ≡ some p
  find_hit p v a h =
      let (d, d_in, e, clear) = v.reach k p a h in
      rw e (
        seek_first (stops_at t k) (slot_at t xs) (ring_pos t (length xs) (t.home k)) (length xs) 0 d
          (omega arith) (omega arith) (stop_here d e) (passes d d_in e clear))
    where
      stop_here :
          (d : ℕ)
          → p ≡ ring_pos t (length xs) (t.home k) d
          → stops_at t k (slot_at t xs (ring_pos t (length xs) (t.home k) d)) ≡ true
      stop_here d e = subst (λ q. stops_at t k (slot_at t xs q) ≡ true) e (ground arith)

      passes :
          (d : ℕ)
          → d < length xs
          → p ≡ ring_pos t (length xs) (t.home k) d
          → Clear t xs k d
          → (j : ℕ) → 0 ≤ j
          → j < d
          → stops_at t k (slot_at t xs (ring_pos t (length xs) (t.home k) j)) ≡ false
      passes d d_in e clear j _ b =
          elim (Bool-cases (t.holds k (slot_at t xs (ring_pos t (length xs) (t.home k) j)))) [
            | inl again ↦
                let same =
                  v.one k (ring_pos t (length xs) (t.home k) j) p (mod-lt _ (omega arith)) a again
                    h in
                let eq = ring_injective (length xs) (t.home k) j d (omega arith) d_in (same ∙ e) in
                absurd (omega arith)
            | inr other ↦ ground (arith, clear j b)
          ]

  -- A search that stops at empty slots, and maybe at others, ends if there is an empty slot.
  pub search_ends :
      (stop : S → Bool)
      → ((s : S) → t.occupied s ≡ false → stop s ≡ true)
      → load t xs < length xs
      → (p : ℕ) × (seek stop (slot_at t xs) (ring_pos t (length xs) (t.home k)) (length xs) 0
          ≡ some p)
        × (p < length xs)
        × (stop (slot_at t xs p) ≡ true)
        × Reaches t xs k p
  search_ends stop stops room =
      let (e, e_in, vacant) = room_of_load t xs room in
      let (d, d_in, at) = ring_surjective (length xs) (t.home k) e e_in in
      let vacant' = subst (λ q. t.occupied (slot_at t xs q) ≡ false) at vacant in
      let (p, found) =
        seek_total stop (slot_at t xs) pos (length xs) 0 d (omega arith) (omega arith)
          (stops _ vacant') in
      let (i, _, i_in, here, s, before) =
        seek_sound stop (slot_at t xs) pos (length xs) 0 p found in
      let inside : p < length xs = rw here (mod-lt (t.home k + i) {m = length xs} (omega arith)) in
      (p, found, inside, s, (i, omega arith, here, λ j b. clear j (before j (omega arith) b)))
    where
      pos : ℕ → ℕ
      pos = ring_pos t (length xs) (t.home k)

      clear :
          (j : ℕ) → stop (slot_at t xs (pos j)) ≡ false → t.occupied (slot_at t xs (pos j)) ≡ true
      clear j miss = elim (Bool-cases (t.occupied (slot_at t xs (pos j)))) [
        | inl o ↦ o
        | inr f ↦ let c = stops _ f in absurd (ground arith)
      ]

  -- Either the key is found, or the search ends at an empty slot where it may be put.
  pub find_cases :
      IsProbed t xs
      → load t xs < length xs
      → (p : ℕ) × (find t xs k ≡ some p)
        × (p < length xs)
        × Reaches t xs k p
        × ((t.holds k (slot_at t xs p) ≡ true)
            ⊎ ((t.occupied (slot_at t xs p) ≡ false) × Absent t xs k))
  find_cases v room =
      let (p, found, a, s, r) = search_ends (stops_at t k) (λ s f. ground arith) room in
      (p, found, a, r, split p found a s)
    where
      split :
          (p : ℕ)
          → find t xs k ≡ some p
          → p < length xs
          → stops_at t k (slot_at t xs p) ≡ true
          → (t.holds k (slot_at t xs p) ≡ true)
            ⊎ ((t.occupied (slot_at t xs p) ≡ false) × Absent t xs k)
      split p found a s = elim (Bool-cases (t.occupied (slot_at t xs p))) [
        | inl o ↦ inl (ground arith)
        | inr f ↦ inr (
          f,
          λ q b. elim (Bool-cases (t.holds k (slot_at t xs q))) [
            | inr none_here ↦ none_here
            | inl here ↦
                let e : q ≡ p = ground (arith, find_hit q v b here) in
                let o =
                  t.holds_occupied k _ (subst (λ r. t.holds k (slot_at t xs r) ≡ true) e here) in
                absurd (ground arith)
          ],
        )
      ]

  pub content_stored : (s : S) → IsProbed t xs → Stored t xs k s → content t xs k ≡ some s
  unfolding content
  content_stored s v (p, a, e, h) = let hit = find_hit p v a (rw e h) in rw (hit, content, e, h)

  pub content-Absent : Absent t xs k → load t xs < length xs → content t xs k ≡ none
  unfolding content
  content-Absent absent room =
      let (p, e, a, _, _) = search_ends (stops_at t k) (λ s f. ground arith) room in
      rw (e, content, absent p a)
