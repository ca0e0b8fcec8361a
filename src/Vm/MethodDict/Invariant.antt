-- ===== src/Vm/MethodDict/Invariant.antt =====
-- The representation invariant of a method dictionary, and what a lookup returns under it.
use smalltalk_a_vm.Prelude.{
  ℕ, ◌*◌, ◌^◌, ◌≤◌, ◌<◌, ◌≡◌, ◌≢◌, refl, sym, ◌∙◌, arith, true, false, Option, none, some, length,
  ◌==◌, ◌⊎◌, if◌then◌else◌, inl, inr, replicate, length-replicate, Option-cases, ℕ_discrete, ap,
  get_or-replicate,
}
use smalltalk_a_vm.Probe.{load, content, IsProbed, Absent, Reaches}
use smalltalk_a_vm.Probe.Invariant.{replicate-IsProbed, load-replicate}
use smalltalk_a_vm.Probe.Seek.{seek_sound}
use smalltalk_a_vm.Probe.Find.{find_cases, content_stored, content-Absent}
use smalltalk_a_vm.Vm.MethodDict.{
  Pair, Dict, no_pair, capacity, pair_at, probe, lookup, create, probe_pos,
}
use smalltalk_a_vm.Vm.MethodDict.Slot.{slots, probe-eq-find}

-- The method that stands under a selector, 0 for none.
abbrev pub method_in : Option Pair → ℕ
method_in none = 0
method_in (some s) = s.method

module _ (hash : ℕ → ℕ) where
  pub record IsValid (d : Dict) : Type 0 where
    pub probed : IsProbed (slots hash) d.array
    pub counted : d.tally ≡ load (slots hash) d.array
    pub slack : d.tally * 10 ≤ capacity d * 7
    pub large : 0 < capacity d
    pub small : capacity d ≤ 2 ^ 28

  pub room : {d : Dict} → IsValid d → load (slots hash) d.array < length d.array
  room v = omega arith

  -- Where the loop of every operation stops.
  pub probe_cases :
      (d : Dict) (k : ℕ)
      → IsValid d
      → k ≢ 0
      → (p : ℕ) × (probe hash d.array k ≡ some p)
        × (p < length d.array)
        × Reaches (slots hash) d.array k p
        × (((pair_at d.array p).selector ≡ k)
              × (content (slots hash) d.array k ≡ some (pair_at d.array p))
            ⊎ ((pair_at d.array p).selector ≡ 0)
              × (content (slots hash) d.array k ≡ none)
              × Absent (slots hash) d.array k)
  probe_cases d k v real =
      let (p, found, inside, r, split) = find_cases (slots hash) d.array k v.probed (room v) in
      (
        p,
        probe-eq-find hash d.array k v.large (omega arith) real ∙ found,
        inside,
        r,
        elim split [
          | inl h ↦
              inl (
                ground arith,
                content_stored (slots hash) d.array k _ v.probed (p, inside, refl, h),
              )
          | inr (f, absent) ↦
              inr (ground arith, content-Absent (slots hash) d.array k absent (room v), absent)
        ],
      )

  pub lookup-eq-content :
      (d : Dict) (k : ℕ)
      → IsValid d
      → k ≢ 0
      → lookup hash d k ≡ method_in (content (slots hash) d.array k)
  unfolding lookup
  lookup-eq-content d k v real =
      let (p, found, _, _, c) = probe_cases d k v real in
      elim c [
        | inl (e, h) ↦
            let ne : ((pair_at d.array p).selector == 0) ≡ false = ground arith in
            rw (found, h, ne, lookup)
        | inr e ↦
            let (z, h, _) = e in
            let eq : ((pair_at d.array p).selector == 0) ≡ true = ground arith in
            rw (found, h, eq, lookup)
      ]

  -- The OOP 0 is no selector.
  pub lookup-zero : (d : Dict) → lookup hash d 0 ≡ 0
  unfolding lookup probe
  lookup-zero d = elim (Option-cases (probe hash d.array 0)) [
    | inl e ↦ rw (e, lookup) refl
    | inr (p, e) ↦
        let (_, _, _, _, stop, _) =
          seek_sound _ (pair_at d.array) (probe_pos hash (length d.array) 0) (length d.array) 0 p
            e in
        let z : ((pair_at d.array p).selector == 0) ≡ true = ground arith in rw (e, z, lookup) refl
  ]

  -- A new dictionary is valid and holds no selector, for any capacity asked for up to 2^28.
  pub create-lookup :
      (requested : ℕ)
      → requested ≤ 2 ^ 28
      → IsValid (create requested) × ((k : ℕ) → lookup hash (create requested) k ≡ 0)
  unfolding create
  create-lookup requested small =
      let v = valid in
      (
        v,
        λ k. elim (ℕ_discrete k 0) [
          | yes z ↦ ap (lookup hash (create requested)) z ∙ lookup-zero (create requested)
          | no real ↦ lookup-eq-content (create requested) k v real ∙ absent k
        ],
      )
    where
      cap : ℕ
      cap = if requested == 0 then 4 else requested

      bound : (0 < cap) × (cap ≤ 2 ^ 28)
      bound = ground arith

      vacant : load (slots hash) (replicate cap no_pair) ≡ 0
      vacant = load-replicate (slots hash) cap

      len : length (replicate cap no_pair) ≡ cap
      len = length-replicate cap no_pair

      valid : IsValid (create requested)
      valid = record {
        probed = replicate-IsProbed (slots hash) cap;
        counted = sym vacant;
        slack = omega arith;
        large = omega (arith, len, bound);
        small = omega (arith, len, bound);
      }

      absent : (k : ℕ) → method_in (content (slots hash) (create requested).array k) ≡ 0
      absent k =
          rw
            (content-Absent (slots hash) (replicate cap no_pair) k (λ p a. (replicate-none k p))
              (omega (arith, len, vacant, bound)))
            refl
        where
          replicate-none :
              (k p : ℕ) → (slots hash).holds k (pair_at (replicate cap no_pair) p) ≡ false
          replicate-none k p = rw (get_or-replicate cap no_pair p) refl
