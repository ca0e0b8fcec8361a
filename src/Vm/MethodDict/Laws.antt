-- ===== src/Vm/MethodDict/Laws.antt =====
-- `sta_method_dict_insert` as an update of the map from selectors to methods.
use native.Mathlib.Nat.{mod-eq_of_lt}
use smalltalk_a_vm.Prelude.{
  ℕ, ◌+◌, ◌*◌, ◌^◌, ◌≤◌, ◌≡◌, ◌≢◌, refl, ◌∙◌, arith, Bool, true, false, none, some, ◌==◌,
  if◌then◌else◌, ◌⊎◌, inl, inr, Bool-cases, ltb, ℕ_discrete,
}
use smalltalk_a_vm.Probe.{content}
use smalltalk_a_vm.Vm.MethodDict.{
  Dict, capacity, pair_at, present, probe, overloaded, grown, insert_new, insert, lookup,
}
use smalltalk_a_vm.Vm.MethodDict.Slot.{slots}
use smalltalk_a_vm.Vm.MethodDict.Invariant.{IsValid, probe_cases, lookup-eq-content, lookup-zero}
use smalltalk_a_vm.Vm.MethodDict.Store.{Updated, replaced, added, grown-IsValid}

module _ (hash : ℕ → ℕ) where
  answers :
      (d d' : Dict) (memory : Bool) (k method : ℕ)
      → IsValid hash d
      → k ≢ 0
      → insert hash d memory k method ≡ some d'
      → Updated hash d k method d'
      → (d' : Dict) × (insert hash d memory k method ≡ some d')
        × IsValid hash d'
        × ((j : ℕ) → lookup hash d' j ≡ (if j == k then method else lookup hash d j))
  answers d d' memory k method v real runs u = (
    d',
    runs,
    u.valid,
    λ j. elim (Bool-cases (j == k)) [
      | inl e ↦
          let same : j ≡ k = ground arith in
          rw (e, same, lookup-eq-content hash d' k u.valid real, u.here)
      | inr ne ↦ elim (ℕ_discrete j 0) [
        | yes z ↦ rw (ne, z, lookup-zero hash d', lookup-zero hash d) refl
        | no some_j ↦ rw (
          ne,
          lookup-eq-content hash d' j u.valid some_j,
          lookup-eq-content hash d j v some_j,
          u.elsewhere j (ground arith),
        )
      ]
    ],
  )

  present_hit :
      (d : Dict) (k p : ℕ)
      → probe hash d.array k ≡ some p
      → (pair_at d.array p).selector ≡ k
      → k ≢ 0
      → present hash d.array k ≡ some p
  unfolding present
  present_hit d k p found here real =
      let ne : ((pair_at d.array p).selector == 0) ≡ false = ground arith in rw (found, ne, present)

  present_miss :
      (d : Dict) (k p : ℕ)
      → probe hash d.array k ≡ some p
      → (pair_at d.array p).selector ≡ 0
      → present hash d.array k ≡ none
  unfolding present
  present_miss d k p found vacant =
      let eq : ((pair_at d.array p).selector == 0) ≡ true = ground arith in rw (found, eq, present)

  overloaded_iff :
      (d : Dict) → IsValid hash d → overloaded d ≡ ltb (capacity d * 7) ((d.tally + 1) * 10)
  unfolding overloaded
  overloaded_iff d v = rw (
    mod-eq_of_lt {n = capacity d * 7} {m = 2 ^ 32} (omega (arith, v.small)),
    mod-eq_of_lt {n = (d.tally + 1) * 10} {m = 2 ^ 32} (omega (arith, v.small, v.slack)),
  )

  -- A new selector, into an array with room.
  inserted :
      (d : Dict) (k method : ℕ)
      → IsValid hash d
      → (d.tally + 1) * 10 ≤ capacity d * 7
      → k ≢ 0
      → content (slots hash) d.array k ≡ none
      → Updated hash d k method (insert_new hash d d.array k method)
  inserted d k method v slack real gone =
      let (p, found, inside, r, c) = probe_cases hash d k v real in
      elim c [
        | inl (e, h) ↦ absurd (ground arith)
        | inr e ↦
            let (z, _, absent) = e in added hash d k method p v slack real found inside r absent z
      ]

  -- Inserting a selector keeps the invariant, and from then on a lookup of the selector returns the
  -- method and a lookup of any other returns what it did, whether the selector was there, the array
  -- grows or not. Only without memory for a larger array may it return -1. The capacity is at most
  -- 2^27, so that it can still double, and no selector is the OOP 0.
  pub insert-lookup :
      (d : Dict) (memory : Bool) (k method : ℕ)
      → IsValid hash d
      → capacity d ≤ 2 ^ 27
      → k ≢ 0
      → ((d' : Dict) × (insert hash d memory k method ≡ some d')
          × IsValid hash d'
          × ((j : ℕ) → lookup hash d' j ≡ (if j == k then method else lookup hash d j)))
        ⊎ ((memory ≡ false) × (overloaded d ≡ true) × (insert hash d memory k method ≡ none))
  unfolding insert insert_new
  insert-lookup d memory k method v grows real =
      let (p, found, inside, r, c) = probe_cases hash d k v real in
      elim c [
        | inl (e, h) ↦ inl (
            answers d _ memory k method v real (rw (present_hit d k p found e real, insert) refl)
              (replaced hash d k method p v real inside r e))
        | inr e ↦
            let (z, gone, _) = e in
            let miss = present_miss d k p found z in
            elim (Bool-cases (overloaded d)) [
              | inr light ↦ inl (
                  answers d _ memory k method v real (rw (miss, light, insert) refl)
                    (inserted d k method v (slack light) real gone))
              | inl heavy ↦ elim (Bool-cases memory) [
                | inr poor ↦ inr (poor, heavy, rw (miss, heavy, poor, insert) refl)
                | inl rich ↦
                    let (v', len, same) = grown-IsValid hash d v grows in
                    let u =
                      inserted (record d { array = grown hash d.array }) k method v'
                        (omega (arith, len, v.slack, v.large)) real (same k ∙ gone) in
                    inl (
                      answers d _ memory k method v real (rw (miss, heavy, rich, insert) refl)
                        (record {
                          valid = u.valid;
                          here = u.here;
                          elsewhere = λ j ne. u.elsewhere j ne ∙ same j;
                        }))
              ]
            ]
      ]
    where
      slack : overloaded d ≡ false → (d.tally + 1) * 10 ≤ capacity d * 7
      slack light = ground (arith, overloaded_iff d v)
