-- ===== src/Vm/MethodDict/Store.antt =====
-- What `raw_insert` and the update in place store.
use native.Mathlib.Nat.{mod-eq_of_lt}
use smalltalk_a_vm.Prelude.{
  ℕ, ◌+◌, ◌*◌, ◌^◌, ◌≤◌, ◌<◌, ◌≡◌, ◌≢◌, refl, sym, ap, ◌∙◌, arith, true, false, not, some, List, [],
  ◌∷◌, length, set, length-set, ◌==◌, inl, inr,
}
use smalltalk_a_vm.Probe.{load, content, IsProbed, Absent, Reaches, slot_at}
use smalltalk_a_vm.Probe.Entries.{live_count}
use smalltalk_a_vm.Probe.Invariant.{load-set_fresh, load-set_same}
use smalltalk_a_vm.Probe.Find.{find_cases}
use smalltalk_a_vm.Probe.Content.{store_lem}
use smalltalk_a_vm.Probe.Rehash.{rehash_lem}
use smalltalk_a_vm.Vm.MethodDict.{
  Pair, Dict, capacity, pair_at, probe, grown, insert_new, raw_insert,
}
use smalltalk_a_vm.Vm.MethodDict.Slot.{slots, probe-eq-find}
use smalltalk_a_vm.Vm.MethodDict.Invariant.{IsValid, room}

abbrev pub new_pair : ℕ → ℕ → Pair
new_pair selector method = record { selector = selector; method = method }

module _ (hash : ℕ → ℕ) where
  -- The dictionary that holds `method` under `k` and is otherwise `d`.
  pub record Updated (d : Dict) (k method : ℕ) (d' : Dict) : Type 0 where
    pub valid : IsValid hash d'
    pub here : content (slots hash) d'.array k ≡ some (new_pair k method)
    pub elsewhere :
        (j : ℕ) → j ≢ k → content (slots hash) d'.array j ≡ content (slots hash) d.array j

  pub replaced :
      (d : Dict) (k method p : ℕ)
      → IsValid hash d
      → k ≢ 0
      → p < length d.array
      → Reaches (slots hash) d.array k p
      → (pair_at d.array p).selector ≡ k
      → Updated d k method
          (record d { array = set d.array p (record (pair_at d.array p) { method = method }) })
  replaced d k method p v real inside r here =
      let (probed, at, other) =
        store_lem (slots hash) d.array k p pair v.probed (room hash v) inside (ground arith) r
          (λ q a h. v.probed.one k q p a inside h (ground arith)) (λ j h. ground arith)
          (rw (len, loads) (room hash v)) in
      record {
        valid = record {
          probed = probed;
          counted = v.counted ∙ sym loads;
          slack = omega (arith, len, v.slack);
          large = omega (arith, len, v.large);
          small = omega (arith, len, v.small);
        };
        here = at ∙ ap some whole;
        elsewhere = other;
      }
    where
      pair : Pair
      pair = record (pair_at d.array p) { method = method }

      whole : pair ≡ new_pair k method
      whole = ap (λ i. record { selector = i; method = method }) here

      len : length (set d.array p pair) ≡ length d.array
      len = length-set d.array p pair

      loads : load (slots hash) (set d.array p pair) ≡ load (slots hash) d.array
      loads = load-set_same (slots hash) d.array p pair inside (ground arith) (ground arith)

  pub added :
      (d : Dict) (k method p : ℕ)
      → IsValid hash d
      → (d.tally + 1) * 10 ≤ capacity d * 7
      → k ≢ 0
      → probe hash d.array k ≡ some p
      → p < length d.array
      → Reaches (slots hash) d.array k p
      → Absent (slots hash) d.array k
      → (pair_at d.array p).selector ≡ 0
      → Updated d k method (insert_new hash d d.array k method)
  unfolding insert_new raw_insert
  added d k method p v slack real found inside r absent vacant =
      let (probed, at, other) =
        store_lem (slots hash) d.array k p (new_pair k method) v.probed (room hash v) inside
          (ground arith) r (λ i a h. let f = absent i a in absurd (ground arith))
          (λ j h. absurd (ground arith)) (rw (len, loads) (omega (arith, v.counted, slack))) in
      rw
        (
          found,
          mod-eq_of_lt {n = d.tally + 1} {m = 2 ^ 32} (omega (arith, v.small)),
          insert_new,
          raw_insert,
        )
        (record {
          valid = record {
            probed = probed;
            counted = omega (arith, loads, v.counted);
            slack = omega (arith, len, slack);
            large = omega (arith, len, v.large);
            small = omega (arith, len, v.small);
          };
          here = at;
          elsewhere = other;
        })
    where
      len : length (set d.array p (new_pair k method)) ≡ length d.array
      len = length-set d.array p (new_pair k method)

      loads : load (slots hash) (set d.array p (new_pair k method)) ≡ load (slots hash) d.array + 1
      loads =
          load-set_fresh (slots hash) d.array p (new_pair k method) inside (ground arith)
            (ground arith)
          ∙ omega arith

  spot_free :
      (cap : ℕ)
      → cap ≤ 2 ^ 31
      → (new : List Pair) (s : Pair) → length new ≡ cap
      → IsProbed (slots hash) new
      → load (slots hash) new < cap
      → not (s.selector == 0) ≡ true
      → Absent (slots hash) new s.selector
      → (p : ℕ) × (probe hash new s.selector ≡ some p)
        × (p < length new)
        × ((slots hash).occupied (slot_at (slots hash) new p) ≡ false)
        × Reaches (slots hash) new s.selector p
  spot_free cap small new s len v free live absent =
      let (p, found, inside, r, split) = find_cases (slots hash) new s.selector v (omega arith) in
      (
        p,
        probe-eq-find hash new s.selector (omega arith) (omega arith) (ground arith) ∙ found,
        inside,
        elim split [ inr (f, gone) ↦ f | inl h ↦ let f = absent p inside in absurd (ground arith) ],
        r,
      )

  live-eq-load :
      (xs : List Pair)
      → live_count (slots hash) (λ s. not (s.selector == 0)) xs ≡ load (slots hash) xs
  live-eq-load [] = refl
  live-eq-load (x ∷ xs) = ground (arith, live-eq-load xs)

  -- Growing keeps the invariant and what stands under every selector.
  pub grown-IsValid :
      (d : Dict)
      → IsValid hash d
      → capacity d ≤ 2 ^ 27
      → IsValid hash (record d { array = grown hash d.array })
        × (length (grown hash d.array) ≡ capacity d * 2)
        × ((k : ℕ) → content (slots hash) (grown hash d.array) k ≡ content (slots hash) d.array k)
  unfolding grown
  grown-IsValid d v grows =
      let (len, probed, counted, lived, same) =
        rehash_lem (slots hash) (λ s. not (s.selector == 0)) (λ s. s.selector)
          (λ new s. probe hash new s.selector) (length d.array * 2) (λ s h. ground arith)
          (λ k s h. ground arith) (spot_free (length d.array * 2) (omega arith)) d.array v.probed
          (room hash v) (omega (arith, live-eq-load d.array, room hash v)) in
      (
        record {
          probed = probed;
          counted = v.counted ∙ sym (live-eq-load d.array) ∙ sym counted;
          slack = omega (arith, len, v.slack);
          large = omega (arith, len, v.large);
          small = omega (arith, len);
        },
        len,
        same,
      )
