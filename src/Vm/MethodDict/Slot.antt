-- ===== src/Vm/MethodDict/Slot.antt =====
-- The pairs of a method dictionary as slots, and its loop as the search of a probed table.
use native.Mathlib.Nat.{mod-lt, mod-eq_of_lt, mod-add-mod}
use smalltalk_a_vm.Prelude.{
  ℕ, ◌+◌, ◌%◌, ◌^◌, ◌≤◌, ◌<◌, ◌≡◌, ◌≢◌, refl, ap, ◌∙◌, arith, Bool, true, not, ◌&&◌, List, length,
  ◌==◌,
}
use smalltalk_a_vm.Probe.{Slots, find, ring_pos}
use smalltalk_a_vm.Probe.Seek.{seek-cong}
use smalltalk_a_vm.Vm.MethodDict.{Pair, no_pair, probe, probe_pos, pair_at}

abbrev pub in_use : Pair → Bool
in_use s = not (s.selector == 0)

abbrev pub has_selector : ℕ → Pair → Bool
has_selector k s = in_use s && s.selector == k

pub in_use_if_has : (k : ℕ) (s : Pair) → has_selector k s ≡ true → in_use s ≡ true
in_use_if_has k s h = ground arith

pub one_selector : (j k : ℕ) (s : Pair) → has_selector j s ≡ true → has_selector k s ≡ true → j ≡ k
one_selector j k s h h' = ground arith

module _ (hash : ℕ → ℕ) where
  abbrev pub slots : Slots Pair ℕ
  slots = record {
    empty = no_pair;
    occupied = in_use;
    holds = has_selector;
    home = hash;
    empty_free = refl;
    holds_occupied = in_use_if_has;
    holds_one = one_selector;
  }

  pub probe_pos-eq-ring :
      (cap k i : ℕ)
      → 0 < cap
      → cap ≤ 2 ^ 31
      → i < cap
      → probe_pos hash cap k i ≡ ring_pos slots cap (hash k) i
  probe_pos-eq-ring cap k i pos small inside =
      ap (λ n. n % cap)
        (mod-eq_of_lt {n = hash k % cap + i} {m = 2 ^ 32}
          (omega (arith, mod-lt (hash k) {m = cap} pos)))
      ∙ mod-add-mod (hash k) cap i

  pub probe-eq-find :
      (xs : List Pair) (k : ℕ)
      → 0 < length xs
      → length xs ≤ 2 ^ 31
      → k ≢ 0
      → probe hash xs k ≡ find slots xs k
  unfolding probe
  probe-eq-find xs k pos small real =
      seek-cong _ _ (pair_at xs) (probe_pos hash (length xs) k)
        (ring_pos slots (length xs) (hash k)) (length xs) 0 (λ s. ground arith)
        (λ j a b. probe_pos-eq-ring (length xs) k j pos small (omega arith))
