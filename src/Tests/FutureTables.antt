-- ===== src/Tests/FutureTables.antt =====
-- The table of futures, src/actor/future_table.c.
use smalltalk_a_vm.Prelude.{
  zero, suc, ◌%◌, sym, subst, inl, inr, ℕ_discrete, get_or-replicate, ℕ, ◌+◌, ◌<◌, ◌≡◌, refl, arith,
  true, some, replicate, set, List,
}
use smalltalk_a_vm.Probe.{seek, walk, slot_at, IsProbed, Stored}
use smalltalk_a_vm.Probe.Gap.{close_gap}
use smalltalk_a_vm.Probe.Invariant.{write-IsProbed, replicate-IsProbed, holds_elsewhere, holds_here}
use smalltalk_a_vm.Probe.Entries.{stored_set}
use smalltalk_a_vm.Actor.FutureTable.{
  Bucket, FutureTable, no_future, new, remove, scan, remove_at, free_spot,
}
use smalltalk_a_vm.Actor.FutureTable.Slot.{slots}
use smalltalk_a_vm.Actor.FutureTable.Invariant.{IsValid}
use smalltalk_a_vm.Actor.FutureTable.Laws.{Answers, new-find}
use smalltalk_a_vm.Actor.FutureTable.Remove.{remove-find}
use smalltalk_a_vm.Actor.FutureTable.Create.{vacant, vacant-IsValid}

new-find_example :
    (t' : FutureTable) × (new (vacant 8) 640 true ≡ some (t', 640))
    × IsValid t'
    × (t'.next_id ≡ 1 + 1)
    × Answers (vacant 8) t' 1 640
new-find_example =
    new-find (vacant 8) 640 (vacant-IsValid 8 3 (omega arith) (omega arith) refl) (omega arith)
      (omega arith) (omega arith)

-- The futures 1 and 9 share their home; 2 stands behind them.
abbrev first : Bucket
first = record { future = 640; future_id = 1 }

abbrev ninth : Bucket
ninth = record { future = 704; future_id = 9 }

abbrev second : Bucket
second = record { future = 768; future_id = 2 }

abbrev clustered : FutureTable
clustered = record {
  buckets = set (set (set (replicate 8 no_future) 1 first) 2 ninth) 3 second;
  capacity = 8;
  count = 3;
  next_id = 10;
}

-- Removing 1 moves 9 to its home and 2 to its own.
remove_moves :
    remove clustered 1
    ≡ some (record clustered {
      buckets = set (set (replicate 8 no_future) 1 ninth) 2 second;
      count = 2;
    })
unfolding remove scan remove_at free_spot seek close_gap walk
remove_moves = refl

abbrev single : List Bucket
single = set (replicate 8 no_future) 1 first

abbrev shared : FutureTable
shared = record { buckets = set single 2 ninth; capacity = 8; count = 2; next_id = 10 }

empty_row : (k q : ℕ) → ¬ (slots.holds k (slot_at slots (replicate 8 no_future) q) ≡ true)
empty_row k q h = let h' = rw (get_or-replicate 8 no_future q) at h in cc

single-IsProbed : IsProbed slots single
single-IsProbed =
    write-IsProbed slots (replicate 8 no_future) 1 1 first (replicate-IsProbed slots 8)
      (omega arith) refl (0, omega arith, refl, λ j a. absurd (omega arith))
      (λ q a h. absurd (empty_row 1 q h))

only_first : (k q : ℕ) → slots.holds k (slot_at slots single q) ≡ true → k ≡ 1
only_first k q h = elim (ℕ_discrete 1 q) [
  | yes e ↦
      let h' =
        holds_here slots (replicate 8 no_future) 1 first (omega arith) k
          (subst (λ r. slots.holds k (slot_at slots single r) ≡ true) (sym e) h) in
      ground arith
  | no ne ↦
      absurd (
        empty_row k q
          (holds_elsewhere slots (replicate 8 no_future) 1 first (omega arith) k q ne h))
]

behind : (j : ℕ) → j < 1 → slots.occupied (slot_at slots single ((9 + j) % 8)) ≡ true
behind zero a = refl
behind (suc j) a = absurd (omega arith)

issued : (k : ℕ) (b : Bucket) → Stored slots shared.buckets k b → (0 < k) × (k < 10)
issued k b st = elim (stored_set slots single 2 ninth (omega arith) refl k b st) [
  | inl (q, a, e, h) ↦ let one = only_first k q (rw e h) in omega arith
  | inr (same, h) ↦ let h' : slots.holds k ninth ≡ true = rw (sym same) at h in ground arith
]

shared-IsValid : IsValid shared
shared-IsValid = record {
  power = (3, refl);
  sized = refl;
  probed =
      write-IsProbed slots single 9 2 ninth single-IsProbed (omega arith) refl
        (1, omega arith, refl, behind) (λ q a h. absurd (omega (arith, only_first 9 q h)));
  counted = refl;
  slack = omega arith;
  large = omega arith;
  small = omega arith;
  issued = issued;
  next_pos = omega arith;
}

remove-find_example :
    (t' : FutureTable) × (remove shared 1 ≡ some t') × IsValid t' × Answers shared t' 1 0
remove-find_example = remove-find shared 1 shared-IsValid
