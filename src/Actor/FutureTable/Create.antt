-- ===== src/Actor/FutureTable/Create.antt =====
-- `sta_future_table_create`: a valid table with no future, whose first id is 1.
use smalltalk_a_vm.Prelude.{
  ℕ, Bool-cases, inl, inr, ◌^◌, ◌≤◌, ◌≡◌, sym, arith, ◌∙◌, leb, replicate, length-replicate,
  get_or-replicate,
}
use smalltalk_a_vm.Prelude.Pow2.{next_pow2, round_up_lem}
use smalltalk_a_vm.Probe.Invariant.{replicate-IsProbed, load-replicate}
use smalltalk_a_vm.Actor.FutureTable.{FutureTable, no_future, create}
use smalltalk_a_vm.Actor.FutureTable.Slot.{slots}
use smalltalk_a_vm.Actor.FutureTable.Invariant.{IsValid}

abbrev pub vacant : ℕ → FutureTable
vacant n = record { buckets = replicate n no_future; capacity = n; count = 0; next_id = 1 }

pub vacant-IsValid : (n k : ℕ) → 8 ≤ n → n ≤ 2 ^ 29 → n ≡ 2 ^ k → IsValid (vacant n)
vacant-IsValid n k lo hi power = record {
  power = (k, power);
  sized = length-replicate n no_future;
  probed = replicate-IsProbed slots n;
  counted = sym (load-replicate slots n);
  slack = omega arith;
  large = lo;
  small = hi;
  issued = λ j b (p, a, e, h).
      let same : no_future ≡ b = sym (get_or-replicate n no_future p) ∙ e in
      absurd (let h' = rw (sym same) at h in cc);
  next_pos = omega arith;
}

rounded : (n : ℕ) → 8 ≤ n → n ≤ 2 ^ 28 → IsValid (vacant (next_pow2 n)) × (n ≤ next_pow2 n)
unfolding next_pow2
rounded n lo hi =
    let (k, _, e, above, below) = round_up_lem 1 n (omega arith) (omega arith) in
    (
      vacant-IsValid (next_pow2 n) k (omega (arith, e)) (omega (arith, e, below)) e,
      omega (arith, e),
    )

-- Creating a future table leaves it valid, with at least the capacity that was asked for.
pub table_create-IsValid :
    (initial : ℕ)
    → initial ≤ 2 ^ 28
    → IsValid (create initial) × (initial ≤ (create initial).capacity)
unfolding create
table_create-IsValid initial h = elim (Bool-cases (leb 8 initial)) [
  | inl big ↦ rw big (rounded initial (ground arith) h)
  | inr few ↦ let (v, a) = rounded 8 (omega arith) (omega arith) in rw few (v, ground arith)
]
