-- ===== src/Actor/Mailbox/Count.antt =====
-- What the counter of the mailbox counts: the calls that have raised it, over all threads.
use smalltalk_a_vm.Prelude.{ℕ, zero, suc, ◌+◌, ◌≤◌, ◌<◌, ◌≡◌, refl, arith, dec_lt}
use smalltalk_a_vm.Actor.Mailbox.{Phase, update}

-- Increments that the call has yet to take back.
abbrev pub overshoot : Phase → ℕ
overshoot (Phase.rejecting p) = 1
overshoot _ = 0

-- Places that the call holds for its message.
abbrev pub reserved : Phase → ℕ
reserved (Phase.ready msg p) = 1
reserved _ = 0

module _ (weight : Phase → ℕ) where
  -- Over the threads below `n`.
  pub total : ℕ → (ℕ → Phase) → ℕ
  total zero phase = 0
  total (suc n) phase = weight (phase n) + total n phase

  total_outside :
      (n i : ℕ) (q : Phase) (phase : ℕ → Phase) → n ≤ i → total n (update phase i q) ≡ total n phase
  unfolding total
  total_outside zero i q phase h = refl
  total_outside (suc n) i q phase h = ground (arith, total_outside n i q phase (omega arith))

  -- One thread moves on.
  pub total-update :
      (n i : ℕ) (q : Phase) (phase : ℕ → Phase)
      → i < n
      → weight (phase i) + total n (update phase i q) ≡ weight q + total n phase
  unfolding total
  total-update zero i q phase h = absurd (omega arith)
  total-update (suc n) i q phase h = elim (dec_lt i n) [
    | yes below ↦ ground (arith, total-update n i q phase below)
    | no top ↦ ground (arith, total_outside n i q phase (omega arith))
  ]

  pub total_bound : (n : ℕ) (phase : ℕ → Phase) → ((p : Phase) → weight p ≤ 1) → total n phase ≤ n
  unfolding total
  total_bound zero phase h = omega arith
  total_bound (suc n) phase h = omega (arith, h (phase n), total_bound n phase h)

  pub total_rest : (n : ℕ) (q : Phase) → weight q ≡ 0 → total n (λ i. q) ≡ 0
  unfolding total
  total_rest zero q h = refl
  total_rest (suc n) q h = omega (arith, h, total_rest n q h)

pub overshoot-le-one : (p : Phase) → overshoot p ≤ 1
overshoot-le-one (Phase.rejecting p) = omega arith
overshoot-le-one (Phase.calling msg) = omega arith
overshoot-le-one (Phase.checking msg p) = omega arith
overshoot-le-one (Phase.ready msg p) = omega arith
overshoot-le-one (Phase.linking a b) = omega arith
overshoot-le-one (Phase.returned a) = omega arith
