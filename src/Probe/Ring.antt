-- ===== src/Probe/Ring.antt =====
-- Positions round a ring of `cap` slots, and the mask that the C code writes for `% cap`.
use native.Mathlib.Nat.{mod-lt, mod-eq_of_lt, mod-eq-sub-mod, mod-add-mod}
use smalltalk_a_vm.Prelude.{
  ℕ, ◌+◌, ◌-◌, ◌%◌, ◌^◌, ◌≤◌, ◌<◌, ◌≡◌, sym, ap, ◌∙◌, arith, dec_lt, bit_and, inl, inr, ◌⊎◌,
}
use smalltalk_a_vm.Prelude.Words.{bit_and_mask, pow_pos}

-- `(r + d) % cap` for two numbers below `cap`.
wrap_cases :
    (cap r d : ℕ)
    → r < cap
    → d < cap
    → (((r + d) % cap ≡ r + d) × (r + d < cap)) ⊎ (((r + d) % cap ≡ r + d - cap) × (cap ≤ r + d))
wrap_cases cap r d hr hd = elim (dec_lt (r + d) cap) [
  | yes p ↦ inl (mod-eq_of_lt p, p)
  | no p ↦
      inr (
        mod-eq-sub-mod {n = r + d} {m = cap} (omega arith) ∙ mod-eq_of_lt (omega arith),
        omega arith,
      )
]

-- Within one turn no position comes twice.
pub ring_injective : (cap h a b : ℕ) → a < cap → b < cap → (h + a) % cap ≡ (h + b) % cap → a ≡ b
ring_injective cap h a b ha hb e = omega (
  arith,
  mod-add-mod h cap a,
  mod-add-mod h cap b,
  wrap_cases cap (h % cap) a (mod-lt h (omega arith)) ha,
  wrap_cases cap (h % cap) b (mod-lt h (omega arith)) hb,
)

-- One turn visits every position.
pub ring_surjective : (cap h p : ℕ) → p < cap → (d : ℕ) × (d < cap) × (p ≡ (h + d) % cap)
ring_surjective cap h p hp = elim (dec_lt p (h % cap)) [
  | yes q ↦ (
    p + cap - h % cap,
    omega (arith, low),
    omega (
      arith,
      mod-add-mod h cap (p + cap - h % cap),
      low,
      wrap_cases cap (h % cap) (p + cap - h % cap) low (omega (arith, low)),
    ),
  )
  | no q ↦ (
    p - h % cap,
    omega arith,
    omega (
      arith,
      mod-add-mod h cap (p - h % cap),
      low,
      wrap_cases cap (h % cap) (p - h % cap) low (omega arith),
    ),
  )
]
  where
    low : h % cap < cap
    low = mod-lt h (omega arith)

pub cap_pos : (e cap : ℕ) → cap ≡ 2 ^ e → 0 < cap
cap_pos e cap c = omega (arith, pow_pos e)

-- The C code's step `idx = (idx + 1) & mask` stays on the ring.
pub step_mask :
    (e cap h i : ℕ) → cap ≡ 2 ^ e → bit_and ((h + i) % cap + 1) (cap - 1) ≡ (h + (i + 1)) % cap
step_mask e cap h i c =
    ap (λ m. bit_and ((h + i) % cap + 1) (m - 1)) c
    ∙ bit_and_mask e ((h + i) % cap + 1)
    ∙ ap (λ m. ((h + i) % cap + 1) % m) (sym c)
    ∙ mod-add-mod (h + i) cap 1
    ∙ ap (λ m. m % cap) (omega arith)

-- The same where the sum is a 32-bit word.
pub step_mask32 :
    (e cap h i : ℕ)
    → cap ≡ 2 ^ e
    → cap < 2 ^ 32
    → bit_and (((h + i) % cap + 1) % 2 ^ 32) (cap - 1) ≡ (h + (i + 1)) % cap
step_mask32 e cap h i c small = ap (λ m. bit_and m (cap - 1)) fits ∙ step_mask e cap h i c
  where
    fits : ((h + i) % cap + 1) % 2 ^ 32 ≡ (h + i) % cap + 1
    fits = mod-eq_of_lt (omega (arith, mod-lt (h + i) (cap_pos e cap c)))

-- The start `hash & mask`.
pub start_mask : (e cap h : ℕ) → cap ≡ 2 ^ e → bit_and h (cap - 1) ≡ (h + 0) % cap
start_mask e cap h c =
    ap (λ m. bit_and h (m - 1)) c
    ∙ bit_and_mask e h
    ∙ ap (λ m. h % m) (sym c)
    ∙ ap (λ m. m % cap) (omega arith)
