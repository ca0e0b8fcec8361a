-- ===== src/Prelude/Ors.antt =====
-- The `|` of C on unsigned words.
use Prim.Native.Nat.{ℕ, zero, suc, ◌+◌, ◌*◌, ◌/◌, ◌^◌, ◌≤◌, ◌<◌, bit_or, bit_or-bitwise}
use native.Mathlib.Nat.{pow-suc}
use mathlib.Core.Path.{◌≡◌, refl, ap, ◌∙◌}
use native.Mathlib.Omega.{arith}
use smalltalk_a_vm.Prelude.Digits.{bit_or_step, bit_or-zero}

-- `|` is at least each side, and stays within their width.
pub bit_or_bounds :
    (k a b : ℕ) → a < 2 ^ k → b < 2 ^ k → (a ≤ bit_or a b) × (b ≤ bit_or a b) × (bit_or a b < 2 ^ k)
bit_or_bounds zero zero zero p q = (omega arith, omega arith, omega arith)
bit_or_bounds zero zero (suc b) p q = absurd (omega arith)
bit_or_bounds zero (suc a) b p q = absurd (omega arith)
bit_or_bounds (suc k) a b p q = omega (
  arith,
  bit_or_step a b,
  pow-suc 2 k,
  bit_or_bounds k (a / 2) (b / 2) (omega (arith, pow-suc 2 k)) (omega (arith, pow-suc 2 k)),
)

pub zero-bit_or : (b : ℕ) → bit_or 0 b ≡ b
zero-bit_or b = bit_or-bitwise 0 b

-- The bits above `2 ^ j` pass through where the other side has none there.
pub bit_or_high :
    (j h a b : ℕ) → a < 2 ^ j → b < 2 ^ j → bit_or (h * 2 ^ j + a) b ≡ h * 2 ^ j + bit_or a b
bit_or_high zero h zero zero p q = bit_or-zero (h * 1 + 0) ∙ refl
bit_or_high zero h zero (suc b) p q = absurd (omega arith)
bit_or_high zero h (suc a) b p q = absurd (omega arith)
bit_or_high (suc j) h a b p q = ground (
  arith,
  bit_or_step (h * 2 ^ suc j + a) b,
  bit_or_step a b,
  double,
  pow-suc 2 j,
  bit_or_high j h (a / 2) (b / 2) (omega (arith, pow-suc 2 j)) (omega (arith, pow-suc 2 j)),
)
  where
    double : h * 2 ^ suc j ≡ 2 * (h * 2 ^ j)
    double = omega (arith, ap (λ (t : ℕ). h * t) (pow-suc 2 j))

-- `x | 1` sets the lowest bit of an even number.
pub bit_or_one : (n : ℕ) → bit_or (n * 2) 1 ≡ n * 2 + 1
bit_or_one n =
    let half : n * 2 / 2 ≡ n = omega arith in
    omega (arith, bit_or_step (n * 2) 1, ap (λ k. bit_or k 0) half, bit_or-zero n)

-- `|` of fields that do not overlap is their sum.
pub bit_or_fields : (j a h : ℕ) → a < 2 ^ j → bit_or a (h * 2 ^ j) ≡ a + h * 2 ^ j
bit_or_fields zero zero h p = zero-bit_or (h * 1) ∙ omega arith
bit_or_fields zero (suc a) h p = absurd (omega arith)
bit_or_fields (suc j) a h p =
    let double : h * 2 ^ suc j ≡ 2 * (h * 2 ^ j) =
      omega (arith, ap (λ (t : ℕ). h * t) (pow-suc 2 j)) in
    let half : h * 2 ^ suc j / 2 ≡ h * 2 ^ j = omega (arith, double) in
    omega (
      arith,
      bit_or_step a (h * 2 ^ suc j),
      double,
      ap (bit_or (a / 2)) half,
      bit_or_fields j (a / 2) h (omega (arith, pow-suc 2 j)),
    )
