-- ===== src/Prelude/Words.antt =====
-- Unsigned machine words: moduli, masks and powers of two.
use Prim.Native.Nat.{ℕ, zero, suc, ◌+◌, ◌-◌, ◌*◌, ◌/◌, ◌%◌, ◌^◌, ◌≤◌, ◌<◌, bit_and}
use mathlib.Core.Path.{◌≡◌, ◌∙◌, ap}
use native.Mathlib.Nat.{pow-suc, mod-lt, mod-eq_of_lt, div-add-mod, add-mul-mod_self_left}
use native.Mathlib.Omega.{arith}
use smalltalk_a_vm.Prelude.Digits.{bit_and_step, bit_and-zero}

-- UINT32_MAX, which several tables use as a sentinel.
abbrev pub u32_max : ℕ
u32_max = 4294967295

pub pow_pos : (k : ℕ) → 1 ≤ 2 ^ k
pow_pos zero = omega arith
pow_pos (suc k) = omega (arith, pow_pos k, pow-suc 2 k)

half_mod : (a m : ℕ) → 1 ≤ m → a % (m * 2) ≡ (a / 2 % m) * 2 + a % 2
half_mod a m h =
    ap (λ t. t % (m * 2)) split
    ∙ add-mul-mod_self_left (a / 2 % m * 2 + a % 2) (m * 2) (a / 2 / m)
    ∙ mod-eq_of_lt small
  where
    split : a ≡ a / 2 % m * 2 + a % 2 + m * 2 * (a / 2 / m)
    split = omega (arith, div-add-mod (a / 2) m)

    small : a / 2 % m * 2 + a % 2 < m * 2
    small = omega (arith, mod-lt (a / 2) {m = m} h)

-- `x & (cap - 1)` is `x % cap` where `cap` is a power of two.
pub bit_and_mask : (k a : ℕ) → bit_and a (2 ^ k - 1) ≡ a % 2 ^ k
bit_and_mask zero a = omega (arith, bit_and-zero a)
bit_and_mask (suc k) a = omega (
  arith,
  bit_and_step a (2 ^ suc k - 1),
  pow-suc 2 k,
  pow_pos k,
  bit_and_mask k (a / 2),
  half_mod a (2 ^ k) (pow_pos k),
  ap (bit_and (a / 2)) halved,
  ap (λ m. a % m) (pow-suc 2 k),
)
  where
    halved : (2 ^ suc k - 1) / 2 ≡ 2 ^ k - 1
    halved = omega (arith, pow-suc 2 k, pow_pos k)

-- `x & ~15` in 64 bits.
pub bit_and_align16 : (n : ℕ) → n < 2 ^ 64 → bit_and n (2 ^ 64 - 16) ≡ n / 16 * 16
bit_and_align16 n small = omega (
  arith,
  bit_and_step n (2 ^ 64 - 16),
  bit_and_step (n / 2) (2 ^ 63 - 8),
  bit_and_step (n / 2 / 2) (2 ^ 62 - 4),
  bit_and_step (n / 2 / 2 / 2) (2 ^ 61 - 2),
  bit_and_mask 60 (n / 2 / 2 / 2 / 2),
)
