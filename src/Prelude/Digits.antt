-- ===== src/Prelude/Digits.antt =====
-- The lowest digit of `&` and `|`, from the recursion on binary digits that they stand for.
use Prim.Native.Nat.{
  ℕ, zero, suc, ◌+◌, ◌*◌, ◌/◌, ◌%◌, ◌≤◌, min, max, bit_and, bit_or, digits, bitwise,
  bit_and-bitwise, bit_or-bitwise,
}
use mathlib.Core.Path.{◌≡◌, refl, ap}
use native.Mathlib.Omega.{arith}

-- `past` is the rest of the second number once the first has run out, `join` works on two digits.
module _ (past : ℕ → ℕ) (join : ℕ → ℕ → ℕ) where
  -- Digits that are counted twice, each time with as many to go as the first number has or more.
  any_count : (u v x y : ℕ) → x ≤ u → x ≤ v → digits past join u x y ≡ digits past join v x y
  any_count (suc u) (suc v) (suc x) y hu hv =
      ap (λ high. high * 2 + join (suc x % 2) (y % 2))
        (any_count u v (suc x / 2) (y / 2) (omega arith) (omega arith))
  any_count (suc u) (suc v) zero y hu hv = refl
  any_count (suc u) zero zero y hu hv = refl
  any_count zero (suc v) zero y hu hv = refl
  any_count zero zero zero y hu hv = refl
  any_count (suc u) zero (suc x) y hu hv = absurd (omega arith)
  any_count zero (suc v) (suc x) y hu hv = absurd (omega arith)
  any_count zero zero (suc x) y hu hv = absurd (omega arith)

  pub bitwise_low :
      (x y : ℕ)
      → past y ≡ past (y / 2) * 2 + join 0 (y % 2)
      → bitwise past join x y ≡ bitwise past join (x / 2) (y / 2) * 2 + join (x % 2) (y % 2)
  bitwise_low zero y fits = fits
  bitwise_low (suc x) y fits =
      ap (λ high. high * 2 + join (suc x % 2) (y % 2))
        (any_count x (suc x / 2) (suc x / 2) (y / 2) (omega arith) (omega arith))

pub bit_and_step : (x y : ℕ) → bit_and x y ≡ bit_and (x / 2) (y / 2) * 2 + min (x % 2) (y % 2)
bit_and_step x y =
    rw (bit_and-bitwise x y, bit_and-bitwise (x / 2) (y / 2))
      (bitwise_low (λ d. 0) min x y (omega arith))

pub bit_or_step : (x y : ℕ) → bit_or x y ≡ bit_or (x / 2) (y / 2) * 2 + max (x % 2) (y % 2)
bit_or_step x y =
    rw (bit_or-bitwise x y, bit_or-bitwise (x / 2) (y / 2))
      (bitwise_low (λ d. d) max x y (omega arith))

-- On the right, 0 clears every digit of `&` and leaves every digit of `|`.
zero_right : (bound x : ℕ) → x ≤ bound → (bit_and x 0 ≡ 0) × (bit_or x 0 ≡ x)
zero_right (suc bound) (suc x) h =
    let (cleared, kept) = zero_right bound (suc x / 2) (omega arith) in
    (omega (arith, bit_and_step (suc x) 0, cleared), omega (arith, bit_or_step (suc x) 0, kept))
zero_right zero (suc x) h = absurd (omega arith)
zero_right bound zero h = (refl, refl)

pub bit_and-zero : (x : ℕ) → bit_and x 0 ≡ 0
bit_and-zero x = (zero_right x x (omega arith)).0

pub bit_or-zero : (x : ℕ) → bit_or x 0 ≡ x
bit_or-zero x = (zero_right x x (omega arith)).1
