-- ===== src/Prelude/Sums.antt =====
-- Sums over a list, which count what the elements of an array hold.
use Prim.Native.Nat.{ℕ, zero, suc, ◌+◌, ◌≤◌, ◌<◌}
use mathlib.Core.Path.{◌≡◌, refl, ap}
use mathlib.Core.Logic.{◌≢◌}
use mathlib.Core.Bool.{Bool}
use mathlib.Core.List.{List, [], ◌∷◌}
use native.Mathlib.Omega.{arith}
use native.Mathlib.Decide.{dec_lt}
use smalltalk_a_vm.Prelude.Tests.{if◌then◌else◌}
use smalltalk_a_vm.Prelude.Lists.{length, get_or, set}

abbrev pub bit : Bool → ℕ
bit b = if b then 1 else 0

module _ {ℓ} {A : Type ℓ} (f : A → ℕ) where
  abbrev pub sum : List A → ℕ
  sum [] = 0
  sum (x ∷ xs) = f x + sum xs

  pub sum-set :
      (xs : List A) (i : ℕ) (v d : A)
      → i < length xs
      → sum (set xs i v) + f (get_or xs i d) ≡ sum xs + f v
  sum-set [] i v d a = elim a [ ]
  sum-set (x ∷ xs) zero v d a = omega arith
  sum-set (x ∷ xs) (suc i) v d a = omega (arith, sum-set xs i v d (omega arith))

  pub sum_at : (xs : List A) (i : ℕ) (d : A) → i < length xs → f (get_or xs i d) ≤ sum xs
  sum_at [] i d a = elim a [ ]
  sum_at (x ∷ xs) zero d a = omega arith
  sum_at (x ∷ xs) (suc i) d a = omega (arith, sum_at xs i d (omega arith))

  pub sum_two :
      (xs : List A) (i j : ℕ) (d : A)
      → i < length xs
      → j < length xs
      → i ≢ j
      → f (get_or xs i d) + f (get_or xs j d) ≤ sum xs
  sum_two [] i j d a b ne = elim a [ ]
  sum_two (x ∷ xs) zero zero d a b ne = absurd (ne refl)
  sum_two (x ∷ xs) zero (suc j) d a b ne = omega (arith, sum_at xs j d (omega arith))
  sum_two (x ∷ xs) (suc i) zero d a b ne = omega (arith, sum_at xs i d (omega arith))
  sum_two (x ∷ xs) (suc i) (suc j) d a b ne =
      omega (arith, sum_two xs i j d (omega arith) (omega arith) (λ e. ne (ap suc e)))

  -- All the elements are nothing, or one of them is something.
  pub sum_found :
      (xs : List A) (d : A) → 1 ≤ sum xs → (i : ℕ) × (i < length xs) × (1 ≤ f (get_or xs i d))
  sum_found [] d h = absurd (omega arith)
  sum_found (x ∷ xs) d h = elim (dec_lt 0 (f x)) [
    | yes here ↦ (0, omega arith, here)
    | no n ↦ let (i, a, b) = sum_found xs d (omega arith) in (suc i, omega arith, b)
  ]

  pub sum_none : (xs : List A) (i : ℕ) (d : A) → i < length xs → sum xs ≡ 0 → f (get_or xs i d) ≡ 0
  sum_none xs i d a h = omega (arith, sum_at xs i d a)
