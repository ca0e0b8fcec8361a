-- ===== src/Prelude/Pow2.antt =====
-- `next_pow2` of src/actor/registry.c and src/actor/future_table.c, and `round_up_pow2` of
-- src/vm/symbol_table.c: rounding up to a power of two by smearing the top bit down.
use native.Mathlib.Nat.{
  pow-suc, mod-lt, mod-eq_of_lt, div-add-mod, le_refl, pow-le-pow_right, mul-le-mul_left,
}
use smalltalk_a_vm.Prelude.Words.{pow_pos}
use smalltalk_a_vm.Prelude.Ors.{bit_or_bounds, bit_or_high}
use Prim.Native.Nat.{ℕ, zero, suc, ◌+◌, ◌-◌, ◌*◌, ◌/◌, ◌%◌, ◌^◌, ◌≤◌, ◌<◌, bit_or}
use mathlib.Core.Path.{◌≡◌, refl, sym, ap, ◌∙◌}
use mathlib.Core.Logic.{◌⊎◌, inl, inr}
use native.Mathlib.Omega.{arith}
use native.Mathlib.Decide.{dec_lt}

-- `v |= v >> s`
unfoldable pub smear : ℕ → ℕ → ℕ
smear s v = bit_or v (v / 2 ^ s)

-- `v--`, the five smears, `v + 1` in 32 bits; `zero_case` is what the caller returns for 0.
unfoldable pub round_up : ℕ → ℕ → ℕ
unfolding smear
round_up zero_case zero = zero_case
round_up zero_case (suc v) = (smear 16 (smear 8 (smear 4 (smear 2 (smear 1 v)))) + 1) % 2 ^ 32

unfoldable pub next_pow2 : ℕ → ℕ
next_pow2 v = round_up 1 v

round_up_runs : (round_up 1 9 ≡ 16) × (round_up 1 64 ≡ 64) × (round_up 16 0 ≡ 16)
unfolding round_up
round_up_runs = (refl, refl, refl)

pow-add : (m j : ℕ) → 2 ^ (m + j) ≡ 2 ^ m * 2 ^ j
pow-add m zero = let e : m + 0 ≡ m = omega arith in ap (λ n. 2 ^ n) e ∙ omega arith
pow-add m (suc j) =
    let e : m + suc j ≡ suc (m + j) = omega arith in
    ap (λ n. 2 ^ n) e
    ∙ omega (arith, pow-suc 2 (m + j), pow-add m j, ap (λ (t : ℕ). 2 ^ m * t) (pow-suc 2 j))

-- The top `k - j` of `k` bits are set, `m` of them unless all are.
record Filled (k j m v : ℕ) : Type 0 where
  fits : v < 2 ^ k
  ones : 2 ^ k ≤ v + 2 ^ j
  width : (m + j ≡ k) ⊎ (j ≡ 0)

-- A smear by `m` sets the `m` bits below.
shifted_bounds :
    (c p q v b : ℕ)
    → 1 ≤ c
    → c * b ≤ v
    → v < c * b + c
    → v < c * p
    → c * p ≤ v + p
    → p ≤ c * q
    → (b < p) × (p ≤ b + q)
shifted_bounds c p q v b hc lo hi top ones h = (below, above)
  where
    below : b < p
    below = elim (dec_lt b p) [
      | yes y ↦ y
      | no n ↦ let g : c * p ≤ c * b = mul-le-mul_left c (omega arith) in absurd (omega arith)
    ]

    above : p ≤ b + q
    above = elim (dec_lt (b + q) p) [
      | no n ↦ omega arith
      | yes y ↦ let g : c * suc (b + q) ≤ c * p = mul-le-mul_left c y in absurd (omega arith)
    ]

smear_partial :
    (k j m v : ℕ) → v < 2 ^ k → 2 ^ k ≤ v + 2 ^ j → m + j ≡ k → Filled k (j - m) (m + m) (smear m v)
unfolding smear
smear_partial k j m v fits ones w = record {
  fits = omega (arith, whole, value, bounds, parts);
  ones = omega (arith, whole, value, bounds, parts, near);
  width = omega arith;
}
  where
    c : ℕ
    c = 2 ^ m

    p : ℕ
    p = 2 ^ j

    q : ℕ
    q = 2 ^ (j - m)

    b : ℕ
    b = v / c

    a : ℕ
    a = v - (c - 1) * p

    whole : 2 ^ k ≡ c * p
    whole = ap (λ n. 2 ^ n) (sym w) ∙ pow-add m j

    parts : (c - 1) * p + p ≡ c * p
    parts =
        let e : c - 1 + 1 ≡ c = omega (arith, pow_pos m) in omega (arith, ap (λ (t : ℕ). t * p) e)

    wide : p ≤ c * q
    wide = omega (
      arith,
      pow-le-pow_right {n = 2} (omega arith) {i = j} {j = m + (j - m)} (omega arith),
      pow-add m (j - m),
    )

    near : (b < p) × (p ≤ b + q)
    near =
        shifted_bounds c p q v b (pow_pos m) (omega (arith, div-add-mod v c))
          (omega (arith, div-add-mod v c, mod-lt v {m = c} (pow_pos m))) (omega (arith, whole))
          (omega (arith, whole)) wide

    low : a < p
    low = omega (arith, whole, parts)

    bounds : (a ≤ bit_or a b) × (b ≤ bit_or a b) × (bit_or a b < p)
    bounds = bit_or_bounds j a b low near.0

    split : v ≡ (c - 1) * p + a
    split = omega (arith, whole, parts)

    value : bit_or v b ≡ (c - 1) * p + bit_or a b
    value = ap (λ x. bit_or x b) split ∙ bit_or_high j (c - 1) a b low near.0

smear_full : (k m v : ℕ) → v < 2 ^ k → 2 ^ k ≤ v + 1 → (smear m v < 2 ^ k) × (2 ^ k ≤ smear m v + 1)
unfolding smear
smear_full k m v fits ones =
    let le : v / 2 ^ m ≤ v = omega arith in
    omega (arith, bit_or_bounds k v (v / 2 ^ m) fits (omega arith))

smear-Filled : (k j m v : ℕ) → Filled k j m v → Filled k (j - m) (m + m) (smear m v)
smear-Filled k j m v f = elim f.width [
  | inl w ↦ smear_partial k j m v f.fits f.ones w
  | inr z ↦
      let top : 2 ^ j ≡ 1 = ap (λ n. 2 ^ n) z in
      let s = smear_full k m v f.fits (omega (arith, f.ones, top)) in
      let z' : j - m ≡ 0 = omega arith in
      let top' : 2 ^ (j - m) ≡ 1 = ap (λ n. 2 ^ n) z' in
      record { fits = s.0; ones = omega arith; width = inr z' }
]

-- The top bit of a positive number.
top_bit : (n v : ℕ) → v ≤ n → 1 ≤ v → (j : ℕ) × (2 ^ j ≤ v) × (v < 2 ^ suc j)
top_bit zero v h pos = absurd (omega arith)
top_bit (suc n) v h pos = elim (dec_lt v 2) [
  | yes one ↦ (0, omega arith, omega arith)
  | no more ↦
      let (j, lo, hi) = top_bit n (v / 2) (omega arith) (omega arith) in
      (suc j, omega (arith, pow-suc 2 j), omega (arith, pow-suc 2 (suc j)))
]

-- Five smears fill a word of up to 32 bits.
Filled-word :
    (k j v : ℕ)
    → k ≤ 32
    → Filled k j 1 v
    → smear 16 (smear 8 (smear 4 (smear 2 (smear 1 v)))) + 1 ≡ 2 ^ k
Filled-word k j v h f =
    let f1 = smear-Filled k j 1 v f in
    let f2 = smear-Filled k (j - 1) 2 _ f1 in
    let f3 = smear-Filled k (j - 1 - 2) 4 _ f2 in
    let f4 = smear-Filled k (j - 1 - 2 - 4) 8 _ f3 in
    let f5 = smear-Filled k (j - 1 - 2 - 4 - 8) 16 _ f4 in
    let done : j - 1 - 2 - 4 - 8 - 16 ≡ 0 = omega (arith, f.width) in
    let one : 2 ^ (j - 1 - 2 - 4 - 8 - 16) ≡ 1 = ap (λ n. 2 ^ n) done in
    omega (arith, f5.fits, f5.ones, one)

below_32 : (j : ℕ) → 2 ^ j < 2 ^ 31 → j ≤ 30
below_32 j h = elim (dec_lt 30 j) [
  | no n ↦ omega arith
  | yes y ↦
      let g : 2 ^ 31 ≤ 2 ^ j = pow-le-pow_right {n = 2} (omega arith) {i = 31} {j = j} y in
      absurd (omega arith)
]

-- Rounding up gives, for every number from 1 to 2^31, the least power of two that is not below it:
-- half of it would be.
pub round_up_lem :
    (z v : ℕ)
    → 1 ≤ v
    → v ≤ 2 ^ 31
    → (k : ℕ) × (k ≤ 31) × (round_up z v ≡ 2 ^ k) × (v ≤ 2 ^ k) × (2 ^ k < v + v)
unfolding round_up
round_up_lem z zero pos h = absurd (omega arith)
round_up_lem z (suc zero) pos h = (0, omega arith, refl, omega arith, omega arith)
round_up_lem z (suc (suc u)) pos h =
    let (j, lo, hi) = top_bit (suc u) (suc u) (le_refl _) (omega arith) in
    let small = below_32 j (omega arith) in
    let filled =
      Filled-word (suc j) j (suc u) (omega arith)
        (record { fits = hi; ones = omega (arith, pow-suc 2 j); width = inl (omega arith) }) in
    let top : 2 ^ suc j ≤ 2 ^ 31 =
      pow-le-pow_right {n = 2} (omega arith) {i = suc j} {j = 31} (omega arith) in
    (
      suc j,
      omega arith,
      ap (λ n. n % 2 ^ 32) filled ∙ mod-eq_of_lt (omega arith),
      omega arith,
      omega (arith, pow-suc 2 j),
    )
