-- ===== src/Vm/Oop.antt =====
-- Tagged object pointers and object headers, src/vm/oop.h. An OOP is a 64-bit word, and a signed
-- 64-bit integer is its word in two's complement.
use smalltalk_a_vm.Prelude.{
  ℕ, ◌+◌, ◌-◌, ◌*◌, ◌/◌, ◌%◌, ◌^◌, ◌≤◌, ◌<◌, ◌≡◌, ap, ◌∙◌, arith, Bool, true, false, not, bit_and,
  bit_or, leb, ◌==◌, if◌then◌else◌, ◌⊎◌,
}
use smalltalk_a_vm.Prelude.Words.{bit_and_mask}
use smalltalk_a_vm.Prelude.Digits.{bit_or_step}
use smalltalk_a_vm.Prelude.Ors.{bit_or_one}

unfoldable pub is_smallint : ℕ → Bool
is_smallint oop = not (bit_and oop 1 == 0)

unfoldable pub is_char : ℕ → Bool
is_char oop = bit_and oop 3 == 2

unfoldable pub is_heap : ℕ → Bool
is_heap oop = bit_and oop 3 == 0

-- `(intptr_t)oop >> 1`, which keeps the sign bit.
unfoldable pub smallint_val : ℕ → ℕ
smallint_val oop = oop / 2 + (if leb (2 ^ 63) oop then 2 ^ 63 else 0)

unfoldable pub smallint_oop : ℕ → ℕ
smallint_oop n = bit_or (n * 2 % 2 ^ 64) 1

unfoldable pub char_val : ℕ → ℕ
char_val oop = oop / 4 % 2 ^ 32

unfoldable pub char_oop : ℕ → ℕ
char_oop cp = bit_or (cp % 2 ^ 32 * 4) 2

pub record ObjHeader : Type 0 where
  pub class_index : ℕ
  pub size : ℕ
  pub gc_flags : ℕ
  pub obj_flags : ℕ
  pub reserved : ℕ

-- `sta_alloc_size`: the allocation unit and the payload, in bytes.
unfoldable pub alloc_size : ℕ → ℕ
alloc_size n = 16 + n * 8

-- A word that stands for an integer from -2^62 to 2^62 - 1.
abbrev pub InSmallintRange : ℕ → Type 0
InSmallintRange n = (n < 2 ^ 62) ⊎ ((2 ^ 64 - 2 ^ 62 ≤ n) × (n < 2 ^ 64))

pub low_bit : (n : ℕ) → bit_and n 1 ≡ n % 2
low_bit n = bit_and_mask 1 n

pub low_two_bits : (n : ℕ) → bit_and n 3 ≡ n % 4
low_two_bits n = bit_and_mask 2 n

pub smallint_oop-eq : (n : ℕ) → smallint_oop n ≡ n % 2 ^ 63 * 2 + 1
unfolding smallint_oop
smallint_oop-eq n =
    let e : n * 2 % 2 ^ 64 ≡ n % 2 ^ 63 * 2 = omega arith in
    ap (λ k. bit_or k 1) e ∙ bit_or_one (n % 2 ^ 63)

pub char_oop-eq : (cp : ℕ) → cp < 2 ^ 32 → char_oop cp ≡ cp * 4 + 2
unfolding char_oop
char_oop-eq cp small =
    let whole : cp % 2 ^ 32 * 4 ≡ cp * 4 = omega arith in
    let half : cp * 4 / 2 ≡ cp * 2 = omega arith in
    ap (λ k. bit_or k 2) whole
    ∙ omega (arith, bit_or_step (cp * 4) 2, ap (λ k. bit_or k 1) half, bit_or_one cp)

-- Every small integer survives its tagging: the OOP is a word with the SmallInt tag and not the
-- Character or heap tag, and gives the integer back with its sign.
pub smallint_val-smallint_oop :
    (n : ℕ)
    → InSmallintRange n
    → (smallint_oop n < 2 ^ 64)
      × (smallint_val (smallint_oop n) ≡ n)
      × (is_smallint (smallint_oop n) ≡ true)
      × (is_char (smallint_oop n) ≡ false)
      × (is_heap (smallint_oop n) ≡ false)
unfolding smallint_val is_smallint is_char is_heap
smallint_val-smallint_oop n range =
    let e = smallint_oop-eq n in
    (
      omega (arith, e),
      ground (arith, e),
      ground (arith, e, low_bit (smallint_oop n)),
      ground (arith, e, low_two_bits (smallint_oop n)),
      ground (arith, e, low_two_bits (smallint_oop n)),
    )

-- Every 32-bit code point survives its tagging, under the Character tag alone.
pub char_val-char_oop :
    (cp : ℕ)
    → cp < 2 ^ 32
    → (char_oop cp < 2 ^ 64)
      × (char_val (char_oop cp) ≡ cp)
      × (is_char (char_oop cp) ≡ true)
      × (is_smallint (char_oop cp) ≡ false)
      × (is_heap (char_oop cp) ≡ false)
unfolding char_val is_smallint is_char is_heap
char_val-char_oop cp small =
    let e = char_oop-eq cp small in
    (
      omega (arith, e),
      omega (arith, e),
      ground (arith, e, low_two_bits (char_oop cp)),
      ground (arith, e, low_bit (char_oop cp)),
      ground (arith, e, low_two_bits (char_oop cp)),
    )
