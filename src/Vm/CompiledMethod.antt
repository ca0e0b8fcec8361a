-- ===== src/Vm/CompiledMethod.antt =====
-- Compiled methods, src/vm/compiled_method.h and src/vm/compiled_method.c: the header word of a
-- method and the layout of its object.
use smalltalk_a_vm.Prelude.{
  ℕ, ◌+◌, ◌*◌, ◌/◌, ◌%◌, ◌^◌, ◌<◌, ◌≡◌, ap, ◌∙◌, arith, ◌==◌, if◌then◌else◌, bit_and, bit_or,
}
use smalltalk_a_vm.Prelude.Words.{bit_and_mask}
use smalltalk_a_vm.Prelude.Ors.{bit_or_fields, bit_or_one}

unfoldable pub num_args : ℕ → ℕ
num_args h = bit_and (h / 2 ^ 1) 255

unfoldable pub num_temps : ℕ → ℕ
num_temps h = bit_and (h / 2 ^ 9) 255

unfoldable pub num_literals : ℕ → ℕ
num_literals h = bit_and (h / 2 ^ 17) 255

unfoldable pub prim_index : ℕ → ℕ
prim_index h = bit_and (h / 2 ^ 25) 255

unfoldable pub has_prim : ℕ → ℕ
has_prim h = bit_and (h / 2 ^ 33) 1

unfoldable pub large_frame : ℕ → ℕ
large_frame h = bit_and (h / 2 ^ 34) 1

-- `STA_METHOD_HEADER`, with its casts to `uint8_t`.
unfoldable pub method_header : ℕ → ℕ → ℕ → ℕ → ℕ → ℕ → ℕ
method_header n_args n_temps n_lits prim_idx has_prim large_fr =
    bit_or
      (bit_or
        (bit_or
          (bit_or
            (bit_or (bit_or (n_args % 2 ^ 8 * 2 ^ 1) (n_temps % 2 ^ 8 * 2 ^ 9))
              (n_lits % 2 ^ 8 * 2 ^ 17))
            (prim_idx % 2 ^ 8 * 2 ^ 25))
          ((if has_prim == 0 then 0 else 1) * 2 ^ 33))
        ((if large_fr == 0 then 0 else 1) * 2 ^ 34))
      1

byte : (n : ℕ) → n < 2 ^ 8 → n % 2 ^ 8 ≡ n
byte n h = omega arith

flag : (n : ℕ) → n < 2 → (if n == 0 then 0 else 1) ≡ n
flag n h = ground arith

header_sum :
    (a t l p h f : ℕ)
    → a < 2 ^ 8
    → t < 2 ^ 8
    → l < 2 ^ 8
    → p < 2 ^ 8
    → h < 2
    → f < 2
    → method_header a t l p h f
      ≡ (a + t * 2 ^ 8 + l * 2 ^ 16 + p * 2 ^ 24 + h * 2 ^ 32 + f * 2 ^ 33) * 2 + 1
unfolding method_header
header_sum a t l p h f ha ht hl hp hh hf =
    rw
      (
        byte a ha,
        byte t ht,
        byte l hl,
        byte p hp,
        flag h hh,
        flag f hf,
        bit_or_fields 9 (a * 2 ^ 1) t (omega arith),
        bit_or_fields 17 (a * 2 ^ 1 + t * 2 ^ 9) l (omega arith),
        bit_or_fields 25 (a * 2 ^ 1 + t * 2 ^ 9 + l * 2 ^ 17) p (omega arith),
        bit_or_fields 33 (a * 2 ^ 1 + t * 2 ^ 9 + l * 2 ^ 17 + p * 2 ^ 25) h (omega arith),
        bit_or_fields 34 (a * 2 ^ 1 + t * 2 ^ 9 + l * 2 ^ 17 + p * 2 ^ 25 + h * 2 ^ 33) f
            (omega arith),
      )
      (ap (λ k. bit_or k 1) whole ∙ bit_or_one _)
  where
    whole :
        a * 2 ^ 1 + t * 2 ^ 9 + l * 2 ^ 17 + p * 2 ^ 25 + h * 2 ^ 33 + f * 2 ^ 34
        ≡ (a + t * 2 ^ 8 + l * 2 ^ 16 + p * 2 ^ 24 + h * 2 ^ 32 + f * 2 ^ 33) * 2
    whole = omega arith

-- The header word of a method is a SmallInt of 35 bits, and each of its six fields reads as it
-- was written.
pub method_header-fields :
    (a t l p h f : ℕ)
    → a < 2 ^ 8
    → t < 2 ^ 8
    → l < 2 ^ 8
    → p < 2 ^ 8
    → h < 2
    → f < 2
    → (method_header a t l p h f < 2 ^ 35)
      × (method_header a t l p h f % 2 ≡ 1)
      × (num_args (method_header a t l p h f) ≡ a)
      × (num_temps (method_header a t l p h f) ≡ t)
      × (num_literals (method_header a t l p h f) ≡ l)
      × (prim_index (method_header a t l p h f) ≡ p)
      × (has_prim (method_header a t l p h f) ≡ h)
      × (large_frame (method_header a t l p h f) ≡ f)
unfolding num_args num_temps num_literals prim_index has_prim large_frame
method_header-fields a t l p h f ha ht hl hp hh hf =
    let e = header_sum a t l p h f ha ht hl hp hh hf in
    (
      omega (arith, e),
      omega (arith, e),
      bit_and_mask 8 _ ∙ omega (arith, e),
      bit_and_mask 8 _ ∙ omega (arith, e),
      bit_and_mask 8 _ ∙ omega (arith, e),
      bit_and_mask 8 _ ∙ omega (arith, e),
      bit_and_mask 1 _ ∙ omega (arith, e),
      bit_and_mask 1 _ ∙ omega (arith, e),
    )
