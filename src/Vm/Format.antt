-- ===== src/Vm/Format.antt =====
-- The format word of a class, src/vm/format.h: the number of instance variables and the shape of
-- the instances in one SmallInt.
use smalltalk_a_vm.Prelude.{
  ℕ, ◌+◌, ◌-◌, ◌*◌, ◌/◌, ◌%◌, ◌^◌, ◌<◌, ◌≡◌, refl, ap, ◌∙◌, arith, Bool, not, ◌&&◌, ◌||◌, bit_and,
  bit_or, ltb, ◌==◌, inl,
}
use smalltalk_a_vm.Prelude.Words.{bit_and_mask}
use smalltalk_a_vm.Prelude.Ors.{bit_or_high, zero-bit_or}
use smalltalk_a_vm.Vm.Oop.{smallint_oop, smallint_val, smallint_val-smallint_oop}

abbrev pub fmt_normal : ℕ
fmt_normal = 0

abbrev pub fmt_variable_oop : ℕ
fmt_variable_oop = 1

abbrev pub fmt_variable_byte : ℕ
fmt_variable_byte = 2

abbrev pub fmt_variable_word : ℕ
fmt_variable_word = 3

abbrev pub fmt_weak : ℕ
fmt_weak = 4

abbrev pub fmt_immediate : ℕ
fmt_immediate = 5

abbrev pub fmt_compiled_method : ℕ
fmt_compiled_method = 6

-- `STA_FORMAT_ENCODE`, with `uint32_t` shifts.
unfoldable pub encode : ℕ → ℕ → ℕ
encode inst_vars fmt_type = smallint_oop (bit_or (fmt_type * 2 ^ 8 % 2 ^ 32) inst_vars)

unfoldable pub inst_vars : ℕ → ℕ
inst_vars fmt = bit_and (smallint_val fmt) (2 ^ 8 - 1)

-- The shift of a negative SmallInt keeps its sign, which the mask then drops.
unfoldable pub format_type : ℕ → ℕ
format_type fmt = bit_and (smallint_val fmt / 2 ^ 8) (2 ^ 3 - 1)

unfoldable pub is_indexable : ℕ → Bool
is_indexable fmt =
    let t = format_type fmt in
    t == fmt_variable_oop || t == fmt_variable_byte || t == fmt_variable_word || t == fmt_weak

unfoldable pub is_bytes : ℕ → Bool
is_bytes fmt = format_type fmt == fmt_variable_byte

unfoldable pub is_instantiable : ℕ → Bool
is_instantiable fmt =
    let t = format_type fmt in not (t == fmt_immediate) && not (t == fmt_compiled_method)

packed : (n t : ℕ) → n < 2 ^ 8 → t < 2 ^ 3 → bit_or (t * 2 ^ 8 % 2 ^ 32) n ≡ t * 2 ^ 8 + n
packed n t a b =
    let whole : t * 2 ^ 8 % 2 ^ 32 ≡ t * 2 ^ 8 + 0 = omega arith in
    ap (λ k. bit_or k n) whole
    ∙ bit_or_high 8 t 0 n (omega arith) a
    ∙ ap (λ k. t * 2 ^ 8 + k) (zero-bit_or n)

-- A class's instance variable count and shape are what its format word was made of, and the
-- queries on the word answer by the shape: bytes are indexable, and only immediates and compiled
-- methods cannot be instantiated.
pub encode-decode :
    (n t : ℕ)
    → n < 2 ^ 8
    → t < 2 ^ 3
    → (inst_vars (encode n t) ≡ n)
      × (format_type (encode n t) ≡ t)
      × (is_indexable (encode n t) ≡ (ltb 0 t && ltb t 5))
      × (is_bytes (encode n t) ≡ (t == 2))
      × (is_instantiable (encode n t) ≡ (ltb t 5 || t == 7))
unfolding encode inst_vars format_type is_indexable is_bytes is_instantiable
encode-decode n t a b = (
  ap (λ k. bit_and k (2 ^ 8 - 1)) value ∙ bit_and_mask 8 (t * 2 ^ 8 + n) ∙ omega arith,
  shape,
  rw shape (ground arith),
  rw shape refl,
  rw shape (ground arith),
)
  where
    value : smallint_val (encode n t) ≡ t * 2 ^ 8 + n
    value =
        ap (λ k. smallint_val (smallint_oop k)) (packed n t a b)
        ∙ (smallint_val-smallint_oop (t * 2 ^ 8 + n) (inl (omega arith))).1

    shape : format_type (encode n t) ≡ t
    shape =
        ap (λ k. bit_and (k / 2 ^ 8) (2 ^ 3 - 1)) value
        ∙ bit_and_mask 3 ((t * 2 ^ 8 + n) / 2 ^ 8)
        ∙ omega arith
