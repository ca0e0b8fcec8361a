-- ===== src/Tests/Words.antt =====
-- Tagged words: src/vm/oop.h, src/vm/format.h and src/vm/compiled_method.h.
use smalltalk_a_vm.Prelude.{◌%◌, ◌^◌, ◌<◌, ◌≡◌, arith, true, false, inr}
use smalltalk_a_vm.Vm.Oop.{
  is_smallint, is_char, is_heap, smallint_val, smallint_oop, char_val, char_oop,
  smallint_val-smallint_oop, char_val-char_oop,
}
use smalltalk_a_vm.Vm.Format.{
  encode, inst_vars, format_type, is_indexable, is_bytes, is_instantiable, encode-decode,
}
use smalltalk_a_vm.Vm.CompiledMethod.{
  method_header, num_args, num_temps, num_literals, prim_index, has_prim, large_frame,
  method_header-fields,
}

-- -1 in two's complement.
smallint_val-smallint_oop_example :
    (smallint_oop 18446744073709551615 < 2 ^ 64)
    × (smallint_val (smallint_oop 18446744073709551615) ≡ 18446744073709551615)
    × (is_smallint (smallint_oop 18446744073709551615) ≡ true)
    × (is_char (smallint_oop 18446744073709551615) ≡ false)
    × (is_heap (smallint_oop 18446744073709551615) ≡ false)
smallint_val-smallint_oop_example =
    smallint_val-smallint_oop 18446744073709551615 (inr (omega arith, omega arith))

char_val-char_oop_example :
    (char_oop 955 < 2 ^ 64)
    × (char_val (char_oop 955) ≡ 955)
    × (is_char (char_oop 955) ≡ true)
    × (is_smallint (char_oop 955) ≡ false)
    × (is_heap (char_oop 955) ≡ false)
char_val-char_oop_example = char_val-char_oop 955 (omega arith)

encode-decode_example :
    (inst_vars (encode 3 2) ≡ 3)
    × (format_type (encode 3 2) ≡ 2)
    × (is_indexable (encode 3 2) ≡ true)
    × (is_bytes (encode 3 2) ≡ true)
    × (is_instantiable (encode 3 2) ≡ true)
encode-decode_example = encode-decode 3 2 (omega arith) (omega arith)

method_header-fields_example :
    (method_header 2 5 7 60 1 0 < 2 ^ 35)
    × (method_header 2 5 7 60 1 0 % 2 ≡ 1)
    × (num_args (method_header 2 5 7 60 1 0) ≡ 2)
    × (num_temps (method_header 2 5 7 60 1 0) ≡ 5)
    × (num_literals (method_header 2 5 7 60 1 0) ≡ 7)
    × (prim_index (method_header 2 5 7 60 1 0) ≡ 60)
    × (has_prim (method_header 2 5 7 60 1 0) ≡ 1)
    × (large_frame (method_header 2 5 7 60 1 0) ≡ 0)
method_header-fields_example =
    method_header-fields 2 5 7 60 1 0 (omega arith) (omega arith) (omega arith) (omega arith)
      (omega arith) (omega arith)
