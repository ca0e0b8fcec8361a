-- ===== src/Tests/Symbols.antt =====
-- Interning, src/vm/symbol_table.c, on a small table.
use smalltalk_a_vm.Prelude.{ℕ, ◌≡◌, refl, arith, true, false, some, List, [], ◌∷◌}
use smalltalk_a_vm.Prelude.Pow2.{smear, round_up}
use smalltalk_a_vm.Probe.{walk}
use smalltalk_a_vm.Vm.SymbolTable.{
  SymbolTable, init, intern, symbol_hash, hash_from, probe, overloaded, make_room, store,
  alloc_symbol,
}
use smalltalk_a_vm.Vm.SymbolTable.Invariant.{IsValid}
use smalltalk_a_vm.Vm.SymbolTable.Create.{init-lookup}
use smalltalk_a_vm.Vm.SymbolTable.Laws.{Interned, intern-lookup, intern_twice}

-- `at:`
abbrev text : List ℕ
text = 97 ∷ 116 ∷ 58 ∷ []

-- FNV-1a of no bytes and of `a`.
symbol_hash_runs : (symbol_hash [] ≡ 2166136261) × (symbol_hash (97 ∷ []) ≡ 3826002220)
unfolding symbol_hash hash_from
symbol_hash_runs = (refl, refl)

init_capacity : (init 16).capacity ≡ 16
unfolding init round_up smear
init_capacity = refl

intern-lookup_example :
    (st' : SymbolTable) × (oop : ℕ) × (intern (init 16) true 512 text ≡ some (st', oop))
    × IsValid st'
    × Interned (init 16) true 512 text st' oop
intern-lookup_example =
    intern-lookup (init 16) true 512 text (init-lookup 16 text (omega arith)).0
      (omega (arith, init_capacity)) refl

abbrev after : SymbolTable
after = store (init 16) 6 (alloc_symbol 512 text (symbol_hash text))

interned_once : intern (init 16) true 512 text ≡ some (after, 512)
unfolding intern init round_up smear probe walk overloaded make_room store symbol_hash hash_from
interned_once = refl

intern_twice_example : intern after false 0 text ≡ some (after, 512)
intern_twice_example =
    intern_twice (init 16) true 512 text after 512 false 0 (init-lookup 16 text (omega arith)).0
      (omega (arith, init_capacity)) refl interned_once (omega arith)
