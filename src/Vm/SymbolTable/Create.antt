-- ===== src/Vm/SymbolTable/Create.antt =====
-- `sta_symbol_table_init`: a valid table without symbols.
use smalltalk_a_vm.Prelude.{
  ℕ, ◌^◌, ◌≤◌, ◌≡◌, refl, sym, ap, ◌∙◌, subst, arith, none, some, List, replicate, length-replicate,
  get_or-replicate, ℕ_discrete,
}
use smalltalk_a_vm.Prelude.Pow2.{round_up, round_up_lem}
use smalltalk_a_vm.Prelude.Words.{pow_pos}
use smalltalk_a_vm.Probe.Invariant.{replicate-IsProbed, load-replicate}
use smalltalk_a_vm.Probe.Find.{content-Absent}
use smalltalk_a_vm.Vm.SymbolTable.{SymbolTable, init, lookup}
use smalltalk_a_vm.Vm.SymbolTable.Slot.{slots, Hashed}
use smalltalk_a_vm.Vm.SymbolTable.Invariant.{IsValid, room, oop_in, lookup-eq-content}

module _ (n k : ℕ) (hi : n ≤ 2 ^ 28) (power : n ≡ 2 ^ k) where
  abbrev vacant : SymbolTable
  vacant = record { slots = replicate n none; capacity = n; count = 0 }

  vacant-IsValid : IsValid vacant
  vacant-IsValid = record {
    power = (k, power);
    sized = length-replicate n none;
    probed = replicate-IsProbed slots n;
    hashed = λ p. subst Hashed (sym (get_or-replicate n none p)) tt;
    counted = sym (load-replicate slots n);
    slack = omega arith;
    large = omega (arith, pow_pos k);
    small = hi;
  }

  vacant-lookup : (utf8 : List ℕ) → lookup vacant utf8 ≡ some 0
  vacant-lookup utf8 =
      lookup-eq-content vacant utf8 vacant-IsValid
      ∙ ap (λ c. some (oop_in c))
          (content-Absent slots (replicate n none) utf8
            (λ p a. ap (slots.holds utf8) (get_or-replicate n none p)) (room vacant-IsValid))

sixteen : round_up 16 0 ≡ 2 ^ 4
unfolding round_up
sixteen = refl

-- A new table is valid, holds no symbol and has at least the slots asked for, up to 2^27 of them.
pub init-lookup :
    (initial_capacity : ℕ) (utf8 : List ℕ)
    → initial_capacity ≤ 2 ^ 27
    → IsValid (init initial_capacity)
      × (initial_capacity ≤ (init initial_capacity).capacity)
      × (lookup (init initial_capacity) utf8 ≡ some 0)
unfolding init
init-lookup initial_capacity utf8 small = elim (ℕ_discrete initial_capacity 0) [
  | yes z ↦
      let e : round_up 16 initial_capacity ≡ 2 ^ 4 = ap (round_up 16) z ∙ sixteen in
      (
        vacant-IsValid _ 4 (omega (arith, e)) e,
        omega (arith, e),
        vacant-lookup _ 4 (omega (arith, e)) e utf8,
      )
  | no nz ↦
      let (k, _, e, above, below) = round_up_lem 16 initial_capacity (omega arith) (omega arith) in
      let fits : round_up 16 initial_capacity ≤ 2 ^ 28 = omega (arith, e, below) in
      (vacant-IsValid _ k fits e, omega (arith, e), vacant-lookup _ k fits e utf8)
]
