-- ===== src/Tests/Registry.antt =====
-- The actor registry, src/actor/registry.c, on a small table.
use smalltalk_a_vm.Prelude.{
  ℕ, ◌*◌, ◌≤◌, ◌<◌, ◌⊎◌, false, ◌≡◌, refl, arith, true, some, ◌==◌, if◌then◌else◌,
}
use smalltalk_a_vm.Prelude.Pow2.{smear, round_up, next_pow2}
use smalltalk_a_vm.Actor.Registry.{Registry, create, register, lookup, unregister, retained}
use smalltalk_a_vm.Actor.Registry.Invariant.{IsValid}
use smalltalk_a_vm.Actor.Registry.Create.{create-IsValid}
use smalltalk_a_vm.Actor.Registry.Laws.{register-lookup}
use smalltalk_a_vm.Actor.Registry.Unregister.{unregister-lookup}

abbrev fresh : Registry
fresh = create 8

fresh_capacity : fresh.capacity ≡ 8
unfolding create next_pow2 round_up smear
fresh_capacity = refl

register-lookup_example :
    (reg' : Registry) × (register fresh true 5 100 ≡ some reg')
    × IsValid reg'
    × (((true ≡ false) × (fresh.capacity * 7 ≤ fresh.used * 10) × (reg' ≡ fresh))
        ⊎ (((true ≡ true) ⊎ (fresh.used * 10 < fresh.capacity * 7))
            × ((j : ℕ) (refcounts : ℕ → ℕ)
                → lookup reg' refcounts j ≡ (
                    if j == 5
                    then some (100, retained refcounts 100)
                    else lookup fresh refcounts j))))
register-lookup_example =
    register-lookup fresh true 5 100 (create-IsValid 8 (omega arith)).0
      (omega (arith, fresh_capacity)) (omega arith) (omega arith) (omega arith)

-- The table of the actor 100 under 5 again.
abbrev occupied : Registry
occupied = register-lookup_example.0

unregister-lookup_example :
    (reg' : Registry) × (unregister occupied 5 ≡ some reg')
    × IsValid reg'
    × ((j : ℕ) (refcounts : ℕ → ℕ)
        → lookup reg' refcounts j
          ≡ (if j == 5 then some (0, refcounts) else lookup occupied refcounts j))
unregister-lookup_example = unregister-lookup occupied 5 register-lookup_example.2

next_pow2_runs : (next_pow2 9 ≡ 16) × (next_pow2 64 ≡ 64)
unfolding next_pow2 round_up smear
next_pow2_runs = (refl, refl)
