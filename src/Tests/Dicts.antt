-- ===== src/Tests/Dicts.antt =====
-- The method dictionary, src/vm/method_dict.c, and the class table, src/vm/class_table.c.
use smalltalk_a_vm.Prelude.{
  ℕ, ◌*◌, ◌≤◌, ◌≡◌, refl, arith, true, false, ◌&&◌, none, some, [], ◌∷◌, ◌==◌, if◌then◌else◌, ◌⊎◌,
  length-replicate,
}
use smalltalk_a_vm.Vm.MethodDict.{Dict, create, insert, lookup, capacity, overloaded}
use smalltalk_a_vm.Vm.MethodDict.Invariant.{IsValid, create-lookup}
use smalltalk_a_vm.Vm.MethodDict.Laws.{insert-lookup}
use smalltalk_a_vm.Vm.ClassTable.{
  ClassTable, init, set_class, get_class, index_of, alloc_index, set_class-get_class,
  index_of-least, alloc_index-free,
}
use smalltalk_a_vm.Vm.ClassTable as Classes

-- A selector's hash, for the tests.
abbrev hash : ℕ → ℕ
hash selector = selector * 3

create_capacity : capacity (create 0) ≡ 4
unfolding create
create_capacity = refl

insert-lookup_example :
    ((d' : Dict) × (insert hash (create 0) true 8 80 ≡ some d')
      × IsValid hash d'
      × ((j : ℕ) → lookup hash d' j ≡ (if j == 8 then 80 else lookup hash (create 0) j)))
    ⊎ ((true ≡ false) × (overloaded (create 0) ≡ true) × (insert hash (create 0) true 8 80 ≡ none))
insert-lookup_example =
    insert-lookup hash (create 0) true 8 80 (create-lookup hash 0 (omega arith)).0
      (omega (arith, create_capacity)) (omega arith)

abbrev classes : ClassTable
classes = record { entries = 0 ∷ 11 ∷ 12 ∷ 12 ∷ [] }

set_class-get_class_example :
    (Classes.capacity (set_class classes 2 13).0 ≡ 4)
    × ((set_class classes 2 13).1 ≡ true)
    × (get_class (set_class classes 2 13).0 3
        ≡ (if (set_class classes 2 13).1 && false then 13 else get_class classes 3))
set_class-get_class_example = set_class-get_class classes 2 13 3

index_of-least_example :
    (1 ≤ index_of classes 12)
    × (index_of classes 12 ≤ 3)
    × (get_class classes (index_of classes 12) ≡ 12)
unfolding get_class
index_of-least_example = index_of-least classes 12 3 (omega arith) (omega arith) (omega arith) refl

init_free : get_class init 40 ≡ 0
unfolding init get_class
init_free = refl

init_size : Classes.capacity init ≡ 256
unfolding init
init_size = length-replicate {A = ℕ} 256 0

alloc_index-free_example :
    (36 ≤ alloc_index init)
    × (alloc_index init ≤ 40)
    × (get_class init (alloc_index init) ≡ 0)
    × (get_class (set_class init (alloc_index init) 9).0 36
        ≡ (if 36 == alloc_index init then 9 else get_class init 36))
alloc_index-free_example =
    alloc_index-free init 40 9 36 (omega arith) (omega (arith, init_size)) init_free
