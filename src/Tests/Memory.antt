-- ===== src/Tests/Memory.antt =====
-- The allocators, src/vm/heap.c and src/vm/immutable_space.c.
use smalltalk_a_vm.Prelude.{
  ◌+◌, ◌*◌, ◌/◌, ◌%◌, ◌≤◌, ◌<◌, ◌≡◌, arith, true, false, none, some, ◌∷◌, ◌⊎◌,
}
use smalltalk_a_vm.Vm.Heap.{Heap, Object, init, alloc, white_header}
use smalltalk_a_vm.Vm.Heap.Layout.{IsValid, end_of, Apart, init-IsValid, alloc-Disjoint}
use smalltalk_a_vm.Vm.ImmutableSpace.{
  ImmutableSpace, shared_header, alloc-Shared, seal, seal-alloc, init-capacity,
}
use smalltalk_a_vm.Vm.ImmutableSpace as Immutable

alloc-Disjoint_example :
    ((alloc (init 100) 5 3 ≡ none)
      × ((init 100).capacity < (init 100).used + (16 + 3 * 8 + 15) / 16 * 16))
    ⊎ ((heap' : Heap) × (o : Object) × (alloc (init 100) 5 3 ≡ some (heap', o))
        × IsValid heap'
        × (heap'.objects ≡ o ∷ (init 100).objects)
        × (o.header ≡ white_header 5 3)
        × (o.offset % 16 ≡ 0)
        × (end_of o ≤ (init 100).capacity)
        × Apart o (init 100).objects)
alloc-Disjoint_example =
    alloc-Disjoint (init 100) 5 3 (init-IsValid 100 (omega arith)).0 (omega arith)

abbrev space : ImmutableSpace
space = Immutable.init 4096 5000

alloc-Shared_example :
    ((Immutable.alloc space 7 2 ≡ none)
      × ((space.is_sealed ≡ true) ⊎ (space.capacity < (space.used + 15) / 16 * 16 + (16 + 2 * 8))))
    ⊎ ((sp' : ImmutableSpace) × (o : Object) × (Immutable.alloc space 7 2 ≡ some (sp', o))
        × (space.is_sealed ≡ false)
        × Immutable.IsValid sp'
        × (sp'.objects ≡ o ∷ space.objects)
        × (o.header ≡ shared_header 7 2)
        × (o.offset % 16 ≡ 0)
        × (end_of o ≤ space.capacity)
        × Apart o space.objects)
alloc-Shared_example =
    alloc-Shared space 7 2 (init-capacity 4096 5000 (omega arith) (omega arith) (omega arith)).0
      (omega arith)
