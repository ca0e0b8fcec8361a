-- ===== src/Tests/Handles.antt =====
-- The handle table, src/vm/handle.c.
use smalltalk_a_vm.Prelude.{◌+◌, ◌-◌, ◌*◌, ◌<◌, ◌≡◌, ◌⊎◌, ◌↔◌, refl, arith, true, false, none, some}
use smalltalk_a_vm.Vm.HandleTable.{
  HandleTable, Pointer, init, create, get, entry_at, release_entry, take_free, thread_slots,
}
use smalltalk_a_vm.Vm.HandleTable.Free.{IsValid, pointer}
use smalltalk_a_vm.Vm.HandleTable.Laws.{Kept, Others, taken, create-get, create-none}
use smalltalk_a_vm.Vm.HandleTable.Release.{release-retires}
use smalltalk_a_vm.Vm.HandleTable.Create.{init-IsValid}

abbrev one_handle : HandleTable
one_handle = (take_free init 40).0

one_handle-IsValid : IsValid one_handle
unfolding init
one_handle-IsValid = (taken init init-IsValid 40 (omega arith)).valid

create-get_example :
    (t' : HandleTable) × (h : Pointer) × (create init true 40 ≡ some (t', h))
    × IsValid t'
    × (get t' h ≡ some 40)
    × (t'.count ≡ init.count + 1)
    × Kept init t' h
unfolding init
create-get_example = create-get init 40 init-IsValid (omega arith)

create-none_example :
    (create init false 40 ≡ none) ↔ ((false ≡ false) × (init.count ≡ init.slab_count * 64))
create-none_example = create-none init false 40 init-IsValid

release-retires_example :
    (t' : HandleTable) × (release_entry one_handle (pointer 0) ≡ some t')
    × IsValid t'
    × ((entry_at t' (pointer 0)).refcount ≡ (entry_at one_handle (pointer 0)).refcount - 1)
    × ((t'.count ≡ one_handle.count - 1)
          × (t'.free_head ≡ 0)
          × ((entry_at one_handle (pointer 0)).refcount ≡ 1)
        ⊎ (t'.count ≡ one_handle.count)
          × (t'.free_head ≡ one_handle.free_head)
          × (1 < (entry_at one_handle (pointer 0)).refcount))
    × Others one_handle t' 0
unfolding init take_free thread_slots
release-retires_example =
    release-retires one_handle 0 one_handle-IsValid (omega arith) (omega arith)

-- Two handles; the first is retained, released twice, and its entry is handed out again.
reuse :
    (h : Pointer) × (t : HandleTable) × (create init true 40 ≡ some (t, h))
    × (h ≡ record { slab = 0; slot = 0 })
    × (t.free_head ≡ 1)
unfolding init create thread_slots
reuse = (_, _, refl, refl, refl)
