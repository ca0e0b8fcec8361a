-- ===== src/Vm/HandleTable/Create.antt =====
-- `sta_handle_table_init`: one slab, all of it free.
use smalltalk_a_vm.Prelude.{ℕ, ◌<◌, ◌≡◌, refl, arith, inl, dec_lt}
use smalltalk_a_vm.Prelude.Words.{u32_max}
use smalltalk_a_vm.Vm.HandleTable.{HandleTable, cleared, init, thread_slab_free_list}
use smalltalk_a_vm.Vm.HandleTable.Free.{
  IsValid, Threaded, flat, run_of, In-run_of, run_of-In, run_of-Distinct, length-run_of,
  run_of-Threaded,
}
use smalltalk_a_vm.Vm.HandleTable.Threading.{thread_inside, thread_end}

abbrev one_slab : HandleTable
one_slab = record {
  entries = λ s i. cleared;
  first = 0;
  last = 0;
  slab_count = 1;
  count = 0;
  free_head = u32_max;
}

init_shape :
    (init.first ≡ 0)
    × (init.last ≡ 0)
    × (init.slab_count ≡ 1)
    × (init.count ≡ 0)
    × (init.free_head ≡ 0)
unfolding init
init_shape = (refl, refl, refl, refl, refl)

init_next : Threaded (λ i. (flat init.entries i).next_free) 0 (run_of 0 64)
unfolding init
init_next =
    run_of-Threaded (λ i. (flat (thread_slab_free_list one_slab 0).entries i).next_free) 0 63
      (λ i a b. (thread_inside one_slab 0 refl (omega arith) i a b).1)
      (thread_end one_slab 0 refl (omega arith) 63 refl).1

init_unused : (i : ℕ) → i < 64 → (flat init.entries i).refcount ≡ 0
unfolding init
init_unused i a = elim (dec_lt i 63) [
  | yes y ↦ (thread_inside one_slab 0 refl (omega arith) i (omega arith) y).0
  | no n ↦ (thread_end one_slab 0 refl (omega arith) i (omega arith)).0
]

pub init-IsValid : IsValid init
init-IsValid = record {
  free = run_of 0 64;
  first = init_shape.0;
  last = omega (arith, init_shape);
  fits = omega (arith, init_shape);
  threaded = rw init_shape.4 init_next;
  distinct = run_of-Distinct 0 64;
  inside = λ i h. omega (arith, init_shape, In-run_of 0 64 i h);
  unused = λ i h. init_unused i (omega (arith, In-run_of 0 64 i h));
  used = λ i a. inl (run_of-In 0 64 i (omega arith) (omega (arith, init_shape)));
  counted = omega (arith, init_shape, length-run_of 0 64);
}
