-- ===== src/Vm/Heap.antt =====
-- The actor-local heap, src/vm/heap.c: a bump allocator on a slab. `objects` is what the slab holds,
-- the newest first; offsets are from the slab's base, which is aligned to 16 bytes.
pub mod Layout
use smalltalk_a_vm.Prelude.{
  ℕ, ◌+◌, ◌-◌, ◌%◌, ◌^◌, Option, none, some, List, [], ◌∷◌, bit_and, ltb, ◌==◌, if◌then◌else◌,
}
use smalltalk_a_vm.Vm.Oop.{ObjHeader, alloc_size}

pub record Object : Type 0 where
  pub offset : ℕ
  pub header : ObjHeader

pub record Heap : Type 0 where
  pub capacity : ℕ
  pub used : ℕ
  pub objects : List Object

-- `(n + 15u) & ~(size_t)15u`
unfoldable pub align : ℕ → ℕ
align n = bit_and ((n + 15) % 2 ^ 64) (2 ^ 64 - 16)

-- `sta_heap_init`, where `aligned_alloc` succeeds.
unfoldable pub init : ℕ → Heap
init capacity =
    let rounded = align capacity in
    record { capacity = (if rounded == 0 then 16 else rounded); used = 0; objects = [] }

abbrev pub white_header : ℕ → ℕ → ObjHeader
white_header class_index nwords = record {
  class_index = class_index;
  size = nwords;
  gc_flags = 0;
  obj_flags = 0;
  reserved = 0;
}

-- `sta_heap_alloc`: `none` for NULL.
unfoldable pub alloc : Heap → ℕ → ℕ → Option (Heap × Object)
alloc heap class_index nwords =
    let bytes = align (alloc_size nwords) in
    if ltb heap.capacity ((heap.used + bytes) % 2 ^ 64)
    then none
    else let object : Object = record {
      offset = heap.used;
      header = white_header class_index nwords;
    } in
      some (
        record heap { used = (heap.used + bytes) % 2 ^ 64; objects = object ∷ heap.objects },
        object,
      )
