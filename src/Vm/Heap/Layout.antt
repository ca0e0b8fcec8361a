-- ===== src/Vm/Heap/Layout.antt =====
-- Where the objects of a heap lie.
use native.Mathlib.Nat.{mod-eq_of_lt}
use smalltalk_a_vm.Prelude.{
  ℕ, ◌+◌, ◌-◌, ◌*◌, ◌/◌, ◌%◌, ◌^◌, ◌≤◌, ◌<◌, ◌≡◌, refl, ap, ◌∙◌, arith, none, some, List, [], ◌∷◌,
  bit_and, ltb, ◌⊎◌, inl, inr, Bool-cases,
}
use smalltalk_a_vm.Prelude.Words.{bit_and_align16}
use smalltalk_a_vm.Vm.Oop.{alloc_size}
use smalltalk_a_vm.Vm.Heap.{Object, Heap, align, init, alloc, white_header}

pub align-eq : (n : ℕ) → n + 15 < 2 ^ 64 → align n ≡ (n + 15) / 16 * 16
unfolding align
align-eq n small =
    ap (λ k. bit_and k (2 ^ 64 - 16)) (mod-eq_of_lt {n = n + 15} {m = 2 ^ 64} small)
    ∙ bit_and_align16 (n + 15) small

-- The end of an object: its header, its gap and its payload.
abbrev pub end_of : Object → ℕ
end_of o = o.offset + (16 + o.header.size * 8)

-- The objects lie in their order from the base to `top`, each on a 16-byte boundary.
abbrev pub Packed : List Object → ℕ → Type 0
Packed [] top = Unit
Packed (o ∷ os) top = (end_of o ≤ top) × (o.offset % 16 ≡ 0) × Packed os o.offset

pub record IsValid (heap : Heap) : Type 0 where
  pub packed : Packed heap.objects heap.used
  pub aligned : heap.used % 16 ≡ 0
  pub bounded : heap.used ≤ heap.capacity
  pub small : heap.capacity < 2 ^ 63

-- Two objects share no byte; one shares none with any of a list.
abbrev pub Disjoint : Object → Object → Type 0
Disjoint a b = (end_of a ≤ b.offset) ⊎ (end_of b ≤ a.offset)

abbrev pub Apart : Object → List Object → Type 0
Apart o [] = Unit
Apart o (x ∷ xs) = Disjoint o x × Apart o xs

pub Packed-Apart :
    (os : List Object) (top : ℕ) (o : Object) → Packed os top → top ≤ o.offset → Apart o os
Packed-Apart [] top o p above = tt
Packed-Apart (x ∷ os) top o (fits, a, rest) above =
    (inr (omega arith), Packed-Apart os x.offset o rest (omega arith))

pub Packed-more : (os : List Object) (a b : ℕ) → Packed os a → a ≤ b → Packed os b
Packed-more [] a b p le = tt
Packed-more (x ∷ os) a b (fits, al, rest) le = (omega arith, al, rest)

-- A new heap of any size below 2^62 bytes is valid and at least as large as was asked for.
pub init-IsValid :
    (capacity : ℕ)
    → capacity < 2 ^ 62
    → IsValid (init capacity)
      × (capacity ≤ (init capacity).capacity)
      × (16 ≤ (init capacity).capacity)
unfolding init
init-IsValid capacity small =
    let e = align-eq capacity (omega arith) in
    (
      record { packed = tt; aligned = refl; bounded = omega arith; small = ground (arith, e) },
      ground (arith, e),
      ground (arith, e),
    )

-- An allocation either fails, and then the rounded size does not fit what is left, or gives a
-- 16-byte aligned object of the class and size asked for that lies in the slab and overlaps no
-- other, and leaves the heap valid.
pub alloc-Disjoint :
    (heap : Heap) (class_index nwords : ℕ)
    → IsValid heap
    → nwords < 2 ^ 32
    → ((alloc heap class_index nwords ≡ none)
        × (heap.capacity < heap.used + (16 + nwords * 8 + 15) / 16 * 16))
      ⊎ ((heap' : Heap) × (o : Object) × (alloc heap class_index nwords ≡ some (heap', o))
          × IsValid heap'
          × (heap'.objects ≡ o ∷ heap.objects)
          × (o.header ≡ white_header class_index nwords)
          × (o.offset % 16 ≡ 0)
          × (end_of o ≤ heap.capacity)
          × Apart o heap.objects)
unfolding alloc alloc_size
alloc-Disjoint heap class_index nwords v small =
    elim (Bool-cases (ltb heap.capacity ((heap.used + align (16 + nwords * 8)) % 2 ^ 64))) [
      | inl full ↦ inl (rw full refl, ground (arith, e, whole, v.small, v.bounded))
      | inr fits ↦ inr (
        record {
          capacity = heap.capacity;
          used = (heap.used + align (16 + nwords * 8)) % 2 ^ 64;
          objects = o ∷ heap.objects;
        },
        o,
        rw fits refl,
        record {
          packed = (omega (arith, e, whole), v.aligned, v.packed);
          aligned = omega (arith, e, whole, v.aligned);
          bounded = ground arith;
          small = v.small;
        },
        refl,
        refl,
        v.aligned,
        ground (arith, e, whole),
        Packed-Apart heap.objects heap.used o v.packed (omega arith),
      )
    ]
  where
    o : Object
    o = record { offset = heap.used; header = white_header class_index nwords }

    e : align (16 + nwords * 8) ≡ (16 + nwords * 8 + 15) / 16 * 16
    e = align-eq (16 + nwords * 8) (omega arith)

    whole : (heap.used + align (16 + nwords * 8)) % 2 ^ 64 ≡ heap.used + align (16 + nwords * 8)
    whole = mod-eq_of_lt (omega (arith, e, v.small, v.bounded))
