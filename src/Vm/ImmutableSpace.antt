-- ===== src/Vm/ImmutableSpace.antt =====
-- The shared immutable region, src/vm/immutable_space.c: a bump allocator on mapped pages that is
-- sealed after the image is built. `page` is the page size that `sysconf` reports.
use native.Mathlib.Nat.{mod-eq_of_lt, div-add-mod, mod-lt}
use smalltalk_a_vm.Prelude.{
  ℕ, ◌+◌, ◌-◌, ◌*◌, ◌/◌, ◌%◌, ◌^◌, ◌≤◌, ◌<◌, ◌≡◌, refl, arith, Bool, true, false, ◌||◌, Option,
  none, some, List, [], ◌∷◌, ltb, ◌==◌, if◌then◌else◌, ◌⊎◌, inl, inr, Bool-cases,
}
use smalltalk_a_vm.Vm.Oop.{ObjHeader, alloc_size}
use smalltalk_a_vm.Vm.Heap.{Object, align}
use smalltalk_a_vm.Vm.Heap.Layout.{align-eq, end_of, Packed, Packed-Apart, Packed-more, Apart}

pub record ImmutableSpace : Type 0 where
  pub capacity : ℕ
  pub used : ℕ
  pub is_sealed : Bool
  pub objects : List Object

-- `sta_immutable_space_init`, where `mmap` succeeds.
unfoldable pub init : ℕ → ℕ → ImmutableSpace
init page min_capacity =
    let n = if min_capacity == 0 then 1 else min_capacity in
    record { capacity = (n + page - 1) / page * page; used = 0; is_sealed = false; objects = [] }

-- `STA_OBJ_IMMUTABLE | STA_OBJ_SHARED_IMM`
abbrev pub shared_header : ℕ → ℕ → ObjHeader
shared_header class_index nwords = record {
  class_index = class_index;
  size = nwords;
  gc_flags = 0;
  obj_flags = 9;
  reserved = 0;
}

-- `sta_immutable_alloc`: `none` for NULL.
unfoldable pub alloc : ImmutableSpace → ℕ → ℕ → Option (ImmutableSpace × Object)
alloc sp class_index nwords =
    let start = align sp.used in
    let after = (start + alloc_size nwords) % 2 ^ 64 in
    if sp.is_sealed
    then none
    else (if ltb sp.capacity after
        then none
        else let object : Object = record {
          offset = start;
          header = shared_header class_index nwords;
        } in
          some (record sp { used = after; objects = object ∷ sp.objects }, object))

-- `sta_immutable_space_seal`, by whether `mprotect` succeeds: the space, and whether 0 is returned.
unfoldable pub seal : ImmutableSpace → Bool → ImmutableSpace × Bool
seal sp mprotect =
    if sp.is_sealed
    then (sp, true)
    else (if mprotect then (record sp { is_sealed = true }, true) else (sp, false))

pub record IsValid (sp : ImmutableSpace) : Type 0 where
  pub packed : Packed sp.objects sp.used
  pub bounded : sp.used ≤ sp.capacity
  pub small : sp.capacity < 2 ^ 63

-- An allocation fails if the space is sealed or has no room after rounding up to a boundary of
-- 16 bytes, and only then. Else it gives an object marked immutable and shared, on such a
-- boundary, in the space and apart from all others, and the space stays valid.
pub alloc-Shared :
    (sp : ImmutableSpace) (class_index nwords : ℕ)
    → IsValid sp
    → nwords < 2 ^ 32
    → ((alloc sp class_index nwords ≡ none)
        × ((sp.is_sealed ≡ true) ⊎ (sp.capacity < (sp.used + 15) / 16 * 16 + (16 + nwords * 8))))
      ⊎ ((sp' : ImmutableSpace) × (o : Object) × (alloc sp class_index nwords ≡ some (sp', o))
          × (sp.is_sealed ≡ false)
          × IsValid sp'
          × (sp'.objects ≡ o ∷ sp.objects)
          × (o.header ≡ shared_header class_index nwords)
          × (o.offset % 16 ≡ 0)
          × (end_of o ≤ sp.capacity)
          × Apart o sp.objects)
unfolding alloc alloc_size
alloc-Shared sp class_index nwords v small = elim (Bool-cases sp.is_sealed) [
  | inl shut ↦ inl (rw shut refl, inl shut)
  | inr open_yet ↦
      elim (Bool-cases (ltb sp.capacity ((align sp.used + (16 + nwords * 8)) % 2 ^ 64))) [
        | inl full ↦ inl (rw (open_yet, full) refl, inr (ground (arith, e, whole)))
        | inr fits ↦ inr (
          record sp {
            used = (align sp.used + (16 + nwords * 8)) % 2 ^ 64;
            objects = o ∷ sp.objects;
          },
          o,
          rw (open_yet, fits) refl,
          open_yet,
          record {
            packed = (
              omega (arith, whole),
              omega (arith, e),
              Packed-more sp.objects sp.used (align sp.used) v.packed (omega (arith, e)),
            );
            bounded = ground arith;
            small = v.small;
          },
          refl,
          refl,
          omega (arith, e),
          ground (arith, whole),
          Packed-Apart sp.objects sp.used o v.packed (omega (arith, e)),
        )
      ]
]
  where
    o : Object
    o = record { offset = align sp.used; header = shared_header class_index nwords }

    e : align sp.used ≡ (sp.used + 15) / 16 * 16
    e = align-eq sp.used (omega (arith, v.bounded, v.small))

    whole : (align sp.used + (16 + nwords * 8)) % 2 ^ 64 ≡ align sp.used + (16 + nwords * 8)
    whole = mod-eq_of_lt (omega (arith, e, v.small, v.bounded))

-- A new space of less than 2^62 bytes, with pages of less than 2^32, is valid, holds whole pages and
-- is at least as large as was asked for.
pub init-capacity :
    (page min_capacity : ℕ)
    → 0 < page
    → page < 2 ^ 32
    → min_capacity < 2 ^ 62
    → IsValid (init page min_capacity)
      × (min_capacity ≤ (init page min_capacity).capacity)
      × ((pages : ℕ) × ((init page min_capacity).capacity ≡ pages * page))
unfolding init
init-capacity page min_capacity positive small few = (
  record {
    packed = tt;
    bounded = omega arith;
    small = omega (arith, div-add-mod (n + page - 1) page, bound);
  },
  omega (arith, div-add-mod (n + page - 1) page, mod-lt (n + page - 1) {m = page} positive, bound),
  ((n + page - 1) / page, refl),
)
  where
    n : ℕ
    n = if min_capacity == 0 then 1 else min_capacity

    bound : (min_capacity ≤ n) × (n ≤ min_capacity + 1)
    bound = ground arith

-- Once the space is sealed, now or before, no allocation succeeds, and what it holds is unchanged.
pub seal-alloc :
    (sp : ImmutableSpace) (mprotect : Bool) (class_index nwords : ℕ)
    → (sp.is_sealed || mprotect) ≡ true
    → ((seal sp mprotect).1 ≡ true)
      × ((seal sp mprotect).0.objects ≡ sp.objects)
      × (alloc (seal sp mprotect).0 class_index nwords ≡ none)
unfolding seal alloc
seal-alloc sp mprotect class_index nwords shut = elim (Bool-cases sp.is_sealed) [
  | inl e ↦ rw (e, seal) (refl, refl, refl)
  | inr e ↦ let m : mprotect ≡ true = ground arith in rw (e, m) (refl, refl, refl)
]
