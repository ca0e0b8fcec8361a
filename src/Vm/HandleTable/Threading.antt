-- ===== src/Vm/HandleTable/Threading.antt =====
-- Threading a new slab into the free list, and the way from a pointer back to its index.
use smalltalk_a_vm.Prelude.{
  ℕ, zero, suc, ◌+◌, ◌*◌, ◌/◌, ◌%◌, ◌^◌, ◌≤◌, ◌<◌, ◌≡◌, ◌≢◌, refl, ap, ◌∙◌, arith, true, false,
  some, List, [], ◌∷◌, length, inl, inr, ltb, ◌==◌, ==_refl, if◌then◌else◌, dec_lt, ℕ_discrete,
}
use smalltalk_a_vm.Prelude.Words.{u32_max}
use smalltalk_a_vm.Vm.HandleTable.{
  HandleTable, cleared, Handle, Pointer, thread_slots, thread_slab_free_list, slab_search,
  entry_to_index, grow,
}
use smalltalk_a_vm.Vm.HandleTable.Free.{
  IsValid, In, Threaded, flat, pointer, run_of, In-run_of, run_of-In, run_of-Distinct,
  length-run_of, run_of-Threaded,
}

module _ (entries : ℕ → ℕ → Handle) (s base : ℕ) where
  slots_above : (n i : ℕ) → n ≤ i → thread_slots entries s base n s i ≡ entries s i
  unfolding thread_slots
  slots_above zero i h = refl
  slots_above (suc n) i h = ground (arith, slots_above n i (omega arith))

  slots_elsewhere : (n s' i : ℕ) → s' ≢ s → thread_slots entries s base n s' i ≡ entries s' i
  unfolding thread_slots
  slots_elsewhere zero s' i h = refl
  slots_elsewhere (suc n) s' i h = ground (arith, slots_elsewhere n s' i h)

  slots_below :
      (n i : ℕ)
      → i < n
      → ((thread_slots entries s base n s i).refcount ≡ 0)
        × ((thread_slots entries s base n s i).next_free ≡ (base + i + 1) % 2 ^ 32)
  unfolding thread_slots
  slots_below zero i h = absurd (omega arith)
  slots_below (suc n) i h = elim (ℕ_discrete i n) [
    | yes here ↦ let e : (i == n) ≡ true = ground arith in rw (==_refl s, e) (refl, rw here)
    | no other ↦
        let e : (i == n) ≡ false = ground arith in rw (==_refl s, e) (slots_below n i (omega arith))
  ]

module _ (t : HandleTable) (s : ℕ) (here : t.last ≡ s) (fits : s * 64 + 64 < 2 ^ 32) where
  pub thread_inside :
      (i : ℕ)
      → s * 64 ≤ i
      → i < s * 64 + 63
      → ((flat (thread_slab_free_list t (s * 64)).entries i).refcount ≡ 0)
        × ((flat (thread_slab_free_list t (s * 64)).entries i).next_free ≡ i + 1)
  unfolding thread_slab_free_list
  thread_inside i a b =
      let slab : i / 64 ≡ s = omega arith in
      let slot : (i % 64 == 63) ≡ false = ground arith in
      let (r, n) = slots_below t.entries s (s * 64) 63 (i % 64) (omega arith) in
      let next : (s * 64 + i % 64 + 1) % 2 ^ 32 ≡ i + 1 = omega arith in
      rw (here, slab, ==_refl s, slot) (r, n ∙ next)

  pub thread_end :
      (i : ℕ)
      → i ≡ s * 64 + 63
      → ((flat (thread_slab_free_list t (s * 64)).entries i).refcount ≡ 0)
        × ((flat (thread_slab_free_list t (s * 64)).entries i).next_free ≡ t.free_head)
  unfolding thread_slab_free_list
  thread_end i a =
      let slab : i / 64 ≡ s = omega arith in
      let slot : i % 64 ≡ 63 = omega arith in rw (here, slab, ==_refl s, slot) (refl, refl)

  thread_outside :
      (i : ℕ) → i / 64 ≢ s → flat (thread_slab_free_list t (s * 64)).entries i ≡ flat t.entries i
  unfolding thread_slab_free_list
  thread_outside i ne =
      let slab : (i / 64 == s) ≡ false = ground arith in
      rw (here, slab) (slots_elsewhere t.entries s (s * 64) 63 (i / 64) (i % 64) ne)

-- The search along the chain finds the slab of the pointer.
slab_search_lem :
    (h : Pointer) (slabs s : ℕ)
    → h.slot < 64
    → s ≤ h.slab
    → h.slab < s + slabs
    → (h.slab + 1) * 64 < 2 ^ 32
    → slab_search h slabs s s ≡ some (h.slab * 64 + h.slot)
unfolding slab_search
slab_search_lem h zero s a b c d = absurd (omega arith)
slab_search_lem h (suc slabs) s a b c d = elim (ℕ_discrete s h.slab) [
  | yes here ↦
      let e : (s == h.slab) ≡ true = ground arith in
      let low : ltb h.slot 64 ≡ true = ground arith in
      let fits : (s * 64 + h.slot) % 2 ^ 32 ≡ h.slab * 64 + h.slot = omega arith in
      rw (e, low) (ap some fits)
  | no later ↦
      let e : (s == h.slab) ≡ false = ground arith in
      let fits : (s + 1) % 2 ^ 32 ≡ s + 1 = omega arith in
      rw (e, fits) (slab_search_lem h slabs (s + 1) a (omega arith) (omega arith) d)
]

pub entry_to_index_lem :
    (t : HandleTable)
    → IsValid t
    → (i : ℕ) → i < t.slab_count * 64
    → entry_to_index t (pointer i) ≡ some i
unfolding entry_to_index
entry_to_index_lem t v i a =
    let whole : i / 64 * 64 + i % 64 ≡ i = omega arith in
    rw v.first (
      slab_search_lem (pointer i) t.slab_count 0 (omega arith) (omega arith) (omega arith)
        (omega (arith, v.fits))
      ∙ ap some whole)

-- Growing an exhausted table.
module _ {t : HandleTable} (v : IsValid t) (full : t.free_head ≡ u32_max)
    (room : (t.slab_count + 1) * 64 < 2 ^ 32) where
  nothing_free :
      (free : List ℕ)
      → Threaded (λ i. (flat t.entries i).next_free) t.free_head free
      → ((i : ℕ) → In i free → i < t.slab_count * 64)
      → free ≡ []
  nothing_free [] a b = refl
  nothing_free (x ∷ xs) (e, a) b = absurd (omega (arith, b x (inl refl)))

  widened : HandleTable
  widened = record t {
    entries = λ s i. if s == t.last + 1 then cleared else t.entries s i;
    last = t.last + 1;
    slab_count = t.slab_count + 1;
  }

  pub grown : HandleTable
  grown = thread_slab_free_list widened (t.slab_count * 64)

  pub grow-grown : grow t true ≡ some grown
  unfolding grow grown widened
  grow-grown =
      let a : (t.slab_count + 1) % 2 ^ 32 ≡ t.slab_count + 1 = omega arith in
      let b : t.slab_count * 64 % 2 ^ 32 ≡ t.slab_count * 64 = omega arith in rw (a, b)

  pub kept : (i : ℕ) → i < t.slab_count * 64 → flat grown.entries i ≡ flat t.entries i
  unfolding grown widened
  kept i a =
      let apart : i / 64 ≢ t.slab_count = omega arith in
      let old : (i / 64 == t.last + 1) ≡ false = ground (arith, v.last) in
      thread_outside widened t.slab_count v.last (omega arith) i apart ∙ rw old

  fresh_unused :
      (i : ℕ)
      → t.slab_count * 64 ≤ i
      → i < t.slab_count * 64 + 64
      → (flat grown.entries i).refcount ≡ 0
  unfolding grown widened
  fresh_unused i a b = elim (dec_lt i (t.slab_count * 64 + 63)) [
    | yes y ↦ (thread_inside widened t.slab_count v.last (omega arith) i a y).0
    | no n ↦ (thread_end widened t.slab_count v.last (omega arith) i (omega arith)).0
  ]

  grown_shape :
      (grown.first ≡ t.first)
      × (grown.last ≡ t.last + 1)
      × (grown.slab_count ≡ t.slab_count + 1)
      × (grown.count ≡ t.count)
      × (grown.free_head ≡ t.slab_count * 64)
  unfolding grown widened thread_slab_free_list
  grown_shape = (refl, refl, refl, refl, refl)

  thread_next :
      Threaded
        (λ i. (flat grown.entries i).next_free)
        (t.slab_count * 64)
        (run_of (t.slab_count * 64) 64)
  unfolding grown widened
  thread_next =
      run_of-Threaded (λ i. (flat grown.entries i).next_free) (t.slab_count * 64) 63
        (λ i a b. (thread_inside widened t.slab_count v.last (omega arith) i a b).1)
        ((thread_end widened t.slab_count v.last (omega arith) (t.slab_count * 64 + 63) refl).1
          ∙ full)

  pub grown_count :
      (grown.slab_count ≡ t.slab_count + 1) × (grown.count ≡ t.count) × (grown.free_head ≢ u32_max)
  grown_count = let (a, b, c, d, e) = grown_shape in (c, d, omega arith)

  pub grown-IsValid : IsValid grown
  grown-IsValid = record {
    free = run_of (t.slab_count * 64) 64;
    first = grown_shape.0 ∙ v.first;
    last = omega (arith, grown_shape, v.last);
    fits = omega (arith, grown_shape);
    threaded = rw grown_shape.4 thread_next;
    distinct = run_of-Distinct (t.slab_count * 64) 64;
    inside = λ i h. omega (arith, grown_shape, In-run_of (t.slab_count * 64) 64 i h);
    unused = λ i h. let (a, b) = In-run_of (t.slab_count * 64) 64 i h in fresh_unused i a b;
    used = λ i a. elim (dec_lt i (t.slab_count * 64)) [
      | no new ↦ inl (run_of-In (t.slab_count * 64) 64 i (omega arith) (omega (arith, grown_shape)))
      | yes old ↦ elim (v.used i old) [
        | inl f ↦
            absurd (let none_free = nothing_free v.free v.threaded v.inside in rw none_free at f)
        | inr u ↦ inr (rw (kept i old) u)
      ]
    ];
    counted = omega (
      arith,
      grown_shape,
      v.counted,
      length-run_of (t.slab_count * 64) 64,
      ap length (nothing_free v.free v.threaded v.inside),
    );
  }
