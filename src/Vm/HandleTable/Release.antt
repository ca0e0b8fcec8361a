-- ===== src/Vm/HandleTable/Release.antt =====
-- What releasing a handle does.
use smalltalk_a_vm.Prelude.{
  ℕ, ◌+◌, ◌-◌, ◌*◌, ◌/◌, ◌%◌, ◌^◌, ◌<◌, ◌≡◌, ◌≢◌, refl, sym, ap, ◌∙◌, arith, true, some, ◌∷◌, ◌⊎◌,
  inl, inr, ltb, ◌==◌, Bool-cases, subst, ℕ_discrete,
}
use smalltalk_a_vm.Vm.HandleTable.{HandleTable, Handle, store, entry_at, release_entry, release_at}
use smalltalk_a_vm.Vm.HandleTable.Free.{
  IsValid, In, Threaded, flat, pointer, flat-store_self, flat-store_ne,
}
use smalltalk_a_vm.Vm.HandleTable.Threading.{entry_to_index_lem}
use smalltalk_a_vm.Vm.HandleTable.Count.{length-le_bound}
use smalltalk_a_vm.Vm.HandleTable.Laws.{Others, busy-IsValid, still-Threaded}

module _ {t : HandleTable} (v : IsValid t) (i : ℕ) (inside : i < t.slab_count * 64)
    (in_use : 0 < (entry_at t (pointer i)).refcount) where
  busy : ¬ In i v.free
  busy m = omega (arith, v.unused i m)

  live : ltb 0 (entry_at t (pointer i)).refcount ≡ true
  live = ground arith

  -- The entry keeps its reference and is counted anew.
  recounted :
      (n : ℕ)
      → 0 < n
      → IsValid (record t {
        entries =
            store t.entries (i / 64) (i % 64) (record (entry_at t (pointer i)) { refcount = n });
      })
  recounted n pos =
      busy-IsValid v i inside (record (entry_at t (pointer i)) { refcount = n }) v.free t.free_head
        t.count v.threaded v.distinct busy (λ j m. m) (λ j ne m. m) pos v.counted

  abbrev free_handle : Handle
  free_handle = record { oop = 0; refcount = 0; next_free = t.free_head }

  abbrev freed : HandleTable
  freed = record t {
    entries = store t.entries (i / 64) (i % 64) free_handle;
    free_head = i;
    count = t.count - 1;
  }

  not_all_free : 0 < t.count
  not_all_free =
      let few =
        length-le_bound (t.slab_count * 64) (i ∷ v.free) (busy, v.distinct)
          (λ j m. elim m [ inl e ↦ omega arith | inr m' ↦ v.inside j m' ]) in
      omega (arith, v.counted)

  here : flat (store t.entries (i / 64) (i % 64) free_handle) i ≡ free_handle
  here = flat-store_self t.entries i free_handle

  there :
      (j : ℕ) → j ≢ i → flat (store t.entries (i / 64) (i % 64) free_handle) j ≡ flat t.entries j
  there j ne = flat-store_ne t.entries i j free_handle ne

  freed-IsValid : IsValid freed
  freed-IsValid = record {
    free = i ∷ v.free;
    first = v.first;
    last = v.last;
    fits = v.fits;
    threaded = (
      refl,
      subst (λ x. Threaded (λ j. (flat freed.entries j).next_free) x.next_free v.free) (sym here)
          (still-Threaded v i inside free_handle t.free_head v.free busy v.threaded),
    );
    distinct = (busy, v.distinct);
    inside = λ j m. elim m [ inl e ↦ omega arith | inr m' ↦ v.inside j m' ];
    unused = λ j m. elim m [
      | inl e ↦ subst (λ k. (flat freed.entries k).refcount ≡ 0) (sym e) (ap (λ x. x.refcount) here)
      | inr m' ↦
          ap (λ x. x.refcount) (there j (λ e. busy (subst (λ k. In k v.free) e m'))) ∙ v.unused j m'
    ];
    used = λ j a. elim (ℕ_discrete j i) [
      | yes e ↦ inl (inl e)
      | no ne ↦ elim (v.used j a) [
        | inl f ↦ inl (inr f)
        | inr u ↦ inr (subst (λ x. 0 < x.refcount) (sym (there j ne)) u)
      ]
    ];
    counted = omega (arith, v.counted, not_all_free);
  }

-- A handle in use in a valid table is released: its count goes down by one. If that was the last
-- reference, its entry is free and is the next one to be handed out, and the table counts one less;
-- the table stays valid, and the other entries are as they were.
pub release-retires :
    (t : HandleTable) (i : ℕ)
    → IsValid t
    → i < t.slab_count * 64
    → 0 < (entry_at t (pointer i)).refcount
    → (t' : HandleTable) × (release_entry t (pointer i) ≡ some t')
      × IsValid t'
      × ((entry_at t' (pointer i)).refcount ≡ (entry_at t (pointer i)).refcount - 1)
      × ((t'.count ≡ t.count - 1) × (t'.free_head ≡ i) × ((entry_at t (pointer i)).refcount ≡ 1)
          ⊎ (t'.count ≡ t.count)
            × (t'.free_head ≡ t.free_head)
            × (1 < (entry_at t (pointer i)).refcount))
      × Others t t' i
unfolding release_entry
release-retires t i v inside in_use = elim (Bool-cases ((entry_at t (pointer i)).refcount == 1)) [
  | inl one ↦
      let wrap : (t.count + 2 ^ 32 - 1) % 2 ^ 32 ≡ t.count - 1 =
        omega (arith, v.counted, v.fits, not_all_free v i inside in_use) in
      (
        freed v i inside in_use,
        rw (live v i inside in_use, one)
            (ap (release_at t (pointer i)) (entry_to_index_lem t v i inside) ∙ rw wrap),
        freed-IsValid v i inside in_use,
        ap (λ x. x.refcount) (here v i inside in_use) ∙ ground arith,
        inl (refl, refl, ground arith),
        there v i inside in_use,
      )
  | inr more ↦
      let h = record (entry_at t (pointer i)) {
        refcount = (entry_at t (pointer i)).refcount - 1;
      } in
      (
        record t { entries = store t.entries (i / 64) (i % 64) h },
        rw (live v i inside in_use, more),
        recounted v i inside in_use ((entry_at t (pointer i)).refcount - 1) (ground arith),
        ap (λ x. x.refcount) (flat-store_self t.entries i h),
        inr (refl, refl, ground arith),
        λ j ne. flat-store_ne t.entries i j h ne,
      )
]
