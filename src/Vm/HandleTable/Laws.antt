-- ===== src/Vm/HandleTable/Laws.antt =====
-- What creating a handle does to the table and to the other handles.
use native.Mathlib.Nat.{mod-eq_of_lt}
use smalltalk_a_vm.Prelude.{
  ℕ, ◌+◌, ◌*◌, ◌/◌, ◌%◌, ◌^◌, ◌≤◌, ◌<◌, ◌≡◌, ◌≢◌, refl, sym, ap, ◌∙◌, arith, Bool, true, false,
  none, some, List, [], ◌∷◌, length, ◌⊎◌, ◌↔◌, inl, inr, ◌==◌, Bool-cases, subst, dec_lt,
  ℕ_discrete,
}
use smalltalk_a_vm.Prelude.Words.{u32_max}
use smalltalk_a_vm.Vm.HandleTable.{
  HandleTable, Handle, Pointer, store, entry_at, index_to_entry, take_free, take_entry, create_in,
  create, get,
}
use smalltalk_a_vm.Vm.HandleTable.Free.{
  IsValid, In, Distinct, Threaded, Threaded-agree, flat, pointer, flat-store_self, flat-store_ne,
  nth_slab_lem,
}
use smalltalk_a_vm.Vm.HandleTable.Threading.{grown, grow-grown, kept, grown_count, grown-IsValid}

index_lem : (t : HandleTable) (i : ℕ) → t.first ≡ 0 → index_to_entry t i ≡ pointer i
unfolding index_to_entry
index_lem t i e =
    ap (λ s. record { slab = s; slot = i % 64 }) (nth_slab_lem (i / 64) t.first ∙ omega arith)

-- What a change of entry `i` alone does to the handle table.
abbrev pub Others : HandleTable → HandleTable → ℕ → Type 0
Others t t' i = (j : ℕ) → j ≢ i → entry_at t' (pointer j) ≡ entry_at t (pointer j)

-- The invariant after a write to entry `i`.
module _ {t : HandleTable} (v : IsValid t) (i : ℕ) (inside : i < t.slab_count * 64)
    (h : Handle) where
  written : ℕ → ℕ → Handle
  written = store t.entries (i / 64) (i % 64) h

  pub still-Threaded :
      (head : ℕ) (free : List ℕ)
      → ¬ In i free
      → Threaded (λ j. (flat t.entries j).next_free) head free
      → Threaded (λ j. (flat (store t.entries (i / 64) (i % 64) h) j).next_free) head free
  still-Threaded head free out th =
      Threaded-agree _ _ head free
        (λ j m.
          ap (λ x. x.next_free)
            (flat-store_ne t.entries i j h (λ e. out (subst (λ k. In k free) e m))))
        th

  -- It takes `i` off the free list, or leaves it off.
  pub busy-IsValid :
      (free : List ℕ) (head count : ℕ)
      → Threaded (λ j. (flat t.entries j).next_free) head free
      → Distinct free
      → ¬ In i free
      → ((j : ℕ) → In j free → In j v.free)
      → ((j : ℕ) → j ≢ i → In j v.free → In j free)
      → 0 < h.refcount
      → count + length free ≡ t.slab_count * 64
      → IsValid (record t {
        entries = store t.entries (i / 64) (i % 64) h;
        free_head = head;
        count = count;
      })
  busy-IsValid free head count th d out less more pos c = record {
    free = free;
    first = v.first;
    last = v.last;
    fits = v.fits;
    threaded = still-Threaded head free out th;
    distinct = d;
    inside = λ j m. v.inside j (less j m);
    unused = λ j m.
        ap (λ x. x.refcount) (flat-store_ne t.entries i j h (λ e. out (subst (λ k. In k free) e m)))
        ∙ v.unused j (less j m);
    used = λ j a. elim (ℕ_discrete j i) [
      | yes e ↦ inr (rw (e, flat-store_self t.entries i h) pos)
      | no ne ↦ elim (v.used j a) [
        | inl f ↦ inl (more j ne f)
        | inr u ↦ inr (rw (flat-store_ne t.entries i j h ne) u)
      ]
    ];
    counted = c;
  }

-- The table and the handle that a creation leaves, where an entry is free.
pub record IsTaken (t : HandleTable) (oop : ℕ) (r : HandleTable × Pointer) : Type 0 where
  pub index : ℕ
  pub inside : index < t.slab_count * 64
  pub unused : (entry_at t (pointer index)).refcount ≡ 0
  pub place : r.1 ≡ pointer index
  pub valid : IsValid r.0
  pub content :
      entry_at r.0 (pointer index) ≡ record { oop = oop; refcount = 1; next_free = u32_max }
  pub counted : r.0.count ≡ t.count + 1
  pub others : Others t r.0 index

module _ (t : HandleTable) (v : IsValid t) (oop : ℕ) (some_free : t.free_head ≢ u32_max) where
  take_index :
      (i : ℕ) (rest : List ℕ)
      → v.free ≡ i ∷ rest
      → t.free_head ≡ i
      → IsTaken t oop (take_free t oop)
  unfolding take_free
  take_index i rest e head =
      let here : index_to_entry t t.free_head ≡ pointer i =
        ap (index_to_entry t) head ∙ index_lem t i v.first in
      let member : In i v.free = rw e (inl refl) in
      let d : Distinct (i ∷ rest) = rw e at v.distinct in
      let th : Threaded (λ j. (flat t.entries j).next_free) t.free_head (i ∷ rest) =
        rw e at v.threaded in
      let size : t.count + length (i ∷ rest) ≡ t.slab_count * 64 =
        ap (λ l. t.count + length l) (sym e) ∙ v.counted in
      let wrap : (t.count + 1) % 2 ^ 32 ≡ t.count + 1 = mod-eq_of_lt (omega (arith, v.fits)) in
      subst (IsTaken t oop) (sym (ap (take_entry t oop) here)) (
        rw wrap (record {
          index = i;
          inside = v.inside i member;
          unused = v.unused i member;
          place = refl;
          valid =
              busy-IsValid v i (v.inside i member)
                (record { oop = oop; refcount = 1; next_free = u32_max }) rest
                (flat t.entries i).next_free (t.count + 1) th.1 d.1 d.0 (λ j m. rw e (inr m))
                (λ j ne m. elim (rw e at m) [ inl x ↦ absurd (ne x) | inr y ↦ y ]) (omega arith)
                (omega arith);
          content = flat-store_self t.entries i _;
          counted = refl;
          others = λ j ne. flat-store_ne t.entries i j _ ne;
        }))

  pub taken : IsTaken t oop (take_free t oop)
  taken = go v.free refl v.threaded
    where
      go :
          (free : List ℕ)
          → v.free ≡ free
          → Threaded (λ j. (flat t.entries j).next_free) t.free_head free
          → IsTaken t oop (take_free t oop)
      go [] e th = absurd (some_free th)
      go (i ∷ rest) e th = take_index i rest e th.0

-- Every entry below `bound` was free, or is another one than `h` and as it was.
abbrev pub Kept : HandleTable → HandleTable → Pointer → Type 0
Kept t t' h =
    (j : ℕ)
    → (t.slab_count * 64 ≤ j)
      ⊎ (((entry_at t (pointer j)).refcount ≡ 0)
          ⊎ ((pointer j ≢ h) × (entry_at t' (pointer j) ≡ entry_at t (pointer j))))

pointer_inj : (i j : ℕ) → pointer i ≡ pointer j → i ≡ j
pointer_inj i j e =
    let s : i / 64 ≡ j / 64 = ap (λ h. h.slab) e in
    let o : i % 64 ≡ j % 64 = ap (λ h. h.slot) e in omega arith

got :
    (t : HandleTable) (i oop : ℕ)
    → entry_at t (pointer i) ≡ record { oop = oop; refcount = 1; next_free = u32_max }
    → get t (pointer i) ≡ some oop
unfolding get
got t i oop e = rw e

-- A handle is created in a valid table, with memory for another slab and fewer than 2^26 slabs: the
-- handle gives the object, the table is valid and counts one more, and the handles in use keep
-- their place, their object and their reference count.
pub create-get :
    (t : HandleTable) (oop : ℕ)
    → IsValid t
    → (t.slab_count + 1) * 64 < 2 ^ 32
    → (t' : HandleTable) × (h : Pointer) × (create t true oop ≡ some (t', h))
      × IsValid t'
      × (get t' h ≡ some oop)
      × (t'.count ≡ t.count + 1)
      × Kept t t' h
unfolding create
create-get t oop v room = elim (Bool-cases (t.free_head == u32_max)) [
  | inr some_free ↦
      let r = taken t v oop (ground arith) in
      (
        (take_free t oop).0,
        (take_free t oop).1,
        rw some_free,
        r.valid,
        rw r.place (got _ r.index oop r.content),
        r.counted,
        λ j. elim (ℕ_discrete j r.index) [
          | yes e ↦ inr (inl (rw e r.unused))
          | no ne ↦ inr (inr (rw r.place (λ e. ne (pointer_inj j r.index e)), r.others j ne))
        ],
      )
  | inl full ↦
      let full' : t.free_head ≡ u32_max = ground arith in
      let g = grown v full' room in
      let w = grown-IsValid v full' room in
      let (slabs, count, head) = grown_count v full' room in
      let r = taken g w oop head in
      (
        (take_free g oop).0,
        (take_free g oop).1,
        rw full (ap (λ g. create_in g oop) (grow-grown v full' room)),
        r.valid,
        rw r.place (got _ r.index oop r.content),
        r.counted ∙ omega arith,
        λ j. elim (dec_lt j (t.slab_count * 64)) [
          | no past ↦ inl (omega arith)
          | yes old ↦ elim (ℕ_discrete j r.index) [
            | yes e ↦
                inr (inl (ap (λ x. x.refcount) (sym (kept v full' room j old)) ∙ rw e r.unused))
            | no ne ↦ inr (
                inr (
                  rw r.place (λ e. ne (pointer_inj j r.index e)),
                  r.others j ne ∙ kept v full' room j old,
                ))
          ]
        ],
      )
]

-- Creating a handle returns NULL exactly if every entry of a valid table is in use and there is no
-- memory for another slab.
pub create-none :
    (t : HandleTable) (memory : Bool) (oop : ℕ)
    → IsValid t
    → (create t memory oop ≡ none) ↔ ((memory ≡ false) × (t.count ≡ t.slab_count * 64))
unfolding create
create-none t memory oop v = go memory v.free refl v.threaded
  where
    go :
        (memory : Bool) (free : List ℕ)
        → v.free ≡ free
        → Threaded (λ j. (flat t.entries j).next_free) t.free_head free
        → (create t memory oop ≡ none) ↔ ((memory ≡ false) × (t.count ≡ t.slab_count * 64))
    go memory (i ∷ rest) e (head, th) =
        let inside = v.inside i (rw e (inl refl)) in
        let some_free : (t.free_head == u32_max) ≡ false = ground (arith, v.fits) in
        let size : t.count + length (i ∷ rest) ≡ t.slab_count * 64 =
          ap (λ l. t.count + length l) (sym e) ∙ v.counted in
        rw some_free (λ h. cc, λ (m, c). absurd (omega arith))
    go true [] e head = rw head (λ h. cc, λ (m, c). cc)
    go false [] e head =
        let size : t.count + length {A = ℕ} [] ≡ t.slab_count * 64 =
          ap (λ l. t.count + length l) (sym e) ∙ v.counted in
        rw head (λ h. (refl, omega arith), λ h. refl)
