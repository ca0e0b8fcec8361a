-- ===== src/Vm/HandleTable/Free.antt =====
-- The free list of the handle table, and the invariant.
use smalltalk_a_vm.Prelude.{
  ℕ, zero, suc, ◌+◌, ◌*◌, ◌/◌, ◌%◌, ◌^◌, ◌≤◌, ◌<◌, ◌≡◌, ◌≢◌, refl, sym, ap, ◌∙◌, arith, List, [],
  ◌∷◌, length, ◌⊎◌, inl, inr, subst, ℕ_discrete,
}
use smalltalk_a_vm.Prelude.Words.{u32_max}
use smalltalk_a_vm.Vm.HandleTable.{HandleTable, Handle, Pointer, store, nth_slab}

abbrev pub In : ℕ → List ℕ → Type 0
In i [] = ⊥
In i (x ∷ xs) = (i ≡ x) ⊎ In i xs

abbrev pub Distinct : List ℕ → Type 0
Distinct [] = Unit
Distinct (x ∷ xs) = (¬ In x xs) × Distinct xs

-- From `head` on, `next` leads through the list to its end.
abbrev pub Threaded : (ℕ → ℕ) → ℕ → List ℕ → Type 0
Threaded next head [] = head ≡ u32_max
Threaded next head (x ∷ xs) = (head ≡ x) × Threaded next (next x) xs

pub Threaded-agree :
    (next next' : ℕ → ℕ) (head : ℕ) (xs : List ℕ)
    → ((i : ℕ) → In i xs → next' i ≡ next i)
    → Threaded next head xs
    → Threaded next' head xs
Threaded-agree next next' head [] same h = h
Threaded-agree next next' head (x ∷ xs) same (e, h) = (
  e,
  subst (λ y. Threaded next' y xs) (sym (same x (inl refl)))
      (Threaded-agree next next' (next x) xs (λ i m. same i (inr m)) h),
)

-- `base`, …, `base + n - 1`
abbrev pub run_of : ℕ → ℕ → List ℕ
run_of base zero = []
run_of base (suc n) = base ∷ run_of (base + 1) n

pub In-run_of : (base n i : ℕ) → In i (run_of base n) → (base ≤ i) × (i < base + n)
In-run_of base zero i h = absurd h
In-run_of base (suc n) i (inl e) = omega arith
In-run_of base (suc n) i (inr h) = omega (arith, In-run_of (base + 1) n i h)

pub run_of-In : (base n i : ℕ) → base ≤ i → i < base + n → In i (run_of base n)
run_of-In base zero i a b = absurd (omega arith)
run_of-In base (suc n) i a b = elim (ℕ_discrete i base) [
  | yes e ↦ inl e
  | no ne ↦ inr (run_of-In (base + 1) n i (omega arith) (omega arith))
]

pub run_of-Distinct : (base n : ℕ) → Distinct (run_of base n)
run_of-Distinct base zero = tt
run_of-Distinct base (suc n) =
    (λ h. omega (arith, In-run_of (base + 1) n base h), run_of-Distinct (base + 1) n)

pub length-run_of : (base n : ℕ) → length (run_of base n) ≡ n
length-run_of base zero = refl
length-run_of base (suc n) = ap suc (length-run_of (base + 1) n)

-- Each entry but the last leads to the one after it.
pub run_of-Threaded :
    (next : ℕ → ℕ) (base n : ℕ)
    → ((i : ℕ) → base ≤ i → i < base + n → next i ≡ i + 1)
    → next (base + n) ≡ u32_max
    → Threaded next base (run_of base (suc n))
run_of-Threaded next base zero steps ends =
    (refl, let e : base + 0 ≡ base = omega arith in subst (λ b. next b ≡ u32_max) e ends)
run_of-Threaded next base (suc n) steps ends =
    let e : base + suc n ≡ base + 1 + n = omega arith in
    (
      refl,
      rw (steps base (omega arith) (omega arith)) (
          run_of-Threaded next (base + 1) n (λ i a b. steps i (omega arith) (omega arith))
            (subst (λ b. next b ≡ u32_max) e ends)),
    )

-- The entry with the flat index `i`.
abbrev pub pointer : ℕ → Pointer
pointer i = record { slab = i / 64; slot = i % 64 }

abbrev pub flat : (ℕ → ℕ → Handle) → ℕ → Handle
flat entries i = entries (i / 64) (i % 64)

pub flat-store_self :
    (entries : ℕ → ℕ → Handle) (i : ℕ) (v : Handle) → flat (store entries (i / 64) (i % 64) v) i ≡ v
flat-store_self entries i v = ground arith

pub flat-store_ne :
    (entries : ℕ → ℕ → Handle) (i j : ℕ) (v : Handle)
    → j ≢ i
    → flat (store entries (i / 64) (i % 64) v) j ≡ flat entries j
flat-store_ne entries i j v ne = ground arith

pub nth_slab_lem : (n s : ℕ) → nth_slab n s ≡ s + n
nth_slab_lem zero s = omega arith
nth_slab_lem (suc n) s = nth_slab_lem n (s + 1) ∙ omega arith

pub record IsValid (t : HandleTable) : Type 0 where
  pub free : List ℕ
  pub first : t.first ≡ 0
  pub last : t.last + 1 ≡ t.slab_count
  pub fits : t.slab_count * 64 < 2 ^ 32
  pub threaded : Threaded (λ i. (flat t.entries i).next_free) t.free_head free
  pub distinct : Distinct free
  pub inside : (i : ℕ) → In i free → i < t.slab_count * 64
  pub unused : (i : ℕ) → In i free → (flat t.entries i).refcount ≡ 0
  pub used : (i : ℕ) → i < t.slab_count * 64 → (In i free) ⊎ (0 < (flat t.entries i).refcount)
  pub counted : t.count + length free ≡ t.slab_count * 64
