-- ===== src/Vm/HandleTable/Count.antt =====
-- A list of different numbers below `n` has at most `n` elements.
use smalltalk_a_vm.Prelude.{
  ℕ, zero, suc, ◌+◌, ◌≤◌, ◌<◌, ◌≡◌, ◌≢◌, refl, arith, false, List, [], ◌∷◌, length, inl, inr, ◌==◌,
  if◌then◌else◌, Bool-cases,
}
use smalltalk_a_vm.Vm.HandleTable.Free.{In, Distinct}

abbrev without : ℕ → List ℕ → List ℕ
without n [] = []
without n (x ∷ xs) = if x == n then without n xs else x ∷ without n xs

In-without : (n i : ℕ) (xs : List ℕ) → In i (without n xs) → In i xs × (i ≢ n)
In-without n i [] h = absurd h
In-without n i (x ∷ xs) h = elim (Bool-cases (x == n)) [
  | inl e ↦ let (m, ne) = In-without n i xs (rw e at h) in (inr m, ne)
  | inr e ↦ elim (rw e at h) [
    | inl s ↦ (inl s, ground arith)
    | inr m' ↦ let (m, ne) = In-without n i xs m' in (inr m, ne)
  ]
]

absent-without : (n : ℕ) (xs : List ℕ) → ¬ In n xs → without n xs ≡ xs
absent-without n [] h = refl
absent-without n (x ∷ xs) h =
    let e : (x == n) ≡ false = ground (arith, λ (p : n ≡ x). h (inl p)) in
    rw (e, absent-without n xs (λ m. h (inr m)))

length-without : (n : ℕ) (xs : List ℕ) → Distinct xs → length xs ≤ length (without n xs) + 1
length-without n [] d = omega arith
length-without n (x ∷ xs) d = elim (Bool-cases (x == n)) [
  | inl e ↦
      let same : x ≡ n = ground arith in
      let out : ¬ In n xs = rw same at d.0 in rw (e, absent-without n xs out) (omega arith)
  | inr e ↦ rw e (omega (arith, length-without n xs d.1))
]

Distinct-without : (n : ℕ) (xs : List ℕ) → Distinct xs → Distinct (without n xs)
Distinct-without n [] d = d
Distinct-without n (x ∷ xs) d = elim (Bool-cases (x == n)) [
  | inl e ↦ rw e (Distinct-without n xs d.1)
  | inr e ↦ rw e (λ m. d.0 (In-without n x xs m).0, Distinct-without n xs d.1)
]

pub length-le_bound :
    (n : ℕ) (xs : List ℕ) → Distinct xs → ((i : ℕ) → In i xs → i < n) → length xs ≤ n
length-le_bound zero [] d h = omega arith
length-le_bound zero (x ∷ xs) d h = absurd (omega (arith, h x (inl refl)))
length-le_bound (suc n) xs d h =
    let below =
      length-le_bound n (without n xs) (Distinct-without n xs d)
        (λ i m. let (m', ne) = In-without n i xs m in omega (arith, h i m', ne)) in
    omega (arith, length-without n xs d)
