-- ===== src/Probe/Seek.antt =====
-- What the two search loops find.
use smalltalk_a_vm.Prelude.{
  ℕ, zero, suc, ◌+◌, ◌≤◌, ◌<◌, ◌≡◌, refl, subst, arith, Bool, true, false, none, some, Bool-cases,
  Option-cases, inl, inr, dec_lt,
}
use smalltalk_a_vm.Probe.{seek, walk}

module _ {ℓ} {S : Type ℓ} (stop : S → Bool) (slot : ℕ → S) (pos : ℕ → ℕ) where
  -- No stop at the positions `pos i`, …, `pos (d - 1)`.
  abbrev pub Passes : ℕ → ℕ → Type 0
  Passes i d = (j : ℕ) → i ≤ j → j < d → stop (slot (pos j)) ≡ false

  Passes-more : (i d : ℕ) → stop (slot (pos i)) ≡ false → Passes (i + 1) d → Passes i d
  Passes-more i d miss rest j a b = elim (dec_lt i j) [
    | yes later ↦ rest j (omega arith) b
    | no here ↦ let e : i ≡ j = omega arith in subst (λ k. stop (slot (pos k)) ≡ false) e miss
  ]

  -- The loop returns the first of the positions `pos i`, …, `pos (i + n - 1)` that stops it.
  pub seek_sound :
      (n i p : ℕ)
      → seek stop slot pos n i ≡ some p
      → (d : ℕ) × (i ≤ d) × (d < i + n) × (p ≡ pos d) × (stop (slot p) ≡ true) × Passes i d
  unfolding seek
  seek_sound zero i p e = absurd (cc)
  seek_sound (suc n) i p e = elim (Bool-cases (stop (slot (pos i)))) [
    | inl hit ↦
        (i, omega arith, omega arith, ground arith, ground arith, λ j a b. absurd (omega arith))
    | inr miss ↦
        let (d, a, b, c, s, before) = seek_sound n (i + 1) p (ground arith) in
        (d, omega arith, omega arith, c, s, Passes-more i d miss before)
  ]

  pub seek_first :
      (n i d : ℕ)
      → i ≤ d
      → d < i + n
      → stop (slot (pos d)) ≡ true
      → Passes i d
      → seek stop slot pos n i ≡ some (pos d)
  unfolding seek
  seek_first zero i d a b s before = absurd (omega arith)
  seek_first (suc n) i d a b s before = elim (dec_lt i d) [
    | yes later ↦ ground (
      arith,
      before i (omega arith) later,
      seek_first n (i + 1) d (omega arith) (omega arith) s (λ j u v. before j (omega arith) v),
    )
    | no here ↦
        let e : d ≡ i = omega arith in
        let s' : stop (slot (pos i)) ≡ true = subst (λ k. stop (slot (pos k)) ≡ true) e s in
        rw (e, s')
  ]

  -- It runs out of rounds only if none of them stops.
  pub seek-none : (n i : ℕ) → seek stop slot pos n i ≡ none → Passes i (i + n)
  unfolding seek
  seek-none zero i e j a b = absurd (omega arith)
  seek-none (suc n) i e j a b = elim (Bool-cases (stop (slot (pos i)))) [
    | inl hit ↦ absurd (ground arith)
    | inr miss ↦
        Passes-more i (i + suc n) miss
          (λ j' a' b'. seek-none n (i + 1) (ground arith) j' a' (omega arith)) j a b
  ]

  -- A stop in reach is enough fuel.
  pub seek_total :
      (n i d : ℕ)
      → i ≤ d
      → d < i + n
      → stop (slot (pos d)) ≡ true
      → (p : ℕ) × (seek stop slot pos n i ≡ some p)
  seek_total n i d a b s = elim (Option-cases (seek stop slot pos n i)) [
    | inl e ↦ absurd (ground (arith, seek-none n i e d a b))
    | inr (p, e) ↦ (p, e)
  ]

  -- The stepping loop visits the same positions as the counting one.
  pub walk-eq-seek :
      (next : ℕ → ℕ)
      → ((i : ℕ) → next (pos i) ≡ pos (i + 1))
      → (n i : ℕ) → walk stop slot next n (pos i) ≡ seek stop slot pos n i
  unfolding walk seek
  walk-eq-seek next step zero i = refl
  walk-eq-seek next step (suc n) i = rw (step i, walk-eq-seek next step n (i + 1))

-- Two ways to write the positions that agree on the rounds run.
pub seek-cong {ℓ} :
    {S : Type ℓ} (stop stop' : S → Bool) (slot : ℕ → S) (pos pos' : ℕ → ℕ) (n i : ℕ)
    → ((s : S) → stop s ≡ stop' s)
    → ((j : ℕ) → i ≤ j → j < i + n → pos j ≡ pos' j)
    → seek stop slot pos n i ≡ seek stop' slot pos' n i
unfolding seek
seek-cong stop stop' slot pos pos' zero i same agree = refl
seek-cong stop stop' slot pos pos' (suc n) i same agree = rw (
  same (slot (pos i)),
  agree i (omega arith) (omega arith),
  seek-cong stop stop' slot pos pos' n (i + 1) same (λ j a b. agree j (omega arith) (omega arith)),
)

-- Two stops that agree on the slots visited.
pub seek-cong_at {ℓ} :
    {S : Type ℓ} (stop stop' : S → Bool) (slot : ℕ → S) (pos : ℕ → ℕ) (n i : ℕ)
    → ((p : ℕ) → stop (slot p) ≡ stop' (slot p))
    → seek stop slot pos n i ≡ seek stop' slot pos n i
unfolding seek
seek-cong_at stop stop' slot pos zero i same = refl
seek-cong_at stop stop' slot pos (suc n) i same =
    rw (same (pos i), seek-cong_at stop stop' slot pos n (i + 1) same)
