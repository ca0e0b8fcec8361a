-- ===== src/Probe/Entries.antt =====
-- The entries of an array of slots, and what one write does to them.
use smalltalk_a_vm.Prelude.{
  ℕ, zero, suc, ◌+◌, ◌<◌, ◌≡◌, refl, sym, ◌∙◌, subst, arith, Bool, true, false, List, [], ◌∷◌,
  length, set, replicate, length-set, get_or-set_self, get_or-set_ne, ℕ_discrete, Bool-cases, ◌⊎◌,
  inl, inr, if◌then◌else◌,
}
use smalltalk_a_vm.Probe.{Slots, slot_at, Absent, Stored}

module _ {S K : Type 0} (t : Slots S K) where
  -- The entries of a list of slots.
  abbrev pub Listed : List S → K → S → Type 0
  Listed [] k s = ⊥
  Listed (x ∷ xs) k s = ((x ≡ s) × (t.holds k s ≡ true)) ⊎ Listed xs k s

  abbrev pub Distinct : List S → Type 0
  Distinct [] = Unit
  Distinct (x ∷ xs) = ((k : K) (s : S) → t.holds k x ≡ true → ¬ Listed xs k s) × Distinct xs

  abbrev pub live_count : (S → Bool) → List S → ℕ
  live_count live [] = 0
  live_count live (x ∷ xs) = if live x then suc (live_count live xs) else live_count live xs

  abbrev pub one_if : Bool → ℕ
  one_if b = if b then 1 else 0

  -- One write changes the count by the slot that goes and the slot that comes.
  pub live_count-set :
      (live : S → Bool) (xs : List S) (p : ℕ) (s : S)
      → p < length xs
      → live_count live (set xs p s) + one_if (live (slot_at t xs p))
        ≡ live_count live xs + one_if (live s)
  live_count-set live [] p s a = elim a [ ]
  live_count-set live (x ∷ xs) zero s a = ground arith
  live_count-set live (x ∷ xs) (suc p) s a =
      ground (arith, live_count-set live xs p s (omega arith))

  pub live_count-replicate :
      (live : S → Bool) (n : ℕ) → live t.empty ≡ false → live_count live (replicate n t.empty) ≡ 0
  live_count-replicate live zero h = refl
  live_count-replicate live (suc n) h = ground (arith, live_count-replicate live n h)

  pub listed_stored : (xs : List S) (k : K) (s : S) → Listed xs k s → Stored t xs k s
  listed_stored [] k s h = absurd h
  listed_stored (x ∷ xs) k s (inl (e, h)) = (0, omega arith, e, h)
  listed_stored (x ∷ xs) k s (inr l) =
      let (p, a, e, h) = listed_stored xs k s l in (suc p, omega arith, e, h)

  pub stored_listed :
      (xs : List S) (k : K) (s : S) (p : ℕ)
      → p < length xs
      → slot_at t xs p ≡ s
      → t.holds k s ≡ true
      → Listed xs k s
  stored_listed [] k s p a e h = elim a [ ]
  stored_listed (x ∷ xs) k s zero a e h = inl (e, h)
  stored_listed (x ∷ xs) k s (suc p) a e h = inr (stored_listed xs k s p (omega arith) e h)

  -- An array that holds each key once.
  abbrev pub Single : List S → Type 0
  Single xs =
      (k : K) (p q : ℕ)
      → p < length xs
      → q < length xs
      → t.holds k (slot_at t xs p) ≡ true
      → t.holds k (slot_at t xs q) ≡ true
      → p ≡ q

  pub Single-Distinct : (xs : List S) → Single xs → Distinct xs
  Single-Distinct [] u = tt
  Single-Distinct (x ∷ xs) u = (
    λ k s h l.
        let (p, a, e, h') = listed_stored xs k s l in
        let same = u k 0 (suc p) (omega arith) (omega arith) h (rw e h') in absurd (omega arith),
    Single-Distinct xs (λ k p q a b h h'.
        let e = u k (suc p) (suc q) (omega arith) (omega arith) h h' in omega arith),
  )

  -- What a write over an empty slot does to the entries.
  module _ (xs : List S) (p : ℕ) (s : S) (inside : p < length xs)
      (vacant : t.occupied (slot_at t xs p) ≡ false) where
    pub stored_keep : (j : K) (u : S) → Stored t xs j u → Stored t (set xs p s) j u
    stored_keep j u (q, a, e, h) = elim (ℕ_discrete p q) [
      | yes same ↦
          let o = t.holds_occupied j u h in
          absurd (ground (arith, subst (λ r. slot_at t xs r ≡ u) (sym same) e))
      | no ne ↦ (q, rw (length-set xs p s) a, rw (get_or-set_ne xs p q s t.empty ne) e, h)
    ]

    pub stored_new : (j : K) → t.holds j s ≡ true → Stored t (set xs p s) j s
    stored_new j h = (p, rw (length-set xs p s) inside, get_or-set_self xs p s t.empty inside, h)

    pub stored_set :
        (j : K) (u : S)
        → Stored t (set xs p s) j u
        → (Stored t xs j u) ⊎ ((s ≡ u) × (t.holds j u ≡ true))
    stored_set j u (q, a, e, h) = elim (ℕ_discrete p q) [
      | yes same ↦ inr (
        sym (get_or-set_self xs p s t.empty inside)
            ∙ subst (λ r. slot_at t (set xs p s) r ≡ u) (sym same) e,
        h,
      )
      | no ne ↦
          inl (q, omega (arith, length-set xs p s), sym (get_or-set_ne xs p q s t.empty ne) ∙ e, h)
    ]

    pub Absent-set : (j : K) → Absent t xs j → ¬ (t.holds j s ≡ true) → Absent t (set xs p s) j
    Absent-set j absent other q a = elim (Bool-cases (t.holds j (slot_at t (set xs p s) q))) [
      | inr f ↦ f
      | inl h ↦ elim (stored_set j _ (q, a, refl, h)) [
        | inl (r, b, e, h') ↦
            let f = absent r b in let h'' = rw (sym e) at h' in absurd (ground arith)
        | inr (e, h') ↦ absurd (other (rw (sym e) at h'))
      ]
    ]
