-- ===== src/Probe/Invariant.antt =====
-- What a write to one slot keeps of the probing invariant, and of the number of occupied slots.
use smalltalk_a_vm.Prelude.{
  ℕ, zero, suc, ◌<◌, ◌≡◌, ◌≢◌, refl, sym, ◌∙◌, subst, arith, true, false, List, [], ◌∷◌, length,
  set, length-set, get_or-set_self, get_or-set_ne, get_or-replicate, replicate, ℕ_discrete,
  Bool-cases, inl, inr,
}
use smalltalk_a_vm.Probe.{Slots, slot_at, load, Clear, Reaches, IsProbed}

module _ {S K : Type 0} (t : Slots S K) where
  -- An array of empty slots.
  pub replicate-IsProbed : (n : ℕ) → IsProbed t (replicate n t.empty)
  replicate-IsProbed n = record {
    reach = λ k p a h. absurd (vacant k p h);
    one = λ k p q a b h h'. absurd (vacant k p h);
  }
    where
      vacant : (k : K) (p : ℕ) → t.holds k (slot_at t (replicate n t.empty) p) ≡ true → ⊥
      vacant k p h =
          let e = t.holds_occupied k t.empty (rw (get_or-replicate n t.empty p) at h) in
          ground (arith, t.empty_free)

  pub load-replicate : (n : ℕ) → load t (replicate n t.empty) ≡ 0
  load-replicate zero = refl
  load-replicate (suc n) = rw t.empty_free (load-replicate n)

  module _ (xs : List S) (p : ℕ) (s : S) (inside : p < length xs) where
    -- Occupied slots stay occupied under the write of an occupied slot.
    occupied-set :
        (q : ℕ)
        → t.occupied s ≡ true
        → t.occupied (slot_at t xs q) ≡ true
        → t.occupied (slot_at t (set xs p s) q) ≡ true
    occupied-set q so h = elim (ℕ_discrete p q) [
      | yes e ↦
          subst (λ r. t.occupied (slot_at t (set xs p s) r) ≡ true) e
            (rw (get_or-set_self xs p s t.empty inside) so)
      | no ne ↦ rw (get_or-set_ne xs p q s t.empty ne) h
    ]

    pub Clear-set :
        (k : K) (d : ℕ) → t.occupied s ≡ true → Clear t xs k d → Clear t (set xs p s) k d
    Clear-set k d so c j h = rw (length-set xs p s) (occupied-set _ so (c j h))

    pub Reaches-set :
        (k : K) (q : ℕ) → t.occupied s ≡ true → Reaches t xs k q → Reaches t (set xs p s) k q
    Reaches-set k q so (d, a, e, c) =
        (d, rw (length-set xs p s) a, rw (length-set xs p s) e, Clear-set k d so c)

    -- A key that another slot holds after the write was there before.
    pub holds_elsewhere :
        (j : K) (q : ℕ)
        → p ≢ q
        → t.holds j (slot_at t (set xs p s) q) ≡ true
        → t.holds j (slot_at t xs q) ≡ true
    holds_elsewhere j q ne h = rw (get_or-set_ne xs p q s t.empty ne) at h

    pub holds_here : (j : K) → t.holds j (slot_at t (set xs p s) p) ≡ true → t.holds j s ≡ true
    holds_here j h = rw (get_or-set_self xs p s t.empty inside) at h

  -- A key is written where its search comes to, over nothing else, and stands nowhere else.
  pub write-IsProbed :
      (xs : List S) (k : K) (p : ℕ) (s : S)
      → IsProbed t xs
      → p < length xs
      → t.holds k s ≡ true
      → Reaches t xs k p
      → ((q : ℕ) → q < length xs → t.holds k (slot_at t xs q) ≡ true → q ≡ p)
      → IsProbed t (set xs p s)
  write-IsProbed xs k p s v inside hs r only = record { reach = reach; one = one }
    where
      so : t.occupied s ≡ true
      so = t.holds_occupied k s hs

      bound : (q : ℕ) → q < length (set xs p s) → q < length xs
      bound q h = omega (arith, length-set xs p s)

      reach :
          (j : K) (q : ℕ)
          → q < length (set xs p s)
          → t.holds j (slot_at t (set xs p s) q) ≡ true
          → Reaches t (set xs p s) j q
      reach j q a h = elim (ℕ_discrete p q) [
        | yes e ↦
            let h' =
              holds_here xs p s inside j
                (subst (λ r. t.holds j (slot_at t (set xs p s) r) ≡ true) (sym e) h) in
            let jk = t.holds_one j k s h' hs in
            subst (λ r. Reaches t (set xs p s) r q) (sym jk)
              (subst (λ r. Reaches t (set xs p s) k r) e (Reaches-set xs p s inside k p so r))
        | no ne ↦
            Reaches-set xs p s inside j q so
              (v.reach j q (bound q a) (holds_elsewhere xs p s inside j q ne h))
      ]

      -- Slot `p` holds `k` alone, and no other slot holds it.
      settled :
          (j : K) (q : ℕ)
          → q < length xs
          → t.holds j s ≡ true
          → t.holds j (slot_at t (set xs p s) q) ≡ true
          → q ≡ p
      settled j q a hj hq = elim (ℕ_discrete p q) [
        | yes e ↦ sym e
        | no ne ↦ only q a (
            subst (λ i. t.holds i (slot_at t xs q) ≡ true) (t.holds_one j k s hj hs)
              (holds_elsewhere xs p s inside j q ne hq))
      ]

      one :
          (j : K) (q r : ℕ)
          → q < length (set xs p s)
          → r < length (set xs p s)
          → t.holds j (slot_at t (set xs p s) q) ≡ true
          → t.holds j (slot_at t (set xs p s) r) ≡ true
          → q ≡ r
      one j q r a b hq hr = elim (ℕ_discrete p q) [
        | yes e ↦
            sym e
            ∙ sym (
                settled j r (bound r b)
                  (holds_here xs p s inside j
                    (subst (λ i. t.holds j (slot_at t (set xs p s) i) ≡ true) (sym e) hq))
                  hr)
        | no ne ↦ elim (ℕ_discrete p r) [
          | yes e ↦
              settled j q (bound q a)
                (holds_here xs p s inside j
                  (subst (λ i. t.holds j (slot_at t (set xs p s) i) ≡ true) (sym e) hr))
                hq
              ∙ e
          | no ne' ↦
              v.one j q r (bound q a) (bound r b) (holds_elsewhere xs p s inside j q ne hq)
                (holds_elsewhere xs p s inside j r ne' hr)
        ]
      ]

  -- A tombstone keeps the paths of the others.
  pub bury-IsProbed :
      (xs : List S) (p : ℕ) (s : S)
      → IsProbed t xs
      → p < length xs
      → t.occupied s ≡ true
      → ((k : K) → t.holds k s ≡ false)
      → IsProbed t (set xs p s)
  bury-IsProbed xs p s v inside so none_held = record {
    reach = λ j q a h. Reaches-set xs p s inside j q so (v.reach j q (bound q a) (old j q h));
    one = λ j q r a b hq hr. v.one j q r (bound q a) (bound r b) (old j q hq) (old j r hr);
  }
    where
      bound : (q : ℕ) → q < length (set xs p s) → q < length xs
      bound q h = omega (arith, length-set xs p s)

      old :
          (j : K) (q : ℕ)
          → t.holds j (slot_at t (set xs p s) q) ≡ true
          → t.holds j (slot_at t xs q) ≡ true
      old j q h = elim (ℕ_discrete p q) [
        | yes e ↦
            let h' =
              holds_here xs p s inside j
                (subst (λ r. t.holds j (slot_at t (set xs p s) r) ≡ true) (sym e) h) in
            absurd (ground (arith, none_held j))
        | no ne ↦ holds_elsewhere xs p s inside j q ne h
      ]

  -- Writing an occupied slot counts once where the old one was empty.
  pub load-set_fresh :
      (xs : List S) (p : ℕ) (s : S)
      → p < length xs
      → t.occupied s ≡ true
      → t.occupied (slot_at t xs p) ≡ false
      → load t (set xs p s) ≡ suc (load t xs)
  load-set_fresh [] p s a so h = elim a [ ]
  load-set_fresh (x ∷ xs) zero s a so h = ground arith
  load-set_fresh (x ∷ xs) (suc p) s a so h = ground (arith, load-set_fresh xs p s)

  pub load-set_same :
      (xs : List S) (p : ℕ) (s : S)
      → p < length xs
      → t.occupied s ≡ true
      → t.occupied (slot_at t xs p) ≡ true
      → load t (set xs p s) ≡ load t xs
  load-set_same [] p s a so h = elim a [ ]
  load-set_same (x ∷ xs) zero s a so h = ground arith
  load-set_same (x ∷ xs) (suc p) s a so h = ground (arith, load-set_same xs p s)

  -- A table that is not full has an empty slot.
  pub room_of_load :
      (xs : List S)
      → load t xs < length xs
      → (p : ℕ) × (p < length xs) × (t.occupied (slot_at t xs p) ≡ false)
  room_of_load [] h = elim h [ ]
  room_of_load (x ∷ xs) h = elim (Bool-cases (t.occupied x)) [
    | inl o ↦ let (p, a, e) = room_of_load xs (ground arith) in (suc p, omega arith, e)
    | inr f ↦ (0, omega arith, f)
  ]
