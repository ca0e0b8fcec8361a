-- ===== src/Probe/Gap.antt =====
-- Deletion without tombstones: a slot is emptied, and the entries after it, up to the next empty
-- slot, are put again one by one.
use native.Mathlib.Nat.{mod-add-mod}
use smalltalk_a_vm.Prelude.{
  ℕ, zero, suc, ◌+◌, ◌-◌, ◌%◌, ◌≤◌, ◌<◌, ◌≡◌, ◌≢◌, sym, ap, ◌∙◌, subst, arith, Bool, true, false,
  Option, none, some, List, [], ◌∷◌, length, get_or, set, if◌then◌else◌, dec_lt,
}
use smalltalk_a_vm.Probe.{Slots, slot_at, load, Reaches, ring_pos}
use smalltalk_a_vm.Probe.Rehash.{put_at}

-- `while (slots[idx]) { take it out; put it at its spot; idx = next(idx); }` on fuel.
unfoldable pub close_gap {ℓ} :
    {S : Type ℓ}
    → S
    → (S → Bool)
    → (List S → S → Option ℕ)
    → (ℕ → ℕ)
    → ℕ
    → ℕ
    → List S
    → Option (List S)
close_gap empty occupied spot next zero idx xs = none
close_gap empty occupied spot next (suc fuel) idx xs =
    let s = get_or xs idx empty in
    let out = set xs idx empty in
    let rest = close_gap empty occupied spot next fuel (next idx) (put_at (spot out s) s out) in
    if occupied s then rest else some xs

module _ {S K : Type 0} (t : Slots S K) where
  pub load-lt_length :
      (xs : List S) (p : ℕ)
      → p < length xs
      → t.occupied (slot_at t xs p) ≡ false
      → load t xs < length xs
  load-lt_length [] p a f = elim a [ ]
  load-lt_length (x ∷ xs) zero a f = rw f (omega (arith, load-le_length xs))
    where
      load-le_length : (xs : List S) → load t xs ≤ length xs
      load-le_length [] = omega arith
      load-le_length (y ∷ ys) = ground (arith, load-le_length ys)
  load-lt_length (x ∷ xs) (suc p) a f = ground (arith, load-lt_length xs p (omega arith) f)

  -- Emptying a slot.
  pub load-set_empty :
      (xs : List S) (p : ℕ)
      → p < length xs
      → t.occupied (slot_at t xs p) ≡ true
      → suc (load t (set xs p t.empty)) ≡ load t xs
  load-set_empty [] p a f = elim a [ ]
  load-set_empty (x ∷ xs) zero a f = ground (arith, t.empty_free)
  load-set_empty (x ∷ xs) (suc p) a f = ground (arith, load-set_empty xs p (omega arith) f)

  -- The `i`-th slot after the gap at `p`.
  abbrev pub after : ℕ → ℕ → ℕ → ℕ
  after n p i = (p + i) % n

  -- The entries before the `j`-th after the gap have been put again, those up to the `m`-th, which
  -- is empty, have not.
  pub record IsGap (n p m : ℕ) (xs : List S) (j : ℕ) : Type 0 where
    pub sized : length xs ≡ n
    pub near : j ≤ m
    pub round : m < n
    pub hole : t.occupied (slot_at t xs (after n p m)) ≡ false
    pub full : (i : ℕ) → j ≤ i → i < m → t.occupied (slot_at t xs (after n p i)) ≡ true
    pub settled :
        (k : K) (r : ℕ)
        → r < n
        → t.holds k (slot_at t xs r) ≡ true
        → ((i : ℕ) → j ≤ i → i < m → r ≢ after n p i)
        → Reaches t xs k r
    pub pending :
        (k : K) (i : ℕ)
        → j ≤ i
        → i < m
        → t.holds k (slot_at t xs (after n p i)) ≡ true
        → (d : ℕ) × (d < n)
          × (after n p i ≡ ring_pos t n (t.home k) d)
          × ((a : ℕ) → a ≤ d → ring_pos t n (t.home k) a ≢ after n p m)
    pub one :
        (k : K) (q r : ℕ)
        → q < n
        → r < n
        → t.holds k (slot_at t xs q) ≡ true
        → t.holds k (slot_at t xs r) ≡ true
        → q ≡ r

  -- Two ways round the ring that meet go on together.
  pub shift : (n a b x : ℕ) → a % n ≡ b % n → (a + x) % n ≡ (b + x) % n
  shift n a b x e = sym (mod-add-mod a n x) ∙ ap (λ c. (c + x) % n) e ∙ mod-add-mod b n x

  module _ {n p m : ℕ} {xs : List S} {j : ℕ} (g : IsGap n p m xs j) where
    occupied_of :
        (k : K) (r : ℕ) → t.holds k (slot_at t xs r) ≡ true → t.occupied (slot_at t xs r) ≡ true
    occupied_of k r h = t.holds_occupied k _ h

    -- The path of a settled entry does not pass a slot that is to be put again.
    pub path_avoids :
        (k : K) (r d a : ℕ)
        → j < m
        → r < n
        → t.holds k (slot_at t xs r) ≡ true
        → ((i : ℕ) → j ≤ i → i < m → r ≢ after n p i)
        → d < n
        → r ≡ ring_pos t n (t.home k) d
        → ((b : ℕ) → b < d → t.occupied (slot_at t xs (ring_pos t n (t.home k) b)) ≡ true)
        → a < d
        → ring_pos t n (t.home k) a ≢ after n p j
    path_avoids k r d a more inside h away d_in at clear a_lt meet = elim (dec_lt (d - a) (m - j)) [
      | yes short ↦
          let same : t.home k + a + (d - a) ≡ t.home k + d = omega arith in
          let same' : p + j + (d - a) ≡ p + (j + (d - a)) = omega arith in
          absurd (
            away (j + (d - a)) (omega arith) (omega arith) (
              at
              ∙ ap (λ x. x % n) (sym same)
              ∙ shift n (t.home k + a) (p + j) (d - a) meet
              ∙ ap (λ x. x % n) same'))
      | no long ↦
          let same : t.home k + a + (m - j) ≡ t.home k + (a + (m - j)) = omega arith in
          let same' : p + j + (m - j) ≡ p + m = omega (arith, g.near) in
          let met : ring_pos t n (t.home k) (a + (m - j)) ≡ after n p m =
            ap (λ x. x % n) (sym same)
            ∙ shift n (t.home k + a) (p + j) (m - j) meet
            ∙ ap (λ x. x % n) same' in
          elim (dec_lt (a + (m - j)) d) [
            | yes inner ↦
                let o = clear (a + (m - j)) inner in
                let o' = subst (λ q. t.occupied (slot_at t xs q) ≡ true) met o in
                absurd (ground (arith, g.hole))
            | no outer ↦
                let e : a + (m - j) ≡ d = omega arith in
                let o =
                  subst (λ q. t.occupied (slot_at t xs q) ≡ true)
                    (at ∙ ap (λ x. ring_pos t n (t.home k) x) (sym e) ∙ met) (occupied_of k r h) in
                absurd (ground (arith, g.hole))
          ]
    ]
