-- ===== src/Probe/Refill.antt =====
-- One round of the loop that closes a gap.
use native.Mathlib.Nat.{mod-lt}
use smalltalk_a_vm.Prelude.{
  ℕ, ◌+◌, ◌≤◌, ◌<◌, ◌≡◌, ◌≢◌, sym, ap, ◌∙◌, subst, arith, true, false, List, length, set,
  length-set, get_or-set_self, get_or-set_ne, ℕ_discrete, ◌↔◌, dec_lt,
}
use smalltalk_a_vm.Probe.{Slots, slot_at, load, Reaches, Stored, ring_pos}
use smalltalk_a_vm.Probe.Ring.{ring_injective}
use smalltalk_a_vm.Probe.Invariant.{Reaches-set, load-set_fresh}
use smalltalk_a_vm.Probe.Gap.{IsGap, after, load-set_empty, path_avoids}

-- The same entries.
abbrev pub SameEntries : {S K : Type 0} → Slots S K → List S → List S → Type 0
SameEntries t xs ys = (k : _) (s : _) → Stored t ys k s ↔ Stored t xs k s

module _ {S K : Type 0} (t : Slots S K) (key : S → K) {n p m : ℕ} {xs : List S} {j : ℕ}
    (g : IsGap t n p m xs j) (taken : t.occupied (slot_at t xs (after t n p j)) ≡ true)
    (keyed : t.holds (key (slot_at t xs (after t n p j))) (slot_at t xs (after t n p j))
      ≡ true) where
  abbrev q : ℕ
  q = after t n p j

  abbrev s : S
  s = slot_at t xs q

  abbrev ys : List S
  ys = set xs q t.empty

  more : j < m
  more = elim (dec_lt j m) [
    | yes y ↦ y
    | no z ↦
        let e : j ≡ m = omega (arith, g.near) in
        let o = subst (λ i. t.occupied (slot_at t xs (after t n p i)) ≡ true) e taken in
        absurd (ground (arith, g.hole))
  ]

  pub q_in : q < length xs
  q_in = rw g.sized (mod-lt (p + j) {m = n} (omega (arith, g.round)))

  pub ys_size : length ys ≡ n
  ys_size = length-set xs q t.empty ∙ g.sized

  pub ys-q : slot_at t ys q ≡ t.empty
  ys-q = get_or-set_self xs q t.empty t.empty q_in

  ys_other : (r : ℕ) → q ≢ r → slot_at t ys r ≡ slot_at t xs r
  ys_other r ne = get_or-set_ne xs q r t.empty t.empty ne

  not_q : (k : K) (r : ℕ) → t.holds k (slot_at t ys r) ≡ true → q ≢ r
  not_q k r h e =
      let h' = subst (λ i. t.holds k (slot_at t ys i) ≡ true) (sym e) h in
      let o = t.holds_occupied k t.empty (rw ys-q at h') in absurd (ground (arith, t.empty_free))

  -- The target of the entry: the first empty slot on its path.
  module _ (target : ℕ) (target_in : target < length ys)
      (vacant : t.occupied (slot_at t ys target) ≡ false)
      (reached : Reaches t ys (key s) target) where
    abbrev zs : List S
    zs = set ys target s

    on_path :
        (d : ℕ) × (d < n) × (target ≡ ring_pos t n (t.home (key s)) d) × (target ≢ after t n p m)
    on_path =
        let (d, d_in, at, clear) = reached in
        let (dq, dq_in, at_q, avoid) = g.pending (key s) j (omega arith) more keyed in
        let at' : target ≡ ring_pos t n (t.home (key s)) d =
          at ∙ ap (λ c. ring_pos t c (t.home (key s)) d) ys_size in
        (
          d,
          omega (arith, ys_size),
          at',
          elim (dec_lt dq d) [
            | no low ↦ λ e. avoid d (omega arith) (sym at' ∙ e)
            | yes past ↦
                let o = clear dq past in
                let o' =
                  subst (λ r. t.occupied (slot_at t ys r) ≡ true)
                    (ap (λ c. ring_pos t c (t.home (key s)) dq) ys_size ∙ sym at_q) o in
                let o'' = rw ys-q at o' in absurd (ground (arith, t.empty_free))
          ],
        )

    zs_target : slot_at t zs target ≡ s
    zs_target = get_or-set_self ys target s t.empty target_in

    zs_other : (r : ℕ) → target ≢ r → slot_at t zs r ≡ slot_at t ys r
    zs_other r ne = get_or-set_ne ys target r s t.empty ne

    pub zs_size : length zs ≡ n
    zs_size = length-set ys target s ∙ ys_size

    occupied_not_target : (r : ℕ) → q ≢ r → t.occupied (slot_at t xs r) ≡ true → target ≢ r
    occupied_not_target r ne o e =
        let o' = subst (λ x. t.occupied x ≡ true) (sym (ys_other r ne)) o in
        let v' = subst (λ i. t.occupied (slot_at t ys i) ≡ false) e vacant in absurd (ground arith)

    kept_slot :
        (r : ℕ) → q ≢ r → t.occupied (slot_at t xs r) ≡ true → slot_at t zs r ≡ slot_at t xs r
    kept_slot r ne o = zs_other r (occupied_not_target r ne o) ∙ ys_other r ne

    later_slot : (i : ℕ) → j + 1 ≤ i → i < m → q ≢ after t n p i
    later_slot i a b e = absurd (
        omega (
          arith,
          g.round,
          ring_injective n p j i (omega (arith, g.round, more)) (omega (arith, g.round)) e,
        ))

    -- What an entry of the new array was in the old one.
    was :
        (k : K) (r : ℕ)
        → target ≢ r
        → t.holds k (slot_at t zs r) ≡ true
        → (q ≢ r) × (t.holds k (slot_at t xs r) ≡ true)
    was k r ne h =
        let h' : t.holds k (slot_at t ys r) ≡ true =
          subst (λ x. t.holds k x ≡ true) (zs_other r ne) h in
        let nq = not_q k r h' in (nq, subst (λ x. t.holds k x ≡ true) (ys_other r nq) h')

    hole_kept : t.occupied (slot_at t zs (after t n p m)) ≡ false
    hole_kept =
        let (d, a, b, ne) = on_path in
        let nq : q ≢ after t n p m = λ e.
          let o = subst (λ i. t.occupied (slot_at t xs i) ≡ true) e taken in
          absurd (ground (arith, g.hole)) in
        rw (zs_other (after t n p m) ne, ys_other (after t n p m) nq) g.hole

    settle_other :
        (k : K) (r : ℕ)
        → r < n
        → target ≢ r
        → t.holds k (slot_at t zs r) ≡ true
        → ((i : ℕ) → j + 1 ≤ i → i < m → r ≢ after t n p i)
        → Reaches t zs k r
    settle_other k r a ne h away =
        let (nq, old) = was k r ne h in
        let away' : (i : ℕ) → j ≤ i → i < m → r ≢ after t n p i = λ i b c. elim (ℕ_discrete i j) [
          | yes e ↦ λ same. nq (sym (same ∙ ap (λ x. after t n p x) e))
          | no ni ↦ away i (omega arith) c
        ] in
        let (d, d_in, at, clear) = g.settled k r a old away' in
        let at' : r ≡ ring_pos t n (t.home k) d =
          at ∙ ap (λ c. ring_pos t c (t.home k) d) g.sized in
        let clear' : (b : ℕ)
            → b < d
            → t.occupied (slot_at t xs (ring_pos t n (t.home k) b)) ≡ true =
          λ b c.
            subst (λ z. t.occupied (slot_at t xs (ring_pos t z (t.home k) b)) ≡ true) g.sized
              (clear b c) in
        Reaches-set t ys target s target_in k r taken (
          d,
          omega (arith, ys_size, g.sized),
          at' ∙ ap (λ c. ring_pos t c (t.home k) d) (sym ys_size),
          λ b c.
              let avoid =
                path_avoids t g k r d b more a old away' (omega (arith, g.sized)) at' clear' c in
              rw ys_size (
                subst (λ x. t.occupied x ≡ true)
                  (sym (ys_other (ring_pos t n (t.home k) b) (λ e. avoid (sym e)))) (clear' b c)),
        )

    settle_target : (k : K) → t.holds k s ≡ true → Reaches t zs k target
    settle_target k h =
        let same = t.holds_one k (key s) s h keyed in
        subst (λ i. Reaches t zs i target) (sym same)
          (Reaches-set t ys target s target_in (key s) target taken reached)

    one_target :
        (k : K) (b : ℕ)
        → b < n
        → target ≢ b
        → t.holds k s ≡ true
        → t.holds k (slot_at t zs b) ≡ true
        → ⊥
    one_target k b b_in ne h h' =
        let (nq, old) = was k b ne h' in nq (g.one k q b (omega (arith, q_in, g.sized)) b_in h old)

    pub round_kept : IsGap t n p m zs (j + 1)
    round_kept = record {
      sized = zs_size;
      near = omega (arith, more);
      round = g.round;
      hole = hole_kept;
      full = λ i a b.
          let o = g.full i (omega arith) b in
          subst (λ x. t.occupied x ≡ true) (sym (kept_slot _ (later_slot i a b) o)) o;
      settled = λ k r a h away. elim (ℕ_discrete target r) [
        | yes e ↦ subst (Reaches t zs k) e (
            settle_target k (
              subst (λ x. t.holds k x ≡ true) zs_target
                (subst (λ i. t.holds k (slot_at t zs i) ≡ true) (sym e) h)))
        | no ne ↦ settle_other k r a ne h away
      ];
      pending = λ k i a b h.
          let o = g.full i (omega arith) b in
          g.pending k i (omega arith) b
            (subst (λ x. t.holds k x ≡ true) (kept_slot _ (later_slot i a b) o) h);
      one = λ k a b a_in b_in h h'. elim (ℕ_discrete target a) [
        | yes e ↦ elim (ℕ_discrete target b) [
          | yes e' ↦ sym e ∙ e'
          | no ne ↦ absurd (
              one_target k b b_in ne
                (subst (λ x. t.holds k x ≡ true) zs_target
                  (subst (λ i. t.holds k (slot_at t zs i) ≡ true) (sym e) h))
                h')
        ]
        | no ne ↦ elim (ℕ_discrete target b) [
          | yes e' ↦ absurd (
              one_target k a a_in ne
                (subst (λ x. t.holds k x ≡ true) zs_target
                  (subst (λ i. t.holds k (slot_at t zs i) ≡ true) (sym e') h'))
                h)
          | no ne' ↦ g.one k a b a_in b_in (was k a ne h).1 (was k b ne' h').1
        ]
      ];
    }

    pub load_kept : load t zs ≡ load t xs
    load_kept = omega (
      arith,
      load-set_fresh t ys target s target_in taken vacant,
      load-set_empty t xs q q_in taken,
    )

    pub entries_kept : SameEntries t xs zs
    entries_kept k u = (
      λ (r, a, e, h). elim (ℕ_discrete target r) [
        | yes same ↦ (q, q_in, sym zs_target ∙ ap (slot_at t zs) same ∙ e, h)
        | no ne ↦
            let (nq, old) = was k r ne (rw e h) in
            (r, omega (arith, zs_size, g.sized), sym (ys_other r nq) ∙ sym (zs_other r ne) ∙ e, h)
      ],
      λ (r, a, e, h). elim (ℕ_discrete q r) [
        | yes same ↦
            (target, omega (arith, zs_size, ys_size), zs_target ∙ ap (slot_at t xs) same ∙ e, h)
        | no ne ↦
            let o = t.holds_occupied k _ (rw e h) in
            (r, omega (arith, zs_size, g.sized), kept_slot r ne o ∙ e, h)
      ],
    )
