-- ===== src/Probe/Remove.antt =====
-- Removing a key by emptying its slot and closing the gap: the table's map forgets that key alone.
use native.Mathlib.Nat.{mod-lt, mod-eq_of_lt}
use smalltalk_a_vm.Prelude.{
  ℕ, suc, ◌+◌, ◌%◌, ◌≤◌, ◌<◌, ◌≡◌, ◌≢◌, refl, sym, ap, ◌∙◌, subst, arith, true, false, not, Option,
  none, some, List, length, set, length-set, get_or-set_self, get_or-set_ne, Bool-cases, ◌↔◌, inl,
  inr, dec_lt,
}
use smalltalk_a_vm.Probe.{Slots, slot_at, load, Reaches, IsProbed, content, Stored, ring_pos}
use smalltalk_a_vm.Probe.Ring.{ring_injective, ring_surjective}
use smalltalk_a_vm.Probe.Seek.{seek_sound, seek_total, Passes}
use smalltalk_a_vm.Probe.Invariant.{room_of_load}
use smalltalk_a_vm.Probe.Find.{content-Absent}
use smalltalk_a_vm.Probe.Content.{content_of_entries}
use smalltalk_a_vm.Probe.Gap.{close_gap, IsGap, after, load-set_empty, path_avoids}
use smalltalk_a_vm.Probe.Close.{close_gap_lem}

module _ {S K : Type 0} (t : Slots S K) (xs : List S) (id : K) (p : ℕ) (v : IsProbed t xs)
    (room : load t xs < length xs) (inside : p < length xs)
    (here : t.holds id (slot_at t xs p) ≡ true) where
  abbrev n : ℕ
  n = length xs

  emptied : List S
  emptied = set xs p t.empty

  at_p : after t n p 0 ≡ p
  at_p = let e : p + 0 ≡ p = omega arith in ap (λ x. x % n) e ∙ mod-eq_of_lt inside

  -- The next empty slot.
  next_hole :
      (m : ℕ) × (1 ≤ m)
      × (m < n)
      × (t.occupied (slot_at t xs (after t n p m)) ≡ false)
      × Passes (λ s. not (t.occupied s)) (slot_at t xs) (after t n p) 1 m
  next_hole =
      let (e, e_in, vacant) = room_of_load t xs room in
      let (d, d_in, at) = ring_surjective n p e e_in in
      let vacant' = subst (λ q. t.occupied (slot_at t xs q) ≡ false) at vacant in
      let far : 1 ≤ d = elim (dec_lt 0 d) [
        | yes y ↦ y
        | no z ↦
            let same : d ≡ 0 = omega arith in
            let o =
              subst (λ q. t.occupied (slot_at t xs q) ≡ false) (ap (λ i. after t n p i) same ∙ at_p)
                vacant' in
            absurd (ground (arith, t.holds_occupied id _ here))
      ] in
      let (q, found) =
        seek_total (λ s. not (t.occupied s)) (slot_at t xs) (after t n p) n 1 d far (omega arith)
          (ground arith) in
      let (m, a, b, c, s, before) =
        seek_sound (λ s. not (t.occupied s)) (slot_at t xs) (after t n p) n 1 q found in
      (
        m,
        a,
        elim (dec_lt d m) [
          | yes later ↦ absurd (ground (arith, before d far later))
          | no le ↦ omega arith
        ],
        (let f = subst (λ r. not (t.occupied (slot_at t xs r)) ≡ true) c s in ground arith),
        before,
      )

  module _ (m : ℕ) (far : 1 ≤ m) (near : m < n)
      (hole : t.occupied (slot_at t xs (after t n p m)) ≡ false)
      (before : Passes (λ s. not (t.occupied s)) (slot_at t xs) (after t n p) 1 m) where
    full : (i : ℕ) → i < m → t.occupied (slot_at t xs (after t n p i)) ≡ true
    full i a = elim (dec_lt 0 i) [
      | yes pos ↦ ground (arith, before i pos a)
      | no first ↦
          let e : i ≡ 0 = omega arith in
          subst (λ q. t.occupied (slot_at t xs q) ≡ true) (sym (ap (λ i. after t n p i) e ∙ at_p))
            (t.holds_occupied id _ here)
    ]

    -- Before the slot is emptied, nothing has to be put again.
    whole : IsGap t n p m xs 0
    whole = record {
      sized = refl;
      near = omega arith;
      round = near;
      hole = hole;
      full = λ i a b. full i b;
      settled = λ k r a h away. v.reach k r a h;
      pending = λ k i a b h.
          let (d, d_in, at, clear) =
            v.reach k (after t n p i) (mod-lt (p + i) {m = n} (omega arith)) h in
          (
            d,
            d_in,
            at,
            λ c le e. elim (dec_lt c d) [
              | yes inner ↦
                  let o = subst (λ q. t.occupied (slot_at t xs q) ≡ true) e (clear c inner) in
                  absurd (ground arith)
              | no last ↦
                  let same : d ≡ c = omega arith in
                  let o =
                    subst (λ q. t.occupied (slot_at t xs q) ≡ true)
                      (at ∙ ap (λ x. ring_pos t n (t.home k) x) same ∙ e)
                      (t.holds_occupied k _ h) in
                  absurd (ground arith)
            ],
          );
      one = λ k a b a_in b_in h h'. v.one k a b a_in b_in h h';
    }

    other : (r : ℕ) → p ≢ r → slot_at t (set xs p t.empty) r ≡ slot_at t xs r
    other r ne = get_or-set_ne xs p r t.empty t.empty ne

    gone : slot_at t (set xs p t.empty) p ≡ t.empty
    gone = get_or-set_self xs p t.empty t.empty inside

    held_old :
        (k : K) (r : ℕ)
        → t.holds k (slot_at t (set xs p t.empty) r) ≡ true
        → (p ≢ r) × (t.holds k (slot_at t xs r) ≡ true)
    held_old k r h =
        let ne : p ≢ r = λ e.
          let o = t.holds_occupied k t.empty (
            subst (λ x. t.holds k x ≡ true) gone
              (subst (λ i. t.holds k (slot_at t (set xs p t.empty) i) ≡ true) (sym e) h)) in
          absurd (ground (arith, t.empty_free)) in
        (ne, subst (λ x. t.holds k x ≡ true) (other r ne) h)

    later : (i : ℕ) → 1 ≤ i → i ≤ m → p ≢ after t n p i
    later i a b e =
        absurd (omega (arith, ring_injective n p 0 i (omega arith) (omega arith) (at_p ∙ e)))

    size : length (set xs p t.empty) ≡ n
    size = length-set xs p t.empty

    settle :
        (k : K) (r : ℕ)
        → r < n
        → t.holds k (slot_at t (set xs p t.empty) r) ≡ true
        → ((i : ℕ) → 1 ≤ i → i < m → r ≢ after t n p i)
        → Reaches t (set xs p t.empty) k r
    settle k r a h away =
        let (ne, old) = held_old k r h in
        let away' : (i : ℕ) → 0 ≤ i → i < m → r ≢ after t n p i = λ i b c. elim (dec_lt 0 i) [
          | yes pos ↦ away i pos c
          | no z ↦
              let e : i ≡ 0 = omega arith in
              λ same. ne (sym (same ∙ ap (λ i. after t n p i) e ∙ at_p))
        ] in
        let (d, d_in, at, clear) = v.reach k r a old in
        (
          d,
          omega (arith, size),
          at ∙ ap (λ c. ring_pos t c (t.home k) d) (sym size),
          λ b c.
              let avoid = path_avoids t whole k r d b (omega arith) a old away' d_in at clear c in
              rw size (
                subst (λ x. t.occupied x ≡ true)
                  (sym (other (ring_pos t n (t.home k) b) (λ e. avoid (sym e ∙ sym at_p))))
                  (clear b c)),
        )

    opened : IsGap t n p m (set xs p t.empty) 1
    opened = record {
      sized = size;
      near = far;
      round = near;
      hole = rw (other (after t n p m) (later m far (omega arith))) hole;
      full = λ i a b. rw (other (after t n p i) (later i a (omega arith))) (full i b);
      settled = settle;
      pending = λ k i a b h. whole.pending k i (omega arith) b (held_old k (after t n p i) h).1;
      one = λ k a b a_in b_in h h'. v.one k a b a_in b_in (held_old k a h).1 (held_old k b h').1;
    }

  -- What stands in the array once the slot is emptied.
  entries_left : (k : K) (s : S) → k ≢ id → Stored t (set xs p t.empty) k s ↔ Stored t xs k s
  entries_left k s ne =
      let (m, far, near, hole, before) = next_hole in
      (
        λ (r, a, e, h).
            let (away, old) = held_old m far near hole before k r (rw e h) in
            (
              r,
              omega (arith, size m far near hole before),
              sym (other m far near hole before r away) ∙ e,
              h,
            ),
        λ (r, a, e, h).
            let away : p ≢ r = λ same. ne (
              t.holds_one k id (slot_at t xs p)
                (subst (λ i. t.holds k (slot_at t xs i) ≡ true) (sym same) (rw e h)) here) in
            (
              r,
              omega (arith, size m far near hole before),
              other m far near hole before r away ∙ e,
              h,
            ),
      )

  none_left : (s : S) → ¬ Stored t (set xs p t.empty) id s
  none_left s (r, a, e, h) =
      let (m, far, near, hole, before) = next_hole in
      let (away, old) = held_old m far near hole before id r (rw e h) in
      away (v.one id p r inside (omega (arith, size m far near hole before)) here old)

  module _ (key : S → K) (keyed : (s : S) → t.occupied s ≡ true → t.holds (key s) s ≡ true)
      (spot : List S → S → Option ℕ)
      (spot_lem : (ys : List S) (s : S)
        → length ys ≡ n
        → load t ys < n
        → t.occupied s ≡ true
        → (target : ℕ) × (spot ys s ≡ some target)
          × (target < length ys)
          × (t.occupied (slot_at t ys target) ≡ false)
          × Reaches t ys (key s) target)
      (next : ℕ → ℕ) (steps : (i : ℕ) → next (after t n p i) ≡ after t n p (i + 1)) where
    -- The loop that closes the gap ends within one turn, and the table forgets the key.
    pub remove_lem :
        (out : List S) × (close_gap t.empty t.occupied spot next n
            (after t n p 1)
            (set xs p t.empty)
          ≡ some out)
        × (length out ≡ n)
        × IsProbed t out
        × (suc (load t out) ≡ load t xs)
        × (content t out id ≡ none)
        × ((k : K) → k ≢ id → content t out k ≡ content t xs k)
        × ((k : K) (s : S) → Stored t out k s → Stored t xs k s)
    remove_lem =
        let (m, far, near, hole, before) = next_hole in
        let (out, e, c) =
          close_gap_lem t key keyed n p m spot spot_lem next steps n 1 (set xs p t.empty)
            (opened m far near hole before) (omega arith) in
        let len : length out ≡ n = c.sized ∙ length-set xs p t.empty in
        let fewer : suc (load t out) ≡ load t xs =
          ap suc c.loaded ∙ load-set_empty t xs p inside (t.holds_occupied id _ here) in
        let room' : load t out < length out = omega arith in
        (
          out,
          e,
          len,
          c.probed,
          fewer,
          content-Absent t out id
              (λ q a. elim (Bool-cases (t.holds id (slot_at t out q))) [
                | inr f ↦ f
                | inl h ↦ absurd (none_left _ ((c.entries id (slot_at t out q)).0 (q, a, refl, h)))
              ])
              room',
          λ k ne. content_of_entries t xs out k v c.probed room room' (λ s. (
            λ x. (entries_left k s ne).0 ((c.entries k s).0 x),
            λ x. (c.entries k s).1 ((entries_left k s ne).1 x),
          )),
          λ k s st.
              let (r, a, e, h) = (c.entries k s).0 st in
              let (away, old) = held_old m far near hole before k r (rw e h) in
              (
                r,
                omega (arith, length-set xs p t.empty),
                sym (other m far near hole before r away) ∙ e,
                h,
              ),
        )
