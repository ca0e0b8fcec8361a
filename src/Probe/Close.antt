-- ===== src/Probe/Close.antt =====
-- The loop that closes a gap.
use smalltalk_a_vm.Prelude.{
  ℕ, zero, suc, ◌+◌, ◌<◌, ◌≡◌, refl, sym, ◌∙◌, arith, true, false, Option, some, List, length, set,
  length-set, Bool-cases, inl, inr,
}
use smalltalk_a_vm.Probe.{Slots, slot_at, load, Reaches, IsProbed}
use smalltalk_a_vm.Probe.Gap.{close_gap, IsGap, after, load-lt_length}
use smalltalk_a_vm.Probe.Refill.{
  SameEntries, q_in, ys_size, ys-q, zs_size, round_kept, load_kept, entries_kept,
}

-- What closing the gap has made of the array.
pub record IsClosed {S K : Type 0} (t : Slots S K) (xs out : List S) : Type 0 where
  pub sized : length out ≡ length xs
  pub probed : IsProbed t out
  pub loaded : load t out ≡ load t xs
  pub entries : SameEntries t xs out

module _ {S K : Type 0} (t : Slots S K) (key : S → K)
    (keyed : (s : S) → t.occupied s ≡ true → t.holds (key s) s ≡ true) (n p m : ℕ)
    (spot : List S → S → Option ℕ)
    (spot_lem : (ys : List S) (s : S)
      → length ys ≡ n
      → load t ys < n
      → t.occupied s ≡ true
      → (target : ℕ) × (spot ys s ≡ some target)
        × (target < length ys)
        × (t.occupied (slot_at t ys target) ≡ false)
        × Reaches t ys (key s) target)
    (next : ℕ → ℕ) (steps : (i : ℕ) → next (after t n p i) ≡ after t n p (i + 1)) where
  -- The loop ends at the empty slot, with every entry where a search finds it.
  pub close_gap_lem :
      (fuel j : ℕ) (xs : List S)
      → IsGap t n p m xs j
      → m < j + fuel
      → (out : List S) × (close_gap t.empty t.occupied spot next fuel (after t n p j) xs ≡ some out)
        × IsClosed t xs out
  unfolding close_gap
  close_gap_lem zero j xs g h = absurd (omega (arith, g.near))
  close_gap_lem (suc fuel) j xs g h =
      elim (Bool-cases (t.occupied (slot_at t xs (after t n p j)))) [
        | inr stop ↦ (
          xs,
          rw stop,
          record {
            sized = refl;
            probed = record {
              reach = λ k r a h'.
                  g.settled k r (omega (arith, g.sized)) h'
                    (λ i b c. absurd (ground (arith, g.full j (omega arith) (omega arith))));
              one =
                  λ k a b a_in b_in. g.one k a b (omega (arith, g.sized)) (omega (arith, g.sized));
            };
            loaded = refl;
            entries = λ k s. (λ x. x, λ x. x);
          },
        )
        | inl go_on ↦
            let key_held = keyed _ go_on in
            let vacant : t.occupied (slot_at t (set xs (after t n p j) t.empty) (after t n p j))
                ≡ false =
              rw (ys-q t key g go_on key_held) t.empty_free in
            let room =
              load-lt_length t (set xs (after t n p j) t.empty) (after t n p j)
                (rw (length-set xs (after t n p j) t.empty) (q_in t key g go_on key_held)) vacant in
            let (target, found, target_in, free, reached) =
              spot_lem (set xs (after t n p j) t.empty) (slot_at t xs (after t n p j))
                (ys_size t key g go_on key_held) (omega (arith, ys_size t key g go_on key_held))
                go_on in
            let g' = round_kept t key g go_on key_held target target_in free reached in
            let (out, e, c) =
              close_gap_lem fuel (j + 1)
                (set (set xs (after t n p j) t.empty) target (slot_at t xs (after t n p j))) g'
                (omega arith) in
            let same = entries_kept t key g go_on key_held target target_in free reached in
            (
              out,
              rw (go_on, found, steps j) e,
              record {
                sized =
                    c.sized
                    ∙ zs_size t key g go_on key_held target target_in free reached
                    ∙ sym g.sized;
                probed = c.probed;
                loaded = c.loaded ∙ load_kept t key g go_on key_held target target_in free reached;
                entries = λ k s. (
                  λ x. (same k s).0 ((c.entries k s).0 x),
                  λ x. (c.entries k s).1 ((same k s).1 x),
                );
              },
            )
      ]
