-- ===== src/Actor/FutureTable/Remove.antt =====
-- `sta_future_table_remove`: the entries of the cluster stay reachable.
use native.Mathlib.Nat.{mod-eq_of_lt}
use smalltalk_a_vm.Prelude.{
  ℕ, ◌+◌, ◌-◌, ◌%◌, ◌^◌, ◌<◌, ◌≡◌, ◌≢◌, refl, sym, ap, ◌∙◌, subst, arith, true, false, some, none,
  length, set, ◌==◌, inl, inr, Bool-cases,
}
use smalltalk_a_vm.Probe.{content}
use smalltalk_a_vm.Probe.Remove.{remove_lem}
use smalltalk_a_vm.Probe.Gap.{after, close_gap}
use smalltalk_a_vm.Probe.Ring.{step_mask32}
use smalltalk_a_vm.Actor.FutureTable.{
  FutureTable, no_future, bucket_at, is_taken, free_spot, next_index, remove, remove_at,
  remove_found, closed,
}
use smalltalk_a_vm.Actor.FutureTable.Slot.{slots}
use smalltalk_a_vm.Actor.FutureTable.Invariant.{IsValid, room, future_in, scan_cases, zero_content}
use smalltalk_a_vm.Actor.FutureTable.Growth.{free_spot_lem, taken_has}
use smalltalk_a_vm.Actor.FutureTable.Laws.{Answers, Answers-of_content}

-- The table without `id`.
record IsWithout (t : FutureTable) (id : ℕ) (t' : FutureTable) : Type 0 where
  valid : IsValid t'
  gone : content slots t'.buckets id ≡ none
  elsewhere : (j : ℕ) → j ≢ id → content slots t'.buckets j ≡ content slots t.buckets j

module _ (t : FutureTable) (id pos : ℕ) (v : IsValid t) (inside : pos < length t.buckets)
    (held : slots.holds id (bucket_at t.buckets pos) ≡ true) where
  steps :
      (i : ℕ)
      → next_index (t.capacity - 1) (after slots (length t.buckets) pos i)
        ≡ after slots (length t.buckets) pos (i + 1)
  steps i =
      let (e, c) = v.power in
      subst (λ n. next_index (t.capacity - 1) (after slots n pos i) ≡ after slots n pos (i + 1))
        (sym v.sized) (step_mask32 e t.capacity pos i c (omega (arith, v.small)))

  first_step : next_index (t.capacity - 1) pos ≡ after slots (length t.buckets) pos 1
  first_step =
      let z : pos + 0 ≡ pos = omega arith in
      ap (next_index (t.capacity - 1))
        (sym (ap (λ x. x % length t.buckets) z ∙ mod-eq_of_lt inside))
      ∙ steps 0

  removed : (t' : FutureTable) × (remove_at t pos ≡ some t') × IsWithout t id t'
  unfolding remove_at
  removed =
      let (e, c) = v.power in
      let (bs, ends, len, probed, fewer, gone, other, old) =
        remove_lem slots t.buckets id pos v.probed (room v) inside held (λ b. b.future_id) taken_has
          (free_spot t.capacity)
          (λ ys b l r k.
            free_spot_lem e t.capacity c (omega (arith, v.small)) ys b (l ∙ v.sized)
              (omega (arith, v.sized)))
          (next_index (t.capacity - 1)) steps in
      let count : (t.count + (2 ^ 32 - 1)) % 2 ^ 32 ≡ t.count - 1 =
        omega (arith, v.counted, v.slack, v.small) in
      (
        record t { buckets = bs; count = t.count - 1 },
        ap (closed t) (
              ap
                (λ n.
                  close_gap no_future is_taken (free_spot t.capacity) (next_index (t.capacity - 1))
                    n (next_index (t.capacity - 1) pos) (set t.buckets pos no_future))
                (sym v.sized)
              ∙ ap
                  (λ q.
                    close_gap no_future is_taken (free_spot t.capacity)
                      (next_index (t.capacity - 1)) (length t.buckets) q
                      (set t.buckets pos no_future))
                  first_step
              ∙ ends)
            ∙ rw count,
        record {
          valid = record {
            power = v.power;
            sized = len ∙ v.sized;
            probed = probed;
            counted = omega (arith, v.counted);
            slack = omega (arith, v.slack);
            large = v.large;
            small = v.small;
            issued = λ k b s. v.issued k b (old k b s);
            next_pos = v.next_pos;
          };
          gone = gone;
          elsewhere = other;
        },
      )

-- Removing an id from a valid table ends, leaves it valid, and changes what lookups return for that
-- id alone: a lookup of it finds nothing, whether it was in the table or not.
pub remove-find :
    (t : FutureTable) (id : ℕ)
    → IsValid t
    → (t' : FutureTable) × (remove t id ≡ some t') × IsValid t' × Answers t t' id 0
unfolding remove
remove-find t id v = elim (Bool-cases (id == 0)) [
  | inl z ↦
      let e : id ≡ 0 = ground arith in
      (
        t,
        rw z,
        v,
        Answers-of_content t t id 0 v v
            (ap future_in (ap (content slots t.buckets) e ∙ zero_content t v)) (λ j ne. refl),
      )
  | inr nz ↦
      let (pos, found, inside, c) = scan_cases t id v in
      elim c [
        | inl (h, s) ↦
            let (t', e, w) = removed t id pos v inside h in
            let full : ((bucket_at t.buckets pos).future == 0) ≡ false = ground arith in
            (
              t',
              rw nz (ap (remove_found t) found ∙ rw full e),
              w.valid,
              Answers-of_content t t' id 0 v w.valid (ap future_in w.gone) w.elsewhere,
            )
        | inr (empty, s) ↦
            let none_there : ((bucket_at t.buckets pos).future == 0) ≡ true = ground arith in
            (
              t,
              rw nz (ap (remove_found t) found ∙ rw none_there),
              v,
              Answers-of_content t t id 0 v v (ap future_in s) (λ j ne. refl),
            )
      ]
]
