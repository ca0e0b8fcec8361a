-- ===== src/Actor/Future/Race.antt =====
-- The race for a future: one call wins, and what it stores is what the future holds.
use smalltalk_a_vm.Prelude.{
  ℕ, zero, suc, ◌<◌, ◌≡◌, ◌≢◌, refl, sym, ap, subst, arith, Bool, true, false, List, [], ◌∷◌,
  length, length-set, get_or-set_self, get_or-set_ne, ltb, if◌then◌else◌, Bool-cases, inl, inr,
  ℕ_discrete, bit, sum,
}
use smalltalk_a_vm.Actor.Future.{
  FutureState, Request, Phase, Thread, System, is_pending, claimed, final, heap_of, thread_at,
  moved, step, step_phase, run, start, compare_exchange, store_result, publish, wake,
}

-- The calls that have won the CAS.
abbrev pub won_phase : Phase → Bool
won_phase Phase.calling = false
won_phase Phase.storing = true
won_phase Phase.publishing = true
won_phase Phase.waking = true
won_phase (Phase.returned b) = b

abbrev pub won : Thread → ℕ
won t = bit (won_phase t.phase)

abbrev pub winners : System → ℕ
winners s = sum won s.threads

-- What the future looks like to the call that won, by where it stands. `state`, `buf`, `count`,
-- `heap` and `wakes` are the future's fields.
abbrev pub Agrees : FutureState → ℕ → ℕ → ℕ → ℕ → Request → Phase → Type 0
Agrees state buf count heap wakes r Phase.calling = Unit
Agrees state buf count heap wakes r Phase.storing =
    (state ≡ claimed r) × (buf ≡ 0) × (count ≡ 0) × (heap ≡ 0) × (wakes ≡ 0)
Agrees state buf count heap wakes r Phase.publishing =
    (state ≡ claimed r) × (buf ≡ r.buf) × (count ≡ r.count) × (heap ≡ heap_of r) × (wakes ≡ 0)
Agrees state buf count heap wakes r Phase.waking =
    (state ≡ final r) × (buf ≡ r.buf) × (count ≡ r.count) × (heap ≡ heap_of r) × (wakes ≡ 0)
Agrees state buf count heap wakes r (Phase.returned won) =
    (state ≡ final r) × (buf ≡ r.buf) × (count ≡ r.count) × (heap ≡ heap_of r) × (wakes ≡ 1)

abbrev pub Agreed : System → Request → Phase → Type 0
Agreed s r p = Agrees s.state s.result_buf s.result_count s.transfer_heap s.wakes r p

-- Before the first CAS, and after it.
pub data Race (s : System) : Type 0 where
  unclaimed :
      s.state ≡ FutureState.pending
      → s.result_buf ≡ 0
      → s.result_count ≡ 0
      → s.transfer_heap ≡ 0
      → s.wakes ≡ 0
      → ((i : ℕ) → i < length s.threads → (thread_at s i).phase ≡ Phase.calling)
      → Race s
  decided :
      is_pending s.state ≡ false
      → (w : ℕ) → w < length s.threads
      → won (thread_at s w) ≡ 1
      → Agreed s (thread_at s w).request (thread_at s w).phase
      → ((i : ℕ) → i < length s.threads → i ≢ w → won (thread_at s i) ≡ 0)
      → Race s

abbrev pub changed : System → ℕ → Phase → Thread
changed s i phase = record (thread_at s i) { phase = phase }

claimed_taken : (r : Request) → is_pending (claimed r) ≡ false
claimed_taken r = elim (Bool-cases r.fails) [ inl e ↦ rw e refl | inr e ↦ rw e refl ]

final_taken : (r : Request) → is_pending (final r) ≡ false
final_taken r = elim (Bool-cases r.fails) [ inl e ↦ rw e refl | inr e ↦ rw e refl ]

-- The thread that moved, and the others.
module _ (s s' : System) (i : ℕ) (phase : Phase) (inside : i < length s.threads)
    (same : s'.threads ≡ moved s i phase) where
  at_self : thread_at s' i ≡ changed s i phase
  at_self = rw same (get_or-set_self s.threads i (changed s i phase) _ inside)

  at_other : (j : ℕ) → i ≢ j → thread_at s' j ≡ thread_at s j
  at_other j ne = rw same (get_or-set_ne s.threads i j (changed s i phase) _ ne)

  bound : length s'.threads ≡ length s.threads
  bound = rw same (length-set s.threads i (changed s i phase))

  -- The winner moves on.
  winner_moves :
      is_pending s'.state ≡ false
      → won_phase phase ≡ true
      → Agreed s' (thread_at s i).request phase
      → ((j : ℕ) → j < length s.threads → j ≢ i → won (thread_at s j) ≡ 0)
      → Race s'
  winner_moves taken wins agrees others =
      Race.decided taken i (omega (arith, bound)) (rw (at_self, wins) refl) (rw at_self agrees)
        (λ j a ne. rw (at_other j (λ e. ne (sym e))) (others j (omega (arith, bound)) ne))

  -- Another call returns false.
  loser_moves :
      is_pending s.state ≡ false
      → (w : ℕ) → i ≢ w
      → phase ≡ Phase.returned false
      → w < length s.threads
      → won (thread_at s w) ≡ 1
      → Agreed s' (thread_at s w).request (thread_at s w).phase
      → is_pending s'.state ≡ false
      → ((j : ℕ) → j < length s.threads → j ≢ w → won (thread_at s j) ≡ 0)
      → Race s'
  loser_moves taken w ne lost a wins agrees taken' others =
      Race.decided taken' w (omega (arith, bound)) (rw (at_other w ne) wins)
        (rw (at_other w ne) agrees) rest
    where
      rest : (j : ℕ) → j < length s'.threads → j ≢ w → won (thread_at s' j) ≡ 0
      rest j b nw = elim (ℕ_discrete i j) [
        | yes e ↦ subst (λ k. won (thread_at s' k) ≡ 0) e (rw (at_self, lost) refl)
        | no nj ↦ rw (at_other j nj) (others j (omega (arith, bound)) nw)
      ]

module _ (s : System) (i : ℕ) (inside : i < length s.threads) where
  first_claim :
      s.state ≡ FutureState.pending
      → s.result_buf ≡ 0
      → s.result_count ≡ 0
      → s.transfer_heap ≡ 0
      → s.wakes ≡ 0
      → ((j : ℕ) → j < length s.threads → (thread_at s j).phase ≡ Phase.calling)
      → Race (compare_exchange s i)
  unfolding compare_exchange
  first_claim p a b c d calls = rw p (
      winner_moves s _ i Phase.storing inside refl (claimed_taken (thread_at s i).request) refl
        (refl, a, b, c, d) (λ j k ne. rw (calls j k) refl))

  -- The call that moves is the winner, or none of its own phase.
  by_phase :
      (p : Phase)
      → (thread_at s i).phase ≡ p
      → is_pending s.state ≡ false
      → (w : ℕ) → w < length s.threads
      → won (thread_at s w) ≡ 1
      → Agreed s (thread_at s w).request (thread_at s w).phase
      → ((j : ℕ) → j < length s.threads → j ≢ w → won (thread_at s j) ≡ 0)
      → Race (step_phase s i p)
  unfolding step_phase compare_exchange store_result publish wake
  by_phase Phase.calling e taken w a wins agrees others = rw taken (
      loser_moves s _ i (Phase.returned false) inside refl taken w ne refl a wins agrees taken
        others)
    where
      ne : i ≢ w
      ne same =
          let z : won (thread_at s i) ≡ 0 = rw e refl in
          absurd (omega (arith, subst (λ k. won (thread_at s k) ≡ 0) same z))
  by_phase (Phase.returned r) e taken w a wins agrees others =
      Race.decided taken w a wins agrees others
  by_phase Phase.storing e taken w a wins agrees others = elim (ℕ_discrete i w) [
    | no ne ↦
        let z : won (thread_at s i) ≡ 1 = rw e refl in absurd (omega (arith, others i inside ne))
    | yes same ↦
        let at =
          subst (λ k. Agreed s (thread_at s k).request (thread_at s k).phase) (sym same) agrees in
        let (st, _, _, h, k) = rw e at at in
        let r = (thread_at s i).request in
        winner_moves s _ i Phase.publishing inside refl taken refl
          (st, refl, refl, ap (λ t. if r.fails then t else r.heap) h, k)
          (subst (λ k. (j : ℕ) → j < length s.threads → j ≢ k → won (thread_at s j) ≡ 0) (sym same)
            others)
  ]
  by_phase Phase.publishing e taken w a wins agrees others = elim (ℕ_discrete i w) [
    | no ne ↦
        let z : won (thread_at s i) ≡ 1 = rw e refl in absurd (omega (arith, others i inside ne))
    | yes same ↦
        let at =
          subst (λ k. Agreed s (thread_at s k).request (thread_at s k).phase) (sym same) agrees in
        let (_, b, c, h, k) = rw e at at in
        winner_moves s _ i Phase.waking inside refl (final_taken (thread_at s i).request) refl
          (refl, b, c, h, k)
          (subst (λ k. (j : ℕ) → j < length s.threads → j ≢ k → won (thread_at s j) ≡ 0) (sym same)
            others)
  ]
  by_phase Phase.waking e taken w a wins agrees others = elim (ℕ_discrete i w) [
    | no ne ↦
        let z : won (thread_at s i) ≡ 1 = rw e refl in absurd (omega (arith, others i inside ne))
    | yes same ↦
        let at =
          subst (λ k. Agreed s (thread_at s k).request (thread_at s k).phase) (sym same) agrees in
        let (st, b, c, h, k) = rw e at at in
        winner_moves s _ i (Phase.returned true) inside refl taken refl (st, b, c, h, omega arith)
          (subst (λ k. (j : ℕ) → j < length s.threads → j ≢ k → won (thread_at s j) ≡ 0) (sym same)
            others)
  ]

  pub step-Race : Race s → Race (step s i)
  unfolding step step_phase
  step-Race (Race.unclaimed p a b c d calls) = rw (calls i inside) (first_claim p a b c d calls)
  step-Race (Race.decided taken w a wins agrees others) =
      by_phase (thread_at s i).phase refl taken w a wins agrees others

pub start-Race : (requests : List Request) → Race (start requests)
unfolding start
start-Race requests = Race.unclaimed refl refl refl refl refl (λ i a. all_calling requests i a)
  where
    all_calling :
        (requests : List Request) (i : ℕ)
        → i < length (start requests).threads
        → (thread_at (start requests) i).phase ≡ Phase.calling
    all_calling [] i a = absurd (omega arith)
    all_calling (r ∷ rs) zero a = refl
    all_calling (r ∷ rs) (suc i) a = all_calling rs i (omega arith)

pub run-Race : (schedule : List ℕ) (s : System) → Race s → Race (run s schedule)
unfolding run
run-Race [] s r = r
run-Race (i ∷ schedule) s r = elim (Bool-cases (ltb i (length s.threads))) [
  | inl inside ↦ rw inside (run-Race schedule (step s i) (step-Race s i (ground arith) r))
  | inr past ↦ rw past (run-Race schedule s r)
]

pub start_run-Race :
    (requests : List Request) (schedule : List ℕ) → Race (run (start requests) schedule)
start_run-Race requests schedule = run-Race schedule (start requests) (start-Race requests)
