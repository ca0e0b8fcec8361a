-- ===== src/Actor/Future/Threads.antt =====
-- The calls that race for a future, with `wake_waiter` as one step of its call.
use smalltalk_a_vm.Prelude.{
  ℕ, suc, ◌-◌, ◌≤◌, ◌<◌, ◌≡◌, ◌≢◌, refl, ap, ◌∙◌, subst, arith, Bool, true, false, List, [], ◌∷◌,
  length, length-set, get_or-set_self, get_or-set_ne, ltb, ◌==◌, dec_lt, get_or_past, if◌then◌else◌,
  Bool-cases, inl, inr, ℕ_discrete,
}
use smalltalk_a_vm.Actor.Future.{
  Request, Phase, Thread, System, is_pending, final, heap_of, thread_at, moved, step, step_phase,
  run, start, compare_exchange, store_result, publish, wake,
}
use smalltalk_a_vm.Actor.Future.Race.{Race, changed, won, start_run-Race}

-- The steps that a call still takes at most.
abbrev pub remaining : Phase → ℕ
remaining Phase.calling = 4
remaining Phase.storing = 3
remaining Phase.publishing = 2
remaining Phase.waking = 1
remaining (Phase.returned won) = 0

-- A step changes nothing but the phase of its thread, which comes nearer to its return.
pub record Stepped (s s' : System) (i : ℕ) : Type 0 where
  pub sized : length s'.threads ≡ length s.threads
  pub others : (j : ℕ) → i ≢ j → thread_at s' j ≡ thread_at s j
  pub request : (thread_at s' i).request ≡ (thread_at s i).request
  pub nearer : remaining (thread_at s' i).phase ≤ remaining (thread_at s i).phase - 1

module _ (s : System) (i : ℕ) (inside : i < length s.threads) where
  moved-Stepped :
      (s' : System) (p q : Phase)
      → s'.threads ≡ moved s i q
      → (thread_at s i).phase ≡ p
      → remaining q ≤ remaining p - 1
      → Stepped s s' i
  moved-Stepped s' p q same e less = record {
    sized = rw same (length-set s.threads i (changed s i q));
    others = λ j ne. rw same (get_or-set_ne s.threads i j (changed s i q) _ ne);
    request = ap (λ t. t.request) at;
    nearer = rw (at, e) less;
  }
    where
      at : thread_at s' i ≡ changed s i q
      at = rw same (get_or-set_self s.threads i (changed s i q) _ inside)

  by_phase : (p : Phase) → (thread_at s i).phase ≡ p → Stepped s (step_phase s i p) i
  unfolding step_phase compare_exchange store_result publish wake
  by_phase Phase.calling e = elim (Bool-cases (is_pending s.state)) [
    | inl h ↦ rw h (moved-Stepped _ Phase.calling Phase.storing refl e (omega arith))
    | inr h ↦ rw h (moved-Stepped _ Phase.calling (Phase.returned false) refl e (omega arith))
  ]
  by_phase Phase.storing e = moved-Stepped _ Phase.storing Phase.publishing refl e (omega arith)
  by_phase Phase.publishing e = moved-Stepped _ Phase.publishing Phase.waking refl e (omega arith)
  by_phase Phase.waking e = moved-Stepped _ Phase.waking (Phase.returned true) refl e (omega arith)
  by_phase (Phase.returned b) e = record {
    sized = refl;
    others = λ j ne. refl;
    request = refl;
    nearer = rw e (omega arith);
  }

  pub step-Stepped : Stepped s (step s i) i
  unfolding step
  step-Stepped = by_phase (thread_at s i).phase refl

abbrev pub occurrences : ℕ → List ℕ → ℕ
occurrences i [] = 0
occurrences i (j ∷ js) = if j == i then suc (occurrences i js) else occurrences i js

run_nearer :
    (schedule : List ℕ) (s : System) (i : ℕ)
    → i < length s.threads
    → (remaining (thread_at (run s schedule) i).phase
        ≤ remaining (thread_at s i).phase - occurrences i schedule)
      × ((thread_at (run s schedule) i).request ≡ (thread_at s i).request)
      × (length (run s schedule).threads ≡ length s.threads)
unfolding run
run_nearer [] s i a = (omega arith, refl, refl)
run_nearer (j ∷ schedule) s i a = elim (Bool-cases (ltb j (length s.threads))) [
  | inr past ↦
      let r = run_nearer schedule s i a in
      let other : (j == i) ≡ false = ground arith in rw (past, other, run) r
  | inl inside ↦
      let t = step-Stepped s j (ground arith) in
      let (n, q, l) = run_nearer schedule (step s j) i (omega (arith, t.sized)) in
      elim (ℕ_discrete j i) [
        | yes e ↦
            let here : (j == i) ≡ true = ground arith in
            let near =
              subst
                (λ k.
                  remaining (thread_at (step s j) k).phase ≤ remaining (thread_at s k).phase - 1)
                e t.nearer in
            rw (inside, here, run)
              (
                omega arith,
                q
                    ∙ subst (λ k. (thread_at (step s j) k).request ≡ (thread_at s k).request) e
                        t.request,
                l ∙ t.sized,
              )
        | no ne ↦
            let other : (j == i) ≡ false = ground arith in
            let same = t.others i ne in
            rw (inside, other, run)
              (
                omega (arith, ap (λ t. remaining t.phase) same),
                q ∙ ap (λ t. t.request) same,
                l ∙ t.sized,
              )
      ]
]

abbrev pub Returned : System → ℕ → Type 0
Returned s i = (won : Bool) × ((thread_at s i).phase ≡ Phase.returned won)

done : (t : Thread) → remaining t.phase ≡ 0 → (won : Bool) × (t.phase ≡ Phase.returned won)
done t h = go t.phase h
  where
    go : (p : Phase) → remaining p ≡ 0 → (won : Bool) × (p ≡ Phase.returned won)
    go Phase.calling h = absurd (omega arith)
    go Phase.storing h = absurd (omega arith)
    go Phase.publishing h = absurd (omega arith)
    go Phase.waking h = absurd (omega arith)
    go (Phase.returned b) h = (b, refl)

remaining_bound : (p : Phase) → remaining p ≤ 4
remaining_bound Phase.calling = omega arith
remaining_bound Phase.storing = omega arith
remaining_bound Phase.publishing = omega arith
remaining_bound Phase.waking = omega arith
remaining_bound (Phase.returned b) = omega arith

-- A call has returned once it has been run four times, where `wake_waiter` counts as one step.
pub run-Returned :
    (s : System) (schedule : List ℕ) (i : ℕ)
    → i < length s.threads
    → 4 ≤ occurrences i schedule
    → Returned (run s schedule) i
run-Returned s schedule i a often =
    done (thread_at (run s schedule) i)
      (omega (arith, run_nearer schedule s i a, remaining_bound (thread_at s i).phase))

-- When calls of resolve and fail on a pending future have all returned, in whatever order their
-- atomic operations ran, exactly one was answered true, the future is resolved or failed as that
-- call asked, holds its buffer, count and transfer heap, and its waiter was woken once.
pub one_winner :
    (requests : List Request) (schedule : List ℕ)
    → 0 < length (start requests).threads
    → ((i : ℕ) → i < length (start requests).threads → Returned (run (start requests) schedule) i)
    → (w : ℕ) × (w < length (start requests).threads)
      × ((i : ℕ) → (thread_at (run (start requests) schedule) i).phase ≡ Phase.returned (i == w))
      × ((run (start requests) schedule).state ≡ final (thread_at (start requests) w).request)
      × ((run (start requests) schedule).result_buf ≡ (thread_at (start requests) w).request.buf)
      × ((run (start requests) schedule).result_count
          ≡ (thread_at (start requests) w).request.count)
      × ((run (start requests) schedule).transfer_heap
          ≡ heap_of (thread_at (start requests) w).request)
      × ((run (start requests) schedule).wakes ≡ 1)
one_winner requests schedule some_call all = elim (start_run-Race requests schedule) [
  | Race.unclaimed p a b c d calls ↦
      let (won, e) = all 0 some_call in
      let z = calls 0 (omega (arith, kept 0 some_call)) in
      let four : remaining (thread_at (run (start requests) schedule) 0).phase ≡ 4 =
        ap remaining z in
      let none : remaining (thread_at (run (start requests) schedule) 0).phase ≡ 0 =
        ap remaining e in
      absurd (omega arith)
  | Race.decided taken w a wins agrees others ↦
      let inside : w < length (start requests).threads = omega (arith, kept 0 some_call) in
      let e = winner_phase w inside wins in
      let (st, buf, count, heap, wakes) = rw e at agrees in
      let same : (thread_at (run (start requests) schedule) w).request
          ≡ (thread_at (start requests) w).request =
        (kept w inside).1 in
      (
        w,
        inside,
        λ i. elim (Bool-cases (i == w)) [
          | inl y ↦ let same : i ≡ w = ground arith in rw (y, same) e
          | inr n ↦ elim (dec_lt i (length (start requests).threads)) [
            | yes b ↦
                rw n (loser_phase i b (others i (omega (arith, kept 0 some_call)) (ground arith)))
            | no b ↦ rw n (
                ap (λ t. t.phase)
                  (get_or_past (run (start requests) schedule).threads i _
                    (omega (arith, kept 0 some_call))))
          ]
        ],
        st ∙ ap final same,
        buf ∙ ap (λ r. r.buf) same,
        count ∙ ap (λ r. r.count) same,
        heap ∙ ap heap_of same,
        wakes,
      )
]
  where
    s : System
    s = run (start requests) schedule

    kept :
        (i : ℕ)
        → i < length (start requests).threads
        → (remaining (thread_at s i).phase
            ≤ remaining (thread_at (start requests) i).phase - occurrences i schedule)
          × ((thread_at s i).request ≡ (thread_at (start requests) i).request)
          × (length s.threads ≡ length (start requests).threads)
    kept i a = run_nearer schedule (start requests) i a

    winner_phase :
        (w : ℕ)
        → w < length (start requests).threads
        → won (thread_at s w) ≡ 1
        → (thread_at s w).phase ≡ Phase.returned true
    winner_phase w a wins =
        let (b, e) = all w a in
        let wins' = rw e at wins in
        elim (Bool-cases b) [ inl t ↦ e ∙ ap Phase.returned t | inr f ↦ absurd (ground arith) ]

    loser_phase :
        (i : ℕ)
        → i < length (start requests).threads
        → won (thread_at s i) ≡ 0
        → (thread_at s i).phase ≡ Phase.returned false
    loser_phase i a loses =
        let (b, e) = all i a in
        let loses' = rw e at loses in
        elim (Bool-cases b) [ inl t ↦ absurd (ground arith) | inr f ↦ e ∙ ap Phase.returned f ]
