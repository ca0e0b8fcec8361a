-- ===== src/Actor/Future/Owner.antt =====
-- Who owns the buffers and transfer heaps that the calls were given.
use smalltalk_a_vm.Prelude.{
  ℕ, zero, suc, ◌+◌, ◌^◌, ◌≤◌, ◌<◌, ◌≡◌, ◌≢◌, refl, sym, ap, ◌∙◌, subst, arith, true, false, List,
  [], ◌∷◌, length, ltb, ◌==◌, Bool-cases, inl, inr, bit, sum, sum-set, ℕ_discrete,
}
use smalltalk_a_vm.Actor.Future.{
  Request, Phase, Thread, System, Shared, is_pending, heap_of, thread_at, moved, step, step_phase,
  free, run, start, compare_exchange, store_result, publish, wake, retain, release,
}
use smalltalk_a_vm.Actor.Future.Race.{Race, Agreed, changed, won, step-Race, start-Race}

module _ (x : ℕ) (real : x ≢ 0) where
  -- How often `x` was handed to a call.
  abbrev pub handed : Request → ℕ
  handed r = bit (r.buf == x) + bit (heap_of r == x)

  abbrev pub held_phase : Phase → Request → ℕ
  held_phase Phase.calling r = handed r
  held_phase Phase.storing r = handed r
  held_phase _ r = 0

  -- How often a call still holds it, the future holds it, and it has been freed.
  abbrev pub held : Thread → ℕ
  held t = held_phase t.phase t.request

  abbrev pub stored : System → ℕ
  stored s = bit (s.result_buf == x) + bit (s.transfer_heap == x)

  abbrev pub frees : List ℕ → ℕ
  frees [] = 0
  frees (p ∷ ps) = bit (p == x) + frees ps

  frees-free : (p : ℕ) (freed : List ℕ) → frees (free p freed) ≡ bit (p == x) + frees freed
  frees-free p freed = ground arith

  abbrev pub total : System → ℕ
  total s = frees s.freed + stored s + sum held s.threads

  module _ (s : System) (i : ℕ) (inside : i < length s.threads) where
    held-moved :
        (p q : Phase)
        → (thread_at s i).phase ≡ p
        → sum held (moved s i q) + held_phase p (thread_at s i).request
          ≡ sum held s.threads + held_phase q (thread_at s i).request
    held-moved p q e =
        subst
          (λ h.
            sum held (moved s i q) + held_phase h (thread_at s i).request
            ≡ sum held s.threads + held_phase q (thread_at s i).request)
          e (sum-set held s.threads i (changed s i q) _ inside)

    by_phase : (p : Phase) → (thread_at s i).phase ≡ p → Race s → total (step_phase s i p) ≡ total s
    unfolding step_phase compare_exchange store_result publish wake
    by_phase Phase.calling e race = elim (Bool-cases (is_pending s.state)) [
      | inl h ↦ rw h (omega (arith, held-moved Phase.calling Phase.storing e))
      | inr h ↦ rw h (
          omega (
            arith,
            held-moved Phase.calling (Phase.returned false) e,
            frees-free (heap_of (thread_at s i).request) (free (thread_at s i).request.buf s.freed),
            frees-free (thread_at s i).request.buf s.freed,
          ))
    ]
    by_phase Phase.storing e race =
        let (b, h) = vacant race in
        let buf : (s.result_buf == x) ≡ false = ground arith in
        let heap : (s.transfer_heap == x) ≡ false = ground arith in
        rw (buf, heap, h) (omega (arith, held-moved Phase.storing Phase.publishing e))
      where
        vacant : Race s → (s.result_buf ≡ 0) × (s.transfer_heap ≡ 0)
        vacant (Race.unclaimed p a b c d calls) = (a, c)
        vacant (Race.decided taken w a wins agrees others) = elim (ℕ_discrete i w) [
          | no ne ↦
              let z : won (thread_at s i) ≡ 1 = rw e refl in
              absurd (omega (arith, others i inside ne))
          | yes same ↦
              let at =
                subst (λ k. Agreed s (thread_at s k).request (thread_at s k).phase) (sym same)
                  agrees in
              let (_, b, _, h, _) = rw e at at in (b, h)
        ]
    by_phase Phase.publishing e race = omega (arith, held-moved Phase.publishing Phase.waking e)
    by_phase Phase.waking e race = omega (arith, held-moved Phase.waking (Phase.returned true) e)
    by_phase (Phase.returned b) e race = refl

  run-total : (schedule : List ℕ) (s : System) → Race s → total (run s schedule) ≡ total s
  unfolding run step
  run-total [] s race = refl
  run-total (i ∷ schedule) s race = elim (Bool-cases (ltb i (length s.threads))) [
    | inl inside ↦
        rw (inside, run)
          (run-total schedule (step s i) (step-Race s i (ground arith) race)
            ∙ by_phase s i (ground arith) (thread_at s i).phase refl race)
    | inr past ↦ rw (past, run) (run-total schedule s race)
  ]

  start-total : (requests : List Request) → total (start requests) ≡ sum handed requests
  unfolding start
  start-total requests =
      let none : (0 == x) ≡ false = ground arith in rw none (omega (arith, go requests))
    where
      go : (requests : List Request) → sum held (start requests).threads ≡ sum handed requests
      go [] = refl
      go (r ∷ rs) = ap (λ n. handed r + n) (go rs)

  -- Every buffer and transfer heap that is handed to racing calls of resolve and fail is at each
  -- moment freed, held by the future or held by a call that has yet to return, as often as it was
  -- handed over: nothing is freed twice and nothing leaks. NULL is left aside.
  pub buffers_conserved :
      (requests : List Request) (schedule : List ℕ)
      → frees (run (start requests) schedule).freed
          + stored (run (start requests) schedule)
          + sum held (run (start requests) schedule).threads
        ≡ sum handed requests
  buffers_conserved requests schedule =
      run-total schedule (start requests) (start-Race requests) ∙ start-total requests

-- `n` references are given up.
abbrev pub releases : ℕ → Shared → Shared
releases zero f = f
releases (suc n) f = releases n (release f)

release_kept :
    (f : Shared) (k : ℕ)
    → f.refcount ≡ k + 1
    → 1 ≤ k
    → k + 1 < 2 ^ 32
    → release f ≡ record f { refcount = k }
unfolding release
release_kept f k e many small =
    let more : (f.refcount == 1) ≡ false = ground arith in
    rw more (ap (λ n. record f { refcount = n }) (omega arith))

releases_kept :
    (n : ℕ) (f : Shared) (m : ℕ)
    → f.refcount ≡ m + n
    → 1 ≤ m
    → m + n < 2 ^ 32
    → releases n f ≡ record f { refcount = m }
releases_kept zero f m e many small = ap (λ n. record f { refcount = n }) (omega arith)
releases_kept (suc n) f m e many small =
    ap (releases n) (release_kept f (m + n) (omega arith) (omega arith) (omega arith))
    ∙ releases_kept n (record f { refcount = m + n }) m refl many (omega arith)

releases-suc : (n : ℕ) (f : Shared) → releases (n + 1) f ≡ release (releases n f)
releases-suc zero f = refl
releases-suc (suc n) f =
    let e : suc n + 1 ≡ suc (n + 1) = omega arith in
    ap (λ k. releases k f) e ∙ releases-suc n (release f)

-- A future with `n + 1` references frees nothing while `n` of them are given up, and its buffer and
-- transfer heap when the last one is; with another reference taken before, it outlives them all.
pub release_last :
    (f : Shared) (n : ℕ)
    → f.refcount ≡ n + 1
    → n + 2 < 2 ^ 32
    → (releases n f ≡ record f { refcount = 1 })
      × (releases (n + 1) f ≡ record f { refcount = 0; freed = free f.heap (free f.buf f.freed) })
      × (releases (n + 1) (retain f) ≡ record f { refcount = 1 })
unfolding release retain
release_last f n e small = (
  kept,
  releases-suc n f ∙ ap release kept,
  releases_kept (n + 1) (retain f) 1 (omega arith) (omega arith) (omega arith),
)
  where
    kept : releases n f ≡ record f { refcount = 1 }
    kept = releases_kept n f 1 (omega arith) (omega arith) (omega arith)
