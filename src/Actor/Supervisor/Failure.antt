-- ===== src/Actor/Supervisor/Failure.antt =====
-- `sta_supervisor_handle_failure`: what becomes of the failed actor.
use smalltalk_a_vm.Prelude.{
  Bool, ◌⊎◌, ◌&&◌, ℕ, ◌%◌, ◌^◌, ◌≤◌, ◌<◌, ◌≡◌, ◌≢◌, refl, sym, ◌∙◌, subst, arith, true, false, not,
  ◌||◌, some, List, ◌∷◌, length, get_or, ltb, ◌==◌, if◌then◌else◌, inl, inr, Bool-cases, sum,
  sum_at,
}
use smalltalk_a_vm.Vm.Oop.{is_smallint, smallint_val}
use smalltalk_a_vm.Actor.Supervisor.{
  RestartStrategy, ChildSpec, Supervisor, Effect, no_child, find_child_by_id,
  terminate_all_children, escalate_to_parent, count_restart, exceeded, check_intensity,
  replace_actor, handle_child, handle_failure,
}
use smalltalk_a_vm.Actor.Supervisor.Children.{
  child_at, with_id, IsValid, Retired, Retires, find_child_sound, escalate_keeps, replaced, emptied,
  all_vacated, counted_children,
}

-- `check_intensity` where the intensity is exceeded, and where it is not.
over_result :
    (s : Supervisor) (current later reason : ℕ)
    → exceeded (count_restart s.sup_data current) ≡ true
    → s.is_root ≡ false
    → check_intensity s current later reason ≡ (
      record (escalate_to_parent
          (terminate_all_children (record s { sup_data = count_restart s.sup_data current }))
          reason) { is_terminated = true },
      false,
    )
unfolding check_intensity
over_result s current later reason over worker = rw (over, worker) refl

room_result :
    (s : Supervisor) (current later reason : ℕ)
    → exceeded (count_restart s.sup_data current) ≡ false
    → check_intensity s current later reason
      ≡ (record s { sup_data = count_restart s.sup_data current }, true)
unfolding check_intensity
room_result s current later reason room = rw room refl

-- The root supervisor does not restart a child once its intensity is exceeded.
abbrev pub is_spared : Supervisor → RestartStrategy → ℕ → Bool
is_spared s RestartStrategy.restart current =
    s.is_root && exceeded (count_restart s.sup_data current)
is_spared s RestartStrategy.stop current = false
is_spared s RestartStrategy.escalate current = false

-- The children are as they were, the window starts anew, and two crash events are fired.
pub record Spared (s : Supervisor) (later : ℕ) (s' : Supervisor) : Type 0 where
  pub kept : s'.sup_data.children ≡ s.sup_data.children
  pub reset : s'.sup_data.restart_count ≡ 0
  pub opened : s'.sup_data.window_start_ns ≡ later
  pub fired : s'.effects ≡ Effect.crash_event ∷ Effect.crash_event ∷ s.effects
  pub alive : s'.is_terminated ≡ s.is_terminated

root_result :
    (s : Supervisor) (i current later reason intensity_reason : ℕ) (created : ℕ × ℕ)
    → s.is_root ≡ true
    → exceeded (count_restart s.sup_data current) ≡ true
    → Spared s later
        (handle_child
          (record s { effects = Effect.crash_event ∷ s.effects })
          i
          RestartStrategy.restart
          reason
          current
          later
          intensity_reason
          created).0
unfolding handle_child check_intensity
root_result s i current later reason intensity_reason created root over =
    rw (over, root)
      (record {
        kept = counted_children s.sup_data current;
        reset = refl;
        opened = refl;
        fired = refl;
        alive = refl;
      })

module _ (s : Supervisor) (i : ℕ) (v : IsValid s.sup_data.children)
    (inside : i < length s.sup_data.children) (real : (child_at s i).current_actor_id ≢ 0) where
  restarted :
      (reason current later intensity_reason actor id : ℕ)
      → sum (with_id id) s.sup_data.children ≡ 0
      → is_spared s RestartStrategy.restart current ≡ false
      → Retires s i
          (handle_child s i RestartStrategy.restart reason current later intensity_reason
            (actor, id)).0
  unfolding handle_child
  restarted reason current later intensity_reason actor id fresh not_root =
      elim (Bool-cases (exceeded (count_restart s.sup_data current))) [
        | inl over ↦ rw (over_result s current later intensity_reason over (ground arith)) (
            back (
              escalate_keeps (child_at counted i) (terminate_all_children counted) intensity_reason
                (all_vacated counted i valid inside' real')))
        | inr room ↦ rw (room_result s current later intensity_reason room) (
            back (
              replaced counted i valid inside' real' actor (if actor == 0 then 0 else id)
                (λ z. ground arith) other unused))
      ]
    where
      counted : Supervisor
      counted = record s { sup_data = count_restart s.sup_data current }

      same : counted.sup_data.children ≡ s.sup_data.children
      same = counted_children s.sup_data current

      valid : IsValid counted.sup_data.children
      valid = subst IsValid (sym same) v

      inside' : i < length counted.sup_data.children
      inside' = subst (λ cs. i < length cs) (sym same) inside

      real' : (child_at counted i).current_actor_id ≢ 0
      real' = subst (λ cs. (get_or cs i no_child).current_actor_id ≢ 0) (sym same) real

      fresh' : sum (with_id id) counted.sup_data.children ≡ 0
      fresh' = subst (λ cs. sum (with_id id) cs ≡ 0) (sym same) fresh

      other : (if actor == 0 then 0 else id) ≢ (child_at counted i).current_actor_id
      other = elim (Bool-cases (actor == 0)) [
        | inl e ↦ rw e (λ z. real' (sym z))
        | inr e ↦ rw e (λ z.
            let at = sum_at (with_id id) counted.sup_data.children i no_child inside' in
            let hit : ((child_at counted i).current_actor_id == id) ≡ true = ground arith in
            let one : with_id id (child_at counted i) ≡ 1 = rw hit refl in
            let nothing = fresh' in absurd (omega arith))
      ]

      unused :
          (if actor == 0 then 0 else id) ≢ 0
          → sum (with_id (if actor == 0 then 0 else id)) counted.sup_data.children ≡ 0
      unused = elim (Bool-cases (actor == 0)) [
        | inl e ↦ rw e (λ n. absurd (n refl))
        | inr e ↦ rw e (λ n. fresh')
      ]

      back :
          {cs : List ChildSpec} {es : List Effect}
          → Retired (child_at counted i) cs es
          → Retired (child_at s i) cs es
      back {cs} {es} r = subst (λ old. Retired (get_or old i no_child) cs es) same r

  handled :
      (strategy : RestartStrategy) (reason current later intensity_reason actor id : ℕ)
      → sum (with_id id) s.sup_data.children ≡ 0
      → is_spared s strategy current ≡ false
      → Retires s i (handle_child s i strategy reason current later intensity_reason (actor, id)).0
  unfolding handle_child
  handled RestartStrategy.restart reason current later intensity_reason actor id fresh not_root =
      restarted reason current later intensity_reason actor id fresh not_root
  handled RestartStrategy.stop reason current later intensity_reason actor id fresh not_root =
      emptied s i v inside real
  handled RestartStrategy.escalate reason current later intensity_reason actor id fresh not_root =
      escalate_keeps (child_at s i) (replace_actor s i 0 0) reason (emptied s i v inside real)

-- Either the failed actor is done with, or the root supervisor has spared it.
abbrev pub Outcome : Supervisor → ℕ → RestartStrategy → ℕ → ℕ → Supervisor → Type 0
Outcome s i strategy current later s' =
    ((is_spared s strategy current ≡ false) × Retires s i s')
    ⊎ ((is_spared s strategy current ≡ true) × Spared s later s')

module _ (s : Supervisor) (i : ℕ) (v : IsValid s.sup_data.children)
    (inside : i < length s.sup_data.children) (real : (child_at s i).current_actor_id ≢ 0)
    (reason current later intensity_reason actor id : ℕ)
    (fresh : sum (with_id id) s.sup_data.children ≡ 0) where
  abbrev crashed : Supervisor
  crashed = record s { effects = Effect.crash_event ∷ s.effects }

  spares :
      (strategy : RestartStrategy)
      → s.is_root ≡ true
      → is_spared s strategy current ≡ true
      → Spared s later
          (handle_child crashed i strategy reason current later intensity_reason (actor, id)).0
  spares RestartStrategy.restart root h =
      root_result s i current later reason intensity_reason (actor, id) root (ground arith)
  spares RestartStrategy.stop root h = absurd (cc)
  spares RestartStrategy.escalate root h = absurd (cc)

  never : (strategy : RestartStrategy) → s.is_root ≡ false → is_spared s strategy current ≡ false
  never RestartStrategy.restart worker = ground arith
  never RestartStrategy.stop worker = refl
  never RestartStrategy.escalate worker = refl

  worker_Outcome :
      (strategy : RestartStrategy)
      → s.is_root ≡ false
      → Outcome s i strategy current later
          (handle_child s i strategy reason current later intensity_reason (actor, id)).0
  worker_Outcome strategy worker =
      let calm = never strategy worker in
      inl (
        calm,
        handled s i v inside real strategy reason current later intensity_reason actor id fresh
            calm,
      )

  same_test :
      (strategy : RestartStrategy)
      → is_spared crashed strategy current ≡ is_spared s strategy current
  same_test RestartStrategy.restart = refl
  same_test RestartStrategy.stop = refl
  same_test RestartStrategy.escalate = refl

  root_Outcome :
      (strategy : RestartStrategy)
      → s.is_root ≡ true
      → Outcome s i strategy current later
          (handle_child crashed i strategy reason current later intensity_reason (actor, id)).0
  root_Outcome strategy root = elim (Bool-cases (is_spared s strategy current)) [
    | inl h ↦ inr (h, spares strategy root h)
    | inr h ↦ inl (
      h,
      handled crashed i v inside real strategy reason current later intensity_reason actor id fresh
          (same_test strategy ∙ h),
    )
  ]

-- When a supervisor handles the failure of one of its children, then under every strategy, and also
-- where another supervisor than the root finds the restart intensity exceeded, the failed actor is
-- terminated and no child is known by its id any more, living children still have different ids and
-- empty slots none. Only where the root supervisor finds the intensity exceeded on a restart does
-- the failed actor stay: the children are as they were, and the window of restarts starts anew. The
-- id of the actor that replaces the failed one is not in use.
pub failure-Retires :
    (s : Supervisor) (args : List ℕ) (i current later intensity_reason actor id : ℕ)
    → IsValid s.sup_data.children
    → 2 ≤ length args
    → is_smallint (get_or args 0 0) ≡ true
    → smallint_val (get_or args 0 0) % 2 ^ 32 ≢ 0
    → find_child_by_id s.sup_data.children (smallint_val (get_or args 0 0) % 2 ^ 32) ≡ some i
    → sum (with_id id) s.sup_data.children ≡ 0
    → Outcome s i
        (child_at s i).strategy
        current
        later
        (handle_failure s args current later intensity_reason (actor, id)).0
unfolding handle_failure
failure-Retires s args i current later intensity_reason actor id v enough tagged real found fresh =
    let (inside, here) = find_child_sound s.sup_data.children _ i found in
    let good : (ltb (length args) 2 || not (is_smallint (get_or args 0 0))) ≡ false =
      ground arith in
    let known : (child_at s i).current_actor_id ≢ 0 = λ z. real (sym here ∙ z) in
    rw (good, found)
      (seen_Outcome s.is_root refl
        (worker_Outcome s i v inside known (get_or args 1 0) current later intensity_reason actor id
          fresh (child_at s i).strategy)
        (root_Outcome s i v inside known (get_or args 1 0) current later intensity_reason actor id
          fresh (child_at s i).strategy))
  where
    seen_Outcome :
        (b : Bool)
        → s.is_root ≡ b
        → (s.is_root ≡ false
            → Outcome s i
                (child_at s i).strategy
                current
                later
                (handle_child s i
                  (child_at s i).strategy
                  (get_or args 1 0)
                  current
                  later
                  intensity_reason
                  (actor, id)).0)
        → (s.is_root ≡ true
            → Outcome s i
                (child_at s i).strategy
                current
                later
                (handle_child
                  (record s { effects = Effect.crash_event ∷ s.effects })
                  i
                  (child_at s i).strategy
                  (get_or args 1 0)
                  current
                  later
                  intensity_reason
                  (actor, id)).0)
        → Outcome s i
            (child_at s i).strategy
            current
            later
            (handle_child
              (if b then record s { effects = Effect.crash_event ∷ s.effects } else s)
              i
              (child_at s i).strategy
              (get_or args 1 0)
              current
              later
              intensity_reason
              (actor, id)).0
    seen_Outcome true e worker root = root e
    seen_Outcome false e worker root = worker e
