-- ===== src/Tests/Deque.antt =====
-- The work-stealing deque, src/scheduler/deque.c.
use smalltalk_a_vm.Prelude.{
  ℕ, ◌≡◌, ◌≢◌, refl, ◌∙◌, arith, none, some, [], ◌∷◌, ◌++◌, ◌⊎◌, set, replicate, length-replicate,
  length-set,
}
use smalltalk_a_vm.Scheduler.Deque.{WorkDeque, push, pop, steal, size}
use smalltalk_a_vm.Scheduler.Deque.Items.{IsValid, items}
use smalltalk_a_vm.Scheduler.Deque.Laws.{push-items, pop-items, steal-items}

-- The actors 160 and 320, with the counters about to wrap.
abbrev pair : WorkDeque
pair = record { top = 4294967295; bottom = 1; buf = set (set (replicate 1024 0) 1023 160) 0 320 }

pair-IsValid : IsValid pair
unfolding size
pair-IsValid = record {
  sized =
      length-set {A = ℕ} (set (replicate 1024 0) 1023 160) 0 320
      ∙ length-set {A = ℕ} (replicate 1024 0) 1023 160
      ∙ length-replicate {A = ℕ} 1024 0;
  top_word = omega arith;
  bottom_word = omega arith;
  bounded = omega arith;
}

push-items_example :
    ((size pair ≡ 1024) × (push pair 480 ≡ none))
    ⊎ ((dq' : WorkDeque) × (push pair 480 ≡ some dq')
        × IsValid dq'
        × (items dq' ≡ items pair ++ (480 ∷ [])))
push-items_example = push-items pair 480 pair-IsValid

pop-items_example :
    (((items pair ≡ []) ⊎ (pair.bottom ≡ 0)) × (pop pair ≡ (pair, 0)))
    ⊎ ((dq' : WorkDeque) × (a : ℕ) × (pair.bottom ≢ 0)
        × (pop pair ≡ (dq', a))
        × IsValid dq'
        × (items pair ≡ items dq' ++ (a ∷ [])))
pop-items_example = pop-items pair pair-IsValid

steal-items_example :
    ((items pair ≡ []) × (steal pair ≡ (pair, 0)))
    ⊎ ((dq' : WorkDeque) × (a : ℕ) × (steal pair ≡ (dq', a))
        × IsValid dq'
        × (items pair ≡ a ∷ items dq'))
steal-items_example = steal-items pair pair-IsValid

-- One actor is there, the bottom counter has wrapped to 0, and the owner is told that none is.
abbrev wrapped : WorkDeque
wrapped = record { top = 4294967295; bottom = 0; buf = set (replicate 1024 0) 1023 160 }

wrapped_runs : (size wrapped ≡ 1) × (pop wrapped ≡ (wrapped, 0))
unfolding size pop
wrapped_runs = (refl, refl)
