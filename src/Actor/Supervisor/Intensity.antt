-- ===== src/Actor/Supervisor/Intensity.antt =====
-- The restart intensity: how many restarts a supervisor allows in one window.
use native.Mathlib.Nat.{mod-eq_of_lt}
use smalltalk_a_vm.Prelude.{
  ℕ, suc, ◌+◌, ◌-◌, ◌*◌, ◌%◌, ◌^◌, ◌≤◌, ◌<◌, ◌≡◌, ◌≢◌, refl, ap, ◌∙◌, arith, true, false, Option,
  none, some, List, [], ◌∷◌, length, ltb, ◌==◌, if◌then◌else◌, inl, inr, Bool-cases,
}
use smalltalk_a_vm.Actor.Supervisor.{SupervisorData, count_restart, exceeded}

-- The restarts that are asked for at the given times, while they are allowed.
abbrev pub restarts : SupervisorData → List ℕ → Option SupervisorData
restarts d [] = some d
restarts d (t ∷ ts) = if exceeded (count_restart d t) then none else restarts (count_restart d t) ts

-- All the times are in the window that opened at `start`.
abbrev pub InWindow : ℕ → ℕ → List ℕ → Type 0
InWindow start seconds [] = Unit
InWindow start seconds (t ∷ ts) =
    (start ≤ t) × (t ≤ start + seconds * 1000000000) × (t < 2 ^ 64) × InWindow start seconds ts

count_later :
    (d : SupervisorData) (t : ℕ)
    → d.restart_count ≢ 0
    → d.restart_count + 1 < 2 ^ 32
    → d.window_start_ns ≤ t
    → t ≤ d.window_start_ns + d.max_seconds * 1000000000
    → t < 2 ^ 64
    → count_restart d t ≡ record d { restart_count = d.restart_count + 1 }
unfolding count_restart
count_later d t some_before few a b c =
    let later : (d.restart_count == 0) ≡ false = ground arith in
    let elapsed : (t + (2 ^ 64 - d.window_start_ns)) % 2 ^ 64 ≡ t - d.window_start_ns =
      omega arith in
    let inside : ltb (d.max_seconds * 1000000000) (t - d.window_start_ns) ≡ false = ground arith in
    rw (later, elapsed, inside) (ap (λ n. record d { restart_count = n }) (mod-eq_of_lt few))

count_first :
    (d : SupervisorData) (t : ℕ)
    → d.restart_count ≡ 0
    → t < 2 ^ 64
    → count_restart d t ≡ record d { restart_count = 1; window_start_ns = t }
unfolding count_restart
count_first d t fresh c =
    let first : (d.restart_count == 0) ≡ true = ground arith in
    let elapsed : (t + (2 ^ 64 - t)) % 2 ^ 64 ≡ 0 = omega arith in
    let inside : ltb (d.max_seconds * 1000000000) 0 ≡ false = ground arith in
    rw (first, elapsed, inside)
      (ap (λ n. record d { restart_count = (n + 1) % 2 ^ 32; window_start_ns = t }) fresh)

later_restarts :
    (ts : List ℕ) (d : SupervisorData)
    → d.restart_count ≢ 0
    → d.restart_count ≤ d.max_restarts
    → d.max_restarts < 2 ^ 32 - 1
    → InWindow d.window_start_ns d.max_seconds ts
    → restarts d ts ≡ (
        if ltb d.max_restarts (d.restart_count + length ts)
        then none
        else some (record d { restart_count = d.restart_count + length ts }))
later_restarts [] d some_before ok few w =
    let fits : ltb d.max_restarts (d.restart_count + 0) ≡ false = ground arith in
    rw fits (ap (λ n. some (record d { restart_count = n })) (omega arith))
later_restarts (t ∷ ts) d some_before ok few (a, b, c, w) =
    elim (Bool-cases (ltb d.max_restarts (d.restart_count + 1))) [
      | inl full ↦
          let over : ltb d.max_restarts (d.restart_count + suc (length ts)) ≡ true = ground arith in
          rw (counted, full, over) refl
      | inr room ↦
          let rest =
            later_restarts ts (record d { restart_count = d.restart_count + 1 }) (omega arith)
              (ground arith) few w in
          let sum : d.restart_count + 1 + length ts ≡ d.restart_count + suc (length ts) =
            omega arith in
          rw (counted, room)
            (rest
              ∙ ap
                  (λ n.
                    if ltb d.max_restarts n then none else some (record d { restart_count = n }))
                  sum)
    ]
  where
    counted : count_restart d t ≡ record d { restart_count = d.restart_count + 1 }
    counted = count_later d t some_before (omega arith) a b c

-- From a fresh window, the restarts asked for within `max_seconds` of the first one are all allowed
-- exactly if they are no more than `max_restarts`, and are then counted one by one. `max_restarts`
-- is not the largest 32-bit number, with which the counter would wrap.
pub intensity_bound :
    (d : SupervisorData) (t : ℕ) (ts : List ℕ)
    → d.restart_count ≡ 0
    → d.max_restarts < 2 ^ 32 - 1
    → t < 2 ^ 64
    → InWindow t d.max_seconds ts
    → restarts d (t ∷ ts) ≡ (
        if ltb d.max_restarts (suc (length ts))
        then none
        else some (record d { restart_count = suc (length ts); window_start_ns = t }))
intensity_bound d t ts fresh few c w = elim (Bool-cases (ltb d.max_restarts 1)) [
  | inl full ↦
      let over : ltb d.max_restarts (suc (length ts)) ≡ true = ground arith in
      rw (count_first d t fresh c, full, over) refl
  | inr room ↦
      let one_more : 1 + length ts ≡ suc (length ts) = omega arith in
      rw (count_first d t fresh c, room)
        (later_restarts ts (record d { restart_count = 1; window_start_ns = t }) (omega arith)
            (ground arith) few w
          ∙ ap
              (λ n.
                if ltb d.max_restarts n
                then none
                else some (record d { restart_count = n; window_start_ns = t }))
              one_more)
]

-- A restart that is asked for after the open window has passed opens a new window at its time and is
-- the first one in it, so it is allowed unless no restart ever is.
pub window-reset :
    (d : SupervisorData) (t : ℕ)
    → d.restart_count ≢ 0
    → d.window_start_ns + d.max_seconds * 1000000000 < t
    → t < 2 ^ 64
    → (count_restart d t ≡ record d { restart_count = 1; window_start_ns = t })
      × (exceeded (count_restart d t) ≡ (d.max_restarts == 0))
unfolding count_restart
window-reset d t some_before past c =
    let later : (d.restart_count == 0) ≡ false = ground arith in
    let elapsed : (t + (2 ^ 64 - d.window_start_ns)) % 2 ^ 64 ≡ t - d.window_start_ns =
      omega arith in
    let outside : ltb (d.max_seconds * 1000000000) (t - d.window_start_ns) ≡ true = ground arith in
    rw (later, elapsed, outside) (refl, ground arith)
