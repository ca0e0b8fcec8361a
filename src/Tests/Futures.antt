-- ===== src/Tests/Futures.antt =====
-- Futures, src/actor/future.c: a resolve and a fail that race.
use smalltalk_a_vm.Prelude.{
  ℕ, zero, suc, ◌+◌, ◌≤◌, ◌<◌, ◌≡◌, ◌≢◌, refl, arith, true, false, List, [], ◌∷◌, ◌==◌, length, sum,
}
use smalltalk_a_vm.Actor.Future.{
  Request, Phase, Shared, run, start, thread_at, final, heap_of, retain,
}
use smalltalk_a_vm.Actor.Future.Threads.{Returned, occurrences, run-Returned, one_winner}
use smalltalk_a_vm.Actor.Future.Owner.{
  handed, held, stored, frees, buffers_conserved, releases, release_last,
}

abbrev answer : Request
answer = record { fails = false; buf = 160; count = 1; heap = 320 }

abbrev crash : Request
crash = record { fails = true; buf = 480; count = 2; heap = 0 }

abbrev race : List Request
race = answer ∷ crash ∷ []

-- The failure claims the future first.
abbrev schedule : List ℕ
schedule = 1 ∷ 0 ∷ 1 ∷ 0 ∷ 0 ∷ 1 ∷ 0 ∷ 1 ∷ []

often : (i : ℕ) → i < 2 → 4 ≤ occurrences i schedule
often zero a = omega arith
often (suc zero) a = omega arith
often (suc (suc i)) a = absurd (omega arith)

sized : length (start race).threads ≡ 2
unfolding start
sized = refl

all_return : (i : ℕ) → i < length (start race).threads → Returned (run (start race) schedule) i
all_return i a = run-Returned (start race) schedule i a (often i (omega (arith, sized)))

one_winner_example :
    (w : ℕ) × (w < length (start race).threads)
    × ((i : ℕ) → (thread_at (run (start race) schedule) i).phase ≡ Phase.returned (i == w))
    × ((run (start race) schedule).state ≡ final (thread_at (start race) w).request)
    × ((run (start race) schedule).result_buf ≡ (thread_at (start race) w).request.buf)
    × ((run (start race) schedule).result_count ≡ (thread_at (start race) w).request.count)
    × ((run (start race) schedule).transfer_heap ≡ heap_of (thread_at (start race) w).request)
    × ((run (start race) schedule).wakes ≡ 1)
one_winner_example = one_winner race schedule (omega (arith, sized)) all_return

abbrev address : ℕ
address = 160

buffer : address ≢ 0
buffer = omega arith

buffers_conserved_example :
    frees address buffer (run (start race) schedule).freed
      + stored address buffer (run (start race) schedule)
      + sum (held address buffer) (run (start race) schedule).threads
    ≡ sum (handed address buffer) race
buffers_conserved_example = buffers_conserved address buffer race schedule

abbrev shared : Shared
shared = record { refcount = 2; buf = 160; heap = 320; freed = [] }

release_last_example :
    (releases 1 shared ≡ record shared { refcount = 1 })
    × (releases 2 shared ≡ record { refcount = 0; buf = 160; heap = 320; freed = 320 ∷ 160 ∷ [] })
    × (releases 2 (retain shared) ≡ record shared { refcount = 1 })
release_last_example = release_last shared 1 refl (omega arith)
