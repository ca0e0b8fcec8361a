-- ===== src/Tests/Mailboxes.antt =====
-- The mailbox, src/actor/mailbox.c: runs of several threads in a given order.
use smalltalk_a_vm.Prelude.{
  take, ℕ, zero, suc, ◌+◌, ◌≤◌, ◌<◌, ◌≡◌, refl, arith, Bool, true, false, some, List, [], ◌∷◌, ◌++◌,
  length, get_or, ◌⊎◌, dec_lt,
}
use smalltalk_a_vm.Actor.Mailbox.{
  Answer, Phase, Owner, System, Reach, here, next, call, enqueue, dequeue, start, enqueue_step,
  dequeue_step, run_dequeue, walk, destroy,
}
use smalltalk_a_vm.Actor.Mailbox.Laws.{received_in_order, pending_bound}
use smalltalk_a_vm.Actor.Mailbox.Dequeue.{Quiet, dequeue_oldest}
use smalltalk_a_vm.Actor.Mailbox.Walk.{Proper, walk-destroy}

data Event : Type 0 where
  send : (i msg : ℕ) → Event
  produce : (i p : ℕ) → Event
  consume : Event

record Played (n capacity : ℕ) : Type 0 where
  last : System
  reach : Reach n capacity last

-- An event that cannot happen is left out.
begin :
    {n capacity : ℕ} (r : Played n capacity) (i msg : ℕ)
    → i < n
    → (q : Phase) → r.last.phase i ≡ q
    → Played n capacity
begin r i msg a (Phase.returned answer) e = record {
  last = _;
  reach = next r.reach (call i msg answer a e);
}
begin r i msg a _ e = r

progress :
    {n capacity : ℕ} (r : Played n capacity) (i p : ℕ)
    → i < n
    → (used : Bool) → r.last.memory.live p ≡ used
    → Played n capacity
progress r i p a true e = r
progress r i p a false e = record {
  last = enqueue_step r.last i p;
  reach = next r.reach (enqueue i p a e);
}

turn : {n capacity : ℕ} → Played n capacity → Event → Played n capacity
unfolding begin progress dec_lt
turn {n} r (send i msg) = elim (dec_lt i n) [
  | yes a ↦ begin r i msg a (r.last.phase i) refl
  | no _ ↦ r
]
turn {n} r (produce i p) = elim (dec_lt i n) [
  | yes a ↦ progress r i p a (r.last.memory.live p) refl
  | no _ ↦ r
]
turn r consume = record { last = dequeue_step r.last; reach = next r.reach dequeue }

play : {n capacity : ℕ} → Played n capacity → List Event → Played n capacity
unfolding turn
play r [] = r
play r (e ∷ es) = play (turn r e) es

run : (n capacity : ℕ) → List Event → Played n capacity
unfolding play
run n capacity = play (record { last = start capacity; reach = here })

-- Threads 0 and 1 send 7 and 8 to a mailbox of capacity 2; thread 1 links its node first. Thread 2
-- finds it full, and the owner has taken 7.
abbrev crowded : Played 3 2
crowded = run 3 2 (
    send 0 7
    ∷ send 1 8
    ∷ send 2 9
    ∷ produce 0 5
    ∷ produce 1 6
    ∷ produce 0 0
    ∷ produce 1 0
    ∷ produce 0 0
    ∷ produce 1 0
    ∷ produce 1 0
    ∷ consume
    ∷ produce 2 4
    ∷ produce 2 0
    ∷ produce 2 0
    ∷ produce 0 0
    ∷ consume
    ∷ consume
    ∷ [])

crowded_runs :
    (crowded.last.phase 0 ≡ Phase.returned Answer.ok)
    × (crowded.last.phase 2 ≡ Phase.returned Answer.full)
    × (crowded.last.sent ≡ 7 ∷ 8 ∷ [])
    × (crowded.last.received ≡ 7 ∷ [])
    × (crowded.last.owner ≡ Owner.idle 7)
    × (crowded.last.box.count ≡ 1)
unfolding run start enqueue_step dequeue_step
crowded_runs = (refl, refl, refl, refl, refl, refl)

received_in_order_example :
    (crowded.last.memory.fault ≡ false)
    × (length crowded.last.received ≤ length crowded.last.sent)
    × (crowded.last.received ≡ take (length crowded.last.received) crowded.last.sent)
received_in_order_example = received_in_order (omega arith) crowded.reach

pending_bound_example : length crowded.last.sent ≤ length crowded.last.received + 2
pending_bound_example = pending_bound (omega arith) (omega arith) crowded.reach

crowded-Quiet : Quiet crowded.last
unfolding run start enqueue_step dequeue_step
crowded-Quiet zero a b e = cc
crowded-Quiet (suc zero) a b e = cc
crowded-Quiet (suc (suc zero)) a b e = cc
crowded-Quiet (suc (suc (suc i))) a b e = ground arith

dequeue_oldest_example :
    ((length crowded.last.received < length crowded.last.sent)
      × ((run_dequeue crowded.last).owner
          ≡ Owner.idle (get_or crowded.last.sent (length crowded.last.received) 0))
      × ((run_dequeue crowded.last).received
          ≡ crowded.last.received
            ++ get_or crowded.last.sent (length crowded.last.received) 0 ∷ []))
    ⊎ ((length crowded.last.received ≡ length crowded.last.sent)
        × ((run_dequeue crowded.last).owner ≡ Owner.idle 0)
        × ((run_dequeue crowded.last).received ≡ crowded.last.received))
unfolding run start enqueue_step dequeue_step
dequeue_oldest_example = dequeue_oldest 7 (omega arith) crowded.reach crowded-Quiet refl

crowded-Proper : Proper crowded.last
unfolding run start enqueue_step dequeue_step
crowded-Proper zero a = omega arith
crowded-Proper (suc zero) a = omega arith
crowded-Proper (suc (suc k)) a = absurd (omega arith)

walk-destroy_example :
    (pending : List ℕ) × (walk 3 crowded.last ≡ some pending)
    × (crowded.last.sent ≡ crowded.last.received ++ pending)
    × ((destroy 3 crowded.last).received ≡ crowded.last.received ++ pending)
    × ((destroy 3 crowded.last).memory.fault ≡ false)
unfolding run start enqueue_step dequeue_step
walk-destroy_example =
    walk-destroy 3 7 (omega arith) crowded.reach crowded-Quiet refl crowded-Proper (omega arith)
