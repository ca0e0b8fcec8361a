-- ===== src/Actor/Future.antt =====
-- Futures, src/actor/future.c: a result that several threads race to deliver.
-- A system is one future and the calls of `sta_future_resolve` and `sta_future_fail` that run on it
-- concurrently; `step` runs one thread to its next atomic operation, and the call of `wake_waiter` is
-- one step, since it changes nothing of the future. Buffers and transfer heaps are
-- addresses, 0 for NULL, and `freed` lists what has been handed to `free`.
pub mod Race
pub mod Threads
pub mod Owner
use smalltalk_a_vm.Prelude.{
  ℕ, zero, suc, ◌+◌, ◌-◌, ◌%◌, ◌^◌, Bool, true, false, not, ◌||◌, Option, none, some, List, [], ◌∷◌,
  ◌++◌, length, get_or, set, map, ltb, ◌==◌, if◌then◌else◌,
}

pub data FutureState : Type 0 where
  pending : FutureState
  resolved : FutureState
  failed : FutureState
  timed_out : FutureState
  resolving : FutureState
  failing : FutureState

abbrev pub is_pending : FutureState → Bool
is_pending FutureState.pending = true
is_pending _ = false

-- A call of `sta_future_resolve` or of `sta_future_fail`, with its arguments.
pub record Request : Type 0 where
  pub fails : Bool
  pub buf : ℕ
  pub count : ℕ
  pub heap : ℕ

abbrev pub claimed : Request → FutureState
claimed r = if r.fails then FutureState.failing else FutureState.resolving

abbrev pub final : Request → FutureState
final r = if r.fails then FutureState.failed else FutureState.resolved

-- `transfer_heap` is always NULL for failures.
abbrev pub heap_of : Request → ℕ
heap_of r = if r.fails then 0 else r.heap

-- Where a call stands: before its CAS, before the plain stores, before the release store, before
-- `wake_waiter`, or returned.
pub data Phase : Type 0 where
  calling : Phase
  storing : Phase
  publishing : Phase
  waking : Phase
  returned : Bool → Phase

pub record Thread : Type 0 where
  pub request : Request
  pub phase : Phase

pub record System : Type 0 where
  pub state : FutureState
  pub result_buf : ℕ
  pub result_count : ℕ
  pub transfer_heap : ℕ
  pub threads : List Thread
  pub freed : List ℕ
  -- How often `wake_waiter` was called.
  pub wakes : ℕ

-- `free(p)`, nothing for NULL.
abbrev pub free : ℕ → List ℕ → List ℕ
free p freed = if p == 0 then freed else p ∷ freed

abbrev pub thread_at : System → ℕ → Thread
thread_at s i = get_or s.threads i (record {
  request = record { fails = true; buf = 0; count = 0; heap = 0 };
  phase = Phase.returned false;
})

abbrev pub moved : System → ℕ → Phase → List Thread
moved s i phase = set s.threads i (record (thread_at s i) { phase = phase })

-- The CAS: the winner has claimed the future, the loser frees what it was given.
unfoldable pub compare_exchange : System → ℕ → System
compare_exchange s i =
    let r = (thread_at s i).request in
    if is_pending s.state
    then record s { state = claimed r; threads = moved s i Phase.storing }
    else record s {
      threads = moved s i (Phase.returned false);
      freed = free (heap_of r) (free r.buf s.freed);
    }

unfoldable pub store_result : System → ℕ → System
store_result s i =
    let r = (thread_at s i).request in
    record s {
      result_buf = r.buf;
      result_count = r.count;
      transfer_heap = if r.fails then s.transfer_heap else r.heap;
      threads = moved s i Phase.publishing;
    }

unfoldable pub publish : System → ℕ → System
publish s i = record s { state = final (thread_at s i).request; threads = moved s i Phase.waking }

unfoldable pub wake : System → ℕ → System
wake s i = record s { threads = moved s i (Phase.returned true); wakes = s.wakes + 1 }

unfoldable pub step_phase : System → ℕ → Phase → System
step_phase s i Phase.calling = compare_exchange s i
step_phase s i Phase.storing = store_result s i
step_phase s i Phase.publishing = publish s i
step_phase s i Phase.waking = wake s i
step_phase s i (Phase.returned won) = s

-- Thread `i` runs to its next atomic operation.
unfoldable pub step : System → ℕ → System
step s i = step_phase s i (thread_at s i).phase

-- The threads run in the order that the schedule gives.
unfoldable pub run : System → List ℕ → System
run s [] = s
run s (i ∷ schedule) = run (if ltb i (length s.threads) then step s i else s) schedule

unfoldable pub start : List Request → System
start requests = record {
  state = FutureState.pending;
  result_buf = 0;
  result_count = 0;
  transfer_heap = 0;
  threads = map (λ r. record { request = r; phase = Phase.calling }) requests;
  freed = [];
  wakes = 0;
}

-- A call where `f` is NULL returns false and frees what it was given.
unfoldable pub call_null : Request → List ℕ → List ℕ
call_null r freed = free (heap_of r) (free r.buf freed)

-- `sta_future_retain` and `sta_future_release` on the reference count and what the future owns.
pub record Shared : Type 0 where
  pub refcount : ℕ
  pub buf : ℕ
  pub heap : ℕ
  pub freed : List ℕ

unfoldable pub retain : Shared → Shared
retain f = record f { refcount = (f.refcount + 1) % 2 ^ 32 }

unfoldable pub release : Shared → Shared
release f =
    let next = record f { refcount = (f.refcount + (2 ^ 32 - 1)) % 2 ^ 32 } in
    if f.refcount == 1 then record next { freed = free f.heap (free f.buf f.freed) } else next

-- `wake_waiter`: the state of the actor that waits, where the registry knows it, and whether the
-- scheduler gets it.
pub data ActorState : Type 0 where
  created : ActorState
  ready : ActorState
  running : ActorState
  suspended : ActorState
  terminated : ActorState

unfoldable pub wake_waiter : ℕ → Bool → (ℕ → Option ActorState) → Bool → Option (ActorState × Bool)
wake_waiter waiter has_vm registry scheduler_runs =
    if waiter == 0 || not has_vm then none else elim (registry waiter) [
      | none ↦ none
      | some ActorState.suspended ↦ some (ActorState.ready, scheduler_runs)
      | some other ↦ some (other, false)
    ]
