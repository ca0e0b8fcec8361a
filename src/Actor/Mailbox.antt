-- ===== src/Actor/Mailbox.antt =====
-- The mailbox of an actor, src/actor/mailbox.c: a linked list to which any thread appends and from
-- which the owner alone takes (Vyukov's queue), with a counter that bounds it.
-- A system is one mailbox, the calls of `sta_mailbox_enqueue` that run on it concurrently and the
-- owner's calls of `sta_mailbox_dequeue`; a step runs one of them to its next atomic operation.
-- Nodes and messages are addresses, 0 for NULL. What `malloc` answers is an argument. Each thread
-- sees the steps of the others at once: the weaker memory orders of the code are not modelled.

pub mod Count
pub mod Chain
pub mod Keep
pub mod Produce
pub mod Exchange
pub mod Link
pub mod Advance
pub mod Consume
pub mod Laws
pub mod Dequeue
pub mod Walk
use mathlib.Core.Option
use smalltalk_a_vm.Prelude.{
  Option, none, some, ℕ, zero, suc, ◌+◌, ◌-◌, ◌%◌, ◌^◌, ◌<◌, ◌≡◌, Bool, true, false, not, ◌||◌,
  List, [], ◌∷◌, ◌++◌, ltb, leb, ◌==◌, if◌then◌else◌,
}

-- `f` changed at `p`.
abbrev pub update {ℓ} : {A : Type ℓ} → (ℕ → A) → ℕ → A → ℕ → A
update f p v q = if q == p then v else f q

-- `STA_MbNode`
pub record Node : Type 0 where
  pub next : ℕ
  pub msg : ℕ

-- The nodes by address, which of them are allocated, and whether a node was used that was not.
pub record Memory : Type 0 where
  pub node : ℕ → Node
  pub live : ℕ → Bool
  pub fault : Bool

abbrev pub touch : Memory → ℕ → Bool
touch m a = m.fault || not (m.live a)

abbrev pub claim : Memory → ℕ → Memory
claim m a = record m { live = update m.live a true }

abbrev pub write : Memory → ℕ → Node → Memory
write m a v = record m { node = update m.node a v; fault = touch m a }

abbrev pub release : Memory → ℕ → Memory
release m a = record m { live = update m.live a false; fault = touch m a }

-- What `sta_mailbox_enqueue` returns: 0, STA_ERR_MAILBOX_FULL or -1.
pub data Answer : Type 0 where
  ok : Answer
  full : Answer
  no_memory : Answer

-- Where a call of `sta_mailbox_enqueue` stands: before `malloc`, before the capacity check, before
-- it takes its increment back, before the exchange of `tail`, before the link, or returned.
pub data Phase : Type 0 where
  calling : (msg : ℕ) → Phase
  checking : (msg p : ℕ) → Phase
  rejecting : (p : ℕ) → Phase
  ready : (msg p : ℕ) → Phase
  linking : (prev p : ℕ) → Phase
  returned : Answer → Phase

-- The owner: outside `sta_mailbox_dequeue`, with what its last call returned, or in it with the
-- message in hand, before it counts down and frees the old sentinel.
pub data Owner : Type 0 where
  idle : (msg : ℕ) → Owner
  taking : (old msg : ℕ) → Owner

-- `STA_Mailbox`
pub record Mailbox : Type 0 where
  pub tail : ℕ
  pub head : ℕ
  pub stub : ℕ
  pub count : ℕ
  pub capacity : ℕ

-- `sent` lists the messages in the order in which their calls exchanged `tail`, `received` those
-- that dequeue has returned.
pub record System : Type 0 where
  pub memory : Memory
  pub box : Mailbox
  pub phase : ℕ → Phase
  pub owner : Owner
  pub sent : List ℕ
  pub received : List ℕ

-- `sta_mailbox_init`, where `calloc` returns `p`.
unfoldable pub init : ℕ → ℕ → Memory → Memory × Mailbox
init p capacity m = (
  record (claim m p) { node = update m.node p (record { next = 0; msg = 0 }) },
  record { tail = p; head = p; stub = p; count = 0; capacity = capacity },
)

abbrev pub moved : System → ℕ → Phase → ℕ → Phase
moved s i q = update s.phase i q

-- `malloc` has returned `p`.
unfoldable pub allocate : System → ℕ → ℕ → ℕ → System
allocate s i msg p =
    if p == 0
    then record s { phase = moved s i (Phase.returned Answer.no_memory) }
    else record s { memory = claim s.memory p; phase = moved s i (Phase.checking msg p) }

-- The capacity check: the increment, and the branch on what it replaced.
unfoldable pub check : System → ℕ → ℕ → ℕ → System
check s i msg p =
    if ltb 0 s.box.capacity
    then record s {
      box = record (s.box) { count = (s.box.count + 1) % 2 ^ 32 };
      phase =
          moved s i
            (if leb s.box.capacity s.box.count then Phase.rejecting p else Phase.ready msg p);
    }
    else record s { phase = moved s i (Phase.ready msg p) }

unfoldable pub reject : System → ℕ → ℕ → System
reject s i p = record s {
  box = record (s.box) { count = (s.box.count + (2 ^ 32 - 1)) % 2 ^ 32 };
  memory = release s.memory p;
  phase = moved s i (Phase.returned Answer.full);
}

-- The stores to the node, and the exchange of `tail`.
unfoldable pub exchange : System → ℕ → ℕ → ℕ → System
exchange s i msg p = record s {
  memory = write s.memory p (record { next = 0; msg = msg });
  box = record (s.box) { tail = p };
  phase = moved s i (Phase.linking s.box.tail p);
  sent = s.sent ++ msg ∷ [];
}

unfoldable pub link : System → ℕ → ℕ → ℕ → System
link s i prev p = record s {
  memory = write s.memory prev (record (s.memory.node prev) { next = p });
  phase = moved s i (Phase.returned Answer.ok);
}

unfoldable pub enqueue_phase : System → ℕ → ℕ → Phase → System
unfolding allocate check reject exchange link
enqueue_phase s i p (Phase.calling msg) = allocate s i msg p
enqueue_phase s i _ (Phase.checking msg p) = check s i msg p
enqueue_phase s i _ (Phase.rejecting p) = reject s i p
enqueue_phase s i _ (Phase.ready msg p) = exchange s i msg p
enqueue_phase s i _ (Phase.linking prev p) = link s i prev p
enqueue_phase s i _ (Phase.returned answer) = s

-- Thread `i` runs its call of `sta_mailbox_enqueue` to its next atomic operation.
unfoldable pub enqueue_step : System → ℕ → ℕ → System
unfolding enqueue_phase
enqueue_step s i p = enqueue_phase s i p (s.phase i)

-- `sta_mailbox_dequeue` up to the new head.
unfoldable pub advance : System → System
advance s =
    let head = s.box.head in
    let next = (s.memory.node head).next in
    if next == 0
    then record s {
      memory = record (s.memory) { fault = touch s.memory head };
      owner = Owner.idle 0;
    }
    else record s {
      memory =
          write (record (s.memory) { fault = touch s.memory head }) next
            (record (s.memory.node next) { msg = 0 });
      box = record (s.box) { head = next };
      owner = Owner.taking head (s.memory.node next).msg;
    }

-- The rest of it.
unfoldable pub finish : System → ℕ → ℕ → System
finish s old msg = record s {
  box = record (s.box) {
    count = if ltb 0 s.box.capacity then (s.box.count + (2 ^ 32 - 1)) % 2 ^ 32 else s.box.count;
  };
  memory = release s.memory old;
  owner = Owner.idle msg;
  received = s.received ++ msg ∷ [];
}

unfoldable pub owner_phase : System → Owner → System
unfolding advance finish
owner_phase s (Owner.idle _) = advance s
owner_phase s (Owner.taking old msg) = finish s old msg

-- The owner runs `sta_mailbox_dequeue` to its next atomic operation.
unfoldable pub dequeue_step : System → System
unfolding owner_phase
dequeue_step s = owner_phase s s.owner

-- What the last call returned.
abbrev pub result : Owner → ℕ
result (Owner.idle msg) = msg
result (Owner.taking old msg) = 0

abbrev pub settle : System → Owner → System
settle t (Owner.idle msg) = t
settle t (Owner.taking old msg) = finish t old msg

-- A whole call of `sta_mailbox_dequeue`, where no thread runs in between.
unfoldable pub run_dequeue : System → System
unfolding dequeue_step finish
run_dequeue s = let t = dequeue_step s in settle t t.owner

-- The loop of `sta_mailbox_destroy`, on fuel.
unfoldable pub drain : ℕ → System → System
unfolding run_dequeue
drain zero s = s
drain (suc fuel) s =
    let t = run_dequeue s in let rest = drain fuel t in if result t.owner == 0 then t else rest

-- `sta_mailbox_destroy`
unfoldable pub destroy : ℕ → System → System
unfolding drain
destroy fuel s =
    let t = drain fuel s in
    record t { memory = release t.memory t.box.head; box = record (t.box) { head = 0; stub = 0 } }

-- The messages that `sta_mailbox_walk` shows to its visitor, from node `a` on; `none` is a list
-- longer than the fuel.
unfoldable pub walk_from : (ℕ → Node) → ℕ → ℕ → Option (List ℕ)
walk_from node zero a = none
walk_from node (suc fuel) a =
    let rest = walk_from node fuel (node a).next in
    if a == 0
    then some []
    else (if (node a).msg == 0 then rest else Option.map (λ seen. (node a).msg ∷ seen) rest)

unfoldable pub walk : ℕ → System → Option (List ℕ)
unfolding walk_from
walk fuel s = walk_from s.memory.node fuel (s.memory.node s.box.head).next

-- `sta_mailbox_count` and `sta_mailbox_is_empty`
unfoldable pub count : Mailbox → ℕ
count box = box.count

unfoldable pub is_empty : Mailbox → Bool
unfolding count
is_empty box = count box == 0

-- `malloc` returns NULL or the address of a node that is not in use.
abbrev pub Allocates : Memory → ℕ → Type 0
Allocates m p = m.live p ≡ false

-- One step: a thread that has no call running starts one, a call runs on, or the owner does.
pub data Step (n : ℕ) (s : System) : System → Type 0 where
  call :
      (i msg : ℕ) (answer : Answer)
      → i < n
      → s.phase i ≡ Phase.returned answer
      → Step n s (record s { phase = moved s i (Phase.calling msg) })
  enqueue : (i p : ℕ) → i < n → Allocates s.memory p → Step n s (enqueue_step s i p)
  dequeue : Step n s (dequeue_step s)

abbrev pub blank : Memory
blank = record { node = λ p. record { next = 0; msg = 0 }; live = λ p. false; fault = false }

-- `n` threads and a new mailbox whose stub is at 1.
unfoldable pub start : ℕ → System
unfolding init
start capacity = record {
  memory = (init 1 capacity blank).0;
  box = (init 1 capacity blank).1;
  phase = λ i. Phase.returned Answer.ok;
  owner = Owner.idle 0;
  sent = [];
  received = [];
}

pub data Reach (n capacity : ℕ) : System → Type 0 where
  here : Reach n capacity (start capacity)
  next : {s t : System} → Reach n capacity s → Step n s t → Reach n capacity t
