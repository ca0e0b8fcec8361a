-- ===== src/Actor/Mailbox/Laws.antt =====
-- What holds of a mailbox in every state that its threads and its owner can bring it to.
use smalltalk_a_vm.Prelude.{
  take, ℕ, zero, suc, ◌+◌, ◌-◌, ◌≤◌, ◌<◌, ◌≡◌, ◌^◌, refl, sym, ap, ◌∙◌, arith, false, List, length,
  [], ◌∷◌,
}
use smalltalk_a_vm.Actor.Mailbox.{
  Phase, Answer, Owner, System, Step, Reach, call, enqueue, dequeue, here, next, start, Allocates,
  enqueue_phase, enqueue_step, dequeue_step, owner_phase, advance, finish, allocate, check, reject,
  exchange, link,
}
use smalltalk_a_vm.Actor.Mailbox.Chain.{IsValid, in_hand}
use smalltalk_a_vm.Actor.Mailbox.Count.{total_rest, reserved, overshoot}
use smalltalk_a_vm.Actor.Mailbox.Produce.{
  call-IsValid, allocate-IsValid, check-IsValid, reject-IsValid,
}
use smalltalk_a_vm.Actor.Mailbox.Exchange.{exchange-IsValid}
use smalltalk_a_vm.Actor.Mailbox.Link.{link-IsValid}
use smalltalk_a_vm.Actor.Mailbox.Consume.{dequeue_step-IsValid}

start-IsValid : (n capacity : ℕ) → n + capacity < 2 ^ 32 → IsValid n (start capacity)
unfolding start
start-IsValid n capacity h = record {
  order = λ k. 1;
  taken = 0;
  list = record {
    sound = refl;
    within = omega arith;
    head = refl;
    tail = refl;
    live = λ k a b. refl;
    proper = λ k a b. omega arith;
    apart = λ j k a b c d e. omega arith;
    last = refl;
    linked = λ k a b. absurd (omega arith);
    message = λ k a b. absurd (omega arith);
  };
  owned = record {
    linker = λ i a b e. cc;
    lone = λ i j a b c e. cc;
    mine = λ i p e. cc;
    not_null = λ i p e. cc;
    outside = λ i p k e. cc;
    sole = λ i j p e. cc;
    old_live = λ p e. cc;
    old_outside = λ p k e. cc;
    old_sole = λ i p e. cc;
  };
  accounted = record { held = omega arith; handed = refl; hand = λ a b e. cc };
  counted = λ p. record {
    counted = omega (
      arith,
      total_rest reserved n (Phase.returned Answer.ok) refl,
      total_rest overshoot n (Phase.returned Answer.ok) refl,
    );
    bounded = omega (arith, total_rest reserved n (Phase.returned Answer.ok) refl);
    fits = h;
  };
}

by_phase :
    {n : ℕ} {s : System}
    → IsValid n s
    → (i p : ℕ) → i < n
    → Allocates s.memory p
    → (q : Phase) → s.phase i ≡ q
    → IsValid n (enqueue_phase s i p q)
unfolding enqueue_phase
by_phase v i p a f (Phase.calling msg) e = allocate-IsValid v i a msg p e f
by_phase v i p a f (Phase.checking msg q) e = check-IsValid v i a msg q e
by_phase v i p a f (Phase.rejecting q) e = reject-IsValid v i a q e
by_phase v i p a f (Phase.ready msg q) e = exchange-IsValid v i a msg q e
by_phase v i p a f (Phase.linking prev q) e = link-IsValid v i a prev q e
by_phase v i p a f (Phase.returned answer) e = v

pub Step-IsValid : {n : ℕ} {s t : System} → Step n s t → IsValid n s → IsValid n t
unfolding enqueue_step
Step-IsValid (call i msg answer a e) v = call-IsValid v i a msg answer e
Step-IsValid {s = s} (enqueue i p a f) v = by_phase v i p a f (s.phase i) refl
Step-IsValid dequeue v = dequeue_step-IsValid v

pub Reach-IsValid :
    {n capacity : ℕ} {s : System} → n + capacity < 2 ^ 32 → Reach n capacity s → IsValid n s
Reach-IsValid {n} {capacity} h here = start-IsValid n capacity h
Reach-IsValid h (next r st) = Step-IsValid st (Reach-IsValid h r)

bound_phase :
    (s : System) (i p : ℕ) (q : Phase) → (enqueue_phase s i p q).box.capacity ≡ s.box.capacity
unfolding enqueue_phase allocate check reject exchange link
bound_phase s i p (Phase.calling msg) = ground arith
bound_phase s i p (Phase.checking msg q) = ground arith
bound_phase s i p (Phase.rejecting q) = refl
bound_phase s i p (Phase.ready msg q) = refl
bound_phase s i p (Phase.linking prev q) = refl
bound_phase s i p (Phase.returned answer) = refl

bound_owner : (s : System) (o : Owner) → (owner_phase s o).box.capacity ≡ s.box.capacity
unfolding owner_phase advance finish
bound_owner s (Owner.idle m) = ground arith
bound_owner s (Owner.taking old m) = refl

Reach-capacity : {n capacity : ℕ} {s : System} → Reach n capacity s → s.box.capacity ≡ capacity
unfolding start enqueue_step dequeue_step
Reach-capacity here = refl
Reach-capacity (next r (call i msg answer a e)) = Reach-capacity r
Reach-capacity (next {s = s} r (enqueue i p a f)) = bound_phase s i p (s.phase i) ∙ Reach-capacity r
Reach-capacity (next {s = s} r dequeue) = bound_owner s s.owner ∙ Reach-capacity r

length-take : (k : ℕ) (xs : List ℕ) → k ≤ length xs → length (take k xs) ≡ k
length-take zero xs h = refl
length-take (suc k) [] h = absurd (omega arith)
length-take (suc k) (x ∷ xs) h = ap suc (length-take k xs (omega arith))

module _ {n : ℕ} {s : System} (v : IsValid n s) where
  open v use {taken, list, accounted}

  pub length-received : length s.received ≡ taken - in_hand s.owner
  length-received =
      ap length accounted.handed
      ∙ length-take (taken - in_hand s.owner) s.sent (omega (arith, list.within))

  pub prefix : s.received ≡ take (length s.received) s.sent
  prefix = accounted.handed ∙ ap (λ k. take k s.sent) (sym length-received)

-- In every reachable state of a mailbox with n threads that send, where n and the capacity together
-- are below 2^32, no node has been used or freed after it was freed, and the messages that dequeue
-- has returned are the first ones in the order in which enqueue exchanged the tail: none is lost,
-- repeated or overtaken.
pub received_in_order :
    {n capacity : ℕ} {s : System}
    → n + capacity < 2 ^ 32
    → Reach n capacity s
    → (s.memory.fault ≡ false)
      × (length s.received ≤ length s.sent)
      × (s.received ≡ take (length s.received) s.sent)
received_in_order h r =
    let v = Reach-IsValid h r in
    (v.list.sound, omega (arith, length-received v, v.list.within), prefix v)

-- In every reachable state of a bounded mailbox, at most `capacity` messages have been enqueued and
-- not returned, however the calls that find it full overlap.
pub pending_bound :
    {n capacity : ℕ} {s : System}
    → n + capacity < 2 ^ 32
    → 0 < capacity
    → Reach n capacity s
    → length s.sent ≤ length s.received + capacity
pending_bound h pos r =
    let v = Reach-IsValid h r in
    let c = v.counted (omega (arith, Reach-capacity r)) in
    omega (arith, c.bounded, length-received v, v.accounted.held, Reach-capacity r)
