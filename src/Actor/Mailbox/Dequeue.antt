-- ===== src/Actor/Mailbox/Dequeue.antt =====
-- A mailbox on which no call of `sta_mailbox_enqueue` stands before its link: whole dequeues.
use smalltalk_a_vm.Prelude.{
  ℕ, ◌+◌, ◌≤◌, ◌<◌, ◌≡◌, ◌≢◌, ◌^◌, sym, ap, ap₂, ◌∙◌, arith, true, false, length, inl, inr, ◌==◌,
  [], ◌∷◌, ◌++◌, get_or, ◌⊎◌, dec_lt,
}
use smalltalk_a_vm.Actor.Mailbox.{
  touch, Reach, Phase, Owner, System, run_dequeue, settle, dequeue_step, owner_phase, advance,
  finish,
}
use smalltalk_a_vm.Actor.Mailbox.Chain.{IsValid, in_hand}
use smalltalk_a_vm.Actor.Mailbox.Laws.{length-received, Reach-IsValid}

-- No call stands between its exchange and its link.
abbrev pub Quiet : System → Type 0
Quiet s = (i a b : ℕ) → s.phase i ≢ Phase.linking a b

at_idle :
    (s : System) (m : ℕ)
    → s.owner ≡ Owner.idle m
    → run_dequeue s ≡ settle (advance s) (advance s).owner
unfolding run_dequeue dequeue_step owner_phase
at_idle s m e = ap (λ o. settle (owner_phase s o) (owner_phase s o).owner) e

last_case :
    (s : System)
    → (s.memory.node s.box.head).next ≡ 0
    → settle (advance s) (advance s).owner ≡ record s {
      memory = record (s.memory) { fault = touch s.memory s.box.head };
      owner = Owner.idle 0;
    }
unfolding advance
last_case s h = let t : ((s.memory.node s.box.head).next == 0) ≡ true = ground arith in rw t

more_case :
    (s : System)
    → (s.memory.node s.box.head).next ≢ 0
    → settle (advance s) (advance s).owner
      ≡ finish (advance s) s.box.head (s.memory.node (s.memory.node s.box.head).next).msg
unfolding advance
more_case s h = let t : ((s.memory.node s.box.head).next == 0) ≡ false = ground arith in rw t

advance-received : (s : System) → (advance s).received ≡ s.received
unfolding advance
advance-received s = ground arith

module _ {n : ℕ} {s : System} (v : IsValid n s) (quiet : Quiet s) (m : ℕ)
    (e : s.owner ≡ Owner.idle m) where
  open v use {order, taken, list, owned, accounted}

  pub received_taken : length s.received ≡ taken
  received_taken = omega (arith, length-received v, ap in_hand e)

  pub all_linked :
      (k : ℕ) → taken ≤ k → k < length s.sent → (s.memory.node (order k)).next ≡ order (k + 1)
  all_linked k a b = elim (list.linked k a b) [
    | inl h ↦ h
    | inr (h, (i, l)) ↦ absurd (quiet i _ _ l)
  ]

  pub from_head : (s.memory.node s.box.head).next ≡ (s.memory.node (order taken)).next
  from_head = ap (λ a. (s.memory.node a).next) list.head

  -- A call of dequeue returns the oldest message that it has not returned, or NULL if there is none.
  pub run_dequeue_cases :
      ((length s.received < length s.sent)
        × ((run_dequeue s).owner ≡ Owner.idle (get_or s.sent (length s.received) 0))
        × ((run_dequeue s).received ≡ s.received ++ get_or s.sent (length s.received) 0 ∷ []))
      ⊎ ((length s.received ≡ length s.sent)
          × ((run_dequeue s).owner ≡ Owner.idle 0)
          × ((run_dequeue s).received ≡ s.received))
  run_dequeue_cases = elim (dec_lt taken (length s.sent)) [
    | yes more ↦
        let at = from_head ∙ all_linked taken (omega arith) more in
        let some_left : (s.memory.node s.box.head).next ≢ 0 =
          λ z. list.proper (taken + 1) (omega arith) (omega arith) (sym at ∙ z) in
        let whole = at_idle s m e ∙ more_case s some_left in
        let msg : (s.memory.node (s.memory.node s.box.head).next).msg
            ≡ get_or s.sent (length s.received) 0 =
          ap (λ a. (s.memory.node a).msg) at
          ∙ list.message taken (omega arith) more
          ∙ ap (λ k. get_or s.sent k 0) (sym received_taken) in
        inl (
          omega (arith, received_taken),
          ap (λ t. t.owner) whole ∙ unfold finish in (ap Owner.idle msg),
          ap (λ t. t.received) whole
              ∙ unfold finish in (ap₂ (λ l x. l ++ x ∷ []) (advance-received s) msg),
        )
    | no none_left ↦
        let same : taken ≡ length s.sent = omega (arith, list.within) in
        let z = from_head ∙ ap (λ k. (s.memory.node (order k)).next) same ∙ list.last in
        let whole = at_idle s m e ∙ last_case s z in
        inr (omega (arith, received_taken), ap (λ t. t.owner) whole, ap (λ t. t.received) whole)
  ]

-- In a reachable state where no call of enqueue stands between its exchange of the tail and its
-- link, and no dequeue is running, a whole dequeue returns the oldest message that has not been
-- returned, or NULL exactly if every message has been.
pub dequeue_oldest :
    {n capacity : ℕ} {s : System} (m : ℕ)
    → n + capacity < 2 ^ 32
    → Reach n capacity s
    → Quiet s
    → s.owner ≡ Owner.idle m
    → ((length s.received < length s.sent)
        × ((run_dequeue s).owner ≡ Owner.idle (get_or s.sent (length s.received) 0))
        × ((run_dequeue s).received ≡ s.received ++ get_or s.sent (length s.received) 0 ∷ []))
      ⊎ ((length s.received ≡ length s.sent)
          × ((run_dequeue s).owner ≡ Owner.idle 0)
          × ((run_dequeue s).received ≡ s.received))
dequeue_oldest m h r quiet e = run_dequeue_cases (Reach-IsValid h r) quiet m e
