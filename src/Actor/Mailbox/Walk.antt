-- ===== src/Actor/Mailbox/Walk.antt =====
-- The walk over a mailbox and its destruction, where no call of `sta_mailbox_enqueue` stands before
-- its link.
use smalltalk_a_vm.Prelude.{
  take, drop, drop_next, drop_all, take-drop, take_all, ℕ, zero, suc, ◌+◌, ◌≤◌, ◌<◌, ◌≡◌, ◌≢◌, ◌^◌,
  refl, sym, ap, ◌∙◌, arith, true, false, some, List, length, inl, inr, ◌==◌, [], ◌∷◌, ◌++◌, get_or,
  length-append, dec_lt,
}
use smalltalk_a_vm.Actor.Mailbox.{
  Reach, Owner, System, run_dequeue, settle, walk, walk_from, dequeue_step, owner_phase, advance,
  finish, drain, destroy, result,
}
use smalltalk_a_vm.Actor.Mailbox.Chain.{IsValid}
use smalltalk_a_vm.Actor.Mailbox.Consume.{dequeue_step-IsValid, finish-IsValid}
use smalltalk_a_vm.Actor.Mailbox.Advance.{head_live}
use smalltalk_a_vm.Actor.Mailbox.Laws.{length-received, prefix, Reach-IsValid}
use smalltalk_a_vm.Actor.Mailbox.Dequeue.{
  Quiet, received_taken, all_linked, from_head, run_dequeue_cases,
}

settle-IsValid :
    {n : ℕ} {t : System} → IsValid n t → (o : Owner) → t.owner ≡ o → IsValid n (settle t o)
settle-IsValid v (Owner.idle m) e = v
settle-IsValid v (Owner.taking old msg) e = finish-IsValid v old msg e

pub run_dequeue-IsValid : {n : ℕ} {s : System} → IsValid n s → IsValid n (run_dequeue s)
unfolding run_dequeue
run_dequeue-IsValid {s = s} v = settle-IsValid (dequeue_step-IsValid v) (dequeue_step s).owner refl

-- The owner changes neither the threads nor what they have sent.
settled_threads :
    (t : System) (o : Owner) → ((settle t o).phase ≡ t.phase) × ((settle t o).sent ≡ t.sent)
unfolding finish
settled_threads t (Owner.idle m) = (refl, refl)
settled_threads t (Owner.taking old msg) = (refl, refl)

stepped_threads :
    (s : System) (o : Owner)
    → ((owner_phase s o).phase ≡ s.phase) × ((owner_phase s o).sent ≡ s.sent)
unfolding owner_phase advance finish
stepped_threads s (Owner.idle m) = (ground arith, ground arith)
stepped_threads s (Owner.taking old msg) = (refl, refl)

run_threads : (s : System) → ((run_dequeue s).phase ≡ s.phase) × ((run_dequeue s).sent ≡ s.sent)
unfolding run_dequeue dequeue_step
run_threads s =
    let a = stepped_threads s s.owner in
    let b = settled_threads (owner_phase s s.owner) (owner_phase s s.owner).owner in
    (b.0 ∙ a.0, b.1 ∙ a.1)

-- No message is NULL.
abbrev pub Proper : System → Type 0
Proper s = (k : ℕ) → k < length s.sent → get_or s.sent k 0 ≢ 0

pub drain_lem :
    {n : ℕ} (fuel : ℕ) (s : System) (m : ℕ)
    → IsValid n s
    → Quiet s
    → Proper s
    → s.owner ≡ Owner.idle m
    → length s.sent < length s.received + fuel
    → ((drain fuel s).received ≡ s.sent)
      × ((drain fuel s).owner ≡ Owner.idle 0)
      × IsValid n (drain fuel s)
unfolding drain
drain_lem zero s m v quiet proper e h = absurd (omega (arith, length-received v, v.list.within))
drain_lem (suc fuel) s m v quiet proper e h = elim (run_dequeue_cases v quiet m e) [
  | inl (more, o, r) ↦
      let (phases, sents) = run_threads s in
      let nonzero : (result (run_dequeue s).owner == 0) ≡ false =
        rw o (let p = proper (length s.received) more in ground arith) in
      let longer : length (run_dequeue s).received ≡ length s.received + 1 =
        ap length r ∙ length-append s.received (get_or s.sent (length s.received) 0 ∷ []) in
      let (a, b, c) =
        drain_lem fuel (run_dequeue s) (get_or s.sent (length s.received) 0) (run_dequeue-IsValid v)
          (λ i x y g. quiet i x y (ap (λ f. f i) (sym phases) ∙ g))
          (λ k g. rw sents (proper k (omega (arith, ap length sents)))) o
          (omega (arith, ap length sents, longer)) in
      rw nonzero (a ∙ sents, b, c)
  | inr (same, o, r) ↦
      let done : (result (run_dequeue s).owner == 0) ≡ true = rw o in
      rw done
        (r ∙ prefix v ∙ ap (λ k. take k s.sent) same ∙ take_all s.sent, o, run_dequeue-IsValid v)
]

module _ {n : ℕ} {s : System} (v : IsValid n s) (quiet : Quiet s) (m : ℕ)
    (e : s.owner ≡ Owner.idle m) (proper : Proper s) where
  open v use {order, taken, list}

  walk_lem :
      (fuel k : ℕ)
      → taken ≤ k
      → k ≤ length s.sent
      → length s.sent < k + fuel
      → walk_from s.memory.node fuel (s.memory.node (order k)).next ≡ some (drop k s.sent)
  unfolding walk_from
  walk_lem zero k a b h = absurd (omega arith)
  walk_lem (suc fuel) k a b h = elim (dec_lt k (length s.sent)) [
    | no top ↦
        let same : k ≡ length s.sent = omega arith in
        rw (same, list.last) (ap some (sym (drop_all s.sent)))
    | yes low ↦
        let p = list.proper (k + 1) (omega arith) (omega arith) in
        let here : (order (k + 1) == 0) ≡ false = ground arith in
        let q = proper k low in
        let held : (get_or s.sent k 0 == 0) ≡ false = ground arith in
        rw (
          all_linked v quiet m e k a low,
          here,
          list.message k a low,
          held,
          walk_lem fuel (k + 1) (omega arith) (omega arith) (omega arith),
          drop_next s.sent k low,
        )
  ]

  pub walk-drop :
      (fuel : ℕ)
      → length s.sent < length s.received + fuel
      → walk fuel s ≡ some (drop (length s.received) s.sent)
  unfolding walk
  walk-drop fuel h =
      let same = received_taken v quiet m e in
      ap (walk_from s.memory.node fuel) (from_head v quiet m e)
      ∙ walk_lem fuel taken (omega arith) list.within (omega (arith, same))
      ∙ ap (λ k. some (drop k s.sent)) (sym same)

-- In a reachable state where no call of enqueue stands between its exchange and its link, no
-- dequeue is running and no message is NULL, the walk shows exactly the messages that have not been
-- returned, oldest first, and destroying the mailbox takes out exactly these in this order; it
-- uses no freed node. Fuel above the number of these messages is enough for both.
pub walk-destroy :
    {n capacity : ℕ} {s : System} (fuel m : ℕ)
    → n + capacity < 2 ^ 32
    → Reach n capacity s
    → Quiet s
    → s.owner ≡ Owner.idle m
    → Proper s
    → length s.sent < length s.received + fuel
    → (pending : List ℕ) × (walk fuel s ≡ some pending)
      × (s.sent ≡ s.received ++ pending)
      × ((destroy fuel s).received ≡ s.received ++ pending)
      × ((destroy fuel s).memory.fault ≡ false)
unfolding destroy
walk-destroy {s = s} fuel m h r quiet e proper enough =
    let v = Reach-IsValid h r in
    let (all, stopped, w) = drain_lem fuel s m v quiet proper e enough in
    let parts : s.sent ≡ s.received ++ drop (length s.received) s.sent =
      sym (take-drop (length s.received) s.sent)
      ∙ ap (λ l. l ++ drop (length s.received) s.sent) (sym (prefix v)) in
    (
      drop (length s.received) s.sent,
      walk-drop v quiet m e proper fuel enough,
      parts,
      all ∙ parts,
      head_live w,
    )
