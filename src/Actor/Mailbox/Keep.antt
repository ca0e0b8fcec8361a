-- ===== src/Actor/Mailbox/Keep.antt =====
-- Steps that leave the list of a mailbox alone.
use smalltalk_a_vm.Prelude.{
  ℕ, Bool, ◌+◌, ◌≤◌, ◌≡◌, ◌≢◌, sym, ap, ◌∙◌, arith, true, false, some, List, length, ◌⊎◌, inl, inr,
  ◌⊎◌, Bool-cases, ◌==◌,
}
use smalltalk_a_vm.Actor.Mailbox.{Phase, Owner, System, Memory, moved}
use smalltalk_a_vm.Actor.Mailbox.Chain.{IsLinked, IsOwned, private_node, old_node}

module _ {order : ℕ → ℕ} {taken : ℕ} {s : System} (v : IsLinked order taken s) (memory : Memory)
    (count : ℕ) (phase : ℕ → Phase) (owner : Owner) (received : List ℕ)
    (sound : memory.fault ≡ false)
    (nodes : (k : ℕ)
      → taken ≤ k
      → k ≤ length s.sent
      → memory.node (order k) ≡ s.memory.node (order k))
    (live : (k : ℕ) → taken ≤ k → k ≤ length s.sent → memory.live (order k) ≡ true)
    (still : (i a b : ℕ) → s.phase i ≡ Phase.linking a b → phase i ≡ Phase.linking a b) where
  pub keep-IsLinked : IsLinked order taken (record s {
    memory = memory;
    box = record (s.box) { count = count };
    phase = phase;
    owner = owner;
    received = received;
  })
  keep-IsLinked = record {
    sound = sound;
    within = v.within;
    head = v.head;
    tail = v.tail;
    live = live;
    proper = v.proper;
    apart = v.apart;
    last = ap (λ x. x.next) (nodes (length s.sent) v.within (omega arith)) ∙ v.last;
    linked = λ k a b. elim (v.linked k a b) [
      | inl e ↦ inl (ap (λ x. x.next) (nodes k a (omega arith)) ∙ e)
      | inr (e, (i, l)) ↦ inr (ap (λ x. x.next) (nodes k a (omega arith)) ∙ e, (i, still i _ _ l))
    ];
    message =
        λ k a b. ap (λ x. x.msg) (nodes (k + 1) (omega arith) (omega arith)) ∙ v.message k a b;
  }

-- Thread `i` goes on to `q`, where it does not link, and has the node that it had before or one
-- that nobody used.
module _ {order : ℕ → ℕ} {taken : ℕ} {s : System} (list : IsLinked order taken s)
    (v : IsOwned order taken s) (i : ℕ) (q : Phase) (live : ℕ → Bool) (fault : Bool) (count : ℕ)
    (quiet : (a b : ℕ) → q ≢ Phase.linking a b)
    (own : (p : ℕ)
      → private_node q ≡ some p
      → (private_node (s.phase i) ≡ some p) ⊎ ((s.memory.live p ≡ false) × (p ≢ 0)))
    (alive : (j p : ℕ) → j ≢ i → private_node (s.phase j) ≡ some p → live p ≡ true)
    (own_alive : (p : ℕ) → private_node q ≡ some p → live p ≡ true)
    (old_alive : (p : ℕ) → old_node s.owner ≡ some p → live p ≡ true) where
  kept_node :
      (j p : ℕ)
      → private_node (moved s i q j) ≡ some p
      → (private_node (s.phase j) ≡ some p) ⊎ ((j ≡ i) × (s.memory.live p ≡ false) × (p ≢ 0))
  kept_node j p h = elim (Bool-cases (j == i)) [
    | inl e ↦
        let e' : j ≡ i = ground arith in
        elim (own p (rw e at h)) [ inl o ↦ inl (rw e' o) | inr (o, z) ↦ inr (e', o, z) ]
    | inr ne ↦ inl (rw ne at h)
  ]

  kept_link : (j a b : ℕ) → moved s i q j ≡ Phase.linking a b → s.phase j ≡ Phase.linking a b
  kept_link j a b h = elim (Bool-cases (j == i)) [
    | inl e ↦ absurd (quiet a b (rw e at h))
    | inr ne ↦ rw ne at h
  ]

  kept_outside :
      (j p k : ℕ)
      → private_node (moved s i q j) ≡ some p
      → taken ≤ k
      → k ≤ length s.sent
      → order k ≢ p
  kept_outside j p k h a b = elim (kept_node j p h) [
    | inl o ↦ v.outside j p k o a b
    | inr (e, o, z) ↦ λ same. let l = rw same at (list.live k a b) in absurd (ground arith)
  ]

  kept_sole :
      (j k p : ℕ)
      → private_node (moved s i q j) ≡ some p
      → private_node (moved s i q k) ≡ some p
      → j ≡ k
  kept_sole j k p h h' = elim (kept_node j p h) [
    | inl o ↦ elim (kept_node k p h') [
      | inl o' ↦ v.sole j k p o o'
      | inr (e, d, z) ↦ let l = v.mine j p o in absurd (ground arith)
    ]
    | inr (e, d, z) ↦ elim (kept_node k p h') [
      | inl o' ↦ let l = v.mine k p o' in absurd (ground arith)
      | inr (e', d', z') ↦ e ∙ sym e'
    ]
  ]

  pub keep-IsOwned : IsOwned order taken (record s {
    memory = record (s.memory) { live = live; fault = fault };
    box = record (s.box) { count = count };
    phase = moved s i q;
  })
  keep-IsOwned = record {
    linker = λ j a b h. v.linker j a b (kept_link j a b h);
    lone = λ j k a b c h h'. v.lone j k a b c (kept_link j a b h) (kept_link k a c h');
    mine = λ j p h. elim (Bool-cases (j == i)) [
      | inl e ↦ own_alive p (rw e at h)
      | inr ne ↦ alive j p (ground arith) (rw ne at h)
    ];
    not_null = λ j p h. elim (kept_node j p h) [ inl o ↦ v.not_null j p o | inr (e, d, z) ↦ z ];
    outside = kept_outside;
    sole = kept_sole;
    old_live = old_alive;
    old_outside = v.old_outside;
    old_sole = λ j p h h'. elim (kept_node j p h') [
      | inl o ↦ v.old_sole j p h o
      | inr (e, d, z) ↦ let l = v.old_live p h in absurd (ground arith)
    ];
  }
