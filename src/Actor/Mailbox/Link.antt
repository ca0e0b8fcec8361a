-- ===== src/Actor/Mailbox/Link.antt =====
-- The link of a node, and the invariant.
use smalltalk_a_vm.Prelude.{
  ℕ, ◌+◌, ◌≤◌, ◌<◌, ◌≡◌, ◌≢◌, sym, ap, ◌∙◌, arith, false, some, length, inl, inr, Bool-cases, ◌==◌,
  ◌⊎◌, not, ◌||◌,
}
use smalltalk_a_vm.Actor.Mailbox.{Phase, Answer, System, Node, update, moved, link}
use smalltalk_a_vm.Actor.Mailbox.Chain.{IsLinked, IsOwned, IsValid, private_node}
use smalltalk_a_vm.Actor.Mailbox.Count.{total-update, overshoot, reserved}

module _ {n : ℕ} {s : System} (v : IsValid n s) (i : ℕ) (inside : i < n) where
  open v use {order, taken, list, owned, accounted, counted}

  module _ (prev p : ℕ) (e : s.phase i ≡ Phase.linking prev p) where
    place :
        (k : ℕ) × (taken ≤ k)
        × (k < length s.sent)
        × (prev ≡ order k)
        × (p ≡ order (k + 1))
        × ((s.memory.node prev).next ≡ 0)
    place = owned.linker i prev p e

    other_link :
        (j a b : ℕ)
        → moved s i (Phase.returned Answer.ok) j ≡ Phase.linking a b
        → (j ≢ i) × (s.phase j ≡ Phase.linking a b) × (a ≢ prev)
    other_link j a b h = elim (Bool-cases (j == i)) [
      | inl y ↦ absurd (let g = rw y at h in cc)
      | inr ne ↦
          let ne' : j ≢ i = ground arith in
          (ne', rw ne at h, λ same. ne' (owned.lone j i prev b p (rw (ne, same) at h) e))
    ]

    linked_now :
        (k : ℕ)
        → taken ≤ k
        → k < length s.sent
        → let node = update s.memory.node prev (record (s.memory.node prev) { next = p }) in
          ((node (order k)).next ≡ order (k + 1))
          ⊎ (((node (order k)).next ≡ 0)
              × ((j : ℕ) × (moved s i (Phase.returned Answer.ok) j
                    ≡ Phase.linking (order k) (order (k + 1)))))
    linked_now k a b = elim (Bool-cases (order k == prev)) [
      | inl here ↦
          let (m, c, d, x, y, z) = place in
          let same : k ≡ m = list.apart k m a (omega arith) c (omega arith) (ground arith) in
          inl (rw here (y ∙ ap (λ t. order (t + 1)) (sym same)))
      | inr away ↦ elim (list.linked k a b) [
        | inl h ↦ inl (rw away h)
        | inr (h, (j, l)) ↦ inr (
          rw away h,
          (
            j,
            elim (Bool-cases (j == i)) [
              | inl y ↦
                  let j' : j ≡ i = ground arith in
                  let g : Phase.linking prev p ≡ Phase.linking (order k) (order (k + 1)) =
                    sym e ∙ ap s.phase (sym j') ∙ l in
                  absurd (let same : prev ≡ order k = cc in ground arith)
              | inr ne ↦ rw ne l
            ],
          ),
        )
      ]
    ]

    live_prev : (s.memory.fault || not (s.memory.live prev)) ≡ false
    live_prev =
        let (k, a, b, x, _, _) = place in
        let l = list.live k a (omega arith) in rw x (ground (arith, list.sound))

    node' : ℕ → Node
    node' = update s.memory.node prev (record (s.memory.node prev) { next = p })

    message_kept : (a : ℕ) → (node' a).msg ≡ (s.memory.node a).msg
    unfolding node'
    message_kept a = ground arith

    last_kept : (node' (order (length s.sent))).next ≡ 0
    unfolding node'
    last_kept =
        let (k, a, b, x, _, _) = place in
        let ne : (order (length s.sent) == prev) ≡ false =
          ground (arith, list.apart (length s.sent) k list.within (omega arith) a (omega arith)) in
        rw ne list.last

    link-IsLinked : IsLinked order taken (link s i prev p)
    unfolding link node'
    link-IsLinked = record {
      sound = live_prev;
      within = list.within;
      head = list.head;
      tail = list.tail;
      live = list.live;
      proper = list.proper;
      apart = list.apart;
      last = last_kept;
      linked = linked_now;
      message = λ k a b. message_kept (order (k + 1)) ∙ list.message k a b;
    }

    private_other :
        (j q : ℕ)
        → private_node (moved s i (Phase.returned Answer.ok) j) ≡ some q
        → private_node (s.phase j) ≡ some q
    private_other j q h = elim (Bool-cases (j == i)) [
      | inl y ↦ absurd (let g = rw y at h in cc)
      | inr ne ↦ rw ne at h
    ]

    link-IsOwned : IsOwned order taken (link s i prev p)
    unfolding link
    link-IsOwned = record {
      linker = λ j a b h.
          let (ne, l, away) = other_link j a b h in
          let (k, c, d, x, y, z) = owned.linker j a b l in
          (k, c, d, x, y, let f : (a == prev) ≡ false = ground arith in rw f z);
      lone = λ j k a b c h h'. owned.lone j k a b c (other_link j a b h).1 (other_link k a c h').1;
      mine = λ j q h. owned.mine j q (private_other j q h);
      not_null = λ j q h. owned.not_null j q (private_other j q h);
      outside = λ j q k h. owned.outside j q k (private_other j q h);
      sole = λ j k q h h'. owned.sole j k q (private_other j q h) (private_other k q h');
      old_live = owned.old_live;
      old_outside = owned.old_outside;
      old_sole = λ j q h h'. owned.old_sole j q h (private_other j q h');
    }

    pub link-IsValid : IsValid n (link s i prev p)
    unfolding link
    link-IsValid = record {
      order = order;
      taken = taken;
      list = link-IsLinked;
      owned = link-IsOwned;
      accounted = accounted;
      counted = λ h.
          let c = counted h in
          let held =
            rw e at (total-update reserved n i (Phase.returned Answer.ok) s.phase inside) in
          let over =
            rw e at (total-update overshoot n i (Phase.returned Answer.ok) s.phase inside) in
          record {
            counted = omega (arith, c.counted, held, over);
            bounded = omega (arith, c.bounded, held);
            fits = c.fits;
          };
    }
