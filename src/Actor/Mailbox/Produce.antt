-- ===== src/Actor/Mailbox/Produce.antt =====
-- The steps of `sta_mailbox_enqueue` before the exchange, and the invariant.
use native.Mathlib.Nat.{mod-eq_of_lt}
use smalltalk_a_vm.Prelude.{
  not, ◌||◌, ℕ, ◌+◌, ◌-◌, ◌≤◌, ◌<◌, ◌≡◌, ◌≢◌, ◌%◌, ◌^◌, refl, sym, ap, ◌∙◌, arith, true, false,
  some, inl, inr, Bool-cases, ◌==◌, ltb, leb,
}
use smalltalk_a_vm.Actor.Mailbox.{
  Phase, Answer, System, update, moved, allocate, check, reject, Allocates, claim, release,
}
use smalltalk_a_vm.Actor.Mailbox.Chain.{IsCounted, IsValid, private_node}
use smalltalk_a_vm.Actor.Mailbox.Keep.{keep-IsLinked, keep-IsOwned}
use smalltalk_a_vm.Actor.Mailbox.Count.{
  total-update, overshoot, reserved, total_bound, overshoot-le-one,
}

module _ {n : ℕ} {s : System} (v : IsValid n s) (i : ℕ) (inside : i < n) where
  open v use {order, taken, list, owned, accounted, counted}

  still :
      (q : Phase)
      → ((a b : ℕ) → s.phase i ≢ Phase.linking a b)
      → (j a b : ℕ) → s.phase j ≡ Phase.linking a b
      → moved s i q j ≡ Phase.linking a b
  still q idle j a b h = elim (Bool-cases (j == i)) [
    | inl e ↦ let e' : j ≡ i = ground arith in absurd (idle a b (ap s.phase (sym e') ∙ h))
    | inr ne ↦ rw ne h
  ]

  -- A thread that neither holds a place nor owes an increment, before and after.
  light-IsCounted :
      (q : Phase)
      → reserved (s.phase i) ≡ 0
      → overshoot (s.phase i) ≡ 0
      → reserved q ≡ 0
      → overshoot q ≡ 0
      → 0 < s.box.capacity
      → IsCounted n taken s.box s.owner s.sent (moved s i q)
  light-IsCounted q a b c d h =
      let w = counted h in
      record {
        counted = omega (
          arith,
          w.counted,
          total-update reserved n i q s.phase inside,
          total-update overshoot n i q s.phase inside,
        );
        bounded = omega (arith, w.bounded, total-update reserved n i q s.phase inside);
        fits = w.fits;
      }

  -- The thread goes on without touching memory.
  light-IsValid :
      (q : Phase) (count : ℕ)
      → ((a b : ℕ) → s.phase i ≢ Phase.linking a b)
      → ((a b : ℕ) → q ≢ Phase.linking a b)
      → ((p : ℕ) → private_node q ≡ some p → private_node (s.phase i) ≡ some p)
      → (0 < s.box.capacity
          → IsCounted n taken (record (s.box) { count = count }) s.owner s.sent (moved s i q))
      → IsValid n (record s { box = record (s.box) { count = count }; phase = moved s i q })
  light-IsValid q count before after node counts = record {
    order = order;
    taken = taken;
    list =
        keep-IsLinked list s.memory count _ s.owner s.received list.sound (λ k a b. refl) list.live
          (still _ before);
    owned =
        keep-IsOwned list owned i q s.memory.live s.memory.fault count after (λ p h. inl (node p h))
          (λ j p ne. owned.mine j p) (λ p h. owned.mine i p (node p h)) owned.old_live;
    accounted = accounted;
    counted = counts;
  }

  pub call-IsValid :
      (msg : ℕ) (answer : Answer)
      → s.phase i ≡ Phase.returned answer
      → IsValid n (record s { phase = moved s i (Phase.calling msg) })
  call-IsValid msg answer e =
      light-IsValid (Phase.calling msg) s.box.count (λ a b h. cc) (λ a b h. cc) (λ p h. cc)
        (light-IsCounted (Phase.calling msg) (rw e) (rw e) refl refl)

  pub allocate-IsValid :
      (msg p : ℕ)
      → s.phase i ≡ Phase.calling msg
      → Allocates s.memory p
      → IsValid n (allocate s i msg p)
  unfolding allocate
  allocate-IsValid msg p e free = elim (Bool-cases (p == 0)) [
    | inl null ↦ rw null (
        light-IsValid (Phase.returned Answer.no_memory) s.box.count (λ a b h. cc) (λ a b h. cc)
          (λ p h. cc) (light-IsCounted (Phase.returned Answer.no_memory) (rw e) (rw e) refl refl))
    | inr fresh ↦ rw fresh (record {
      order = order;
      taken = taken;
      list =
          keep-IsLinked list (claim s.memory p) s.box.count _ s.owner s.received list.sound
            (λ k a b. refl) (λ k a b. ground (arith, list.live k a b)) (still _ (λ a b h. cc));
      owned =
          keep-IsOwned list owned i (Phase.checking msg p) (update s.memory.live p true)
            s.memory.fault s.box.count (λ a b h. cc) (λ q h. inr (ground arith))
            (λ j q ne h. ground (arith, owned.mine j q h)) (λ q h. ground arith)
            (λ q h. ground (arith, owned.old_live q h));
      accounted = accounted;
      counted = light-IsCounted (Phase.checking msg p) (rw e) (rw e) refl refl;
    })
  ]

  count_bound : (h : 0 < s.box.capacity) → s.box.count ≤ s.box.capacity + n
  count_bound h = omega (
    arith,
    (counted h).counted,
    (counted h).bounded,
    total_bound overshoot n s.phase overshoot-le-one,
  )

  -- The increment of a thread at the capacity check does not wrap round.
  no_wrap :
      (msg p : ℕ)
      → s.phase i ≡ Phase.checking msg p
      → 0 < s.box.capacity
      → (s.box.count + 1) % 2 ^ 32 ≡ s.box.count + 1
  no_wrap msg p e h =
      let c = counted h in
      let over = total-update overshoot n i (Phase.rejecting p) s.phase inside in
      mod-eq_of_lt (
        omega (
          arith,
          c.counted,
          c.bounded,
          rw e at over,
          total_bound overshoot n (moved s i (Phase.rejecting p)) overshoot-le-one,
          c.fits,
        ))

  pub check-IsValid : (msg p : ℕ) → s.phase i ≡ Phase.checking msg p → IsValid n (check s i msg p)
  unfolding check
  check-IsValid msg p e = elim (Bool-cases (ltb 0 s.box.capacity)) [
    | inr unbounded ↦ rw unbounded (
        light-IsValid (Phase.ready msg p) s.box.count (λ a b h. cc) (λ a b h. cc) (λ q h. cc)
          (λ h. absurd (ground arith)))
    | inl limited ↦ elim (Bool-cases (leb s.box.capacity s.box.count)) [
      | inl over ↦
          rw (limited, over)
            (light-IsValid (Phase.rejecting p) ((s.box.count + 1) % 2 ^ 32) (λ a b h. cc)
              (λ a b h. cc) (λ q h. cc)
              (λ h.
                let c = counted h in
                let held = total-update reserved n i (Phase.rejecting p) s.phase inside in
                let over = total-update overshoot n i (Phase.rejecting p) s.phase inside in
                record {
                  counted = omega (arith, no_wrap msg p e h, c.counted, rw e at held, rw e at over);
                  bounded = omega (arith, c.bounded, rw e at held);
                  fits = c.fits;
                }))
      | inr room ↦
          rw (limited, room)
            (light-IsValid (Phase.ready msg p) ((s.box.count + 1) % 2 ^ 32) (λ a b h. cc)
              (λ a b h. cc) (λ q h. cc)
              (λ h.
                let c = counted h in
                let held = total-update reserved n i (Phase.ready msg p) s.phase inside in
                let over = total-update overshoot n i (Phase.ready msg p) s.phase inside in
                let below : s.box.count < s.box.capacity = ground arith in
                record {
                  counted = omega (arith, no_wrap msg p e h, c.counted, rw e at held, rw e at over);
                  bounded = omega (arith, c.counted, rw e at held);
                  fits = c.fits;
                }))
    ]
  ]

  -- A node that a thread has for itself may be written and freed.
  mine_live :
      (p : ℕ)
      → private_node (s.phase i) ≡ some p
      → (s.memory.fault || not (s.memory.live p)) ≡ false
  mine_live p h = ground (arith, list.sound, owned.mine i p h)

  pub reject-IsValid : (p : ℕ) → s.phase i ≡ Phase.rejecting p → IsValid n (reject s i p)
  unfolding reject
  reject-IsValid p e = record {
    order = order;
    taken = taken;
    list =
        keep-IsLinked list (release s.memory p) ((s.box.count + (2 ^ 32 - 1)) % 2 ^ 32) _ s.owner
          s.received (mine_live p had) (λ k a b. refl)
          (λ k a b. ground (arith, list.live k a b, owned.outside i p k had a b))
          (still _ (λ a b h. cc));
    owned =
        keep-IsOwned list owned i (Phase.returned Answer.full) (update s.memory.live p false)
          (s.memory.fault || not (s.memory.live p)) ((s.box.count + (2 ^ 32 - 1)) % 2 ^ 32)
          (λ a b h. cc) (λ q h. cc)
          (λ j q ne h. ground (arith, owned.mine j q h, owned.sole i j p had)) (λ q h. cc)
          (λ q h. ground (arith, owned.old_live q h, owned.old_sole i q h));
    accounted = accounted;
    counted = λ h.
        let c = counted h in
        let held =
          rw e at (total-update reserved n i (Phase.returned Answer.full) s.phase inside) in
        let over =
          rw e at (total-update overshoot n i (Phase.returned Answer.full) s.phase inside) in
        record {
          counted =
              omega (arith, c.counted, c.bounded, list.within, held, over, count_bound h, c.fits);
          bounded = omega (arith, c.bounded, held);
          fits = c.fits;
        };
  }
    where
      had : private_node (s.phase i) ≡ some p
      had = rw e
