-- ===== src/Actor/Mailbox/Exchange.antt =====
-- The exchange of `tail`, and the invariant.
use smalltalk_a_vm.Prelude.{
  get_or-append_old, get_or-append_new, take-append, ℕ, ◌+◌, ◌-◌, ◌≤◌, ◌<◌, ◌≡◌, ◌≢◌, sym, ap, ◌∙◌,
  arith, some, List, length, inl, inr, Bool-cases, ◌==◌, [], ◌∷◌, ◌++◌, length-append, ◌⊎◌, dec_lt,
}
use smalltalk_a_vm.Actor.Mailbox.{Phase, System, Node, update, moved, exchange}
use smalltalk_a_vm.Actor.Mailbox.Chain.{IsLinked, IsOwned, IsValid, private_node, in_hand}
use smalltalk_a_vm.Actor.Mailbox.Count.{total-update, overshoot, reserved}

module _ {n : ℕ} {s : System} (v : IsValid n s) (i : ℕ) (inside : i < n) where
  open v use {order, taken, list, owned, accounted, counted}

  module _ (msg p : ℕ) (e : s.phase i ≡ Phase.ready msg p) where
    t : ℕ
    t = length s.sent

    sent' : List ℕ
    sent' = s.sent ++ msg ∷ []

    len : length (s.sent ++ msg ∷ []) ≡ length s.sent + 1
    len = length-append s.sent (msg ∷ [])

    had : private_node (s.phase i) ≡ some p
    had = rw e

    order' : ℕ → ℕ
    order' = update order (length s.sent + 1) p

    older : (k : ℕ) → k ≤ length s.sent → order' k ≡ order k
    unfolding order'
    older k h = ground arith

    newest : order' (length s.sent + 1) ≡ p
    unfolding order'
    newest = ground arith

    apart : (k : ℕ) → taken ≤ k → k ≤ length s.sent → order k ≢ p
    apart k a b = owned.outside i p k had a b

    node' : ℕ → Node
    node' = update s.memory.node p (record { next = 0; msg = msg })

    node'_old : (k : ℕ) → taken ≤ k → k ≤ length s.sent → node' (order k) ≡ s.memory.node (order k)
    unfolding node'
    node'_old k a b = ground (arith, apart k a b)

    written : node' p ≡ record { next = 0; msg = msg }
    unfolding node'
    written = ground arith

    others :
        (j a b : ℕ)
        → s.phase j ≡ Phase.linking a b
        → moved s i (Phase.linking s.box.tail p) j ≡ Phase.linking a b
    others j a b h = elim (Bool-cases (j == i)) [
      | inl y ↦ let j' : j ≡ i = ground arith in absurd (let g = rw j' at h in cc)
      | inr ne ↦ rw ne h
    ]

    mine : moved s i (Phase.linking s.box.tail p) i ≡ Phase.linking (order (length s.sent)) p
    mine = ground (arith, list.tail)

    exchange-IsLinked : IsLinked order' taken (exchange s i msg p)
    unfolding exchange node'
    exchange-IsLinked = record {
      sound = ground (arith, list.sound, owned.mine i p had);
      within = omega (arith, list.within, len);
      head = list.head ∙ sym (older taken list.within);
      tail = sym (rw len newest);
      live = λ k a b. elim (dec_lt (length s.sent) k) [
        | yes top ↦
            let k' : k ≡ length s.sent + 1 = omega (arith, len) in
            rw (k', newest) (owned.mine i p had)
        | no low ↦ rw (older k (omega arith)) (list.live k a (omega arith))
      ];
      proper = λ k a b. elim (dec_lt (length s.sent) k) [
        | yes top ↦
            let k' : k ≡ length s.sent + 1 = omega (arith, len) in
            rw (k', newest) (owned.not_null i p had)
        | no low ↦ rw (older k (omega arith)) (list.proper k a (omega arith))
      ];
      apart = λ j k a b c d same. elim (dec_lt (length s.sent) j) [
        | yes top ↦
            let j' : j ≡ length s.sent + 1 = omega (arith, len) in
            elim (dec_lt (length s.sent) k) [
              | yes top' ↦ omega (arith, len)
              | no low ↦ absurd (
                  apart k c (omega arith)
                    (sym (older k (omega arith)) ∙ sym same ∙ ap order' j' ∙ newest))
            ]
        | no low ↦ elim (dec_lt (length s.sent) k) [
          | yes top ↦
              let k' : k ≡ length s.sent + 1 = omega (arith, len) in
              absurd (
                apart j a (omega arith)
                  (sym (older j (omega arith)) ∙ same ∙ ap order' k' ∙ newest))
          | no low' ↦
              list.apart j k a (omega arith) c (omega arith)
                (sym (older j (omega arith)) ∙ same ∙ older k (omega arith))
        ]
      ];
      last = rw (len, newest) (ap (λ x. x.next) written);
      linked = λ k a b. elim (dec_lt k (length s.sent)) [
        | yes low ↦
            rw (older k (omega arith), older (k + 1) (omega arith))
              (elim (list.linked k a low) [
                | inl h ↦ inl (ap (λ x. x.next) (node'_old k a (omega arith)) ∙ h)
                | inr (h, (j, l)) ↦
                    inr (ap (λ x. x.next) (node'_old k a (omega arith)) ∙ h, (j, others j _ _ l))
              ])
        | no top ↦
            let k' : k ≡ length s.sent = omega (arith, len) in
            rw (k', older (length s.sent) (omega arith), newest)
              (inr (
                ap (λ x. x.next) (node'_old (length s.sent) list.within (omega arith)) ∙ list.last,
                (i, mine),
              ))
      ];
      message = λ k a b. elim (dec_lt k (length s.sent)) [
        | yes low ↦
            rw (older (k + 1) (omega arith), get_or-append_old s.sent msg k low)
              (ap (λ x. x.msg) (node'_old (k + 1) (omega arith) (omega arith))
                ∙ list.message k a low)
        | no top ↦
            let k' : k ≡ length s.sent = omega (arith, len) in
            rw (k', newest, get_or-append_new s.sent msg) (ap (λ x. x.msg) written)
      ];
    }

    -- The other threads are where they were.
    before : (q : Phase) (j : ℕ) → j ≢ i → moved s i q j ≡ s.phase j
    before q j ne = ground arith

    private_before :
        (j q : ℕ)
        → private_node (moved s i (Phase.linking s.box.tail p) j) ≡ some q
        → (j ≢ i) × (private_node (s.phase j) ≡ some q)
    private_before j q h = elim (Bool-cases (j == i)) [
      | inl y ↦ absurd (let g = rw y at h in cc)
      | inr ne ↦ (ground arith, rw ne at h)
    ]

    link_before :
        (j a b : ℕ)
        → moved s i (Phase.linking s.box.tail p) j ≡ Phase.linking a b
        → ((j ≡ i) × (a ≡ order (length s.sent)) × (b ≡ p)) ⊎ (s.phase j ≡ Phase.linking a b)
    link_before j a b h = elim (Bool-cases (j == i)) [
      | inl y ↦ let g = rw y at h in inl (ground (arith, list.tail))
      | inr ne ↦ inr (rw ne at h)
    ]

    -- Nobody links from the node that was last.
    last_unlinked : (j b : ℕ) → s.phase j ≢ Phase.linking (order (length s.sent)) b
    last_unlinked j b h =
        let (k, a, c, same, _, _) = owned.linker j _ b h in
        absurd (
          omega
            (arith, list.apart (length s.sent) k list.within (omega arith) a (omega arith) same))

    p_other : (q j : ℕ) → j ≢ i → private_node (s.phase j) ≡ some q → q ≢ p
    p_other q j ne h same = ne (owned.sole j i p (h ∙ ap some same) had)

    exchange-IsOwned : IsOwned order' taken (exchange s i msg p)
    unfolding exchange node'
    exchange-IsOwned = record {
      linker = λ j a b h. elim (link_before j a b h) [
        | inl (x, y, z) ↦ (
          length s.sent,
          list.within,
          omega (arith, len),
          y ∙ sym (older (length s.sent) (omega arith)),
          z ∙ sym newest,
          rw y (ap (λ x. x.next) (node'_old (length s.sent) list.within (omega arith)) ∙ list.last),
        )
        | inr l ↦
            let (k, c, d, x, y, z) = owned.linker j a b l in
            (
              k,
              c,
              omega (arith, len),
              x ∙ sym (older k (omega arith)),
              y ∙ sym (older (k + 1) (omega arith)),
              rw x (
                  ap (λ x. x.next) (node'_old k c (omega arith))
                  ∙ ap (λ q. (s.memory.node q).next) (sym x)
                  ∙ z),
            )
      ];
      lone = λ j k a b c h h'. elim (link_before j a b h) [
        | inl (x, y, z) ↦ elim (link_before k a c h') [
          | inl (x', y', z') ↦ x ∙ sym x'
          | inr l' ↦ absurd (last_unlinked k c (rw y at l'))
        ]
        | inr l ↦ elim (link_before k a c h') [
          | inl (x', y', z') ↦ absurd (last_unlinked j b (rw y' at l))
          | inr l' ↦ owned.lone j k a b c l l'
        ]
      ];
      mine = λ j q h. let (ne, g) = private_before j q h in owned.mine j q g;
      not_null = λ j q h. let (ne, g) = private_before j q h in owned.not_null j q g;
      outside = λ j q k h a b.
          let (ne, g) = private_before j q h in
          elim (dec_lt (length s.sent) k) [
            | yes top ↦
                let k' : k ≡ length s.sent + 1 = omega (arith, len) in
                rw (k', newest) (λ y. p_other q j ne g (sym y))
            | no low ↦ rw (older k (omega arith)) (owned.outside j q k g a (omega arith))
          ];
      sole = λ j k q h h'. owned.sole j k q (private_before j q h).1 (private_before k q h').1;
      old_live = owned.old_live;
      old_outside = λ q k h a b. elim (dec_lt (length s.sent) k) [
        | yes top ↦
            let k' : k ≡ length s.sent + 1 = omega (arith, len) in
            rw (k', newest) (λ y. owned.old_sole i q h (had ∙ ap some y))
        | no low ↦ rw (older k (omega arith)) (owned.old_outside q k h a (omega arith))
      ];
      old_sole = λ j q h h'. owned.old_sole j q h (private_before j q h').1;
    }

    pub exchange-IsValid : IsValid n (exchange s i msg p)
    unfolding exchange
    exchange-IsValid = record {
      order = order';
      taken = taken;
      list = exchange-IsLinked;
      owned = exchange-IsOwned;
      accounted = record {
        held = accounted.held;
        handed =
            accounted.handed
            ∙ sym (
                take-append s.sent (msg ∷ []) (taken - in_hand s.owner)
                  (omega (arith, list.within)));
        hand = λ old m h.
            accounted.hand old m h
            ∙ sym (
                get_or-append_old s.sent msg (taken - 1)
                  (omega (arith, list.within, accounted.held, ap in_hand h)));
      };
      counted = λ h.
          let c = counted h in
          let held =
            rw e at (total-update reserved n i (Phase.linking s.box.tail p) s.phase inside) in
          let over =
            rw e at (total-update overshoot n i (Phase.linking s.box.tail p) s.phase inside) in
          record {
            counted = omega (arith, len, c.counted, held, over);
            bounded = omega (arith, len, c.bounded, held);
            fits = c.fits;
          };
    }
