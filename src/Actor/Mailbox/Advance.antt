-- ===== src/Actor/Mailbox/Advance.antt =====
-- `sta_mailbox_dequeue` up to its new head, and the invariant.
use smalltalk_a_vm.Prelude.{
  ℕ, ◌+◌, ◌-◌, ◌≤◌, ◌<◌, ◌≡◌, ◌≢◌, refl, sym, ap, ◌∙◌, arith, false, length, inl, inr, Bool-cases,
  ◌==◌, not, ◌||◌, dec_lt,
}
use smalltalk_a_vm.Actor.Mailbox.{touch, Owner, System, Node, update, advance}
use smalltalk_a_vm.Actor.Mailbox.Chain.{IsLinked, IsOwned, IsValid, in_hand}
use smalltalk_a_vm.Actor.Mailbox.Keep.{keep-IsLinked}

module _ {n : ℕ} {s : System} (v : IsValid n s) where
  open v use {order, taken, list, owned, accounted, counted}

  pub head_live : touch s.memory s.box.head ≡ false
  head_live = rw list.head (ground (arith, list.sound, list.live taken (omega arith) list.within))

  module _ (m : ℕ) (e : s.owner ≡ Owner.idle m) where
    nothing_held : in_hand s.owner ≡ 0
    nothing_held = rw e

    empty-IsValid : IsValid n (record s {
      memory = record (s.memory) { fault = touch s.memory s.box.head };
      owner = Owner.idle 0;
    })
    empty-IsValid = record {
      order = order;
      taken = taken;
      list =
          keep-IsLinked list (record (s.memory) { fault = touch s.memory s.box.head }) s.box.count
            s.phase _ s.received head_live (λ k a b. refl) list.live (λ j a b h. h);
      owned = record {
        linker = owned.linker;
        lone = owned.lone;
        mine = owned.mine;
        not_null = owned.not_null;
        outside = owned.outside;
        sole = owned.sole;
        old_live = λ p h. cc;
        old_outside = λ p k h. cc;
        old_sole = λ j p h. cc;
      };
      accounted = record {
        held = omega arith;
        handed = rw nothing_held at accounted.handed;
        hand = λ old msg h. cc;
      };
      counted = λ h.
          let c = counted h in
          record {
            counted = omega (arith, c.counted, nothing_held);
            bounded = omega (arith, c.bounded, nothing_held);
            fits = c.fits;
          };
    }

    module _ (more : (s.memory.node s.box.head).next ≢ 0) where
      waiting : taken < length s.sent
      waiting = elim (dec_lt taken (length s.sent)) [
        | yes y ↦ y
        | no z ↦
            let same : taken ≡ length s.sent = omega (arith, list.within) in
            absurd (more (ap (λ a. (s.memory.node a).next) (list.head ∙ ap order same) ∙ list.last))
      ]

      followed : (s.memory.node s.box.head).next ≡ order (taken + 1)
      followed = elim (list.linked taken (omega arith) waiting) [
        | inl h ↦ ap (λ a. (s.memory.node a).next) list.head ∙ h
        | inr (h, _) ↦ absurd (more (ap (λ a. (s.memory.node a).next) list.head ∙ h))
      ]

      taken_node : ℕ → Node
      taken_node =
          update s.memory.node (s.memory.node s.box.head).next
            (record (s.memory.node (s.memory.node s.box.head).next) { msg = 0 })

      links_kept : (a : ℕ) → (taken_node a).next ≡ (s.memory.node a).next
      unfolding taken_node
      links_kept a = ground arith

      messages_kept :
          (k : ℕ)
          → taken + 1 ≤ k
          → k < length s.sent
          → (taken_node (order (k + 1))).msg ≡ (s.memory.node (order (k + 1))).msg
      unfolding taken_node
      messages_kept k a b =
          let ne : (order (k + 1) == (s.memory.node s.box.head).next) ≡ false = ground (
            arith,
            followed,
            list.apart (k + 1) (taken + 1) (omega arith) (omega arith) (omega arith)
                (omega (arith, waiting)),
          ) in
          rw ne

      advanced : System
      advanced = record s {
        memory = record (s.memory) {
          node = taken_node;
          fault = touch s.memory s.box.head || not (s.memory.live (s.memory.node s.box.head).next);
        };
        box = record (s.box) { head = (s.memory.node s.box.head).next };
        owner = Owner.taking s.box.head (s.memory.node (s.memory.node s.box.head).next).msg;
      }

      advanced-IsLinked : IsLinked order (taken + 1) advanced
      unfolding advanced
      advanced-IsLinked = record {
        sound = ground (
          arith,
          head_live,
          followed,
          list.live (taken + 1) (omega arith) (omega (arith, waiting)),
        );
        within = omega (arith, waiting);
        head = followed;
        tail = list.tail;
        live = λ k a b. list.live k (omega arith) b;
        proper = λ k a b. list.proper k (omega arith) b;
        apart = λ j k a b c d. list.apart j k (omega arith) b (omega arith) d;
        last = links_kept (order (length s.sent)) ∙ list.last;
        linked = λ k a b. elim (list.linked k (omega arith) b) [
          | inl h ↦ inl (links_kept (order k) ∙ h)
          | inr (h, l) ↦ inr (links_kept (order k) ∙ h, l)
        ];
        message = λ k a b. messages_kept k a b ∙ list.message k (omega arith) b;
      }

      advanced-IsOwned : IsOwned order (taken + 1) advanced
      unfolding advanced
      advanced-IsOwned = record {
        linker = λ j a b h.
            let (k, c, d, x, y, z) = owned.linker j a b h in
            elim (dec_lt taken k) [
              | yes later ↦ (k, omega arith, d, x, y, links_kept a ∙ z)
              | no first ↦
                  let same : k ≡ taken = omega arith in
                  absurd (
                    more (
                      ap (λ q. (s.memory.node q).next) (list.head ∙ ap order (sym same) ∙ sym x)
                      ∙ z))
            ];
        lone = owned.lone;
        mine = owned.mine;
        not_null = owned.not_null;
        outside = λ j p k h a b. owned.outside j p k h (omega arith) b;
        sole = owned.sole;
        old_live = λ p h.
            let same : p ≡ order taken = ground (arith, list.head) in
            rw same (list.live taken (omega arith) list.within);
        old_outside = λ p k h a b.
            let same : p ≡ order taken = ground (arith, list.head) in
            λ y. absurd (
              omega
                (arith, list.apart k taken (omega arith) b (omega arith) list.within (y ∙ same)));
        old_sole = λ j p h g.
            let same : p ≡ order taken = ground (arith, list.head) in
            owned.outside j p taken g (omega arith) list.within (sym same);
      }

      advanced-IsValid : IsValid n advanced
      unfolding advanced
      advanced-IsValid = record {
        order = order;
        taken = taken + 1;
        list = advanced-IsLinked;
        owned = advanced-IsOwned;
        accounted = record {
          held = omega arith;
          handed =
              let z : taken + 1 - 1 ≡ taken - in_hand s.owner = omega (arith, nothing_held) in
              rw z accounted.handed;
          hand = λ old msg h.
              let z : taken + 1 - 1 ≡ taken = omega arith in
              let g : msg ≡ (s.memory.node (s.memory.node s.box.head).next).msg = ground arith in
              rw z (
                g
                ∙ ap (λ q. (s.memory.node q).msg) followed
                ∙ list.message taken (omega arith) waiting);
        };
        counted = λ h.
            let c = counted h in
            record {
              counted = omega (arith, c.counted, nothing_held);
              bounded = omega (arith, c.bounded, nothing_held);
              fits = c.fits;
            };
      }

    pub advance-IsValid : IsValid n (advance s)
    unfolding advance
    advance-IsValid = elim (Bool-cases ((s.memory.node s.box.head).next == 0)) [
      | inl none_left ↦ rw none_left empty-IsValid
      | inr some_left ↦
          rw some_left (unfold advanced taken_node in (advanced-IsValid (ground arith)))
    ]
