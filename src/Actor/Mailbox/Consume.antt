-- ===== src/Actor/Mailbox/Consume.antt =====
-- The end of `sta_mailbox_dequeue`, and the invariant.
use smalltalk_a_vm.Prelude.{
  take_next, ℕ, suc, ◌+◌, ◌-◌, ◌≡◌, ◌%◌, ◌^◌, refl, arith, true, false, some, if◌then◌else◌, ltb,
  [], ◌∷◌, ◌++◌,
}
use smalltalk_a_vm.Actor.Mailbox.{touch, Owner, System, finish, release, owner_phase, dequeue_step}
use smalltalk_a_vm.Actor.Mailbox.Chain.{IsOwned, IsValid, old_node, in_hand}
use smalltalk_a_vm.Actor.Mailbox.Keep.{keep-IsLinked}
use smalltalk_a_vm.Actor.Mailbox.Count.{overshoot, total_bound, overshoot-le-one}
use smalltalk_a_vm.Actor.Mailbox.Advance.{advance-IsValid}

module _ {n : ℕ} {s : System} (v : IsValid n s) where
  open v use {order, taken, list, owned, accounted, counted}

  module _ (old msg : ℕ) (e : s.owner ≡ Owner.taking old msg) where
    held_node : old_node s.owner ≡ some old
    held_node = rw e

    holding : in_hand s.owner ≡ 1
    holding = rw e

    old_touch : touch s.memory old ≡ false
    old_touch = ground (arith, list.sound, owned.old_live old held_node)

    count_down : ℕ
    count_down = if ltb 0 s.box.capacity then (s.box.count + (2 ^ 32 - 1)) % 2 ^ 32 else s.box.count

    finish-IsOwned : IsOwned order taken (finish s old msg)
    unfolding finish
    finish-IsOwned = record {
      linker = owned.linker;
      lone = owned.lone;
      mine = λ j p h. ground (arith, owned.mine j p h, owned.old_sole j old held_node);
      not_null = owned.not_null;
      outside = owned.outside;
      sole = owned.sole;
      old_live = λ p h. cc;
      old_outside = λ p k h. cc;
      old_sole = λ j p h. cc;
    }

    pub finish-IsValid : IsValid n (finish s old msg)
    unfolding finish
    finish-IsValid = record {
      order = order;
      taken = taken;
      list =
          keep-IsLinked list (release s.memory old) _ s.phase _ (s.received ++ msg ∷ []) old_touch
            (λ k a b. refl)
            (λ k a b. ground (arith, list.live k a b, owned.old_outside old k held_node a b))
            (λ j a b h. h);
      owned = finish-IsOwned;
      accounted = record {
        held = omega arith;
        handed =
            let z : taken - in_hand s.owner ≡ taken - 1 = omega (arith, holding) in
            let w : taken - 0 ≡ suc (taken - 1) = omega (arith, holding, accounted.held) in
            rw (
              w,
              take_next s.sent (taken - 1) (omega (arith, holding, accounted.held, list.within)),
              accounted.handed,
              z,
              accounted.hand old msg e,
            );
        hand = λ a b h. cc;
      };
      counted = λ h.
          let c = counted h in
          let b : ltb 0 s.box.capacity ≡ true = ground arith in
          rw b (record {
            counted = omega (
              arith,
              c.counted,
              c.bounded,
              list.within,
              holding,
              total_bound overshoot n s.phase overshoot-le-one,
              c.fits,
            );
            bounded = omega (arith, c.bounded, holding);
            fits = c.fits;
          });
    }

  by_owner : (o : Owner) → s.owner ≡ o → IsValid n (owner_phase s o)
  unfolding owner_phase
  by_owner (Owner.idle m) e = advance-IsValid v m e
  by_owner (Owner.taking old msg) e = finish-IsValid old msg e

  pub dequeue_step-IsValid : IsValid n (dequeue_step s)
  unfolding dequeue_step
  dequeue_step-IsValid = by_owner s.owner refl
