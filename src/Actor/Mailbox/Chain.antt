-- ===== src/Actor/Mailbox/Chain.antt =====
-- The invariant of a mailbox: its nodes in the order in which they were exchanged into `tail`, and
-- who may touch which of them.
use smalltalk_a_vm.Prelude.{
  take, ℕ, ◌+◌, ◌-◌, ◌≤◌, ◌<◌, ◌^◌, ◌≡◌, ◌≢◌, true, false, Option, none, some, List, length, get_or,
  ◌⊎◌,
}
use smalltalk_a_vm.Actor.Mailbox.{Mailbox, Mailbox, Phase, Owner, System}
use smalltalk_a_vm.Actor.Mailbox.Count.{total, overshoot, reserved}

-- The node that a call has allocated and not yet put into the list.
abbrev pub private_node : Phase → Option ℕ
private_node (Phase.checking msg p) = some p
private_node (Phase.rejecting p) = some p
private_node (Phase.ready msg p) = some p
private_node _ = none

-- The node that the owner has taken out and not yet freed.
abbrev pub old_node : Owner → Option ℕ
old_node (Owner.idle msg) = none
old_node (Owner.taking old msg) = some old

abbrev pub in_hand : Owner → ℕ
in_hand (Owner.idle msg) = 0
in_hand (Owner.taking old msg) = 1

-- The first `count` nodes of the list have been taken out; `order` gives the nodes by the order of
-- their exchange, the stub first.
module _ (order : ℕ → ℕ) (taken : ℕ) (s : System) where
  -- The list itself.
  pub record IsLinked : Type 0 where
    pub sound : s.memory.fault ≡ false
    pub within : taken ≤ length s.sent
    pub head : s.box.head ≡ order taken
    pub tail : s.box.tail ≡ order (length s.sent)
    pub live : (k : ℕ) → taken ≤ k → k ≤ length s.sent → s.memory.live (order k) ≡ true
    pub proper : (k : ℕ) → taken ≤ k → k ≤ length s.sent → order k ≢ 0
    pub apart :
        (j k : ℕ)
        → taken ≤ j
        → j ≤ length s.sent
        → taken ≤ k
        → k ≤ length s.sent
        → order j ≡ order k
        → j ≡ k
    pub last : (s.memory.node (order (length s.sent))).next ≡ 0
    pub linked :
        (k : ℕ)
        → taken ≤ k
        → k < length s.sent
        → ((s.memory.node (order k)).next ≡ order (k + 1))
          ⊎ (((s.memory.node (order k)).next ≡ 0)
              × ((i : ℕ) × (s.phase i ≡ Phase.linking (order k) (order (k + 1)))))
    pub message :
        (k : ℕ)
        → taken ≤ k
        → k < length s.sent
        → (s.memory.node (order (k + 1))).msg ≡ get_or s.sent k 0

  -- The threads.
  pub record IsOwned : Type 0 where
    pub linker :
        (i a b : ℕ)
        → s.phase i ≡ Phase.linking a b
        → (k : ℕ) × (taken ≤ k)
          × (k < length s.sent)
          × (a ≡ order k)
          × (b ≡ order (k + 1))
          × ((s.memory.node a).next ≡ 0)
    pub lone :
        (i j a b c : ℕ) → s.phase i ≡ Phase.linking a b → s.phase j ≡ Phase.linking a c → i ≡ j
    pub mine : (i p : ℕ) → private_node (s.phase i) ≡ some p → s.memory.live p ≡ true
    pub not_null : (i p : ℕ) → private_node (s.phase i) ≡ some p → p ≢ 0
    pub outside :
        (i p k : ℕ)
        → private_node (s.phase i) ≡ some p
        → taken ≤ k
        → k ≤ length s.sent
        → order k ≢ p
    pub sole :
        (i j p : ℕ) → private_node (s.phase i) ≡ some p → private_node (s.phase j) ≡ some p → i ≡ j
    pub old_live : (p : ℕ) → old_node s.owner ≡ some p → s.memory.live p ≡ true
    pub old_outside :
        (p k : ℕ) → old_node s.owner ≡ some p → taken ≤ k → k ≤ length s.sent → order k ≢ p
    pub old_sole : (i p : ℕ) → old_node s.owner ≡ some p → private_node (s.phase i) ≢ some p

-- What has been returned.
module _ (taken : ℕ) (owner : Owner) (sent received : List ℕ) where
  pub record IsAccounted : Type 0 where
    pub held : in_hand owner ≤ taken
    pub handed : received ≡ take (taken - in_hand owner) sent
    pub hand : (old msg : ℕ) → owner ≡ Owner.taking old msg → msg ≡ get_or sent (taken - 1) 0

-- The counter, where there is a bound.
module _ (n taken : ℕ) (box : Mailbox) (owner : Owner) (sent : List ℕ) (phase : ℕ → Phase) where
  pub record IsCounted : Type 0 where
    pub counted :
        box.count + taken
        ≡ length sent + in_hand owner + total reserved n phase + total overshoot n phase
    pub bounded : length sent + in_hand owner + total reserved n phase ≤ box.capacity + taken
    pub fits : n + box.capacity < 2 ^ 32

pub record IsValid (n : ℕ) (s : System) : Type 0 where
  pub order : ℕ → ℕ
  pub taken : ℕ
  pub list : IsLinked order taken s
  pub owned : IsOwned order taken s
  pub accounted : IsAccounted taken s.owner s.sent s.received
  pub counted : 0 < s.box.capacity → IsCounted n taken s.box s.owner s.sent s.phase
