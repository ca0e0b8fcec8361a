-- ===== src/Actor/Registry/Answers.antt =====
-- The registry as a map: a change of its content is a change of what lookups return.
use smalltalk_a_vm.Prelude.{ℕ, ◌≡◌, ◌≢◌, arith, some, ◌==◌, if◌then◌else◌, inl, inr, Bool-cases}
use smalltalk_a_vm.Probe.{content}
use smalltalk_a_vm.Actor.Registry.{Registry, lookup, retained}
use smalltalk_a_vm.Actor.Registry.Slot.{slots}
use smalltalk_a_vm.Actor.Registry.Invariant.{IsValid, actor_in, actor_of, lookup-eq-actor_of}

-- A change of the map is a change of what lookups return.
abbrev pub Answers : Registry → Registry → ℕ → ℕ → Type 0
Answers reg reg' id actor =
    (j : ℕ) (refcounts : ℕ → ℕ)
    → lookup reg' refcounts j
      ≡ (if j == id then some (actor, retained refcounts actor) else lookup reg refcounts j)

pub Answers-of_content :
    (reg reg' : Registry) (id actor : ℕ)
    → IsValid reg
    → IsValid reg'
    → actor_in (content slots reg'.entries id) ≡ actor
    → ((j : ℕ) → j ≢ id → content slots reg'.entries j ≡ content slots reg.entries j)
    → Answers reg reg' id actor
unfolding actor_of
Answers-of_content reg reg' id actor v v' here other j refcounts = elim (Bool-cases (j == id)) [
  | inl e ↦
      let same : j ≡ id = ground arith in rw (e, lookup-eq-actor_of reg' refcounts j v', same, here)
  | inr ne ↦ rw (
    ne,
    lookup-eq-actor_of reg' refcounts j v',
    lookup-eq-actor_of reg refcounts j v,
    other j (ground arith),
  )
]
