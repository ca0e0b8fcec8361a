-- ===== src/Actor/Registry/Laws.antt =====
-- `sta_registry_register` as an update of the map, with growth where the table is full.
use smalltalk_a_vm.Prelude.{
  Bool, ◌⊎◌, refl, ℕ, ◌*◌, ◌%◌, ◌^◌, ◌≤◌, ◌<◌, ◌≡◌, ◌≢◌, ap, ◌∙◌, arith, true, false, ◌||◌, some,
  ◌==◌, if◌then◌else◌, inl, inr, Bool-cases,
}
use smalltalk_a_vm.Actor.Registry.{
  Registry, entry_empty, entry_tombstone, register, registry_rehash, needs_grow, lookup, retained,
}
use smalltalk_a_vm.Actor.Registry.Invariant.{IsValid, actor_in}
use smalltalk_a_vm.Actor.Registry.Growth.{registry_rehash-IsValid, live-le-load}
use smalltalk_a_vm.Actor.Registry.Insert.{insert_into-Updated}
use smalltalk_a_vm.Actor.Registry.Answers.{Answers-of_content}

roomy_slack :
    (reg : Registry) → IsValid reg → needs_grow reg ≡ false → reg.used * 10 < reg.capacity * 7
unfolding needs_grow
roomy_slack reg v h = ground arith

grown_slack :
    (reg : Registry)
    → IsValid reg
    → reg.capacity ≤ 2 ^ 28
    → let r = registry_rehash reg (reg.capacity * 2 % 2 ^ 32) in r.used * 10 < r.capacity * 7
unfolding registry_rehash
grown_slack reg v grows = omega (arith, v.counted, v.loaded, live-le-load reg.entries)

full_load :
    (reg : Registry) → IsValid reg → needs_grow reg ≡ true → reg.capacity * 7 ≤ reg.used * 10
unfolding needs_grow
full_load reg v h = ground arith

-- Registering an actor that is not NULL under an id that is no sentinel always ends and keeps the
-- invariant. Where the table is at 70 percent and there is no memory for a wider one, the actor is
-- dropped and the registry is as it was. Elsewhere a lookup of the id returns the actor from then
-- on, with its reference count raised, and a lookup of any other id returns what it did. The
-- capacity is at most 2^28, so that it can still double.
pub register-lookup :
    (reg : Registry) (memory : Bool) (id actor : ℕ)
    → IsValid reg
    → reg.capacity ≤ 2 ^ 28
    → id ≢ entry_empty
    → id ≢ entry_tombstone
    → actor ≢ 0
    → (reg' : Registry) × (register reg memory id actor ≡ some reg')
      × IsValid reg'
      × (((memory ≡ false) × (reg.capacity * 7 ≤ reg.used * 10) × (reg' ≡ reg))
          ⊎ (((memory ≡ true) ⊎ (reg.used * 10 < reg.capacity * 7))
              × ((j : ℕ) (refcounts : ℕ → ℕ)
                  → lookup reg' refcounts j ≡ (
                      if j == id
                      then some (actor, retained refcounts actor)
                      else lookup reg refcounts j))))
unfolding register
register-lookup reg memory id actor v grows a b real = elim (Bool-cases (needs_grow reg)) [
  | inr roomy ↦
      let slack = roomy_slack reg v roomy in
      let (reg', e, u) = insert_into-Updated reg id actor v slack a b in
      (
        reg',
        rw (pass, roomy) e,
        u.valid,
        inr (
          inr slack,
          Answers-of_content reg reg' id actor v u.valid (ap actor_in u.here) u.elsewhere,
        ),
      )
  | inl full ↦ elim (Bool-cases memory) [
    | inr poor ↦ (reg, rw (pass, full, poor) refl, v, inl (poor, full_load reg v full, refl))
    | inl rich ↦
        let r = registry_rehash reg (reg.capacity * 2 % 2 ^ 32) in
        let (v2, same) = registry_rehash-IsValid reg v grows in
        let (reg', e, u) = insert_into-Updated r id actor v2 (grown_slack reg v grows) a b in
        (
          reg',
          rw (pass, full, rich) e,
          u.valid,
          inr (
            inl rich,
            Answers-of_content reg reg' id actor v u.valid (ap actor_in u.here)
                (λ j ne. u.elsewhere j ne ∙ same j),
          ),
        )
  ]
]
  where
    pass : (actor == 0 || id == entry_empty || id == entry_tombstone) ≡ false
    pass = ground arith
