-- ===== src/Vm/Handler/Find.antt =====
-- Which handler an exception finds.
use smalltalk_a_vm.Prelude.{
  ℕ, zero, suc, ◌<◌, ◌≡◌, ◌≢◌, refl, ap, arith, true, false, ◌||◌, none, some, List, [], ◌∷◌, ◌++◌,
  ◌==◌, ◌⊎◌, inl, inr, Bool-cases, Option-cases,
}
use smalltalk_a_vm.Vm.ClassTable.{ClassTable}
use smalltalk_a_vm.Vm.Handler.{
  HandlerEntry, ExecContext, handlers, with_handlers, push, pop, push_ctx, pop_ctx,
  get_signaled_ctx, climb, class_of, is_kind_of, find,
}

-- Pushing a handler puts it on top of the chain that the context uses; popping it gives the context
-- back as it was, and the signaled exception is not touched. While an actor runs, the VM's own chain
-- stays as it is.
pub push-pop :
    (ctx : ExecContext) (entry : HandlerEntry)
    → ((handlers (push_ctx ctx entry)).handler_top ≡ entry ∷ (handlers ctx).handler_top)
      × (pop_ctx (push_ctx ctx entry) ≡ ctx)
      × (get_signaled_ctx (push_ctx ctx entry) ≡ get_signaled_ctx ctx)
      × ((ctx.actor ≡ none) ⊎ ((push_ctx ctx entry).vm ≡ ctx.vm))
unfolding push_ctx pop_ctx push pop handlers with_handlers get_signaled_ctx
push-pop ctx entry = elim (Option-cases ctx.actor) [
  | inl e ↦ rw e (refl, refl, refl, inl refl)
  | inr (a, e) ↦ rw e (refl, refl, refl, inr refl)
]

module _ (class_index superclass : ℕ → ℕ) (nil_oop : ℕ) where
  -- The classes below `target`, itself included.
  pub data Inherits (target : ℕ) : ℕ → Type 0 where
    same : (cls : ℕ) → cls ≢ 0 → cls ≢ nil_oop → cls ≡ target → Inherits target cls
    above :
        (cls : ℕ) → cls ≢ 0 → cls ≢ nil_oop → Inherits target (superclass cls) → Inherits target cls

  stops_here : (target cls : ℕ) → (cls == 0 || cls == nil_oop) ≡ true → ¬ Inherits target cls
  stops_here target cls top (same c a b e) = absurd (ground arith)
  stops_here target cls top (above c a b i) = absurd (ground arith)

  goes_on :
      (target cls : ℕ)
      → (cls == target) ≡ false
      → Inherits target cls
      → Inherits target (superclass cls)
  goes_on target cls later (same c a b e) = absurd (ground arith)
  goes_on target cls later (above c a b i) = i

  module _ (rank : ℕ → ℕ)
      (ranked : (c : ℕ) → c ≢ 0 → c ≢ nil_oop → rank (superclass c) < rank c) where
    climb_decides :
        (fuel cls target : ℕ)
        → rank cls < fuel
        → ((climb class_index superclass nil_oop fuel cls target ≡ some true) × Inherits target cls)
          ⊎ ((climb class_index superclass nil_oop fuel cls target ≡ some false)
              × ¬ Inherits target cls)
    unfolding climb
    climb_decides zero cls target h = absurd (omega arith)
    climb_decides (suc fuel) cls target h = elim (Bool-cases (cls == 0 || cls == nil_oop)) [
      | inl top ↦ inr (rw top refl, stops_here target cls top)
      | inr real ↦ elim (Bool-cases (cls == target)) [
        | inl here ↦
            inl
              (rw (real, here) refl, Inherits.same cls (ground arith) (ground arith) (ground arith))
        | inr later ↦
            elim (climb_decides fuel (superclass cls) target
              (omega (arith, ranked cls (ground arith) (ground arith)))) [
                | inl e ↦
                    let (c, i) = e in
                    inl (rw (real, later) c, Inherits.above cls (ground arith) (ground arith) i)
                | inr e ↦
                    let (c, n) = e in inr (rw (real, later) c, λ i. n (goes_on target cls later i))
              ]
      ]
    ]

    -- An entry that may handle the exception, and one that may not.
    abbrev pub Matches : ClassTable → ℕ → HandlerEntry → Type 0
    Matches ct exception entry =
        (entry.is_ensure ≡ false)
        × Inherits entry.exception_class (class_of class_index superclass nil_oop ct exception)

    abbrev pub NoneMatches : ClassTable → ℕ → List HandlerEntry → Type 0
    NoneMatches ct exception [] = Unit
    NoneMatches ct exception (entry ∷ prev) =
        (¬ Matches ct exception entry) × NoneMatches ct exception prev

    -- With more fuel than the rank of the exception's class, the search ends: it finds the innermost
    -- handler for a class that the exception's class inherits from, passing over `ensure:` entries, or
    -- NULL where the chain has none. Ranks go down from each class to its superclass.
    pub find_innermost :
        (ct : ClassTable) (fuel : ℕ) (chain : List HandlerEntry) (exception : ℕ)
        → rank (class_of class_index superclass nil_oop ct exception) < fuel
        → ((find class_index superclass nil_oop ct fuel chain exception ≡ some none)
            × NoneMatches ct exception chain)
          ⊎ ((before : List HandlerEntry) × (entry : HandlerEntry) × (rest : List HandlerEntry)
              × (find class_index superclass nil_oop ct fuel chain exception ≡ some (some entry))
              × (chain ≡ before ++ (entry ∷ rest))
              × NoneMatches ct exception before
              × Matches ct exception entry)
    unfolding find is_kind_of
    find_innermost ct fuel [] exception h = inl (refl, tt)
    find_innermost ct fuel (entry ∷ prev) exception h =
        let later = find_innermost ct fuel prev exception h in
        elim (Bool-cases entry.is_ensure) [
          | inl e ↦ elim later [
            | inl r ↦ let (f, n) = r in inl (rw e f, (λ m. absurd (ground arith), n))
            | inr r ↦
                let (before, x, rest, f, split, n, m) = r in
                inr (
                  entry ∷ before,
                  x,
                  rest,
                  rw e f,
                  ap (λ c. entry ∷ c) split,
                  (λ m. absurd (ground arith), n),
                  m,
                )
          ]
          | inr e ↦
              elim (climb_decides fuel (class_of class_index superclass nil_oop ct exception)
                entry.exception_class h) [
                  | inl d ↦
                      let (c, i) = d in inr ([], entry, prev, simp (e, c) refl, refl, tt, (e, i))
                  | inr d ↦
                      let (c, alien) = d in
                      elim later [
                        | inl r ↦ let (f, n) = r in inl (rw (e, c) f, (λ m. alien m.1, n))
                        | inr r ↦
                            let (before, x, rest, f, split, n, m) = r in
                            inr (
                              entry ∷ before,
                              x,
                              rest,
                              rw (e, c) f,
                              ap (λ c. entry ∷ c) split,
                              (λ m. alien m.1, n),
                              m,
                            )
                      ]
                ]
        ]
