-- ===== src/Actor/Supervisor/Children.antt =====
-- What a failure does to a supervisor's children.
use smalltalk_a_vm.Prelude.{
  ℕ, zero, suc, ◌+◌, ◌≤◌, ◌<◌, ◌≡◌, ◌≢◌, refl, sym, ◌∙◌, subst, arith, Bool, true, false, not, ◌&&◌,
  ◌||◌, some, List, [], ◌∷◌, length, get_or, set, map, ◌==◌, inl, inr, Bool-cases, Option-cases,
  bit, sum, sum-set, sum_none, ℕ_discrete,
}
use smalltalk_a_vm.Actor.Supervisor.{
  ChildSpec, SupervisorData, Supervisor, Effect, no_child, find_child_by_id, vacate_living,
  terminate, terminate_each, terminate_all_children, escalate_to_parent, count_restart,
  replace_actor,
}

abbrev pub child_at : Supervisor → ℕ → ChildSpec
child_at s i = get_or s.sup_data.children i no_child

-- The children that a failure of actor `k` may mean, and those with an id but no actor.
abbrev pub with_id : ℕ → ChildSpec → ℕ
with_id k spec = bit (spec.current_actor_id == k)

abbrev pub stale : ChildSpec → ℕ
stale spec = bit (spec.current_actor == 0 && not (spec.current_actor_id == 0))

-- Living children have different ids, and a child without an actor has the id 0.
pub record IsValid (specs : List ChildSpec) : Type 0 where
  pub one : (k : ℕ) → k ≢ 0 → sum (with_id k) specs ≤ 1
  pub vacant : sum stale specs ≡ 0

pub find_child_sound :
    (specs : List ChildSpec) (k i : ℕ)
    → find_child_by_id specs k ≡ some i
    → (i < length specs) × ((get_or specs i no_child).current_actor_id ≡ k)
unfolding find_child_by_id
find_child_sound [] k i e = absurd (cc)
find_child_sound (spec ∷ specs) k i e = elim (Bool-cases (spec.current_actor_id == k)) [
  | inl here ↦
      let z : 0 ≡ i = ground arith in
      subst
        (λ j.
          (j < length (spec ∷ specs)) × ((get_or (spec ∷ specs) j no_child).current_actor_id ≡ k))
        z (omega arith, ground arith)
  | inr later ↦ elim (Option-cases (find_child_by_id specs k)) [
    | inl n ↦ absurd (ground arith)
    | inr (j, f) ↦
        let (a, b) = find_child_sound specs k j f in
        let z : suc j ≡ i = ground arith in
        subst
          (λ j.
            (j < length (spec ∷ specs)) × ((get_or (spec ∷ specs) j no_child).current_actor_id ≡ k))
          z (omega arith, b)
  ]
]

-- Emptying the slots of the living.
vacated_ids :
    (specs : List ChildSpec) (k : ℕ)
    → k ≢ 0
    → sum (with_id k) (map vacate_living specs) + 0 ≤ sum stale specs
vacated_ids [] k real = omega arith
vacated_ids (x ∷ xs) k real = ground (arith, vacated_ids xs k real)

vacated_stale : (specs : List ChildSpec) → sum stale (map vacate_living specs) ≤ sum stale specs
vacated_stale [] = omega arith
vacated_stale (x ∷ xs) = ground (arith, vacated_stale xs)

-- Whether the effects have the end of an actor.
abbrev pub ends : ℕ → List Effect → Bool
ends a [] = false
ends a (Effect.terminated b ∷ es) = b == a || ends a es
ends a (Effect.escalated i r ∷ es) = ends a es
ends a (Effect.crash_event ∷ es) = ends a es

ends-terminate : (a b : ℕ) (es : List Effect) → ends a es ≡ true → ends a (terminate b es) ≡ true
ends-terminate a b es h = elim (Bool-cases (b == 0)) [
  | inl e ↦ rw e h
  | inr e ↦ rw e (ground arith)
]

ends_self : (a : ℕ) (es : List Effect) → a ≢ 0 → ends a (terminate a es) ≡ true
ends_self a es real = let ne : (a == 0) ≡ false = ground arith in rw ne (ground arith)

ends_each :
    (specs : List ChildSpec) (a : ℕ) (es : List Effect)
    → ends a es ≡ true
    → ends a (terminate_each specs es) ≡ true
unfolding terminate_each
ends_each [] a es h = h
ends_each (x ∷ xs) a es h =
    ends_each xs a (terminate x.current_actor es) (ends-terminate a x.current_actor es h)

each_ends :
    (specs : List ChildSpec) (i : ℕ) (es : List Effect)
    → i < length specs
    → (get_or specs i no_child).current_actor ≢ 0
    → ends (get_or specs i no_child).current_actor (terminate_each specs es) ≡ true
unfolding terminate_each
each_ends [] i es a real = absurd (omega arith)
each_ends (x ∷ xs) zero es a real =
    ends_each xs x.current_actor (terminate x.current_actor es) (ends_self x.current_actor es real)
each_ends (x ∷ xs) (suc i) es a real =
    each_ends xs i (terminate x.current_actor es) (omega arith) real

-- The failed child's actor is gone, and was ended.
pub record Retired (old : ChildSpec) (specs : List ChildSpec) (effects : List Effect) : Type 0 where
  pub valid : IsValid specs
  pub gone : sum (with_id old.current_actor_id) specs ≡ 0
  pub ended : ends old.current_actor effects ≡ true

abbrev pub Retires : Supervisor → ℕ → Supervisor → Type 0
Retires s i s' = Retired (child_at s i) s'.sup_data.children s'.effects

escalate_data : (s : Supervisor) (reason : ℕ) → (escalate_to_parent s reason).sup_data ≡ s.sup_data
unfolding escalate_to_parent
escalate_data s reason = elim (Bool-cases s.has_parent) [
  | inl e ↦ rw (e, escalate_to_parent) refl
  | inr e ↦ rw (e, escalate_to_parent) refl
]

escalate_ends :
    (s : Supervisor) (reason a : ℕ)
    → ends a s.effects ≡ true
    → ends a (escalate_to_parent s reason).effects ≡ true
unfolding escalate_to_parent
escalate_ends s reason a h = elim (Bool-cases s.has_parent) [
  | inl e ↦ rw (e, escalate_to_parent) h
  | inr e ↦ rw (e, escalate_to_parent) h
]

-- Escalating leaves the children as they are.
pub escalate_keeps :
    (old : ChildSpec) (s : Supervisor) (reason : ℕ)
    → Retired old s.sup_data.children s.effects
    → Retired old
        (escalate_to_parent s reason).sup_data.children
        (escalate_to_parent s reason).effects
escalate_keeps old s reason r = record {
  valid = subst (λ d. IsValid d.children) (sym (escalate_data s reason)) r.valid;
  gone =
      subst (λ d. sum (with_id old.current_actor_id) d.children ≡ 0) (sym (escalate_data s reason))
        r.gone;
  ended = escalate_ends s reason old.current_actor r.ended;
}

module _ (s : Supervisor) (i : ℕ) (v : IsValid s.sup_data.children)
    (inside : i < length s.sup_data.children) (real : (child_at s i).current_actor_id ≢ 0) where
  alive : (child_at s i).current_actor ≢ 0
  alive z = let n = sum_none stale s.sup_data.children i no_child inside v.vacant in ground arith

  pub replaced :
      (actor id : ℕ)
      → (actor ≡ 0 → id ≡ 0)
      → id ≢ (child_at s i).current_actor_id
      → (id ≢ 0 → sum (with_id id) s.sup_data.children ≡ 0)
      → Retires s i (replace_actor s i actor id)
  unfolding replace_actor
  replaced actor id fits other fresh = record {
    valid = record {
      one = λ k nonzero. elim (ℕ_discrete k id) [
        | yes e ↦
            let f =
              subst (λ j. sum (with_id j) s.sup_data.children ≡ 0) (sym e)
                (fresh (λ z. nonzero (e ∙ z))) in
            ground (arith, ids k)
        | no ne ↦ ground (arith, ids k, v.one k nonzero)
      ];
      vacant = stales (ℕ_discrete actor 0);
    };
    gone =
        ground
          (arith, ids (child_at s i).current_actor_id, v.one (child_at s i).current_actor_id real);
    ended = ends_self (child_at s i).current_actor s.effects alive;
  }
    where
      spec : ChildSpec
      spec = record (child_at s i) { current_actor = actor; current_actor_id = id }

      ids :
          (k : ℕ)
          → sum (with_id k) (set s.sup_data.children i spec) + with_id k (child_at s i)
            ≡ sum (with_id k) s.sup_data.children + with_id k spec
      ids k = sum-set (with_id k) s.sup_data.children i spec no_child inside

      stales : Dec (actor ≡ 0) → sum stale (set s.sup_data.children i spec) ≡ 0
      stales (yes z) =
          let y = fits z in
          ground (arith, sum-set stale s.sup_data.children i spec no_child inside, v.vacant)
      stales (no n) =
          ground (arith, sum-set stale s.sup_data.children i spec no_child inside, v.vacant)

  pub emptied : Retires s i (replace_actor s i 0 0)
  emptied = replaced 0 0 (λ z. refl) (λ z. real (sym z)) (λ n. absurd (n refl))

  pub all_vacated : Retires s i (terminate_all_children s)
  unfolding terminate_all_children
  all_vacated = record {
    valid = record {
      one = λ k nonzero. omega (arith, vacated_ids s.sup_data.children k nonzero, v.vacant);
      vacant = omega (arith, vacated_stale s.sup_data.children, v.vacant);
    };
    gone =
        omega
          (arith, vacated_ids s.sup_data.children (child_at s i).current_actor_id real, v.vacant);
    ended = each_ends s.sup_data.children i s.effects inside alive;
  }

-- What counting a restart leaves alone.
pub counted_children : (d : SupervisorData) (t : ℕ) → (count_restart d t).children ≡ d.children
unfolding count_restart
counted_children d t = ground arith
