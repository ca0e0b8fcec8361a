-- ===== src/Actor/Supervisor.antt =====
-- Supervisors, src/actor/supervisor.c. Actors are addresses, 0 for NULL. What a supervisor does to
-- other actors is in `effects`, the newest first: the bodies of `sta_actor_terminate`,
-- `sta_actor_send_msg` and `sta_vm_fire_event` are elsewhere. The clock's readings, the actor that
-- `restart_child` makes and the reason that `sta_symbol_intern` gives are arguments.
pub mod Intensity
pub mod Children
pub mod Failure
use smalltalk_a_vm.Prelude.{
  ℕ, zero, suc, ◌+◌, ◌-◌, ◌*◌, ◌%◌, ◌^◌, Bool, true, false, not, ◌&&◌, ◌||◌, Option, none, some,
  List, [], ◌∷◌, length, get_or, set, map, ltb, leb, ◌==◌, if◌then◌else◌,
}
use smalltalk_a_vm.Vm.Oop.{is_smallint, smallint_val, smallint_oop}

pub data RestartStrategy : Type 0 where
  restart : RestartStrategy
  stop : RestartStrategy
  escalate : RestartStrategy

pub record ChildSpec : Type 0 where
  pub behavior_class : ℕ
  pub strategy : RestartStrategy
  pub current_actor : ℕ
  pub current_actor_id : ℕ

pub record SupervisorData : Type 0 where
  pub children : List ChildSpec
  pub child_count : ℕ
  pub restart_count : ℕ
  pub window_start_ns : ℕ
  pub max_restarts : ℕ
  pub max_seconds : ℕ

pub data Effect : Type 0 where
  -- `actor->supervisor = NULL; sta_actor_terminate(actor)`
  terminated : ℕ → Effect
  -- `childFailed:reason:` to the parent.
  escalated : ℕ → ℕ → Effect
  crash_event : Effect

-- The supervisor's actor. `has_vm` and `is_root` are what `supervisor->vm` says.
pub record Supervisor : Type 0 where
  pub actor_id : ℕ
  pub has_parent : Bool
  pub is_root : Bool
  pub is_terminated : Bool
  pub sup_data : SupervisorData
  pub effects : List Effect

abbrev pub no_child : ChildSpec
no_child = record {
  behavior_class = 0;
  strategy = RestartStrategy.stop;
  current_actor = 0;
  current_actor_id = 0;
}

-- `sta_supervisor_init`, where `calloc` succeeds.
unfoldable pub init_data : ℕ → ℕ → SupervisorData
init_data max_restarts max_seconds = record {
  children = [];
  child_count = 0;
  restart_count = 0;
  window_start_ns = 0;
  max_restarts = max_restarts;
  max_seconds = max_seconds;
}

-- `sta_supervisor_add_child`, for the actor that was created.
unfoldable pub add_child : SupervisorData → ℕ → RestartStrategy → ℕ → ℕ → SupervisorData
add_child d behavior_class strategy actor actor_id = record d {
  children =
      record {
        behavior_class = behavior_class;
        strategy = strategy;
        current_actor = actor;
        current_actor_id = actor_id;
      }
      ∷ d.children;
  child_count = (d.child_count + 1) % 2 ^ 32;
}

-- `find_child_by_id`: the position of the spec.
unfoldable pub find_child_by_id : List ChildSpec → ℕ → Option ℕ
find_child_by_id [] actor_id = none
find_child_by_id (spec ∷ specs) actor_id =
    let rest = find_child_by_id specs actor_id in
    if spec.current_actor_id == actor_id
    then some 0
    else elim rest [ none ↦ none | some i ↦ some (suc i) ]

abbrev pub vacate : ChildSpec → ChildSpec
vacate spec = record spec { current_actor = 0; current_actor_id = 0 }

-- `terminate_all_children`
abbrev pub vacate_living : ChildSpec → ChildSpec
vacate_living spec = if spec.current_actor == 0 then spec else vacate spec

abbrev pub terminate : ℕ → List Effect → List Effect
terminate actor effects = if actor == 0 then effects else Effect.terminated actor ∷ effects

unfoldable pub terminate_each : List ChildSpec → List Effect → List Effect
terminate_each [] effects = effects
terminate_each (spec ∷ specs) effects = terminate_each specs (terminate spec.current_actor effects)

unfoldable pub terminate_all_children : Supervisor → Supervisor
terminate_all_children s = record s {
  sup_data = record s.sup_data { children = map vacate_living s.sup_data.children };
  effects = terminate_each s.sup_data.children s.effects;
}

unfoldable pub escalate_to_parent : Supervisor → ℕ → Supervisor
escalate_to_parent s reason =
    if s.has_parent
    then record s { effects = Effect.escalated (smallint_oop s.actor_id) reason ∷ s.effects }
    else s

-- The window of `check_intensity`: the data after the increment.
unfoldable pub count_restart : SupervisorData → ℕ → SupervisorData
count_restart d current =
    let first = if d.restart_count == 0 then record d { window_start_ns = current } else d in
    let elapsed = (current + (2 ^ 64 - first.window_start_ns)) % 2 ^ 64 in
    let window =
      if ltb (first.max_seconds * 1000000000) elapsed
      then record first { restart_count = 0; window_start_ns = current }
      else first in
    record window { restart_count = (window.restart_count + 1) % 2 ^ 32 }

abbrev pub exceeded : SupervisorData → Bool
exceeded d = ltb d.max_restarts d.restart_count

-- `check_intensity`: the supervisor, and whether 0 is returned.
unfoldable pub check_intensity : Supervisor → ℕ → ℕ → ℕ → Supervisor × Bool
check_intensity s current later reason =
    let counted = record s { sup_data = count_restart s.sup_data current } in
    if exceeded counted.sup_data
    then (if s.is_root
        then (
          record counted {
            sup_data = record counted.sup_data { restart_count = 0; window_start_ns = later };
            effects = Effect.crash_event ∷ counted.effects;
          },
          false,
        )
        else (
          record (escalate_to_parent (terminate_all_children counted) reason) {
            is_terminated = true;
          },
          false,
        ))
    else (counted, true)

-- The child's old actor is destroyed, and the spec gets the new one, 0 for none.
unfoldable pub replace_actor : Supervisor → ℕ → ℕ → ℕ → Supervisor
replace_actor s i actor actor_id =
    let spec = get_or s.sup_data.children i no_child in
    record s {
      sup_data = record s.sup_data {
        children =
            set s.sup_data.children i
              (record spec { current_actor = actor; current_actor_id = actor_id });
      };
      effects = terminate spec.current_actor s.effects;
    }

-- The `switch` of `sta_supervisor_handle_failure`; the Bool is whether 0 is returned.
unfoldable pub handle_child :
    Supervisor → ℕ → RestartStrategy → ℕ → ℕ → ℕ → ℕ → ℕ × ℕ → Supervisor × Bool
handle_child s i RestartStrategy.restart reason current later intensity_reason (actor, actor_id) =
    let (checked, allowed) = check_intensity s current later intensity_reason in
    if allowed
    then (replace_actor checked i actor (if actor == 0 then 0 else actor_id), not (actor == 0))
    else (checked, true)
handle_child s i RestartStrategy.stop reason current later intensity_reason created =
    (replace_actor s i 0 0, true)
handle_child s i RestartStrategy.escalate reason current later intensity_reason created =
    (escalate_to_parent (replace_actor s i 0 0) reason, true)

-- `sta_supervisor_handle_failure`: `args` are the child's id and the reason.
unfoldable pub handle_failure : Supervisor → List ℕ → ℕ → ℕ → ℕ → ℕ × ℕ → Supervisor × Bool
handle_failure s args current later intensity_reason created =
    let id_oop = get_or args 0 0 in
    if ltb (length args) 2 || not (is_smallint id_oop)
    then (s, false)
    else elim (find_child_by_id s.sup_data.children (smallint_val id_oop % 2 ^ 32)) [
      | none ↦ (s, true)
      | some i ↦
          let seen =
            if s.is_root then record s { effects = Effect.crash_event ∷ s.effects } else s in
          handle_child seen i (get_or s.sup_data.children i no_child).strategy (get_or args 1 0)
            current later intensity_reason created
    ]
