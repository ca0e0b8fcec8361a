-- ===== src/Tests/Supervision.antt =====
-- Supervisors, src/actor/supervisor.c.
use smalltalk_a_vm.Prelude.{◌≡◌, refl, arith, true, false, none, some, List, [], ◌∷◌}
use smalltalk_a_vm.Vm.Oop.{is_smallint, smallint_val}
use smalltalk_a_vm.Actor.Supervisor.{
  RestartStrategy, ChildSpec, SupervisorData, Supervisor, init_data, add_child, find_child_by_id,
  handle_failure,
}
use smalltalk_a_vm.Actor.Supervisor.Intensity.{restarts, intensity_bound}
use smalltalk_a_vm.Actor.Supervisor.Children.{IsValid}
use smalltalk_a_vm.Actor.Supervisor.Failure.{Outcome, failure-Retires}

-- Two children, the actors 160 and 320, known by 7 and 8.
abbrev team : List ChildSpec
team =
    record {
      behavior_class = 48;
      strategy = RestartStrategy.restart;
      current_actor = 160;
      current_actor_id = 7;
    }
    ∷ record {
      behavior_class = 64;
      strategy = RestartStrategy.stop;
      current_actor = 320;
      current_actor_id = 8;
    }
    ∷ []

abbrev boss : Supervisor
boss = record {
  actor_id = 3;
  has_parent = true;
  is_root = false;
  is_terminated = false;
  sup_data = record {
    children = team;
    child_count = 2;
    restart_count = 0;
    window_start_ns = 0;
    max_restarts = 3;
    max_seconds = 5;
  };
  effects = [];
}

team_runs :
    ((add_child (init_data 3 5) 48 RestartStrategy.restart 160 7).child_count ≡ 1)
    × (find_child_by_id team 8 ≡ some 1)
    × (find_child_by_id team 9 ≡ none)
unfolding init_data add_child find_child_by_id
team_runs = (refl, refl, refl)

boss-IsValid : IsValid team
boss-IsValid = record { one = λ k nonzero. ground arith; vacant = refl }

-- The actor 7, as a SmallInt, fails with the reason 9; the actor 480 replaces it as 11.
failure-Retires_example :
    Outcome boss 0 RestartStrategy.restart 1000 1001
      (handle_failure boss (15 ∷ 9 ∷ []) 1000 1001 72 (480, 11)).0
unfolding is_smallint smallint_val find_child_by_id
failure-Retires_example =
    failure-Retires boss (15 ∷ 9 ∷ []) 0 1000 1001 72 480 11 boss-IsValid (omega arith) refl
      (omega arith) refl refl

intensity_bound_example :
    restarts (init_data 3 5) (1000 ∷ 2000 ∷ 5000001000 ∷ [])
    ≡ some (record (init_data 3 5) { restart_count = 3; window_start_ns = 1000 })
unfolding init_data
intensity_bound_example =
    intensity_bound (init_data 3 5) 1000 (2000 ∷ 5000001000 ∷ []) refl (omega arith) (omega arith)
      (omega arith)

abbrev busy : SupervisorData
busy = record (boss.sup_data) { restart_count = 3; window_start_ns = 1000 }
