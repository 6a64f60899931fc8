-- ===== src/Executor/Execute/Traces.antt =====
-- The events of a pass, and what it keeps of them.
use cognet.Prelude.{
  ◌≡◌, refl, Bool, false, ◌||◌, List, [], ◌∷◌, ◌++◌, ◌==◌, arith, contains, contains-append, retain,
}
use cognet.HashMap.{HashMap}
use cognet.HashSet
use cognet.HashSet.{contains-insert}
use cognet.Result.{ok, err}
use cognet.NodePath.{NodePath, path_eq}
use cognet.NodeStates.{NodeStates}
use cognet.NodeGraph.{add_error}
use cognet.NodeImpl.{NodeImpl}
use cognet.Executor.Frontier.{must_execute}
use cognet.Executor.Execute.{
  ExecutionEvent, NodeRun, RunResult, Pass, end_event, run_events, run_nodes, note_failure,
  note_run, note_runs, execute_level, execute_levels,
}

abbrev pub is_start : NodePath → ExecutionEvent → Bool
is_start path (ExecutionEvent.started p) = p == path
is_start path _ = false

abbrev pub is_failure : NodePath → ExecutionEvent → Bool
is_failure path (ExecutionEvent.failed p message) = p == path
is_failure path _ = false

abbrev pub any_event : (ExecutionEvent → Bool) → List ExecutionEvent → Bool
any_event p [] = false
any_event p (e ∷ es) = p e || any_event p es

-- the events name the node as started, or as failed
abbrev pub has_started : List ExecutionEvent → NodePath → Bool
has_started events path = any_event (is_start path) events

abbrev pub has_failed : List ExecutionEvent → NodePath → Bool
has_failed events path = any_event (is_failure path) events

any_event-append :
    (p : ExecutionEvent → Bool) (xs ys : List ExecutionEvent)
    → any_event p (xs ++ ys) ≡ (any_event p xs || any_event p ys)
any_event-append p [] ys = refl
any_event-append p (x ∷ xs) ys = ground (arith, any_event-append p xs ys)

module _ {F : Type 0} (s : NodeStates F) where
  -- a pass over the node states: they stay, and the locals say what the events say
  pub record IsTraced (pass : Pass F) : Type 0 where
    pub states : pass.graph.node_states ≡ s
    pub started : (v : NodePath) → has_started pass.events v ≡ contains pass.executed_node_paths v
    pub failed : (v : NodePath) → has_failed pass.events v ≡ HashSet.contains pass.failed_paths v

  note_result-IsTraced :
      (pass : Pass F) (run : NodeRun) (r : RunResult)
      → run.result ≡ r
      → IsTraced pass
      → IsTraced (note_run pass run)
  unfolding note_run note_failure run_events end_event add_error
  note_result-IsTraced pass run (ok done) e w = rw e record {
    states = w.states;
    started = λ v. ground (
      arith,
      w.started v,
      any_event-append (is_start v) pass.events (run_events run),
      contains-append pass.executed_node_paths (run.path ∷ []) v,
    );
    failed = λ v.
        ground (arith, w.failed v, any_event-append (is_failure v) pass.events (run_events run));
  }
  note_result-IsTraced pass run (err message) e w = rw e record {
    states = w.states;
    started = λ v. ground (
      arith,
      w.started v,
      any_event-append (is_start v) pass.events (run_events run),
      contains-append pass.executed_node_paths (run.path ∷ []) v,
    );
    failed = λ v. ground (
      arith,
      w.failed v,
      any_event-append (is_failure v) pass.events (run_events run),
      contains-insert pass.failed_paths run.path v,
    );
  }

  note_run-IsTraced : (pass : Pass F) (run : NodeRun) → IsTraced pass → IsTraced (note_run pass run)
  note_run-IsTraced pass run w = note_result-IsTraced pass run run.result refl w

  note_runs-IsTraced :
      (pass : Pass F) (runs : List NodeRun) → IsTraced pass → IsTraced (note_runs pass runs)
  unfolding note_runs
  note_runs-IsTraced pass [] w = w
  note_runs-IsTraced pass (run ∷ runs) w =
      note_runs-IsTraced (note_run pass run) runs (note_run-IsTraced pass run w)

  execute_level-IsTraced :
      (nodes : HashMap NodePath (NodeImpl F)) (pass : Pass F) (level : List NodePath)
      → IsTraced pass
      → IsTraced (execute_level nodes pass level)
  unfolding execute_level
  execute_level-IsTraced nodes pass level w =
      let g = pass.graph in
      let ran =
        run_nodes nodes g.node_states (retain (must_execute pass.frontier g.node_states) level)
          g.cache in
      note_runs-IsTraced (record pass { graph = record g { cache = ran.1 } }) ran.0
        (record { states = w.states; started = w.started; failed = w.failed })

  pub execute_levels-IsTraced :
      (nodes : HashMap NodePath (NodeImpl F)) (pass : Pass F) (levels : List (List NodePath))
      → IsTraced pass
      → IsTraced (execute_levels nodes pass levels)
  unfolding execute_levels
  execute_levels-IsTraced nodes pass [] w = w
  execute_levels-IsTraced nodes pass (level ∷ levels) w =
      execute_levels-IsTraced nodes (execute_level nodes pass level) levels
        (execute_level-IsTraced nodes pass level w)
