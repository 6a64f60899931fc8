-- ===== src/Executor/Execute.antt =====
-- `execute_node_sync` and the passes over the levels. A panic of a node is an outcome of its run.
-- The nodes of a level run in its order; the callback's events are a list.
pub mod Traces
pub mod Ran
pub mod Writes
pub mod Order
pub mod SameLevel
use cognet.Prelude.{
  ℕ, Bool, true, not, Option, none, some, List, [], ◌∷◌, ◌++◌, String, retain, if◌then◌else◌,
}
use Prim.Native.String.{◌++◌ as concat}
use cognet.HashMap
use cognet.HashMap.{HashMap}
use cognet.HashSet
use cognet.HashSet.{HashSet}
use cognet.Result.{Result, ok, err}
use cognet.NodePath.{NodePath, path_eq}
use cognet.Slot.Data.{Data}
use cognet.ExecutionCache.{ExecutionCache}
use cognet.ExecutionContext.{OutputWriter, set}
use cognet.GraphError.{execution_at_path}
use cognet.NodeStates.{NodeStates}
use cognet.NodeGraph.{NodeGraph, add_error}
use cognet.NodeImpl.{NodeImpl, Outcome, OutputCutoff, returned, panicked}
use cognet.Executor.Frontier.{ChangeFrontier, mark_changed, must_execute}
use cognet.Executor.Context.{build_execution_context, snapshot_outputs}

pub data ExecutionEvent : Type 0 where
  started completed : NodePath → ExecutionEvent
  failed : NodePath → String → ExecutionEvent

abbrev pub RunResult : Type 0
RunResult = Result {0, 0} String Unit

pub record NodeRun : Type 0 where
  pub path : NodePath
  pub result : RunResult
  pub outputs_changed : Bool

-- the text of a caught panic
unfoldable pub outcome_result : Outcome → RunResult
outcome_result (returned result) = result
outcome_result (panicked none) = err "Node panicked"
outcome_result (panicked (some text)) = err (concat "Node panicked: " text)

unfoldable pub end_event : NodePath → RunResult → ExecutionEvent
end_event path (ok done) = ExecutionEvent.completed path
end_event path (err message) = ExecutionEvent.failed path message

module _ {F : Type 0} where
  -- a write that `set` refuses leaves the cache as it is
  unfoldable pub apply_write : OutputWriter → ExecutionCache F → ℕ → Data F → ExecutionCache F
  unfolding set
  apply_write writer cache index d = elim (set writer index d cache) [
    | ok written ↦ written
    | err refused ↦ cache
  ]

  unfoldable pub apply_writes :
      OutputWriter → List (ℕ × Data F) → ExecutionCache F → ExecutionCache F
  unfolding apply_write
  apply_writes writer [] cache = cache
  apply_writes writer ((index, d) ∷ writes) cache =
      apply_writes writer writes (apply_write writer cache index d)

  -- the verdict of the cutoff; a failed node's outputs count as changed
  unfoldable pub cutoff_verdict :
      NodeImpl F → RunResult → List (Option (Data F)) → List (Option (Data F)) → Bool
  cutoff_verdict node (err message) previous current = true
  cutoff_verdict node (ok done) previous current = elim node.output_cutoff [
    | OutputCutoff.enabled ↦ not (node.outputs_equivalent previous current)
    | OutputCutoff.disabled ↦ true
  ]

  -- the run of the entity
  unfoldable pub run_entity :
      NodePath → NodeImpl F → NodeStates F → ExecutionCache F → NodeRun × ExecutionCache F
  unfolding cutoff_verdict outcome_result apply_writes snapshot_outputs build_execution_context
  run_entity path node s cache =
      let ctx = build_execution_context path s cache in
      let effects = node.execute_sync ctx in
      let written = apply_writes ctx.output_writer effects.writes cache in
      let result = outcome_result effects.outcome in
      (
        record {
          path = path;
          result = result;
          outputs_changed =
              cutoff_verdict node result (snapshot_outputs path cache s)
                (snapshot_outputs path written s);
        },
        written,
      )

  unfoldable pub execute_node_sync :
      NodePath
      → HashMap NodePath (NodeImpl F)
      → ExecutionCache F
      → NodeStates F
      → NodeRun × ExecutionCache F
  unfolding run_entity
  execute_node_sync path shared_nodes cache s = elim (HashMap.get shared_nodes path) [
    | none ↦ (record { path = path; result = ok tt; outputs_changed = true }, cache)
    | some node ↦ run_entity path node s cache
  ]

  unfoldable pub run_nodes :
      HashMap NodePath (NodeImpl F)
      → NodeStates F
      → List NodePath
      → ExecutionCache F
      → List NodeRun × ExecutionCache F
  unfolding execute_node_sync
  run_nodes shared_nodes s [] cache = ([], cache)
  run_nodes shared_nodes s (path ∷ paths) cache =
      let (run, cache') = execute_node_sync path shared_nodes cache s in
      let (runs, cache'') = run_nodes shared_nodes s paths cache' in (run ∷ runs, cache'')

unfoldable pub run_events : NodeRun → List ExecutionEvent
unfolding end_event
run_events run = ExecutionEvent.started run.path ∷ end_event run.path run.result ∷ []

-- the locals of `execute_sync_inner`
pub record Pass (F : Type 0) : Type 0 where
  pub graph : NodeGraph F
  pub frontier : ChangeFrontier
  pub executed_node_paths : List NodePath
  pub failed_paths : HashSet NodePath
  pub events : List ExecutionEvent

module _ {F : Type 0} where
  unfoldable pub note_failure : Pass F → NodePath → RunResult → Pass F
  unfolding add_error execution_at_path
  note_failure pass path (ok done) = pass
  note_failure pass path (err message) = record pass {
    graph = add_error pass.graph (execution_at_path path message);
    failed_paths = HashSet.insert pass.failed_paths path;
  }

  unfoldable pub note_run : Pass F → NodeRun → Pass F
  unfolding note_failure mark_changed run_events
  note_run pass run =
      let noted = note_failure pass run.path run.result in
      record noted {
        frontier =
            if run.outputs_changed then mark_changed noted.frontier run.path else noted.frontier;
        executed_node_paths = noted.executed_node_paths ++ run.path ∷ [];
        events = noted.events ++ run_events run;
      }

  unfoldable pub note_runs : Pass F → List NodeRun → Pass F
  unfolding note_run
  note_runs pass [] = pass
  note_runs pass (run ∷ runs) = note_runs (note_run pass run) runs

  unfoldable pub execute_level : HashMap NodePath (NodeImpl F) → Pass F → List NodePath → Pass F
  unfolding note_runs run_nodes must_execute
  execute_level shared_nodes pass level_nodes =
      let g = pass.graph in
      let level_vec = retain (must_execute pass.frontier g.node_states) level_nodes in
      let (runs, cache') = run_nodes shared_nodes g.node_states level_vec g.cache in
      note_runs (record pass { graph = record g { cache = cache' } }) runs

  unfoldable pub execute_levels :
      HashMap NodePath (NodeImpl F) → Pass F → List (List NodePath) → Pass F
  unfolding execute_level
  execute_levels shared_nodes pass [] = pass
  execute_levels shared_nodes pass (level_nodes ∷ levels) =
      execute_levels shared_nodes (execute_level shared_nodes pass level_nodes) levels
