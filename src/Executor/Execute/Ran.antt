-- ===== src/Executor/Execute/Ran.antt =====
-- Which nodes a pass runs.
use cognet.Prelude.{
  ◌≡◌, refl, ◌∙◌, ap, sym, append-nil, append_assoc, inl, inr, true, ◌||◌, List, [], ◌∷◌, ◌++◌,
  arith, contains, contains-append, retain, flatten, Bool-cases, Option-cases,
}
use cognet.HashMap
use cognet.HashMap.{HashMap, contains-retain}
use cognet.HashSet
use cognet.HashSet.{contains-insert}
use cognet.Result.{Result-cases}
use cognet.NodePath.{NodePath, path_eq}
use cognet.ExecutionCache.{ExecutionCache}
use cognet.NodeStates.{NodeStates}
use cognet.NodeImpl.{NodeImpl}
use cognet.Executor.Frontier.{must_execute, mark_changed}
use cognet.Executor.Execute.{
  NodeRun, Pass, execute_node_sync, run_entity, run_nodes, note_failure, note_run, note_runs,
  execute_level, execute_levels,
}

abbrev paths_of : List NodeRun → List NodePath
paths_of [] = []
paths_of (run ∷ runs) = run.path ∷ paths_of runs

module _ {F : Type 0} (nodes : HashMap NodePath (NodeImpl F)) where
  execute_node_sync-path :
      (path : NodePath) (cache : ExecutionCache F) (s : NodeStates F)
      → (execute_node_sync path nodes cache s).0.path ≡ path
  unfolding execute_node_sync run_entity
  execute_node_sync-path path cache s = elim (Option-cases (HashMap.get nodes path)) [
    | inl e ↦ rw (execute_node_sync, e) refl
    | inr (node, e) ↦ rw (execute_node_sync, e) refl
  ]

  run_nodes-paths :
      (s : NodeStates F) (paths : List NodePath) (cache : ExecutionCache F)
      → paths_of (run_nodes nodes s paths cache).0 ≡ paths
  unfolding run_nodes
  run_nodes-paths s [] cache = refl
  run_nodes-paths s (path ∷ paths) cache =
      let run = execute_node_sync path nodes cache s in
      rw (execute_node_sync-path path cache s, run_nodes-paths s paths run.1) refl

  note_run-executed :
      (pass : Pass F) (run : NodeRun)
      → ((note_run pass run).executed_node_paths ≡ pass.executed_node_paths ++ run.path ∷ [])
        × ((note_run pass run).frontier.seed ≡ pass.frontier.seed)
  unfolding note_run note_failure mark_changed
  note_run-executed pass run = elim (Result-cases run.result) [
    | inl (done, e) ↦ rw e (refl, ground arith)
    | inr (message, e) ↦ rw e (refl, ground arith)
  ]

  note_runs-executed :
      (pass : Pass F) (runs : List NodeRun)
      → ((note_runs pass runs).executed_node_paths ≡ pass.executed_node_paths ++ paths_of runs)
        × ((note_runs pass runs).frontier.seed ≡ pass.frontier.seed)
  unfolding note_runs
  note_runs-executed pass [] = (sym (append-nil pass.executed_node_paths), refl)
  note_runs-executed pass (run ∷ runs) =
      let (here, seed) = note_run-executed pass run in
      let (later, seeds) = note_runs-executed (note_run pass run) runs in
      (
        later
            ∙ ap (λ l. l ++ paths_of runs) here
            ∙ append_assoc pass.executed_node_paths (run.path ∷ []) (paths_of runs),
        seeds ∙ seed,
      )

  pub execute_level-executed :
      (pass : Pass F) (level : List NodePath)
      → ((execute_level nodes pass level).executed_node_paths
          ≡ pass.executed_node_paths
            ++ retain (must_execute pass.frontier pass.graph.node_states) level)
        × ((execute_level nodes pass level).frontier.seed ≡ pass.frontier.seed)
  unfolding execute_level
  execute_level-executed pass level =
      let g = pass.graph in
      let runnable = retain (must_execute pass.frontier g.node_states) level in
      let ran = run_nodes nodes g.node_states runnable g.cache in
      let (done, seed) =
        note_runs-executed (record pass { graph = record g { cache = ran.1 } }) ran.0 in
      (
        done
            ∙ ap (λ l. pass.executed_node_paths ++ l)
                (run_nodes-paths g.node_states runnable g.cache),
        seed,
      )

  -- what ran before stays, a seed of the levels runs, and nothing else than the levels' nodes does
  pub execute_levels-executed :
      (pass : Pass F) (levels : List (List NodePath)) (v : NodePath)
      → (contains pass.executed_node_paths v ≡ true
          → contains (execute_levels nodes pass levels).executed_node_paths v ≡ true)
        × (contains (flatten levels) v ≡ true
            → HashSet.contains pass.frontier.seed v ≡ true
            → contains (execute_levels nodes pass levels).executed_node_paths v ≡ true)
        × (contains (execute_levels nodes pass levels).executed_node_paths v ≡ true
            → (contains pass.executed_node_paths v || contains (flatten levels) v) ≡ true)
  unfolding execute_levels must_execute
  execute_levels-executed pass [] v = (λ h. h, λ h k. cc, λ h. ground arith)
  execute_levels-executed pass (level ∷ levels) v =
      let test = must_execute pass.frontier pass.graph.node_states in
      let (done, seed) = execute_level-executed pass level in
      let (stays, seeds, only) =
        execute_levels-executed (execute_level nodes pass level) levels v in
      let split = contains-append pass.executed_node_paths (retain test level) v in
      let kept = contains-retain test level v in
      (
        λ h. stays (rw done (ground arith)),
        λ h k. elim (Bool-cases (contains level v)) [
          | inl here ↦ stays (rw done (ground arith))
          | inr later ↦ seeds (ground (arith, contains-append level (flatten levels) v)) (rw seed k)
        ],
        λ h. let o = rw done at only h in ground (arith, contains-append level (flatten levels) v),
      )
