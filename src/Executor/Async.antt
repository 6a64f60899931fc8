-- ===== src/Executor/Async.antt =====
-- `execute_async_inner`. The futures of a level are prepared from one cache before any of them is
-- awaited; their writes come one future after the other. A future that panics is not modelled.
pub mod Laws
use cognet.Prelude.{Bool, not, Option, none, some, List, [], ◌∷◌, ◌++◌, retain, if◌then◌else◌}
use cognet.HashMap
use cognet.HashMap.{HashMap}
use cognet.Result.{Result, ok, err}
use cognet.NodePath.{NodePath, path_eq, is_empty}
use cognet.ExecutionCache.{ExecutionCache}
use cognet.ExecutionContext.{OutputWriter}
use cognet.NodeStates.{NodeStates}
use cognet.NodeGraph.{NodeGraph}
use cognet.NodeImpl.{NodeImpl, Awaited}
use cognet.Executor.{ExecutionPlan, plan_is_empty, empty_result, empty_result_with_removed}
use cognet.Executor.Plan.{build_execution_plan, is_async_node, restore_dirty_for_failed}
use cognet.Executor.Frontier.{mark_changed, must_execute}
use cognet.Executor.Context.{build_execution_context}
use cognet.Executor.Execute.{
  ExecutionEvent, Pass, apply_writes, end_event, note_failure, note_runs, run_nodes,
}
use cognet.Executor.Collect.{collect_outputs}
use cognet.Executor.Sync.{Executed, stopped, start_pass}

-- a future that waits, with the writer of its context
pub record Prepared (F : Type 0) : Type 0 where
  pub path : NodePath
  pub output_writer : OutputWriter
  pub awaited : Awaited F

abbrev pub started_all : List NodePath → List ExecutionEvent
started_all [] = []
started_all (path ∷ paths) = ExecutionEvent.started path ∷ started_all paths

module _ {F : Type 0} where
  unfoldable pub prepare :
      HashMap NodePath (NodeImpl F) → NodeStates F → ExecutionCache F → NodePath → Prepared F
  unfolding build_execution_context
  prepare shared_nodes s cache path =
      let ctx = build_execution_context path s cache in
      record {
        path = path;
        output_writer = ctx.output_writer;
        awaited = elim (HashMap.get shared_nodes path) [
          | none ↦ record { writes = []; result = err "node entity missing" }
          | some node ↦ node.prepare_async ctx
        ];
      }

  unfoldable pub prepare_all :
      HashMap NodePath (NodeImpl F)
      → NodeStates F
      → ExecutionCache F
      → List NodePath
      → List (Prepared F)
  unfolding prepare
  prepare_all shared_nodes s cache [] = []
  prepare_all shared_nodes s cache (path ∷ paths) =
      prepare shared_nodes s cache path ∷ prepare_all shared_nodes s cache paths

  -- a node that was awaited always counts as changed
  unfoldable pub await_one : Pass F → Prepared F → Pass F
  unfolding note_failure mark_changed end_event apply_writes
  await_one pass prepared =
      let g = pass.graph in
      let written = apply_writes prepared.output_writer prepared.awaited.writes g.cache in
      let result = prepared.awaited.result in
      let noted =
        note_failure (record pass { graph = record g { cache = written } }) prepared.path result in
      record noted {
        frontier = mark_changed noted.frontier prepared.path;
        executed_node_paths = noted.executed_node_paths ++ prepared.path ∷ [];
        events = noted.events ++ end_event prepared.path result ∷ [];
      }

  unfoldable pub await_all : Pass F → List (Prepared F) → Pass F
  unfolding await_one
  await_all pass [] = pass
  await_all pass (prepared ∷ rest) = await_all (await_one pass prepared) rest

  unfoldable pub execute_async_level :
      HashMap NodePath (NodeImpl F) → Pass F → List NodePath → Pass F
  unfolding note_runs run_nodes must_execute await_all prepare_all is_async_node
  execute_async_level shared_nodes pass level_nodes =
      let g = pass.graph in
      let runnable = retain (must_execute pass.frontier g.node_states) level_nodes in
      let sync_paths = retain (λ path. not (is_async_node shared_nodes path)) runnable in
      let async_paths = retain (is_async_node shared_nodes) runnable in
      let (runs, cache') = run_nodes shared_nodes g.node_states sync_paths g.cache in
      let noted = note_runs (record pass { graph = record g { cache = cache' } }) runs in
      await_all (record noted { events = noted.events ++ started_all async_paths })
        (prepare_all shared_nodes noted.graph.node_states noted.graph.cache async_paths)

  unfoldable pub execute_async_levels :
      HashMap NodePath (NodeImpl F) → Pass F → List (List NodePath) → Pass F
  unfolding execute_async_level
  execute_async_levels shared_nodes pass [] = pass
  execute_async_levels shared_nodes pass (level_nodes ∷ levels) =
      execute_async_levels shared_nodes (execute_async_level shared_nodes pass level_nodes) levels

  unfoldable pub execute_async_plan :
      HashMap NodePath (NodeImpl F) → NodeGraph F → ExecutionPlan → Executed F
  unfolding start_pass execute_async_levels restore_dirty_for_failed collect_outputs
  execute_async_plan shared_nodes g plan =
      let done = execute_async_levels shared_nodes (start_pass g plan) plan.levels in
      let restored = restore_dirty_for_failed done.graph done.failed_paths.elements in
      record {
        returned = ok (collect_outputs restored plan done.executed_node_paths);
        graph = restored;
        events = done.events;
      }

  -- `validate_for_async` accepts every plan
  unfoldable pub execute_async_planned :
      HashMap NodePath (NodeImpl F) → NodeGraph F → ExecutionPlan → Executed F
  unfolding execute_async_plan empty_result_with_removed empty_result
  execute_async_planned shared_nodes g plan =
      if plan_is_empty plan
      then stopped g (
          ok (if is_empty plan.removed_nodes then empty_result else empty_result_with_removed plan))
      else execute_async_plan shared_nodes g plan

  unfoldable pub execute_async_inner : HashMap NodePath (NodeImpl F) → NodeGraph F → Executed F
  unfolding execute_async_planned build_execution_plan
  execute_async_inner shared_nodes g =
      let (planned, g') = build_execution_plan g in
      elim planned [
        | err e ↦ stopped g' (err e)
        | ok plan ↦ execute_async_planned shared_nodes g' plan
      ]
