-- ===== src/Executor/Sync.antt =====
-- `execute_sync_inner`, and the calls of the public interface that lead to it.
pub mod Laws
use cognet.Prelude.{List, [], if◌then◌else◌, nat_eq}
use cognet.HashMap.{HashMap}
use cognet.HashSet
use cognet.Result.{Result, ok, err}
use cognet.NodePath.{NodePath, path_eq, is_empty}
use cognet.NodeGraph.{NodeGraph, clear_execution_errors}
use cognet.NodeImpl.{NodeImpl}
use cognet.Executor.{
  ExecutionPlan, ExecutionResult, GraphExecutionError, plan_is_empty, empty_result,
  empty_result_with_removed,
}
use cognet.Executor.Plan.{
  build_execution_plan, validate_for_sync, commit_plan_drain, restore_dirty_for_failed,
}
use cognet.Executor.Frontier
use cognet.Executor.Execute.{ExecutionEvent, Pass, execute_levels}
use cognet.Executor.Collect.{collect_outputs}

-- what a call returns, the graph after it, and the events of the callback
pub record Executed (F : Type 0) : Type 0 where
  pub returned : Result GraphExecutionError (ExecutionResult F)
  pub graph : NodeGraph F
  pub events : List ExecutionEvent

module _ {F : Type 0} where
  abbrev pub stopped : NodeGraph F → Result GraphExecutionError (ExecutionResult F) → Executed F
  stopped g returned = record { returned = returned; graph = g; events = [] }

  unfoldable pub start_pass : NodeGraph F → ExecutionPlan → Pass F
  unfolding commit_plan_drain clear_execution_errors
  start_pass g plan = record {
    graph = clear_execution_errors (commit_plan_drain g);
    frontier = Frontier.new plan.seed_nodes;
    executed_node_paths = [];
    failed_paths = HashSet.empty;
    events = [];
  }

  -- from the drain of the change marks on
  unfoldable pub execute_plan :
      HashMap NodePath (NodeImpl F) → NodeGraph F → ExecutionPlan → Executed F
  unfolding start_pass execute_levels restore_dirty_for_failed collect_outputs
  execute_plan shared_nodes g plan =
      let done = execute_levels shared_nodes (start_pass g plan) plan.levels in
      let restored = restore_dirty_for_failed done.graph done.failed_paths.elements in
      record {
        returned = ok (collect_outputs restored plan done.executed_node_paths);
        graph = restored;
        events = done.events;
      }

  unfoldable pub execute_planned :
      HashMap NodePath (NodeImpl F) → NodeGraph F → ExecutionPlan → Executed F
  unfolding execute_plan validate_for_sync empty_result_with_removed empty_result
  execute_planned shared_nodes g plan =
      if plan_is_empty plan
      then stopped g (
          ok (if is_empty plan.removed_nodes then empty_result else empty_result_with_removed plan))
      else elim (validate_for_sync plan shared_nodes) [
        | err e ↦ stopped g (err e)
        | ok valid ↦ execute_plan shared_nodes g plan
      ]

  -- the effective mode says on which threads the nodes of a level run
  unfoldable pub execute_sync_inner : HashMap NodePath (NodeImpl F) → NodeGraph F → Executed F
  unfolding execute_planned build_execution_plan
  execute_sync_inner shared_nodes g =
      let (planned, g') = build_execution_plan g in
      elim planned [ err e ↦ stopped g' (err e) | ok plan ↦ execute_planned shared_nodes g' plan ]
