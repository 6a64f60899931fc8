-- ===== src/Executor.antt =====
-- src/node_graph/node_graph_api.rs: the executor. Here are its plans and results, and the choice of
-- the mode; `Closure` and `Plan` make the plan, `Resolve` and `Frontier` read values and decide what
-- runs, `Execute` and `Collect` run the plan. The lock around each part of a graph is never poisoned.
pub mod Closure
pub mod Plan
pub mod Interface
pub mod Resolve
pub mod Frontier
pub mod Context
pub mod Execute
pub mod Collect
pub mod Sync
pub mod Async
use cognet.Prelude.{
  ℕ, ◌||◌, Option, none, List, [], ◌∷◌, String, length, ltb, Bool, ◌&&◌, if◌then◌else◌,
}
use cognet.HashMap
use cognet.HashMap.{HashMap}
use cognet.HashSet.{HashSet}
use cognet.NodePath.{NodeId, NodePath, is_empty}
use cognet.Edge.{EdgeId}
use cognet.Slot.Data.{Data}
use cognet.Result.{Result}
use cognet.TopologicalSort.{SortError}

pub data GraphExecutionError : Type 0 where
  requires_async_execution : List NodeId → GraphExecutionError
  planning_failed : SortError → GraphExecutionError
  execution_failed : String → GraphExecutionError

pub record ExecutionPlan : Type 0 where
  pub seed_nodes : HashSet NodePath
  pub dirty_nodes : HashSet NodePath
  pub levels : List (List NodePath)
  pub planned_node_paths : List NodePath
  pub removed_nodes : List NodeId

-- `ExecutionPlan::is_empty`
unfoldable pub plan_is_empty : ExecutionPlan → Bool
plan_is_empty plan = is_empty plan.planned_node_paths

pub data ExecutionMode : Type 0 where
  sequential parallel : ExecutionMode

pub record EdgeValue (F : Type 0) : Type 0 where
  pub from_node : NodeId
  pub from_slot : ℕ
  pub to_node : NodeId
  pub to_slot : ℕ
  pub data_value : Option (Data F)

pub record NodeError : Type 0 where
  pub message : String

pub record ExecutionResult (F : Type 0) : Type 0 where
  pub node_outputs : HashMap NodePath (List (Option (Data F)))
  pub edge_values : HashMap EdgeId (EdgeValue F)
  pub errors : HashMap NodePath NodeError
  pub removed_nodes : List NodeId

module _ {F : Type 0} where
  -- `ExecutionResult::empty`
  unfoldable pub empty_result : ExecutionResult F
  empty_result = record {
    node_outputs = HashMap.empty;
    edge_values = HashMap.empty;
    errors = HashMap.empty;
    removed_nodes = [];
  }

  -- `ExecutionResult::is_empty`
  unfoldable pub result_is_empty : ExecutionResult F → Bool
  result_is_empty r = is_empty r.node_outputs.entries && is_empty r.removed_nodes

  unfoldable pub empty_result_with_removed : ExecutionPlan → ExecutionResult F
  unfolding empty_result
  empty_result_with_removed plan = record empty_result { removed_nodes = plan.removed_nodes }

abbrev pub parallel_min_plan_nodes : ℕ
parallel_min_plan_nodes = 64

abbrev pub parallel_min_level_width : ℕ
parallel_min_level_width = 4

-- plan.levels.iter().map(Vec::len).max().unwrap_or(0)
unfoldable pub max_width : List (List NodePath) → ℕ
max_width [] = 0
max_width (level ∷ levels) =
    let rest = max_width levels in if ltb (length level) rest then rest else length level

unfoldable pub effective_mode : ExecutionPlan → ExecutionMode → ExecutionMode
unfolding max_width
effective_mode plan ExecutionMode.parallel =
    if ltb (length plan.planned_node_paths) parallel_min_plan_nodes
      || ltb (max_width plan.levels) parallel_min_level_width
    then ExecutionMode.sequential
    else ExecutionMode.parallel
effective_mode plan ExecutionMode.sequential = ExecutionMode.sequential
