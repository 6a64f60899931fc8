-- ===== src/Executor/Plan.antt =====
-- `build_execution_plan`, the checks of a plan, and the two moves of the change marks around a run.
pub mod Laws
use cognet.Prelude.{
  Bool, true, false, not, Option, none, some, List, [], ◌∷◌, contains, retain, flatten,
  if◌then◌else◌, nat_eq,
}
use cognet.HashMap
use cognet.HashMap.{HashMap}
use cognet.HashSet
use cognet.HashSet.{HashSet}
use cognet.Result.{Result, ok, err}
use cognet.NodePath.{NodeId, NodePath, leaf, is_empty, path_eq}
use cognet.NodeStates.{NodeStates, drain_changed_nodes, restore_changed_nodes}
use cognet.NodeGraph.{NodeGraph}
use cognet.NodeImpl.{NodeImpl, NodeExecutionKind, is_async_io}
use cognet.TopologicalSort.{SortError, topological_sort}
use cognet.Executor.{ExecutionPlan, GraphExecutionError, requires_async_execution, planning_failed}
use cognet.Executor.Closure.{affected_by}

-- paths.filter_map(|p| p.leaf())
unfoldable pub leaves : List NodePath → List NodeId
leaves [] = []
leaves (path ∷ paths) =
    let rest = leaves paths in elim (leaf path) [ none ↦ rest | some id ↦ id ∷ rest ]

abbrev pub empty_plan : List NodeId → ExecutionPlan
empty_plan removed = record {
  seed_nodes = HashSet.empty;
  dirty_nodes = HashSet.empty;
  levels = [];
  planned_node_paths = [];
  removed_nodes = removed;
}

abbrev pub sorted_plan :
    HashSet NodePath → HashSet NodePath → List NodeId → List (List NodePath) → ExecutionPlan
sorted_plan seed_nodes dirty_nodes removed levels = record {
  seed_nodes = seed_nodes;
  dirty_nodes = dirty_nodes;
  levels = levels;
  planned_node_paths = flatten levels;
  removed_nodes = removed;
}

-- .map_err(GraphExecutionError::PlanningFailed)?
unfoldable pub plan_of :
    HashSet NodePath
    → HashSet NodePath
    → List NodeId
    → Result SortError (List (List NodePath))
    → Result GraphExecutionError ExecutionPlan
plan_of seed_nodes dirty_nodes removed (err e) = err (planning_failed e)
plan_of seed_nodes dirty_nodes removed (ok levels) =
    ok (sorted_plan seed_nodes dirty_nodes removed levels)

module _ {F : Type 0} where
  -- `NodeStates::node_ids`
  unfoldable pub node_ids : NodeStates F → List NodeId
  unfolding leaves
  node_ids s = leaves (HashMap.keys_where (λ path node. true) s.nodes)

  -- the removed ids of which no node is alive
  unfoldable pub net_removed : NodeStates F → List NodeId → List NodeId
  unfolding node_ids
  net_removed s removed =
      if is_empty removed then removed else retain (λ id. not (contains (node_ids s) id)) removed

  unfoldable pub plan_changed :
      NodeStates F → List NodeId → Result GraphExecutionError ExecutionPlan
  unfolding affected_by topological_sort plan_of
  plan_changed s removed =
      let changed = s.changed_nodes in
      let dirty = affected_by s changed in
      if is_empty changed.elements
      then ok (empty_plan removed)
      else plan_of changed dirty removed (topological_sort s dirty.elements)

  -- the list of the removed nodes is taken, whatever becomes of the plan
  unfoldable pub build_execution_plan :
      NodeGraph F → Result GraphExecutionError ExecutionPlan × NodeGraph F
  unfolding net_removed plan_changed
  build_execution_plan g = (
    plan_changed g.node_states (net_removed g.node_states g.removed_since_last_execute),
    record g { removed_since_last_execute = [] },
  )

  unfoldable pub commit_plan_drain : NodeGraph F → NodeGraph F
  unfolding drain_changed_nodes
  commit_plan_drain g = record g { node_states = (drain_changed_nodes g.node_states).1 }

  unfoldable pub restore_dirty_for_failed : NodeGraph F → List NodePath → NodeGraph F
  unfolding restore_changed_nodes
  restore_dirty_for_failed g failed_paths =
      if is_empty failed_paths
      then g
      else record g { node_states = restore_changed_nodes g.node_states failed_paths }

  unfoldable pub node_execution_kind :
      NodePath → HashMap NodePath (NodeImpl F) → Option NodeExecutionKind
  node_execution_kind path shared_nodes = elim (HashMap.get shared_nodes path) [
    | none ↦ none
    | some node ↦ some node.execution_kind
  ]

  unfoldable pub is_async_node : HashMap NodePath (NodeImpl F) → NodePath → Bool
  unfolding node_execution_kind
  is_async_node shared_nodes path = elim (node_execution_kind path shared_nodes) [
    | none ↦ false
    | some kind ↦ is_async_io kind
  ]

  unfoldable pub validate_async_in_sync_plan :
      List NodePath → HashMap NodePath (NodeImpl F) → Result {0, 0} GraphExecutionError Unit
  unfolding is_async_node leaves
  validate_async_in_sync_plan executed_paths shared_nodes =
      let async_nodes = leaves (retain (is_async_node shared_nodes) executed_paths) in
      if is_empty async_nodes then ok tt else err (requires_async_execution async_nodes)

  unfoldable pub validate_for_sync :
      ExecutionPlan → HashMap NodePath (NodeImpl F) → Result {0, 0} GraphExecutionError Unit
  unfolding validate_async_in_sync_plan
  validate_for_sync plan shared_nodes =
      validate_async_in_sync_plan plan.planned_node_paths shared_nodes
