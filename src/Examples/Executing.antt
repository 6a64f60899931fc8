-- ===== src/Examples/Executing.antt =====
-- Passes over two nodes, wired and not.
use cognet.Prelude.{
  ℕ, ◌≡◌, ◌≢◌, ◌≤◌, refl, true, false, none, List, Option, some, [], ◌∷◌, arith, contains, nat_eq,
  list_beq, string_eq,
}
use cognet.HashMap
use cognet.HashMap.{HashMap, get-empty, get-insert}
use cognet.HashSet
use cognet.ListMap.{get_list, push_entry}
use cognet.Result.{ok, err}
use cognet.NodePath.{NodePath, root, child, path_eq, path_beq, leaf}
use cognet.Edge.{OutputSlotId}
use cognet.Slot.Data.{Data, number}
use cognet.Slot.DataType.{DataType}
use cognet.ExecutionCache.{ExecutionCache, get_output}
use cognet.NodeStates.{default, bump_structure, get_edge, outgoing_edges_at, mark_changed, node}
use cognet.NodeStates.Nodes.{add_node, input_states}
use cognet.NodeStates.Edges.{add_edge}
use cognet.NodeGraph.{NodeGraph}
use cognet.NodeGraph
use cognet.NodeImpl.{NodeImpl, NodeExecutionKind, Outcome, default_impl, is_async_io}
use cognet.TopologicalSort.{
  topological_sort, degrees_of, init_degrees, no_degrees, count_all, count_edges, count_edge,
  increment, relax, process_level, sort_levels,
}
use cognet.TopologicalSort.Cycle.{level_of}
use cognet.Executor.{ExecutionPlan, ExecutionResult, requires_async_execution, plan_is_empty}
use cognet.Executor.Closure.{affected_by, collect_affected, closure_fuel, visit, unaffected_sinks}
use cognet.Executor.Plan.{
  build_execution_plan, plan_changed, plan_of, net_removed, node_ids, leaves, validate_for_sync,
  validate_async_in_sync_plan, is_async_node, node_execution_kind,
}
use cognet.Executor.Interface.{is_interface, walk_fuel, port_eq}
use cognet.Executor.Resolve.{resolve_value, resolve_value_through_interface}
use cognet.Executor.Resolve.Laws.{
  Delivers, resolve_value_terminates, resolve_value_through_interface-Delivers,
}
use cognet.Executor.Execute.{execute_node_sync, execute_levels}
use cognet.Executor.Execute.Traces.{has_started, has_failed}
use cognet.Executor.Execute.SameLevel.{execute_node_sync_same_level}
use cognet.Executor.Collect.{collect_outputs}
use cognet.Executor.Collect.Shown.{IsShown}
use cognet.Executor.Sync.{execute_sync_inner, execute_planned, execute_plan, start_pass}
use cognet.Executor.Sync.Laws.{
  execute_sync_inner_rejects, execute_plan_dirty, execute_plan_starts, execute_plan_outputs,
}
use cognet.Examples.Planning.{graph_of, wired_plan}
use cognet.Executor.Async.{execute_async_inner}
use cognet.Executor.Async.Laws.{AllSync, execute_async_inner_sync}
use cognet.Examples.States.{first, second, wired, two_nodes, two_nodes-IsConsistent}

abbrev waits : NodeImpl ℕ
waits = record (default_impl "no sync" "no async") { execution_kind = NodeExecutionKind.async_io }

abbrev waiting_nodes : HashMap NodePath (NodeImpl ℕ)
waiting_nodes = HashMap.insert HashMap.empty second waits

rejected :
    (execute_sync_inner waiting_nodes (graph_of wired)).returned
    ≡ err (requires_async_execution (2 ∷ []))
unfolding execute_sync_inner build_execution_plan NodeGraph.new plan_changed plan_of net_removed
    node_ids leaves leaf affected_by collect_affected closure_fuel visit unaffected_sinks
    topological_sort degrees_of init_degrees no_degrees count_all count_edges count_edge increment
    relax process_level sort_levels add_edge add_node default bump_structure get_edge
    outgoing_edges_at get_list push_entry root child path_beq list_beq HashMap.get HashMap.insert
    HashMap.remove HashMap.empty HashMap.keys_where HashSet.contains HashSet.insert HashSet.empty
    mark_changed execute_planned plan_is_empty validate_for_sync validate_async_in_sync_plan
    is_async_node node_execution_kind is_async_io default_impl
rejected = refl

-- the removed ids are gone after the refusal
execute_sync_inner_rejects_example :
    ((execute_sync_inner waiting_nodes (graph_of wired)).graph
      ≡ record (graph_of wired) { removed_since_last_execute = [] })
    × ((execute_sync_inner waiting_nodes (graph_of wired)).events ≡ [])
execute_sync_inner_rejects_example =
    execute_sync_inner_rejects waiting_nodes (graph_of wired) (requires_async_execution (2 ∷ []))
      rejected

-- a node that writes the number 5, and one that has no `execute_sync`
abbrev five : NodeImpl ℕ
five = record (default_impl "no sync" "no async") {
  execute_sync = λ ctx. record {
    writes = (0, record { value = number 5; data_type = DataType.number }) ∷ [];
    outcome = Outcome.returned (ok tt);
  };
}

abbrev nodes : HashMap NodePath (NodeImpl ℕ)
nodes =
    HashMap.insert (HashMap.insert HashMap.empty first five) second
      (default_impl "no sync" "no async")

execute_plan_dirty_example :
    let after = execute_plan nodes (graph_of wired) wired_plan in
    HashSet.contains after.graph.node_states.changed_nodes second ≡ has_failed after.events second
execute_plan_dirty_example = execute_plan_dirty nodes (graph_of wired) wired_plan second

execute_plan_starts_example :
    let after = execute_plan nodes (graph_of wired) wired_plan in
    (contains (first ∷ second ∷ []) first ≡ true
      → HashSet.contains wired.changed_nodes first ≡ true
      → has_started after.events first ≡ true)
    × (has_started after.events first ≡ true → contains (first ∷ second ∷ []) first ≡ true)
execute_plan_starts_example = execute_plan_starts nodes (graph_of wired) wired_plan first

abbrev done : NodeGraph ℕ
done = (execute_plan nodes (graph_of wired) wired_plan).graph

abbrev collected : ExecutionResult ℕ
collected =
    collect_outputs done wired_plan
      (execute_levels nodes (start_pass (graph_of wired) wired_plan)
        wired_plan.levels).executed_node_paths

plan_returns : (execute_plan nodes (graph_of wired) wired_plan).returned ≡ ok collected
unfolding execute_plan
plan_returns = refl

execute_plan_outputs_example :
    let after = execute_plan nodes (graph_of wired) wired_plan in
    (has_started after.events first ≡ false → HashMap.get collected.node_outputs first ≡ none)
    × (has_started after.events first ≡ true
        → (values : List (Option (Data ℕ))) × (HashMap.get collected.node_outputs first
            ≡ some values)
          × IsShown after.graph.node_states after.graph.cache first values)
execute_plan_outputs_example =
    execute_plan_outputs nodes (graph_of wired) wired_plan collected first plan_returns

abbrev cache : ExecutionCache ℕ
cache = record { outputs = HashMap.empty }

abbrev apart_plan : ExecutionPlan
apart_plan = record {
  seed_nodes = two_nodes.changed_nodes;
  dirty_nodes = record { elements = first ∷ second ∷ [] };
  levels = (second ∷ first ∷ []) ∷ [];
  planned_node_paths = second ∷ first ∷ [];
  removed_nodes = 7 ∷ [];
}

apart_planned : (build_execution_plan (graph_of two_nodes)).0 ≡ ok apart_plan
unfolding build_execution_plan NodeGraph.new plan_changed plan_of net_removed node_ids leaves leaf
    affected_by collect_affected closure_fuel visit unaffected_sinks topological_sort degrees_of
    init_degrees no_degrees count_all count_edges count_edge increment relax process_level
    sort_levels add_node default bump_structure get_edge outgoing_edges_at get_list push_entry root
    child path_beq list_beq HashMap.get HashMap.insert HashMap.remove HashMap.empty
    HashMap.keys_where HashSet.contains HashSet.insert HashSet.empty mark_changed
apart_planned = refl

first_is_not_second : first ≢ second
unfolding root child path_beq list_beq
first_is_not_second e = absurd (cc ((path_eq.beq_iff first second).1 e))

both_planned :
    (contains apart_plan.planned_node_paths first ≡ true)
    × (contains apart_plan.planned_node_paths second ≡ true)
    × (level_of apart_plan.levels first ≡ level_of apart_plan.levels second)
unfolding root child path_beq list_beq
both_planned = (refl, refl, refl)

execute_node_sync_same_level_example :
    let (p_first, after_p) = execute_node_sync first nodes cache two_nodes in
    let (q_second, after_pq) = execute_node_sync second nodes after_p two_nodes in
    let (q_first, after_q) = execute_node_sync second nodes cache two_nodes in
    let (p_second, after_qp) = execute_node_sync first nodes after_q two_nodes in
    (p_first ≡ p_second)
    × (q_first ≡ q_second)
    × ((id : OutputSlotId) → get_output after_pq id ≡ get_output after_qp id)
execute_node_sync_same_level_example =
    execute_node_sync_same_level (graph_of two_nodes) apart_plan nodes first second cache
      two_nodes-IsConsistent apart_planned both_planned.0 both_planned.1 both_planned.2
      first_is_not_second

fuel_is_enough : walk_fuel wired ≤ 9
unfolding walk_fuel add_edge add_node default bump_structure get_list push_entry root child path_beq
    list_beq input_states HashMap.get HashMap.insert HashMap.empty HashMap.keys_where
fuel_is_enough = omega arith

resolve_value_terminates_example :
    (resolve_value 9 wired cache first 0 20 HashSet.empty).0
    ≡ resolve_value_through_interface wired cache first 0 20
resolve_value_terminates_example = resolve_value_terminates wired 9 cache first 0 20 fuel_is_enough

abbrev a_number : Data ℕ
a_number = record { value = number 5; data_type = DataType.number }

abbrev filled : ExecutionCache ℕ
filled = record { outputs = HashMap.insert HashMap.empty 20 a_number }

resolved : resolve_value_through_interface wired filled first 0 20 ≡ some a_number
unfolding resolve_value_through_interface resolve_value is_interface node walk_fuel get_output
    add_edge add_node default bump_structure get_list push_entry root child path_beq list_beq
    HashMap.get HashMap.insert HashMap.empty HashMap.keys_where HashSet.contains HashSet.empty
    HashSet.insert
resolved = refl

resolve_value_through_interface-Delivers_example : Delivers wired filled a_number first 0 20
resolve_value_through_interface-Delivers_example =
    resolve_value_through_interface-Delivers wired filled first 0 20 a_number resolved

nodes-AllSync : AllSync nodes
unfolding is_async_node node_execution_kind is_async_io default_impl
nodes-AllSync path = ground (
  arith,
  get-insert (HashMap.insert HashMap.empty first five) second (default_impl "no sync" "no async")
      path,
  get-insert HashMap.empty first five path,
  get-empty {V = NodeImpl ℕ} path,
)

execute_async_inner_sync_example :
    execute_async_inner nodes (graph_of wired) ≡ execute_sync_inner nodes (graph_of wired)
execute_async_inner_sync_example = execute_async_inner_sync nodes (graph_of wired) nodes-AllSync
