-- ===== src/Examples/Planning.antt =====
-- The plan of two wired nodes.
use cognet.Prelude.{
  ℕ, ◌≡◌, ◌↔◌, ◌<◌, refl, true, [], ◌∷◌, contains, flatten, nat_eq, list_beq, string_eq, IsNodup,
}
use cognet.HashMap
use cognet.HashMap.{HashMap, get-empty}
use cognet.HashSet
use cognet.ListMap.{get_list, push_entry}
use cognet.Result.{ok}
use cognet.NodePath.{NodePath, root, child, path_eq, path_beq, leaf}
use cognet.NodeStates.{
  NodeStates, default, bump_structure, get_edge, outgoing_edges_at, mark_changed,
}
use cognet.NodeStates.Nodes.{add_node}
use cognet.NodeStates.Edges.{add_edge}
use cognet.NodeGraph.{NodeGraph}
use cognet.NodeGraph
use cognet.TopologicalSort.{
  topological_sort, degrees_of, init_degrees, no_degrees, count_all, count_edges, count_edge,
  increment, relax, process_level, sort_levels,
}
use cognet.TopologicalSort.Cycle.{level_of}
use cognet.Executor.{ExecutionPlan}
use cognet.Executor.Closure.{affected_by, collect_affected, closure_fuel, visit, unaffected_sinks}
use cognet.Executor.Closure.Downstream.{Downstream, Feeds, affected_by_iff}
use cognet.Executor.Plan.{
  build_execution_plan, plan_changed, plan_of, net_removed, node_ids, leaves,
}
use cognet.Executor.Plan.Laws.{IsLive, build_execution_plan_removed, build_execution_plan_plans}
use cognet.Executor.Interface.{port_eq}
use cognet.Examples.States.{first, second, wired, wired-IsConsistent}

abbrev pub graph_of : NodeStates ℕ → NodeGraph ℕ
graph_of s = record NodeGraph.new { node_states = s; removed_since_last_execute = 1 ∷ 7 ∷ [] }

abbrev pub wired_plan : ExecutionPlan
wired_plan = record {
  seed_nodes = wired.changed_nodes;
  dirty_nodes = record { elements = first ∷ second ∷ [] };
  levels = (first ∷ []) ∷ (second ∷ []) ∷ [];
  planned_node_paths = first ∷ second ∷ [];
  removed_nodes = 7 ∷ [];
}

pub wired_planned : (build_execution_plan (graph_of wired)).0 ≡ ok wired_plan
unfolding build_execution_plan NodeGraph.new plan_changed plan_of net_removed node_ids leaves leaf
    affected_by collect_affected closure_fuel visit unaffected_sinks topological_sort degrees_of
    init_degrees no_degrees count_all count_edges count_edge increment relax process_level
    sort_levels add_edge add_node default bump_structure get_edge outgoing_edges_at get_list
    push_entry root child path_beq list_beq HashMap.get HashMap.insert HashMap.remove HashMap.empty
    HashMap.keys_where HashSet.contains HashSet.insert HashSet.empty mark_changed
wired_planned = refl

affected_by_iff_example :
    (HashSet.contains (affected_by wired wired.changed_nodes) second ≡ true)
    ↔ Downstream wired wired.changed_nodes second
affected_by_iff_example = affected_by_iff wired wired.changed_nodes second wired-IsConsistent

build_execution_plan_plans_example :
    (wired_plan.planned_node_paths ≡ flatten wired_plan.levels)
    × IsNodup wired_plan.planned_node_paths
    × ((v : NodePath)
        → (contains wired_plan.planned_node_paths v ≡ true)
          ↔ Downstream wired wired.changed_nodes v)
    × ((u v : NodePath)
        → contains wired_plan.planned_node_paths u ≡ true
        → Feeds wired u v
        → level_of wired_plan.levels u < level_of wired_plan.levels v)
build_execution_plan_plans_example =
    build_execution_plan_plans (graph_of wired) wired_plan wired-IsConsistent wired_planned

-- the id 1 has a node again, the id 7 has none
build_execution_plan_removed_example :
    ((contains {A = ℕ} (7 ∷ []) 7 ≡ true)
      ↔ ((contains {A = ℕ} (1 ∷ 7 ∷ []) 7 ≡ true) × ¬ IsLive wired 7))
    × ((build_execution_plan (graph_of wired)).1
        ≡ record (graph_of wired) { removed_since_last_execute = [] })
build_execution_plan_removed_example =
    build_execution_plan_removed (graph_of wired) wired_plan 7 wired_planned
