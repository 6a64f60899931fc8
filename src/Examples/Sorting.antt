-- ===== src/Examples/Sorting.antt =====
-- The levels of two wired nodes.
use cognet.Prelude.{
  ◌≡◌, ◌↔◌, ◌<◌, refl, true, some, arith, IsNodup, flatten, contains, List, [], ◌∷◌, nat_eq,
  list_beq,
}
use cognet.HashMap
use cognet.ListMap.{get_list, push_entry}
use cognet.Result.{ok, err}
use cognet.NodePath.{NodePath, root, child, path_eq, path_beq}
use cognet.NodeStates.{default, bump_structure, get_edge, outgoing_edges_at}
use cognet.NodeStates.Nodes.{add_node}
use cognet.NodeStates.Edges.{add_edge}
use cognet.TopologicalSort.{
  topological_sort, contains_a_cycle, degrees_of, init_degrees, no_degrees, count_all, count_edges,
  count_edge, increment, relax, process_level, sort_levels,
}
use cognet.TopologicalSort.Counting.{initial_queue}
use cognet.TopologicalSort.Dependencies.{Leads}
use cognet.TopologicalSort.Levels.{none_empty}
use cognet.TopologicalSort.Cycle.{Walk, level_of}
use cognet.TopologicalSort.Checked.{checked_sort_levels, topological_sort_in_range}
use cognet.TopologicalSort.Correct.{
  topological_sort_orders, topological_sort_partitions, topological_sort_fails,
  topological_sort_terminates,
}
use cognet.Examples.States.{first, second, wired, wire, wired-IsConsistent}

abbrev both : List NodePath
both = second ∷ first ∷ []

abbrev two_levels : List (List NodePath)
two_levels = (first ∷ []) ∷ (second ∷ []) ∷ []

both_sorted : topological_sort wired both ≡ ok two_levels
unfolding topological_sort degrees_of init_degrees no_degrees count_all count_edges count_edge
    increment relax process_level sort_levels add_edge add_node default bump_structure get_edge
    outgoing_edges_at get_list push_entry root child path_beq list_beq HashMap.get HashMap.insert
    HashMap.remove HashMap.empty HashMap.keys_where
both_sorted = refl

both-IsNodup : IsNodup both
unfolding root child path_beq list_beq
both-IsNodup = (refl, (refl, tt))

wire-Leads : Leads wired both first second
unfolding add_edge add_node default bump_structure get_edge root child path_beq list_beq HashMap.get
    HashMap.insert HashMap.empty
wire-Leads = record {
  id = 100;
  edge = wire;
  there = refl;
  source = refl;
  sink = refl;
  source_in = refl;
  sink_in = refl;
}

topological_sort_orders_example : level_of two_levels first < level_of two_levels second
topological_sort_orders_example =
    topological_sort_orders wired both two_levels first second wired-IsConsistent both-IsNodup
      both_sorted wire-Leads

topological_sort_partitions_example :
    (none_empty two_levels ≡ true)
    × IsNodup (flatten two_levels)
    × ((v : NodePath) → (contains (flatten two_levels) v ≡ true) ↔ (contains both v ≡ true))
topological_sort_partitions_example =
    topological_sort_partitions wired both two_levels wired-IsConsistent both-IsNodup both_sorted

topological_sort_fails_example :
    (topological_sort wired both ≡ err contains_a_cycle)
    ↔ ((v : NodePath) × Walk (Leads wired both) v v)
topological_sort_fails_example = topological_sort_fails wired both wired-IsConsistent both-IsNodup

-- the wired nodes close no cycle
wired_has_no_cycle : ¬ ((v : NodePath) × Walk (Leads wired both) v v)
wired_has_no_cycle p = cc (topological_sort_fails_example.1 p, both_sorted)

topological_sort_terminates_example :
    let m = degrees_of wired both in
    sort_levels 9 m (initial_queue m) ≡ sort_levels 3 m (initial_queue m)
topological_sort_terminates_example =
    topological_sort_terminates wired both 9 wired-IsConsistent both-IsNodup (omega arith)

topological_sort_in_range_example :
    let m = degrees_of wired both in
    checked_sort_levels 3 m (initial_queue m) ≡ some (sort_levels 3 m (initial_queue m))
topological_sort_in_range_example =
    topological_sort_in_range wired both 3 wired-IsConsistent both-IsNodup
