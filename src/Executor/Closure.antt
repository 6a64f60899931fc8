-- ===== src/Executor/Closure.antt =====
-- The breadth-first search of `build_execution_plan`: what is downstream of the changed nodes.
pub mod Rounds
pub mod Downstream
use cognet.Prelude.{
  ℕ, zero, suc, ◌+◌, true, none, some, List, [], ◌∷◌, ◌++◌, if◌then◌else◌, length, nat_eq,
}
use cognet.HashMap
use cognet.HashMap.{HashMap, contains-keys_where}
use cognet.HashSet
use cognet.HashSet.{HashSet, contains-insert, contains-empty, IsNodup-insert}
use cognet.NodePath.{NodePath, path_eq}
use cognet.Edge.{EdgeId}
use cognet.NodeStates.{NodeStates, get_edge, outgoing_edges_at}

module _ {F : Type 0} where
  -- the sinks of the edges that are not affected yet
  unfoldable pub unaffected_sinks : NodeStates F → HashSet NodePath → List EdgeId → List NodePath
  unaffected_sinks s affected [] = []
  unaffected_sinks s affected (edge_id ∷ edge_ids) =
      let rest = unaffected_sinks s affected edge_ids in
      elim (get_edge s edge_id) [
        | none ↦ rest
        | some edge ↦ if HashSet.contains affected edge.to_node then rest else edge.to_node ∷ rest
      ]

  -- the body of `while let Some(path) = queue.pop_front()`
  unfoldable pub visit :
      NodeStates F → HashSet NodePath → NodePath → List NodePath → HashSet NodePath × List NodePath
  unfolding unaffected_sinks
  visit s affected path queue =
      if HashSet.contains affected path
      then (affected, queue)
      else let affected' = HashSet.insert affected path in
        (affected', queue ++ unaffected_sinks s affected' (outgoing_edges_at s path))

  unfoldable pub collect_affected :
      ℕ → NodeStates F → HashSet NodePath → List NodePath → HashSet NodePath
  unfolding visit
  collect_affected zero s affected queue = affected
  collect_affected (suc fuel) s affected [] = affected
  collect_affected (suc fuel) s affected (path ∷ queue) =
      let (affected', queue') = visit s affected path queue in
      collect_affected fuel s affected' queue'

  -- the number of edges that leave the sources that are not affected yet
  abbrev pub edges_left : NodeStates F → HashSet NodePath → List NodePath → ℕ
  edges_left s affected [] = 0
  edges_left s affected (path ∷ paths) =
      let rest = edges_left s affected paths in
      if HashSet.contains affected path then rest else length (outgoing_edges_at s path) + rest

  abbrev pub sources : NodeStates F → List NodePath
  sources s = HashMap.keys_where (λ path ids. true) s.outgoing_edges

  -- the fuel: each round takes a path off the queue, and each edge puts one there at most once
  unfoldable pub closure_fuel : NodeStates F → List NodePath → ℕ
  closure_fuel s changed = suc (length changed + edges_left s HashSet.empty (sources s))

  unfoldable pub affected_by : NodeStates F → HashSet NodePath → HashSet NodePath
  unfolding collect_affected closure_fuel
  affected_by s changed =
      collect_affected (closure_fuel s changed.elements) s HashSet.empty changed.elements
