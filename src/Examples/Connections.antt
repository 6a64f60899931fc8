-- ===== src/Examples/Connections.antt =====
-- Connecting two nodes, and the errors of a graph.
use cognet.Prelude.{ℕ, ◌≡◌, ◌⊎◌, none, [], nat_eq, list_beq, arith}
use cognet.HashMap
use cognet.ListMap.{get_list}
use cognet.Result.{ok}
use cognet.NodePath.{root, child, path_eq, path_beq}
use cognet.Edge.{Edge}
use cognet.ErrorKind.{ErrorTarget}
use cognet.GraphError.{node_not_found}
use cognet.NodeStates.{default, edges_for_input, input_slot, output_slot}
use cognet.NodeStates.Nodes.{add_node, input_states, output_states}
use cognet.NodeStates.Consistent.{IsConsistent}
use cognet.NodeGraph.{
  NodeGraph, error_for, add_error, clear_errors_for_node, error_for-clear_errors_for_node, About,
}
use cognet.NodeGraph.Connect.{add_edge_with_id, connect_nodes_at_with_id, retarget}
use cognet.NodeGraph.Connect.Laws.{IsResolved}
use cognet.NodeGraph.Connect.Outcome.{
  IsRefused, IsAdded, add_edge_with_id_outcome, connect_nodes_at_with_id-IsConsistent,
}
use cognet.NodeGraph.Connect.Limits.{IsWithinLimits, connect_nodes_at_with_id-IsWithinLimits}
use cognet.Examples.States.{first, second, two_nodes, wire, two_nodes-IsConsistent}

abbrev a_graph : NodeGraph ℕ
a_graph = record {
  node_states = two_nodes;
  cache = record { outputs = HashMap.empty };
  subgraphs = HashMap.empty;
  errors = HashMap.empty;
  removed_since_last_execute = [];
}

wire-IsResolved : IsResolved two_nodes wire
unfolding input_slot output_slot add_node input_states output_states default root child HashMap.get
    HashMap.insert HashMap.empty path_beq list_beq get_list
wire-IsResolved = record { input_end = λ slot h. ground arith; output_end = λ slot h. ground arith }

add_edge_with_id_outcome_example :
    IsRefused a_graph (add_edge_with_id a_graph 100 wire)
    ⊎ ((moved : Edge) × (retarget a_graph wire ≡ ok moved)
        × IsAdded a_graph 100 moved (add_edge_with_id a_graph 100 wire))
add_edge_with_id_outcome_example = add_edge_with_id_outcome a_graph 100 wire

connect_nodes_at_with_id-IsConsistent_example :
    IsConsistent (connect_nodes_at_with_id a_graph 100 first 0 second 0).0.node_states
connect_nodes_at_with_id-IsConsistent_example =
    connect_nodes_at_with_id-IsConsistent a_graph 100 first 0 second 0 two_nodes-IsConsistent

error_for-clear_errors_for_node_example :
    let before = add_error a_graph (node_not_found 1) in
    let after = clear_errors_for_node before 1 in
    (About 1 (ErrorTarget.node 1) → error_for after (ErrorTarget.node 1) ≡ none)
    × (¬ About 1 (ErrorTarget.node 1)
        → error_for after (ErrorTarget.node 1) ≡ error_for before (ErrorTarget.node 1))
error_for-clear_errors_for_node_example =
    error_for-clear_errors_for_node (add_error a_graph (node_not_found 1)) 1 (ErrorTarget.node 1)

-- no slot has a connection
two_nodes-IsWithinLimits : IsWithinLimits two_nodes
unfolding edges_for_input add_node default get_list HashMap.get HashMap.empty
two_nodes-IsWithinLimits = record { at = λ p i slot max h e. omega arith }

connect_nodes_at_with_id-IsWithinLimits_example :
    IsWithinLimits (connect_nodes_at_with_id a_graph 100 first 0 second 0).0.node_states
connect_nodes_at_with_id-IsWithinLimits_example =
    connect_nodes_at_with_id-IsWithinLimits a_graph 100 first 0 second 0 two_nodes-IsConsistent
      two_nodes-IsWithinLimits
