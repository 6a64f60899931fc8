-- ===== src/Examples/Defaults.antt =====
-- A subgraph node with the input proxy inside it, and a default value for both.
use cognet.Prelude.{ℕ, ◌+◌, ◌≡◌, ◌⊎◌, true, false, none, some, [], ◌∷◌, nat_eq, list_beq, refl}
use cognet.HashMap
use cognet.ListMap.{get_list}
use cognet.Result.{ok, err}
use cognet.NodePath.{NodePath, root, child, path_eq, path_beq}
use cognet.Slot.Data.{DataValue}
use cognet.NodeStates.{NodeStates, default, input_slot}
use cognet.NodeStates.Nodes
use cognet.NodeStates.Consistent.{IsConsistent, default-IsConsistent}
use cognet.NodeStates.Run.{Reach, next, node_added, Reach-IsConsistent}
use cognet.NodeGraph.{NodeGraph, subgraph_proxy_ids_at_path}
use cognet.NodeGraph.Connect.{retarget, retarget_input, retarget_output}
use cognet.Edge.{Edge}
use cognet.PathApi.Ends.{edge_external_target}
use cognet.PathApi.Ends.Laws.{edge_external_target-retarget}
use cognet.PathApi.{PathError, write_default_at, input_proxy_at}
use cognet.PathApi.Laws.{IsMirrored, targets_found, write_default_at_outcome}
use cognet.Examples.States.{
  first, second, one_node, number_def, one_node_reached, input_ids-IsFresh, output_ids-IsFresh,
}

abbrev input_proxy : NodePath
input_proxy = child first 7

abbrev a_store : NodeStates ℕ
a_store =
    Nodes.add_node one_node input_proxy "Interface" none none (number_def ∷ []) (number_def ∷ [])
      (λ i. i + 30) (λ i. i + 40)

input_bare : get_list one_node.input_slots input_proxy ≡ []
unfolding Nodes.add_node default root child HashMap.get HashMap.insert HashMap.empty path_beq
    list_beq get_list
input_bare = refl

output_bare : get_list one_node.output_slots input_proxy ≡ []
unfolding Nodes.add_node default root child HashMap.get HashMap.insert HashMap.empty path_beq
    list_beq get_list
output_bare = refl

a_store_reached : Reach default a_store
a_store_reached = next one_node_reached (
    node_added input_proxy "Interface" none none (number_def ∷ []) (number_def ∷ []) (λ i. i + 30)
      (λ i. i + 40) input_bare output_bare input_ids-IsFresh output_ids-IsFresh)

abbrev a_subgraph : NodeGraph ℕ
a_subgraph = record {
  node_states = a_store;
  cache = record { outputs = HashMap.empty };
  subgraphs = record { entries = (first, (7, 8)) ∷ [] };
  errors = HashMap.empty;
  removed_since_last_execute = [];
}

test_targets : targets_found a_store first 0 (input_proxy_at a_subgraph first) ≡ true
unfolding targets_found input_proxy_at Nodes.add_node Nodes.input_states default root child
    HashMap.get HashMap.insert HashMap.empty path_beq list_beq get_list input_slot
test_targets = refl

write_default_at_outcome_example :
    ((targets_found a_store first 0 (input_proxy_at a_subgraph first) ≡ true)
      × ((write_default_at a_subgraph first 0 (some (DataValue.number 5))).1 ≡ ok tt)
      × IsMirrored a_store
          (write_default_at a_subgraph first 0 (some (DataValue.number 5))).0.node_states
          first
          (input_proxy_at a_subgraph first)
          0
          (some (DataValue.number 5))
      × IsConsistent
          (write_default_at a_subgraph first 0 (some (DataValue.number 5))).0.node_states)
    ⊎ ((targets_found a_store first 0 (input_proxy_at a_subgraph first) ≡ false)
        × ((e : PathError) × (write_default_at a_subgraph first 0 (some (DataValue.number 5))
              ≡ (a_subgraph, err e))))
write_default_at_outcome_example =
    write_default_at_outcome a_subgraph first 0 (some (DataValue.number 5))
      (Reach-IsConsistent a_store_reached default-IsConsistent)

-- an edge to the subgraph, and where it goes
abbrev aimed : Edge
aimed = record {
  from_node = second;
  from_output_slot_index = 0;
  from_output_slot_id = 20;
  to_node = first;
  to_input_slot_index = 0;
  to_input_slot_id = 10;
}

abbrev retargeted : Edge
retargeted = record aimed { to_node = input_proxy; to_input_slot_id = 30 }

aimed_retargets : retarget a_subgraph aimed ≡ ok retargeted
unfolding retarget retarget_input retarget_output subgraph_proxy_ids_at_path Nodes.add_node
    Nodes.input_states default root child HashMap.get HashMap.insert HashMap.empty path_beq list_beq
    get_list input_slot
aimed_retargets = refl

first_is_subgraph : subgraph_proxy_ids_at_path a_subgraph (child root 1) ≡ some (7, 8)
unfolding subgraph_proxy_ids_at_path root child HashMap.get path_beq list_beq
first_is_subgraph = refl

edge_external_target-retarget_example : edge_external_target a_subgraph retargeted ≡ some (1, 0)
edge_external_target-retarget_example =
    edge_external_target-retarget a_subgraph aimed retargeted 1 (7, 8) refl first_is_subgraph
      aimed_retargets
