-- ===== src/Examples/States.antt =====
-- Two nodes, the second with its input slot wired to the output slot of the first.
use cognet.Prelude.{ℕ, ◌+◌, ◌≡◌, refl, none, true, [], ◌∷◌, arith, nat_eq, nat_beq_iff, list_beq}
use cognet.HashMap
use cognet.HashMap.{get-empty}
use cognet.ListMap.{get_list}
use cognet.NodePath.{NodePath, root, child, path_eq, path_beq}
use cognet.Slot.DataType.{DataType}
use cognet.Edge.{Edge}
use cognet.NodeStates.{NodeStates, SlotDef, default, Owner}
use cognet.NodeStates.Slots
use cognet.NodeStates.Edges
use cognet.NodeStates.Nodes
use cognet.NodeStates.Consistent.{IsConsistent, IsAligned, default-IsConsistent}
use cognet.NodeStates.Consistent.Fresh.{IsFresh}
use cognet.NodeStates.Run.{Reach, here, next, node_added, edge_added, Reach-IsConsistent}

abbrev pub number_def : SlotDef
number_def = record {
  label = "Value";
  data_type = DataType.number;
  max_connections = none;
  inspector_visible = true;
}

abbrev pub first : NodePath
first = child root 1

abbrev pub one_node : NodeStates ℕ
one_node =
    Nodes.add_node default first "Number" none none (number_def ∷ []) (number_def ∷ [])
      (λ i. i + 10) (λ i. i + 20)

fresh : (n : ℕ) → IsFresh HashMap.empty (λ i. i + n)
fresh n = record { unused = λ i. get-empty {V = Owner} (i + n); distinct = λ i j e. omega arith }

pub one_node_reached : Reach default one_node
unfolding default get_list HashMap.get HashMap.empty
one_node_reached = next here (
    node_added first "Number" none none (number_def ∷ []) (number_def ∷ []) (λ i. i + 10)
      (λ i. i + 20) refl refl (fresh 10) (fresh 20))

abbrev pub second : NodePath
second = child root 2

abbrev pub two_nodes : NodeStates ℕ
two_nodes =
    Nodes.add_node one_node second "Number" none none (number_def ∷ []) (number_def ∷ [])
      (λ i. i + 30) (λ i. i + 40)

abbrev pub wire : Edge
wire = record {
  from_node = first;
  from_output_slot_index = 0;
  from_output_slot_id = 20;
  to_node = second;
  to_input_slot_index = 0;
  to_input_slot_id = 30;
}

abbrev pub wired : NodeStates ℕ
wired = Edges.add_edge two_nodes 100 wire

pub second_input_bare : get_list one_node.input_slots second ≡ []
unfolding Nodes.add_node default root child HashMap.get HashMap.insert HashMap.empty path_beq
    list_beq get_list
second_input_bare = refl

pub second_output_bare : get_list one_node.output_slots second ≡ []
unfolding Nodes.add_node default root child HashMap.get HashMap.insert HashMap.empty path_beq
    list_beq get_list
second_output_bare = refl

pub input_ids-IsFresh : IsFresh one_node.input_slot_owner (λ i. i + 30)
unfolding Nodes.add_node Nodes.input_states Slots.insert_owners default root child HashMap.get
    HashMap.insert HashMap.empty
input_ids-IsFresh = record {
  unused = λ i. ground (arith, nat_beq_iff 10 (i + 30));
  distinct = λ i j e. omega arith;
}

pub output_ids-IsFresh : IsFresh one_node.output_slot_owner (λ i. i + 40)
unfolding Nodes.add_node Nodes.output_states Slots.insert_owners default root child HashMap.get
    HashMap.insert HashMap.empty
output_ids-IsFresh = record {
  unused = λ i. ground (arith, nat_beq_iff 20 (i + 40));
  distinct = λ i j e. omega arith;
}

two_nodes_reached : Reach default two_nodes
two_nodes_reached = next one_node_reached (
    node_added second "Number" none none (number_def ∷ []) (number_def ∷ []) (λ i. i + 30)
      (λ i. i + 40) second_input_bare second_output_bare input_ids-IsFresh output_ids-IsFresh)

pub wire_fresh : HashMap.get two_nodes.edges 100 ≡ none
unfolding Nodes.add_node default HashMap.get HashMap.empty
wire_fresh = refl

pub wire-IsAligned : IsAligned two_nodes.input_slot_owner two_nodes.output_slot_owner wire
unfolding Nodes.add_node Nodes.input_states Nodes.output_states Slots.insert_owners default
    HashMap.get HashMap.insert HashMap.empty
wire-IsAligned = record { input_end = refl; output_end = refl }

pub wired_reached : Reach default wired
wired_reached = next two_nodes_reached (edge_added 100 wire wire_fresh wire-IsAligned)

pub one_node-IsConsistent : IsConsistent one_node
one_node-IsConsistent = Reach-IsConsistent one_node_reached default-IsConsistent

pub two_nodes-IsConsistent : IsConsistent two_nodes
two_nodes-IsConsistent = Reach-IsConsistent two_nodes_reached default-IsConsistent

pub wired-IsConsistent : IsConsistent wired
wired-IsConsistent = Reach-IsConsistent wired_reached default-IsConsistent
