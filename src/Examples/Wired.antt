-- ===== src/Examples/Wired.antt =====
-- The operations of node_state.rs on two wired nodes.
use cognet.Prelude.{
  ℕ, ◌≡◌, ◌≢◌, ◌↔◌, ◌||◌, ◌==◌, min, refl, some, none, true, [], nat_eq, if◌then◌else◌,
}
use cognet.HashMap
use cognet.HashMap.{holds_at}
use cognet.NodePath.{NodePath, path_eq}
use cognet.Slot.DataType.{DataType}
use cognet.NodeStates.{
  InputSlotState, default, bump_structure, edges_for_input, input_slot, get_edge, node,
  input_slot_count,
}
use cognet.NodeStates.Slots
use cognet.NodeStates.Edges.{add_edge, remove_edge, touches, remove_edges_for_node_at}
use cognet.NodeStates.Nodes.{add_node, remove_node, input_states, output_states}
use cognet.NodeStates.Consistent.{IsConsistent}
use cognet.NodeStates.Effects.Slots.{IsInserted, insert_input_slot_at_outcome}
use cognet.NodeStates.Effects.Cuts.{IsCutOut, remove_input_slot_outcome}
use cognet.NodeStates.Effects.Removals.{
  IsUnknown, IsTornDown, remove_edge_outcome, remove_node_outcome,
}
use cognet.HashSet
use cognet.Edge.{EdgeId}
use cognet.NodeStates.Consistent.Edges.{get-remove_edges_for_node_at}
use cognet.NodeStates.Run.{Reach-default-IsConsistent}
use cognet.Examples.States.{first, second, wire, wired, wired_reached, wired-IsConsistent}

Reach-default-IsConsistent_example : IsConsistent wired
Reach-default-IsConsistent_example = Reach-default-IsConsistent wired wired_reached

get-remove_edges_for_node_at_example :
    HashMap.get (remove_edges_for_node_at wired second).edges 100 ≡ (
      if holds_at (λ id edge. touches second edge) wired.edges 100
      then none
      else HashMap.get wired.edges 100)
get-remove_edges_for_node_at_example = get-remove_edges_for_node_at wired second 100

input_id_fresh : HashMap.get wired.input_slot_owner 50 ≡ none
unfolding add_edge add_node input_states Slots.insert_owners default bump_structure HashMap.get
    HashMap.insert HashMap.empty
input_id_fresh = refl

output_id_fresh : HashMap.get wired.output_slot_owner 50 ≡ none
unfolding add_edge add_node output_states Slots.insert_owners default bump_structure HashMap.get
    HashMap.insert HashMap.empty
output_id_fresh = refl

wired_edge : get_edge wired 100 ≡ some wire
unfolding get_edge add_edge add_node default HashMap.get HashMap.insert HashMap.empty
wired_edge = refl

remove_edge_outcome_example :
    let (t, removed) = remove_edge wired 100 in
    (removed ≡ some wire)
    × IsUnknown t 100
    × ((j : EdgeId) → j ≢ 100 → get_edge t j ≡ get_edge wired j)
    × ((p : NodePath)
        → HashSet.contains t.changed_nodes p
          ≡ ((wire.to_node == p) || HashSet.contains wired.changed_nodes p))
    × IsConsistent t
remove_edge_outcome_example = remove_edge_outcome wired 100 wire wired-IsConsistent wired_edge

remove_node_outcome_example :
    ((remove_node wired first).1 ≡ node wired first)
    × IsTornDown wired (remove_node wired first).0 first
    × IsConsistent (remove_node wired first).0
remove_node_outcome_example = remove_node_outcome wired first wired-IsConsistent

-- the slot that is inserted before the wired one
abbrev new_slot : InputSlotState ℕ
new_slot = record {
  id = 50;
  label = "B";
  data_type = DataType.number;
  max_connections = some 1;
  inspector_visible = true;
  default_value = none;
}

insert_input_slot_at_outcome_example :
    let (t, at) = Slots.insert_input_slot_at wired second 0 "B" DataType.number (some 1) true 50 in
    (at ≡ min 0 (input_slot_count wired second))
    × IsInserted wired t second at new_slot
    × IsConsistent t
insert_input_slot_at_outcome_example =
    insert_input_slot_at_outcome wired second 0 "B" DataType.number (some 1) true 50
      wired-IsConsistent input_id_fresh

remove_input_slot_outcome_example :
    IsCutOut wired (Slots.remove_input_slot wired second 0) second 0
    × (IsConsistent (Slots.remove_input_slot wired second 0) ↔ (
        (slot : InputSlotState ℕ)
        → input_slot wired second 0 ≡ some slot
        → edges_for_input wired slot.id ≡ []))
remove_input_slot_outcome_example = remove_input_slot_outcome wired second 0 wired-IsConsistent
