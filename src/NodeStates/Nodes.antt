-- ===== src/NodeStates/Nodes.antt =====
-- src/node_graph/node_state.rs: `add_node` and `remove_node`. The ids that `InputSlotId::new()`
-- and `OutputSlotId::new()` return, in the order of the calls, are the arguments `input_ids` and
-- `output_ids`.
use cognet.Prelude.{ℕ, suc, Option, none, List, [], ◌∷◌, String, nat_eq}
use cognet.HashMap
use cognet.HashSet
use cognet.ListMap.{get_list}
use cognet.NodePath.{NodePath, path_eq}
use cognet.PathIndex
use cognet.Slot.Data.{Data}
use cognet.NodeStates.{
  NodeStates, NodeState, InputSlotState, OutputSlotState, SlotDef, RustTypeId, bump_structure,
}
use cognet.NodeStates.Slots.{insert_owners, remove_owners, input_id, output_id}
use cognet.NodeStates.Edges.{remove_edges_for_node_at}

-- the slots of the definitions, the i-th with the i-th id from `i` on
unfoldable pub input_states : {F : Type 0} → (ℕ → ℕ) → ℕ → List SlotDef → List (InputSlotState F)
input_states ids i [] = []
input_states ids i (def ∷ defs) =
    record {
      id = ids i;
      label = def.label;
      data_type = def.data_type;
      max_connections = def.max_connections;
      inspector_visible = def.inspector_visible;
      default_value = none;
    }
    ∷ input_states ids (suc i) defs

unfoldable pub output_states : (ℕ → ℕ) → ℕ → List SlotDef → List OutputSlotState
output_states ids i [] = []
output_states ids i (def ∷ defs) =
    record { id = ids i; label = def.label; data_type = def.data_type }
    ∷ output_states ids (suc i) defs

module _ {F : Type 0} where
  unfoldable pub add_node :
      NodeStates F
      → NodePath
      → String
      → Option RustTypeId
      → Option (Data F)
      → List SlotDef
      → List SlotDef
      → (ℕ → ℕ)
      → (ℕ → ℕ)
      → NodeStates F
  unfolding bump_structure insert_owners input_states output_states
  add_node s path type_name type_id default_data input_defs output_defs input_ids output_ids =
      let inputs : List (InputSlotState F) = input_states input_ids 0 input_defs in
      let outputs = output_states output_ids 0 output_defs in
      let b = bump_structure s in
      record b {
        path_index = PathIndex.insert s.path_index path;
        nodes =
            HashMap.insert s.nodes path
              (record { type_name = type_name; rust_type_id = type_id; node_data = default_data });
        input_slot_owner = insert_owners input_id path 0 inputs s.input_slot_owner;
        input_slots = HashMap.insert s.input_slots path inputs;
        output_slot_owner = insert_owners output_id path 0 outputs s.output_slot_owner;
        output_slots = HashMap.insert s.output_slots path outputs;
        changed_nodes = HashSet.insert s.changed_nodes path;
      }

  -- after the edges: the slots, their owners, and the state that is returned
  unfoldable pub drop_slots : NodeStates F → NodePath → NodeStates F
  unfolding remove_owners
  drop_slots s path = record s {
    input_slots = HashMap.remove s.input_slots path;
    input_slot_owner = remove_owners input_id (get_list s.input_slots path) s.input_slot_owner;
    output_slots = HashMap.remove s.output_slots path;
    output_slot_owner = remove_owners output_id (get_list s.output_slots path) s.output_slot_owner;
    nodes = HashMap.remove s.nodes path;
  }

  unfoldable pub remove_node : NodeStates F → NodePath → NodeStates F × Option (NodeState F)
  unfolding bump_structure remove_edges_for_node_at drop_slots
  remove_node s path =
      let b = bump_structure s in
      let torn = record b { path_index = PathIndex.remove s.path_index path } in
      let edgeless = remove_edges_for_node_at torn path in
      (drop_slots edgeless path, HashMap.get edgeless.nodes path)
