-- ===== src/NodeStates/Run.antt =====
-- The states that the operations of src/node_graph/node_state.rs reach, where each call is under a
-- condition, the argument of its step: fresh ids, a path with no slots for a new node, a slot with
-- no edges left for a removal (which its comment demands), an edge between slots that exist. Not
-- every caller sees to them: `remove_interface_port` of src/node_graph/interface_helpers.rs removes
-- slots that may still have edges, and `create_node_with_id` can add a node where there is one.
use cognet.Prelude.{refl, ℕ, ◌≡◌, Bool, Option, none, some, List, [], String, nat_eq}
use cognet.HashMap
use cognet.ListMap.{get_list}
use cognet.NodePath.{NodePath, path_eq}
use cognet.Slot.DataType.{DataType}
use cognet.Slot.Data.{Data}
use cognet.Edge.{Edge, EdgeId, InputSlotId, OutputSlotId}
use cognet.NodeStates.{
  NodeStates, InputSlotState, OutputSlotState, SlotDef, RustTypeId, default, input_slot,
  output_slot, edges_for_input, edges_for_output,
}
use cognet.NodeStates.Slots
use cognet.NodeStates.Setters
use cognet.NodeStates.Setters.{set_input_slot-IsConsistent, set_output_slot-IsConsistent}
use cognet.NodeStates.Edges
use cognet.NodeStates.Nodes
use cognet.NodeStates.Consistent.{IsAligned, IsConsistent, default-IsConsistent}
use cognet.NodeStates.Consistent.Fresh.{IsFresh}
use cognet.NodeStates.Consistent.Edges.{
  add_edge-IsConsistent, remove_edge-IsConsistent, remove_edges_for_node_at-IsConsistent,
}
use cognet.NodeStates.Consistent.Reorder.{
  reorder_input_edge-IsConsistent, reorder_output_edge-IsConsistent,
}
use cognet.NodeStates.Consistent.InputSlots.{
  add_input_slot-IsConsistent, insert_input_slot_at-IsConsistent, remove_input_slot-IsConsistent,
}
use cognet.NodeStates.Consistent.OutputSlots.{
  add_output_slot-IsConsistent, insert_output_slot_at-IsConsistent, remove_output_slot-IsConsistent,
}
use cognet.NodeStates.Consistent.Nodes.{add_node-IsConsistent, remove_node-IsConsistent}

pub data Step {F : Type 0} (s : NodeStates F) : NodeStates F → Type 0 where
  node_added :
      (path : NodePath) (type_name : String) (type_id : Option RustTypeId)
      (default_data : Option (Data F)) (input_defs output_defs : List SlotDef)
      (input_ids output_ids : ℕ → ℕ)
      → get_list s.input_slots path ≡ []
      → get_list s.output_slots path ≡ []
      → IsFresh s.input_slot_owner input_ids
      → IsFresh s.output_slot_owner output_ids
      → Step s (
          Nodes.add_node s path type_name type_id default_data input_defs output_defs input_ids
            output_ids)
  node_removed : (path : NodePath) → Step s (Nodes.remove_node s path).0
  input_added :
      (path : NodePath) (label : String) (data_type : DataType) (max_connections : Option ℕ)
      (inspector_visible : Bool) (new_id : InputSlotId)
      → HashMap.get s.input_slot_owner new_id ≡ none
      → Step s
          (Slots.add_input_slot s path label data_type max_connections inspector_visible new_id).0
  output_added :
      (path : NodePath) (label : String) (data_type : DataType) (new_id : OutputSlotId)
      → HashMap.get s.output_slot_owner new_id ≡ none
      → Step s (Slots.add_output_slot s path label data_type new_id).0
  input_inserted :
      (path : NodePath) (index : ℕ) (label : String) (data_type : DataType)
      (max_connections : Option ℕ) (inspector_visible : Bool) (new_id : InputSlotId)
      → HashMap.get s.input_slot_owner new_id ≡ none
      → Step s
          (Slots.insert_input_slot_at s path index label data_type max_connections inspector_visible
            new_id).0
  output_inserted :
      (path : NodePath) (index : ℕ) (label : String) (data_type : DataType) (new_id : OutputSlotId)
      → HashMap.get s.output_slot_owner new_id ≡ none
      → Step s (Slots.insert_output_slot_at s path index label data_type new_id).0
  input_removed :
      (path : NodePath) (index : ℕ)
      → ((slot : InputSlotState F)
          → input_slot s path index ≡ some slot
          → edges_for_input s slot.id ≡ [])
      → Step s (Slots.remove_input_slot s path index)
  output_removed :
      (path : NodePath) (index : ℕ)
      → ((slot : OutputSlotState)
          → output_slot s path index ≡ some slot
          → edges_for_output s slot.id ≡ [])
      → Step s (Slots.remove_output_slot s path index)
  edge_added :
      (id : EdgeId) (edge : Edge)
      → HashMap.get s.edges id ≡ none
      → IsAligned s.input_slot_owner s.output_slot_owner edge
      → Step s (Edges.add_edge s id edge)
  edge_removed : (id : EdgeId) → Step s (Edges.remove_edge s id).0
  edges_removed : (path : NodePath) → Step s (Edges.remove_edges_for_node_at s path)
  input_reordered :
      (id : EdgeId) (new_index : ℕ) → Step s (Edges.reorder_input_edge s id new_index).0
  output_reordered :
      (id : EdgeId) (new_index : ℕ) → Step s (Edges.reorder_output_edge s id new_index).0
  input_visible_set :
      (path : NodePath) (index : ℕ) (visible : Bool)
      → Step s (Setters.set_input_slot_inspector_visible s path index visible).0
  input_label_set :
      (path : NodePath) (index : ℕ) (label : String)
      → Step s (Setters.set_input_slot_label s path index label).0
  output_label_set :
      (path : NodePath) (index : ℕ) (label : String)
      → Step s (Setters.set_output_slot_label s path index label).0

pub data Reach {F : Type 0} (s : NodeStates F) : NodeStates F → Type 0 where
  here : Reach s s
  next : {t u : NodeStates F} → Reach s t → Step t u → Reach s u

module _ {F : Type 0} where
  pub Step-IsConsistent : {s t : NodeStates F} → Step s t → IsConsistent s → IsConsistent t
  Step-IsConsistent {s} (node_added path n t d i o ii oi a b c e) w =
      add_node-IsConsistent s path n t d i o ii oi w a b c e
  Step-IsConsistent {s} (node_removed path) w = remove_node-IsConsistent s path w
  Step-IsConsistent {s} (input_added path l d m v id a) w =
      add_input_slot-IsConsistent s path l d m v id w a
  Step-IsConsistent {s} (output_added path l d id a) w =
      add_output_slot-IsConsistent s path l d id w a
  Step-IsConsistent {s} (input_inserted path i l d m v id a) w =
      insert_input_slot_at-IsConsistent s path i l d m v id w a
  Step-IsConsistent {s} (output_inserted path i l d id a) w =
      insert_output_slot_at-IsConsistent s path i l d id w a
  Step-IsConsistent {s} (input_removed path i a) w = remove_input_slot-IsConsistent s path i w a
  Step-IsConsistent {s} (output_removed path i a) w = remove_output_slot-IsConsistent s path i w a
  Step-IsConsistent {s} (edge_added id edge a b) w = add_edge-IsConsistent s id edge w a b
  Step-IsConsistent {s} (edge_removed id) w = remove_edge-IsConsistent s id w
  Step-IsConsistent {s} (edges_removed path) w = remove_edges_for_node_at-IsConsistent s path w
  Step-IsConsistent {s} (input_reordered id n) w = reorder_input_edge-IsConsistent s id n w
  Step-IsConsistent {s} (output_reordered id n) w = reorder_output_edge-IsConsistent s id n w
  Step-IsConsistent {s} (input_visible_set path i v) w =
      unfold Setters.set_input_slot_inspector_visible in
      set_input_slot-IsConsistent s path i (λ slot. record slot { inspector_visible = v }) w
        (λ slot. refl)
  Step-IsConsistent {s} (input_label_set path i l) w =
      unfold Setters.set_input_slot_label in
      set_input_slot-IsConsistent s path i (λ slot. record slot { label = l }) w (λ slot. refl)
  Step-IsConsistent {s} (output_label_set path i l) w =
      unfold Setters.set_output_slot_label in
      set_output_slot-IsConsistent s path i (λ slot. record slot { label = l }) w (λ slot. refl)

  -- From a consistent state every sequence of these steps leads to a consistent state.
  pub Reach-IsConsistent : {s t : NodeStates F} → Reach s t → IsConsistent s → IsConsistent t
  Reach-IsConsistent here w = w
  Reach-IsConsistent (next r st) w = Step-IsConsistent st (Reach-IsConsistent r w)

  -- In every state that the operations reach from the empty one the slots and their owners are in
  -- lock-step, each edge names the slots that own its ids, and the indexes are exact. The calls are
  -- under these conditions: a new node comes to a path with no slots, new slots have unused ids, a
  -- slot is removed when it has no edges, and an edge is added under an unused id between slots
  -- that own its slot ids.
  pub Reach-default-IsConsistent : (t : NodeStates F) → Reach default t → IsConsistent t
  Reach-default-IsConsistent t r = Reach-IsConsistent r default-IsConsistent
