-- ===== src/Executor/Context.antt =====
-- `build_execution_context` and `snapshot_outputs`: what a node is given, and what it has written.
use cognet.Prelude.{Option, none, some, List, [], ◌∷◌, if◌then◌else◌, nat_eq}
use cognet.ListMap.{get_list}
use cognet.NodePath.{NodePath, path_eq, is_empty}
use cognet.Slot.Data.{Data}
use cognet.Slot.DataType.{DataType}
use cognet.Edge.{EdgeId, OutputSlotId}
use cognet.ExecutionCache.{ExecutionCache, get_output}
use cognet.ExecutionContext.{ExecutionContext}
use cognet.NodeStates.{NodeStates, InputSlotState, OutputSlotState, node, edges_for_input, get_edge}
use cognet.Executor.Resolve.{slot_default, resolve_value_through_interface}

-- if let Some(value) = o { values.push(value) }, before the values that follow
abbrev pub push_some {ℓ} : {A : Type ℓ} → Option A → List A → List A
push_some none rest = rest
push_some (some a) rest = a ∷ rest

unfoldable pub writer_slots : List OutputSlotState → List (OutputSlotId × DataType)
writer_slots [] = []
writer_slots (slot ∷ slots) = (slot.id, slot.data_type) ∷ writer_slots slots

module _ {F : Type 0} where
  -- the values of the edges that deliver one
  unfoldable pub edge_inputs : NodeStates F → ExecutionCache F → List EdgeId → List (Data F)
  unfolding resolve_value_through_interface
  edge_inputs s cache [] = []
  edge_inputs s cache (edge_id ∷ edge_ids) =
      let rest = edge_inputs s cache edge_ids in
      elim (get_edge s edge_id) [
        | none ↦ rest
        | some e ↦
            push_some
              (resolve_value_through_interface s cache e.from_node e.from_output_slot_index
                e.from_output_slot_id)
              rest
      ]

  -- the default where no edge delivers a value
  unfoldable pub slot_inputs : NodeStates F → ExecutionCache F → InputSlotState F → List (Data F)
  unfolding edge_inputs slot_default
  slot_inputs s cache slot =
      let values = edge_inputs s cache (edges_for_input s slot.id) in
      if is_empty values
      then elim (slot_default slot) [ none ↦ [] | some value ↦ value ∷ [] ]
      else values

  unfoldable pub all_slot_inputs :
      NodeStates F → ExecutionCache F → List (InputSlotState F) → List (List (Data F))
  unfolding slot_inputs
  all_slot_inputs s cache [] = []
  all_slot_inputs s cache (slot ∷ slots) = slot_inputs s cache slot ∷ all_slot_inputs s cache slots

  -- the slots by index, from the first to the last, are the list of the slots
  unfoldable pub build_execution_context :
      NodePath → NodeStates F → ExecutionCache F → ExecutionContext F
  unfolding all_slot_inputs writer_slots
  build_execution_context path s cache = record {
    path = path;
    node_data = elim (node s path) [ none ↦ none | some state ↦ state.node_data ];
    input_values = all_slot_inputs s cache (get_list s.input_slots path);
    output_writer = record { slots = writer_slots (get_list s.output_slots path) };
  }

  unfoldable pub outputs_of : ExecutionCache F → List OutputSlotState → List (Option (Data F))
  outputs_of cache [] = []
  outputs_of cache (slot ∷ slots) = get_output cache slot.id ∷ outputs_of cache slots

  unfoldable pub snapshot_outputs :
      NodePath → ExecutionCache F → NodeStates F → List (Option (Data F))
  unfolding outputs_of
  snapshot_outputs path cache s = outputs_of cache (get_list s.output_slots path)
