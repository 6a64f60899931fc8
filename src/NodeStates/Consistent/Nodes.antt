-- ===== src/NodeStates/Consistent/Nodes.antt =====
-- `add_node` and `remove_node` of node_state.rs and the invariant.
use cognet.Prelude.{ℕ, ◌≡◌, false, Option, some, List, [], String, arith, nat_eq}
use cognet.HashMap
use cognet.HashMap.{HashMap, holds_at}
use cognet.ListMap.{get_list}
use cognet.NodePath.{NodePath, path_eq, path_beq_iff}
use cognet.PathIndex
use cognet.Slot.Data.{Data}
use cognet.Edge.{Edge, EdgeId}
use cognet.NodeStates.{NodeStates, InputSlotState, SlotDef, RustTypeId, bump_structure}
use cognet.NodeStates.Slots.{input_id, output_id}
use cognet.NodeStates.Edges.{remove_edges_for_node_at, touches}
use cognet.NodeStates.Nodes.{input_states, output_states, add_node, drop_slots, remove_node}
use cognet.NodeStates.Lockstep.Changes.{clear-InLockstep, other_stays}
use cognet.NodeStates.Consistent.{IsConsistent}
use cognet.NodeStates.Consistent.Fresh.{
  IsFresh, supply-InLockstep, supply_keeps, id_at-input_states, id_at-output_states,
}
use cognet.NodeStates.Consistent.Edges.{
  remove_edges_for_node_at-IsConsistent, get-remove_edges_for_node_at,
}

module _ {F : Type 0} where
  -- A node added at a path that has no slots, with fresh ids for its slots, keeps the invariant.
  pub add_node-IsConsistent :
      (s : NodeStates F) (path : NodePath) (type_name : String) (type_id : Option RustTypeId)
      (default_data : Option (Data F)) (input_defs output_defs : List SlotDef)
      (input_ids output_ids : ℕ → ℕ)
      → IsConsistent s
      → get_list s.input_slots path ≡ []
      → get_list s.output_slots path ≡ []
      → IsFresh s.input_slot_owner input_ids
      → IsFresh s.output_slot_owner output_ids
      → IsConsistent (
          add_node s path type_name type_id default_data input_defs output_defs input_ids
            output_ids)
  unfolding add_node
  add_node-IsConsistent s path type_name type_id default_data input_defs output_defs input_ids
        output_ids w bi bo fi fo =
      let inputs : List (InputSlotState F) = input_states input_ids 0 input_defs in
      let outputs = output_states output_ids 0 output_defs in
      let gi = id_at-input_states F input_ids 0 input_defs in
      let go = id_at-output_states output_ids 0 output_defs in
      record {
        inputs = supply-InLockstep input_id path input_ids inputs w.inputs bi fi gi;
        outputs = supply-InLockstep output_id path output_ids outputs w.outputs bo fo go;
        ends = λ id edge h.
            let a = w.ends id edge h in
            record {
              input_end =
                  supply_keeps input_id path input_ids inputs edge.to_input_slot_id
                    (edge.to_node, edge.to_input_slot_index) fi gi a.input_end;
              output_end =
                  supply_keeps output_id path output_ids outputs edge.from_output_slot_id
                    (edge.from_node, edge.from_output_slot_index) fo go a.output_end;
            };
        by_input = w.by_input;
        by_output = w.by_output;
        by_source = w.by_source;
        by_sink = w.by_sink;
      }

  -- where no edge touches the node, its slots can go
  drop_slots-IsConsistent :
      (s : NodeStates F) (path : NodePath)
      → IsConsistent s
      → ((id : EdgeId) (edge : Edge)
          → HashMap.get s.edges id ≡ some edge
          → touches path edge ≡ false)
      → IsConsistent (drop_slots s path)
  unfolding drop_slots
  drop_slots-IsConsistent s path w apart = record {
    inputs = clear-InLockstep input_id path w.inputs;
    outputs = clear-InLockstep output_id path w.outputs;
    ends = λ id edge h.
        let a = w.ends id edge h in
        let n = apart id edge h in
        record {
          input_end =
              other_stays input_id path edge.to_input_slot_id edge.to_node edge.to_input_slot_index
                w.inputs
                (λ e.
                  ground (arith, path_beq_iff edge.to_node path, path_beq_iff path edge.to_node))
                a.input_end;
          output_end =
              other_stays output_id path edge.from_output_slot_id edge.from_node
                edge.from_output_slot_index w.outputs
                (λ e. ground (arith, path_beq_iff edge.from_node path)) a.output_end;
        };
    by_input = w.by_input;
    by_output = w.by_output;
    by_source = w.by_source;
    by_sink = w.by_sink;
  }

  -- the edges that are left touch the node no more
  apart-remove_edges_for_node_at :
      (s : NodeStates F) (path : NodePath) (id : EdgeId) (edge : Edge)
      → HashMap.get (remove_edges_for_node_at s path).edges id ≡ some edge
      → touches path edge ≡ false
  apart-remove_edges_for_node_at s path id edge h =
      ground (arith, get-remove_edges_for_node_at s path id)

  -- Removing any node, or a path with none, keeps the invariant.
  pub remove_node-IsConsistent :
      (s : NodeStates F) (path : NodePath) → IsConsistent s → IsConsistent (remove_node s path).0
  unfolding remove_node bump_structure
  remove_node-IsConsistent s path w =
      let b = bump_structure s in
      let torn : NodeStates F = record b { path_index = PathIndex.remove s.path_index path } in
      drop_slots-IsConsistent (remove_edges_for_node_at torn path) path
        (remove_edges_for_node_at-IsConsistent torn path (record {
          inputs = w.inputs;
          outputs = w.outputs;
          ends = w.ends;
          by_input = w.by_input;
          by_output = w.by_output;
          by_source = w.by_source;
          by_sink = w.by_sink;
        }))
        (apart-remove_edges_for_node_at torn path)
