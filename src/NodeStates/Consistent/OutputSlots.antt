-- ===== src/NodeStates/Consistent/OutputSlots.antt =====
-- The operations of node_state.rs on output slots and the invariant.
use cognet.Prelude.{
  ℕ, ◌≡◌, ◌≢◌, refl, Option, none, some, [], String, arith, length, min, nat_eq, nat_beq_iff,
  get_elem?,
}
use cognet.HashMap
use cognet.HashMap.{HashMap, get-map_values_inv, get-insert}
use cognet.ListMap.{get_list}
use cognet.NodePath.{NodePath, path_eq}
use cognet.Slot.DataType.{DataType}
use cognet.Edge.{OutputSlotId}
use cognet.NodeStates.{NodeStates, OutputSlotState, output_slot, edges_for_output}
use cognet.NodeStates.Slots.{
  output_id, add_output_slot, insert_output_slot_at, remove_output_slot, remove_output_found,
  shift_output_up, shift_output_down,
}
use cognet.NodeStates.{bump_structure}
use cognet.NodeStates.Lockstep.{id_at}
use cognet.NodeStates.Lockstep.Moves.{
  insert-InLockstep, remove-InLockstep, push-InLockstep, insert_moves, remove_moves,
}
use cognet.NodeStates.Index.{map-IsIndexed}
use cognet.NodeStates.Consistent.{
  IsConsistent, bump_structure-IsConsistent, input_key, output_key, source, sink,
}
use cognet.NodeStates.Consistent.Shifts.{
  shift_output_up-keys, shift_output_down-keys, shift_output_up-IsAligned,
  shift_output_down-IsAligned,
}

module _ {F : Type 0} where
  -- An output slot with a fresh id, appended, keeps the invariant.
  pub add_output_slot-IsConsistent :
      (s : NodeStates F) (path : NodePath) (label : String) (data_type : DataType)
      (new_id : OutputSlotId)
      → IsConsistent s
      → HashMap.get s.output_slot_owner new_id ≡ none
      → IsConsistent (add_output_slot s path label data_type new_id).0
  unfolding add_output_slot
  add_output_slot-IsConsistent s path label data_type new_id w fresh =
      let slot : OutputSlotState = record { id = new_id; label = label; data_type = data_type } in
      record {
        outputs = push-InLockstep output_id path w.outputs slot fresh;
        inputs = w.inputs;
        ends = λ id edge h.
            let a = w.ends id edge h in
            record {
              output_end = ground (
                arith,
                get-insert s.output_slot_owner new_id (path, length (get_list s.output_slots path))
                    edge.from_output_slot_id,
                a.output_end,
                nat_beq_iff new_id edge.from_output_slot_id,
              );
              input_end = a.input_end;
            };
        by_input = w.by_input;
        by_output = w.by_output;
        by_source = w.by_source;
        by_sink = w.by_sink;
      }

  -- An output slot with a fresh id, inserted at any index (clamped to the number of slots), keeps the
  -- invariant.
  pub insert_output_slot_at-IsConsistent :
      (s : NodeStates F) (path : NodePath) (index : ℕ) (label : String) (data_type : DataType)
      (new_id : OutputSlotId)
      → IsConsistent s
      → HashMap.get s.output_slot_owner new_id ≡ none
      → IsConsistent (insert_output_slot_at s path index label data_type new_id).0
  unfolding insert_output_slot_at
  insert_output_slot_at-IsConsistent s path index label data_type new_id w fresh =
      let at = min index (length (get_list s.output_slots path)) in
      let slot : OutputSlotState = record { id = new_id; label = label; data_type = data_type } in
      record {
        outputs = insert-InLockstep output_id path w.outputs at slot (omega arith) fresh;
        inputs = w.inputs;
        ends = λ id edge h.
            let (e, found, image) = get-map_values_inv (shift_output_up path at) s.edges id h in
            let a = w.ends id e found in
            rw image (
              shift_output_up-IsAligned path at e a (
                insert_moves output_id path w.outputs at slot e.from_output_slot_id e.from_node
                  e.from_output_slot_index (omega arith) fresh a.output_end));
        by_input =
            map-IsIndexed input_key (shift_output_up path at) w.by_input
              (λ e. (shift_output_up-keys path at e).0);
        by_output =
            map-IsIndexed output_key (shift_output_up path at) w.by_output
              (λ e. (shift_output_up-keys path at e).1);
        by_source =
            map-IsIndexed source (shift_output_up path at) w.by_source
              (λ e. (shift_output_up-keys path at e).2);
        by_sink =
            map-IsIndexed sink (shift_output_up path at) w.by_sink
              (λ e. (shift_output_up-keys path at e).3);
      }

  remove_output_found-IsConsistent :
      (s : NodeStates F) (path : NodePath) (index : ℕ) (o : Option (OutputSlotState))
      → get_elem? (get_list s.output_slots path) index ≡ o
      → IsConsistent s
      → ((slot : OutputSlotState)
          → get_elem? (get_list s.output_slots path) index ≡ some slot
          → get_list s.output_connections slot.id ≡ [])
      → IsConsistent (remove_output_found s path index o)
  unfolding remove_output_found
  remove_output_found-IsConsistent s path index none g w unused = w
  remove_output_found-IsConsistent s path index (some removed) g w unused =
      let at : id_at output_id (get_list s.output_slots path) index ≡ some removed.id =
        unfold id_at in rw g in
      record {
        outputs = remove-InLockstep output_id path w.outputs index removed.id at;
        inputs = w.inputs;
        ends = λ id edge h.
            let (e, found, image) =
              get-map_values_inv (shift_output_down path index) s.edges id h in
            let a = w.ends id e found in
            let kept : e.from_output_slot_id ≢ removed.id = λ same. ground (
              arith,
              w.by_output.exact removed.id id,
              unused removed g,
              nat_beq_iff e.from_output_slot_id removed.id,
            ) in
            rw image (
              shift_output_down-IsAligned path index e a (
                remove_moves output_id path w.outputs index removed.id e.from_output_slot_id
                  e.from_node e.from_output_slot_index at kept a.output_end));
        by_input =
            map-IsIndexed input_key (shift_output_down path index) w.by_input
              (λ e. (shift_output_down-keys path index e).0);
        by_output =
            map-IsIndexed output_key (shift_output_down path index) w.by_output
              (λ e. (shift_output_down-keys path index e).1);
        by_source =
            map-IsIndexed source (shift_output_down path index) w.by_source
              (λ e. (shift_output_down-keys path index e).2);
        by_sink =
            map-IsIndexed sink (shift_output_down path index) w.by_sink
              (λ e. (shift_output_down-keys path index e).3);
      }

  -- Removing an output slot that no edge is connected to, or an index with no slot, keeps the
  -- invariant.
  pub remove_output_slot-IsConsistent :
      (s : NodeStates F) (path : NodePath) (index : ℕ)
      → IsConsistent s
      → ((slot : OutputSlotState)
          → output_slot s path index ≡ some slot
          → edges_for_output s slot.id ≡ [])
      → IsConsistent (remove_output_slot s path index)
  unfolding remove_output_slot output_slot edges_for_output
  remove_output_slot-IsConsistent s path index w unused =
      remove_output_found-IsConsistent (bump_structure s) path index
        (get_elem? (get_list s.output_slots path) index) refl (bump_structure-IsConsistent s w)
        unused
