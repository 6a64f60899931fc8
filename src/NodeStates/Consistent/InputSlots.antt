-- ===== src/NodeStates/Consistent/InputSlots.antt =====
-- The operations of node_state.rs on input slots and the invariant.
use cognet.Prelude.{
  ℕ, ◌≡◌, ◌≢◌, refl, Bool, Option, none, some, [], String, arith, length, min, nat_eq, nat_beq_iff,
  get_elem?,
}
use cognet.HashMap
use cognet.HashMap.{HashMap, get-map_values_inv, get-insert}
use cognet.ListMap.{get_list}
use cognet.NodePath.{NodePath, path_eq}
use cognet.Slot.DataType.{DataType}
use cognet.Edge.{InputSlotId}
use cognet.NodeStates.{NodeStates, InputSlotState, input_slot, edges_for_input}
use cognet.NodeStates.Slots.{
  input_id, add_input_slot, insert_input_slot_at, remove_input_slot, remove_input_found,
  shift_input_up, shift_input_down,
}
use cognet.NodeStates.{bump_structure}
use cognet.NodeStates.Lockstep.{id_at}
use cognet.NodeStates.Lockstep.Moves.{
  insert-InLockstep, remove-InLockstep, push-InLockstep, insert_moves, remove_moves,
}
use cognet.NodeStates.Index.{map-IsIndexed}
use cognet.NodeStates.Consistent.{
  IsConsistent, bump_structure-IsConsistent, input_key, output_key, source, sink,
}
use cognet.NodeStates.Consistent.Shifts.{
  shift_input_up-keys, shift_input_down-keys, shift_input_up-IsAligned, shift_input_down-IsAligned,
}

module _ {F : Type 0} where
  -- An input slot with a fresh id, appended, keeps the invariant.
  pub add_input_slot-IsConsistent :
      (s : NodeStates F) (path : NodePath) (label : String) (data_type : DataType)
      (max_connections : Option ℕ) (inspector_visible : Bool) (new_id : InputSlotId)
      → IsConsistent s
      → HashMap.get s.input_slot_owner new_id ≡ none
      → IsConsistent
          (add_input_slot s path label data_type max_connections inspector_visible new_id).0
  unfolding add_input_slot
  add_input_slot-IsConsistent s path label data_type max_connections inspector_visible new_id w
        fresh =
      let slot : InputSlotState F = record {
        id = new_id;
        label = label;
        data_type = data_type;
        max_connections = max_connections;
        inspector_visible = inspector_visible;
        default_value = none;
      } in
      record {
        inputs = push-InLockstep input_id path w.inputs slot fresh;
        outputs = w.outputs;
        ends = λ id edge h.
            let a = w.ends id edge h in
            record {
              input_end = ground (
                arith,
                get-insert s.input_slot_owner new_id (path, length (get_list s.input_slots path))
                    edge.to_input_slot_id,
                a.input_end,
                nat_beq_iff new_id edge.to_input_slot_id,
              );
              output_end = a.output_end;
            };
        by_input = w.by_input;
        by_output = w.by_output;
        by_source = w.by_source;
        by_sink = w.by_sink;
      }

  -- An input slot with a fresh id, inserted at any index (clamped to the number of slots), keeps the
  -- invariant.
  pub insert_input_slot_at-IsConsistent :
      (s : NodeStates F) (path : NodePath) (index : ℕ) (label : String) (data_type : DataType)
      (max_connections : Option ℕ) (inspector_visible : Bool) (new_id : InputSlotId)
      → IsConsistent s
      → HashMap.get s.input_slot_owner new_id ≡ none
      → IsConsistent
          (insert_input_slot_at s path index label data_type max_connections inspector_visible
            new_id).0
  unfolding insert_input_slot_at
  insert_input_slot_at-IsConsistent s path index label data_type max_connections inspector_visible
        new_id w fresh =
      let at = min index (length (get_list s.input_slots path)) in
      let slot : InputSlotState F = record {
        id = new_id;
        label = label;
        data_type = data_type;
        max_connections = max_connections;
        inspector_visible = inspector_visible;
        default_value = none;
      } in
      record {
        inputs = insert-InLockstep input_id path w.inputs at slot (omega arith) fresh;
        outputs = w.outputs;
        ends = λ id edge h.
            let (e, found, image) = get-map_values_inv (shift_input_up path at) s.edges id h in
            let a = w.ends id e found in
            rw image (
              shift_input_up-IsAligned path at e a (
                insert_moves input_id path w.inputs at slot e.to_input_slot_id e.to_node
                  e.to_input_slot_index (omega arith) fresh a.input_end));
        by_input =
            map-IsIndexed input_key (shift_input_up path at) w.by_input
              (λ e. (shift_input_up-keys path at e).0);
        by_output =
            map-IsIndexed output_key (shift_input_up path at) w.by_output
              (λ e. (shift_input_up-keys path at e).1);
        by_source =
            map-IsIndexed source (shift_input_up path at) w.by_source
              (λ e. (shift_input_up-keys path at e).2);
        by_sink =
            map-IsIndexed sink (shift_input_up path at) w.by_sink
              (λ e. (shift_input_up-keys path at e).3);
      }

  remove_input_found-IsConsistent :
      (s : NodeStates F) (path : NodePath) (index : ℕ) (o : Option (InputSlotState F))
      → get_elem? (get_list s.input_slots path) index ≡ o
      → IsConsistent s
      → ((slot : InputSlotState F)
          → get_elem? (get_list s.input_slots path) index ≡ some slot
          → get_list s.input_connections slot.id ≡ [])
      → IsConsistent (remove_input_found s path index o)
  unfolding remove_input_found
  remove_input_found-IsConsistent s path index none g w unused = w
  remove_input_found-IsConsistent s path index (some removed) g w unused =
      let at : id_at input_id (get_list s.input_slots path) index ≡ some removed.id =
        unfold id_at in rw g in
      record {
        inputs = remove-InLockstep input_id path w.inputs index removed.id at;
        outputs = w.outputs;
        ends = λ id edge h.
            let (e, found, image) = get-map_values_inv (shift_input_down path index) s.edges id h in
            let a = w.ends id e found in
            let kept : e.to_input_slot_id ≢ removed.id = λ same. ground (
              arith,
              w.by_input.exact removed.id id,
              unused removed g,
              nat_beq_iff e.to_input_slot_id removed.id,
            ) in
            rw image (
              shift_input_down-IsAligned path index e a (
                remove_moves input_id path w.inputs index removed.id e.to_input_slot_id e.to_node
                  e.to_input_slot_index at kept a.input_end));
        by_input =
            map-IsIndexed input_key (shift_input_down path index) w.by_input
              (λ e. (shift_input_down-keys path index e).0);
        by_output =
            map-IsIndexed output_key (shift_input_down path index) w.by_output
              (λ e. (shift_input_down-keys path index e).1);
        by_source =
            map-IsIndexed source (shift_input_down path index) w.by_source
              (λ e. (shift_input_down-keys path index e).2);
        by_sink =
            map-IsIndexed sink (shift_input_down path index) w.by_sink
              (λ e. (shift_input_down-keys path index e).3);
      }

  -- Removing an input slot that no edge is connected to, or an index with no slot, keeps the
  -- invariant.
  pub remove_input_slot-IsConsistent :
      (s : NodeStates F) (path : NodePath) (index : ℕ)
      → IsConsistent s
      → ((slot : InputSlotState F)
          → input_slot s path index ≡ some slot
          → edges_for_input s slot.id ≡ [])
      → IsConsistent (remove_input_slot s path index)
  unfolding remove_input_slot input_slot edges_for_input
  remove_input_slot-IsConsistent s path index w unused =
      remove_input_found-IsConsistent (bump_structure s) path index
        (get_elem? (get_list s.input_slots path) index) refl (bump_structure-IsConsistent s w)
        unused
