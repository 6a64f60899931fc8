-- ===== src/NodeStates/Effects/Slots.antt =====
-- `insert_input_slot_at` of node_state.rs, read slot by slot.
use cognet.Prelude.{
  ℕ, suc, ◌≤◌, ◌<◌, ◌≡◌, ◌≢◌, refl, Bool, Option, none, some, String, length, get_elem?-insert_at,
  insert_at, min, arith, nat_eq,
}
use mathlib.Core.Option
use cognet.HashMap
use cognet.HashMap.{get-map_values}
use cognet.ListMap.{get_list, get_list-insert}
use cognet.NodePath.{NodePath, path_eq}
use cognet.Slot.DataType.{DataType}
use cognet.Edge.{Edge, EdgeId, InputSlotId}
use cognet.NodeStates.{
  NodeStates, InputSlotState, input_slot, get_edge, input_slot_count, bump_structure,
}
use cognet.NodeStates.Slots.{insert_input_slot_at, reindex_input_slot_owners, shift_input_up}
use cognet.NodeStates.Consistent.{IsConsistent}
use cognet.NodeStates.Consistent.InputSlots.{insert_input_slot_at-IsConsistent}

-- an edge without the index of its input slot
abbrev pub without_index : Edge → Edge
without_index edge = record edge { to_input_slot_index = 0 }

up-without_index :
    (path : NodePath) (i : ℕ) (o : Option Edge)
    → Option.map without_index (Option.map (shift_input_up path i) o) ≡ Option.map without_index o
unfolding shift_input_up
up-without_index path i none = refl
up-without_index path i (some e) = ground arith

module _ {F : Type 0} where
  -- A slot with the id stands at the index, the slots from there on have moved up by one, and all
  -- others are where they were. The edges still have their ends and slot ids.
  pub record IsInserted (s t : NodeStates F) (path : NodePath) (at : ℕ)
      (new_slot : InputSlotState F) : Type 0 where
    pub here : input_slot t path at ≡ some new_slot
    pub below : (j : ℕ) → j < at → input_slot t path j ≡ input_slot s path j
    pub above : (j : ℕ) → at ≤ j → input_slot t path (suc j) ≡ input_slot s path j
    pub elsewhere : (q : NodePath) (j : ℕ) → q ≢ path → input_slot t q j ≡ input_slot s q j
    pub edges :
        (id : EdgeId)
        → Option.map without_index (get_edge t id) ≡ Option.map without_index (get_edge s id)

  -- A slot that is inserted under an unused id stands at the index, clamped to the number of the
  -- slots, which is also returned. The slots from there on move up by one, no other slot moves, the
  -- edges keep their ends and slot ids, and their indexes follow the slots: the store stays
  -- consistent.
  pub insert_input_slot_at_outcome :
      (s : NodeStates F) (path : NodePath) (index : ℕ) (label : String) (data_type : DataType)
      (max_connections : Option ℕ) (inspector_visible : Bool) (new_id : InputSlotId)
      → IsConsistent s
      → HashMap.get s.input_slot_owner new_id ≡ none
      → let new_slot : InputSlotState F = record {
        id = new_id;
        label = label;
        data_type = data_type;
        max_connections = max_connections;
        inspector_visible = inspector_visible;
        default_value = none;
      } in
        let (t, at) =
          insert_input_slot_at s path index label data_type max_connections inspector_visible
            new_id in
        (at ≡ min index (input_slot_count s path))
        × IsInserted s t path at new_slot
        × IsConsistent t
  unfolding insert_input_slot_at reindex_input_slot_owners bump_structure input_slot get_edge
      input_slot_count
  insert_input_slot_at_outcome s path index label data_type max_connections inspector_visible new_id
        w fresh =
      let slots = get_list s.input_slots path in
      let at = min index (length slots) in
      let new_slot : InputSlotState F = record {
        id = new_id;
        label = label;
        data_type = data_type;
        max_connections = max_connections;
        inspector_visible = inspector_visible;
        default_value = none;
      } in
      let within : at ≤ length slots = omega arith in
      let read =
        λ (q : NodePath). get_list-insert s.input_slots path (insert_at slots at new_slot) q in
      (
        refl,
        record {
          here = ground (
            arith,
            read path,
            path_eq.beq_iff path path,
            get_elem?-insert_at slots at new_slot at within,
          );
          below = λ j b. ground (
            arith,
            read path,
            path_eq.beq_iff path path,
            get_elem?-insert_at slots at new_slot j within,
          );
          above = λ j b. ground (
            arith,
            read path,
            path_eq.beq_iff path path,
            get_elem?-insert_at slots at new_slot (suc j) within,
          );
          elsewhere = λ q j other. ground (arith, read q, path_eq.beq_iff path q);
          edges = λ id.
              rw (get-map_values (shift_input_up path at) s.edges id)
                (up-without_index path at (HashMap.get s.edges id));
        },
        insert_input_slot_at-IsConsistent s path index label data_type max_connections
            inspector_visible new_id w fresh,
      )
