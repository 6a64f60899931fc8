-- ===== src/NodeStates/Slots.antt =====
-- src/node_graph/node_state.rs: the slots of a node. A fresh id (`InputSlotId::new()`, a ULID) is
-- an argument, `new_id`.
use cognet.Prelude.{
  ℕ, suc, ◌+◌, ◌-◌, Bool, ◌&&◌, Option, none, some, List, [], ◌∷◌, String, ◌==◌, if◌then◌else◌, ltb,
  leb, get_elem?, drop, insert_at, remove_at, min, nat_eq,
}
use cognet.HashMap
use cognet.HashMap.{HashMap}
use cognet.ListMap.{get_list, push_entry}
use cognet.NodePath.{NodePath, path_eq}
use cognet.Slot.DataType.{DataType}
use cognet.Edge.{Edge, InputSlotId, OutputSlotId}
use cognet.NodeStates.{
  NodeStates, InputSlotState, OutputSlotState, Owner, bump_structure, input_slot_count,
  output_slot_count,
}

-- owner.insert(slot.id, (path, i)), owner.insert(slot.id, (path, i + 1)), … along the slots
unfoldable pub insert_owners {ℓ} :
    {S : Type ℓ} → (S → ℕ) → NodePath → ℕ → List S → HashMap ℕ Owner → HashMap ℕ Owner
insert_owners id path i [] owner = owner
insert_owners id path i (slot ∷ slots) owner =
    insert_owners id path (suc i) slots (HashMap.insert owner (id slot) (path, i))

-- owner.remove(&slot.id) along the slots
unfoldable pub remove_owners {ℓ} :
    {S : Type ℓ} → (S → ℕ) → List S → HashMap ℕ Owner → HashMap ℕ Owner
remove_owners id [] owner = owner
remove_owners id (slot ∷ slots) owner = remove_owners id slots (HashMap.remove owner (id slot))

abbrev pub input_id : {F : Type 0} → InputSlotState F → ℕ
input_id s = s.id

abbrev pub output_id : OutputSlotState → ℕ
output_id s = s.id

-- the edges into `path` at `index` or above move up by one
unfoldable pub shift_input_up : NodePath → ℕ → Edge → Edge
shift_input_up path index edge =
    if (edge.to_node == path) && leb index edge.to_input_slot_index
    then record edge { to_input_slot_index = edge.to_input_slot_index + 1 }
    else edge

unfoldable pub shift_output_up : NodePath → ℕ → Edge → Edge
shift_output_up path index edge =
    if (edge.from_node == path) && leb index edge.from_output_slot_index
    then record edge { from_output_slot_index = edge.from_output_slot_index + 1 }
    else edge

-- the edges into `path` above `index` move down by one
unfoldable pub shift_input_down : NodePath → ℕ → Edge → Edge
shift_input_down path index edge =
    if (edge.to_node == path) && ltb index edge.to_input_slot_index
    then record edge { to_input_slot_index = edge.to_input_slot_index - 1 }
    else edge

unfoldable pub shift_output_down : NodePath → ℕ → Edge → Edge
shift_output_down path index edge =
    if (edge.from_node == path) && ltb index edge.from_output_slot_index
    then record edge { from_output_slot_index = edge.from_output_slot_index - 1 }
    else edge

module _ {F : Type 0} where
  abbrev new_input : InputSlotId → String → DataType → Option ℕ → Bool → InputSlotState F
  new_input new_id label data_type max_connections inspector_visible = record {
    id = new_id;
    label = label;
    data_type = data_type;
    max_connections = max_connections;
    inspector_visible = inspector_visible;
    default_value = none;
  }

  unfoldable pub add_input_slot :
      NodeStates F → NodePath → String → DataType → Option ℕ → Bool → InputSlotId → NodeStates F × ℕ
  unfolding bump_structure input_slot_count
  add_input_slot s path label data_type max_connections inspector_visible new_id =
      let index = input_slot_count s path in
      let b = bump_structure s in
      (
        record b {
          input_slot_owner = HashMap.insert s.input_slot_owner new_id (path, index);
          input_slots =
              push_entry s.input_slots path
                (new_input new_id label data_type max_connections inspector_visible);
        },
        index,
      )

  unfoldable pub add_output_slot :
      NodeStates F → NodePath → String → DataType → OutputSlotId → NodeStates F × ℕ
  unfolding bump_structure output_slot_count
  add_output_slot s path label data_type new_id =
      let index = output_slot_count s path in
      let b = bump_structure s in
      (
        record b {
          output_slot_owner = HashMap.insert s.output_slot_owner new_id (path, index);
          output_slots =
              push_entry s.output_slots path
                (record { id = new_id; label = label; data_type = data_type });
        },
        index,
      )

  unfoldable pub reindex_input_slot_owners : NodeStates F → NodePath → ℕ → NodeStates F
  unfolding insert_owners
  reindex_input_slot_owners s path from = record s {
    input_slot_owner =
        insert_owners input_id path from (drop from (get_list s.input_slots path))
          s.input_slot_owner;
  }

  unfoldable pub reindex_output_slot_owners : NodeStates F → NodePath → ℕ → NodeStates F
  unfolding insert_owners
  reindex_output_slot_owners s path from = record s {
    output_slot_owner =
        insert_owners output_id path from (drop from (get_list s.output_slots path))
          s.output_slot_owner;
  }

  unfoldable pub insert_input_slot_at :
      NodeStates F
      → NodePath
      → ℕ
      → String
      → DataType
      → Option ℕ
      → Bool
      → InputSlotId
      → NodeStates F × ℕ
  unfolding bump_structure input_slot_count reindex_input_slot_owners
  insert_input_slot_at s path index label data_type max_connections inspector_visible new_id =
      let at = min index (input_slot_count s path) in
      let b = bump_structure s in
      let slot = new_input new_id label data_type max_connections inspector_visible in
      let inserted = record b {
        input_slots =
            HashMap.insert s.input_slots path (insert_at (get_list s.input_slots path) at slot);
      } in
      let reindexed = reindex_input_slot_owners inserted path at in
      (record reindexed { edges = HashMap.map_values (shift_input_up path at) s.edges }, at)

  unfoldable pub insert_output_slot_at :
      NodeStates F → NodePath → ℕ → String → DataType → OutputSlotId → NodeStates F × ℕ
  unfolding bump_structure output_slot_count reindex_output_slot_owners
  insert_output_slot_at s path index label data_type new_id =
      let at = min index (output_slot_count s path) in
      let b = bump_structure s in
      let slot : OutputSlotState = record { id = new_id; label = label; data_type = data_type } in
      let inserted = record b {
        output_slots =
            HashMap.insert s.output_slots path (insert_at (get_list s.output_slots path) at slot);
      } in
      let reindexed = reindex_output_slot_owners inserted path at in
      (record reindexed { edges = HashMap.map_values (shift_output_up path at) s.edges }, at)

  -- `none`: no such slot (`index >= slots.len()`, or no list at all), and nothing is removed
  unfoldable pub remove_input_found :
      NodeStates F → NodePath → ℕ → Option (InputSlotState F) → NodeStates F
  unfolding reindex_input_slot_owners
  remove_input_found s path index none = s
  remove_input_found s path index (some removed) =
      let shortened = record s {
        input_slots =
            HashMap.insert s.input_slots path (remove_at (get_list s.input_slots path) index);
        input_slot_owner = HashMap.remove s.input_slot_owner removed.id;
      } in
      let reindexed = reindex_input_slot_owners shortened path index in
      record reindexed { edges = HashMap.map_values (shift_input_down path index) s.edges }

  unfoldable pub remove_input_slot : NodeStates F → NodePath → ℕ → NodeStates F
  unfolding remove_input_found bump_structure
  remove_input_slot s path index =
      remove_input_found (bump_structure s) path index
        (get_elem? (get_list s.input_slots path) index)

  unfoldable pub remove_output_found :
      NodeStates F → NodePath → ℕ → Option OutputSlotState → NodeStates F
  unfolding reindex_output_slot_owners
  remove_output_found s path index none = s
  remove_output_found s path index (some removed) =
      let shortened = record s {
        output_slots =
            HashMap.insert s.output_slots path (remove_at (get_list s.output_slots path) index);
        output_slot_owner = HashMap.remove s.output_slot_owner removed.id;
      } in
      let reindexed = reindex_output_slot_owners shortened path index in
      record reindexed { edges = HashMap.map_values (shift_output_down path index) s.edges }

  unfoldable pub remove_output_slot : NodeStates F → NodePath → ℕ → NodeStates F
  unfolding remove_output_found bump_structure
  remove_output_slot s path index =
      remove_output_found (bump_structure s) path index
        (get_elem? (get_list s.output_slots path) index)
