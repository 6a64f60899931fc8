-- ===== src/NodeStates/Consistent/Shifts.antt =====
-- The shifts of slot indexes in node_state.rs: an edge's keys, and its ends.
use cognet.Prelude.{ℕ, ◌≡◌, some, arith, nat_eq}
use cognet.HashMap
use cognet.HashMap.{HashMap}
use cognet.NodePath.{NodePath, path_eq}
use cognet.Edge.{Edge}
use cognet.NodeStates.{Owner}
use cognet.NodeStates.Slots.{shift_input_up, shift_output_up, shift_input_down, shift_output_down}
use cognet.NodeStates.Lockstep.Moves.{index_up, index_down}
use cognet.NodeStates.Consistent.{IsAligned, input_key, output_key, source, sink}

-- the keys of the four indexes
abbrev pub SameKeys : Edge → Edge → Type 0
SameKeys a b =
    (input_key a ≡ input_key b)
    × (output_key a ≡ output_key b)
    × (source a ≡ source b)
    × (sink a ≡ sink b)

module _ (path : NodePath) (index : ℕ) (edge : Edge) where
  pub shift_input_up-keys : SameKeys (shift_input_up path index edge) edge
  unfolding shift_input_up
  shift_input_up-keys = ground arith

  pub shift_output_up-keys : SameKeys (shift_output_up path index edge) edge
  unfolding shift_output_up
  shift_output_up-keys = ground arith

  pub shift_input_down-keys : SameKeys (shift_input_down path index edge) edge
  unfolding shift_input_down
  shift_input_down-keys = ground arith

  pub shift_output_down-keys : SameKeys (shift_output_down path index edge) edge
  unfolding shift_output_down
  shift_output_down-keys = ground arith

  pub shift_input_up-IsAligned :
      {inputs outputs inputs' : HashMap ℕ Owner}
      → IsAligned inputs outputs edge
      → HashMap.get inputs' edge.to_input_slot_id
        ≡ some (edge.to_node, index_up path index edge.to_node edge.to_input_slot_index)
      → IsAligned inputs' outputs (shift_input_up path index edge)
  unfolding shift_input_up
  shift_input_up-IsAligned a moved = record {
    input_end = ground arith;
    output_end = ground (arith, a.output_end);
  }

  pub shift_input_down-IsAligned :
      {inputs outputs inputs' : HashMap ℕ Owner}
      → IsAligned inputs outputs edge
      → HashMap.get inputs' edge.to_input_slot_id
        ≡ some (edge.to_node, index_down path index edge.to_node edge.to_input_slot_index)
      → IsAligned inputs' outputs (shift_input_down path index edge)
  unfolding shift_input_down
  shift_input_down-IsAligned a moved = record {
    input_end = ground arith;
    output_end = ground (arith, a.output_end);
  }

  pub shift_output_up-IsAligned :
      {inputs outputs outputs' : HashMap ℕ Owner}
      → IsAligned inputs outputs edge
      → HashMap.get outputs' edge.from_output_slot_id
        ≡ some (edge.from_node, index_up path index edge.from_node edge.from_output_slot_index)
      → IsAligned inputs outputs' (shift_output_up path index edge)
  unfolding shift_output_up
  shift_output_up-IsAligned a moved = record {
    output_end = ground arith;
    input_end = ground (arith, a.input_end);
  }

  pub shift_output_down-IsAligned :
      {inputs outputs outputs' : HashMap ℕ Owner}
      → IsAligned inputs outputs edge
      → HashMap.get outputs' edge.from_output_slot_id
        ≡ some (edge.from_node, index_down path index edge.from_node edge.from_output_slot_index)
      → IsAligned inputs outputs' (shift_output_down path index edge)
  unfolding shift_output_down
  shift_output_down-IsAligned a moved = record {
    output_end = ground arith;
    input_end = ground (arith, a.input_end);
  }
