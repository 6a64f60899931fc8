-- ===== src/Edge.antt =====
-- src/edge/mod.rs: a directed connection. Both ends carry the path, the index and the id of
-- their slot.
use cognet.Prelude.{ℕ}
use cognet.NodePath.{NodePath}

abbrev pub EdgeId : Type 0
EdgeId = ℕ

abbrev pub InputSlotId : Type 0
InputSlotId = ℕ

abbrev pub OutputSlotId : Type 0
OutputSlotId = ℕ

pub record Edge : Type 0 where
  pub from_node : NodePath
  pub from_output_slot_index : ℕ
  pub from_output_slot_id : OutputSlotId
  pub to_node : NodePath
  pub to_input_slot_index : ℕ
  pub to_input_slot_id : InputSlotId
