-- ===== src/GraphError.antt =====
-- src/error.rs: `GraphError` and its constructors. The display texts are not modelled; the kind of
-- an error determines its text.
use cognet.Prelude.{ℕ, Bool, true, false, none, some, String}
use cognet.NodePath.{NodeId, NodePath, leaf}
use cognet.Slot.DataType.{DataType}
use cognet.ErrorKind.{ErrorKind, ErrorTarget}

pub record GraphError : Type 0 where
  pub target : ErrorTarget
  pub kind : ErrorKind

unfoldable pub type_mismatch : NodeId → ℕ → DataType → DataType → GraphError
type_mismatch node_id slot_index from_type to_type = record {
  target = ErrorTarget.input_port node_id slot_index;
  kind = ErrorKind.type_mismatch from_type to_type;
}

unfoldable pub connection_limit_exceeded : NodeId → ℕ → ℕ → GraphError
connection_limit_exceeded node_id slot_index max = record {
  target = ErrorTarget.input_port node_id slot_index;
  kind = ErrorKind.connection_limit_exceeded max;
}

unfoldable pub node_not_found : NodeId → GraphError
node_not_found node_id = record {
  target = ErrorTarget.node node_id;
  kind = ErrorKind.node_not_found;
}

unfoldable pub input_slot_not_found : NodeId → ℕ → GraphError
input_slot_not_found node_id slot_index = record {
  target = ErrorTarget.input_port node_id slot_index;
  kind = ErrorKind.slot_not_found;
}

unfoldable pub output_slot_not_found : NodeId → ℕ → GraphError
output_slot_not_found node_id slot_index = record {
  target = ErrorTarget.output_port node_id slot_index;
  kind = ErrorKind.slot_not_found;
}

unfoldable pub execution : NodeId → String → GraphError
execution node_id message = record {
  target = ErrorTarget.node node_id;
  kind = ErrorKind.execution message;
}

-- an error at the root is the graph's
unfoldable pub execution_at_path : NodePath → String → GraphError
execution_at_path path message = record {
  target = elim (leaf path) [ none ↦ ErrorTarget.graph | some node_id ↦ ErrorTarget.node node_id ];
  kind = ErrorKind.execution message;
}

unfoldable pub cycle_detected : GraphError
cycle_detected = record { target = ErrorTarget.graph; kind = ErrorKind.cycle_detected }

unfoldable pub is_connection_error : GraphError → Bool
is_connection_error e = elim e.kind [
  | ErrorKind.type_mismatch from_type to_type ↦ true
  | ErrorKind.connection_limit_exceeded max ↦ true
  | _ ↦ false
]

unfoldable pub is_execution_error : GraphError → Bool
is_execution_error e = elim e.kind [ ErrorKind.execution message ↦ true | _ ↦ false ]
