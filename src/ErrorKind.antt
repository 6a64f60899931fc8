-- ===== src/ErrorKind.antt =====
-- src/error.rs: what an error is about, and its kinds.
use native.Mathlib.Decide.{ℕ_discrete}
use cognet.Prelude.{ℕ, String, Eq, eq_of_discrete}
use cognet.NodePath.{NodeId}
use cognet.Edge.{EdgeId}
use cognet.Slot.DataType.{DataType}

pub data ErrorTarget : Type 0 where
  node : NodeId → ErrorTarget
  input_port output_port : NodeId → ℕ → ErrorTarget
  edge : EdgeId → ErrorTarget
  graph : ErrorTarget

pub data ErrorKind : Type 0 where
  type_mismatch : DataType → DataType → ErrorKind
  connection_limit_exceeded : ℕ → ErrorKind
  node_not_found slot_not_found cycle_detected : ErrorKind
  execution other : String → ErrorKind

unfoldable pub ErrorTarget-discrete : Discrete ErrorTarget
ErrorTarget-discrete = hlevel (ℕ_discrete)

instance abbrev pub error_target_eq : Eq ErrorTarget
error_target_eq = eq_of_discrete ErrorTarget-discrete
