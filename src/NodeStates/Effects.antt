-- ===== src/NodeStates/Effects.antt =====
-- What the operations of src/node_graph/node_state.rs leave behind, besides the invariant.
pub mod Slots
pub mod Cuts
pub mod Removals
