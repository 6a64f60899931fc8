-- ===== src/Slot.antt =====
-- src/edge/slot.rs: the types and values that travel along the edges.
pub mod DataType
pub mod Data
pub mod Fields
