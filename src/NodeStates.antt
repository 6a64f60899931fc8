-- ===== src/NodeStates.antt =====
-- src/node_graph/node_state.rs: the state of all nodes, their slots and the edges. The
-- operations are in the modules `Slots`, `Edges` and `Nodes`; `Lockstep` and the modules below it
-- have the invariants. `F` is the type `f64`.
pub mod Edges
pub mod Slots
pub mod Nodes
pub mod Lockstep
pub mod Index
pub mod Consistent
pub mod Setters
pub mod Run
pub mod Effects
use cognet.Prelude.{
  ℕ, ◌+◌, ◌%◌, ◌^◌, ◌≡◌, Bool, true, Option, none, some, List, [], ◌∷◌, String, length, get_elem?,
  nat_eq,
}
use mathlib.Core.Option
use cognet.HashMap
use cognet.HashMap.{HashMap}
use cognet.HashSet
use cognet.HashSet.{HashSet}
use cognet.ListMap.{get_list}
use cognet.NodePath.{NodePath, path_eq}
use cognet.PathIndex
use cognet.PathIndex.{PathIndex}
use cognet.Slot.DataType.{DataType}
use cognet.Slot.Data.{Data, DataValue}
use cognet.Edge.{Edge, EdgeId, InputSlotId, OutputSlotId}

-- `std::any::TypeId` of a node type
abbrev pub RustTypeId : Type 0
RustTypeId = ℕ

-- `SlotDef` of src/node/type_info.rs
pub record SlotDef : Type 0 where
  pub label : String
  pub data_type : DataType
  pub max_connections : Option ℕ
  pub inspector_visible : Bool

pub record NodeState (F : Type 0) : Type 0 where
  pub type_name : String
  pub rust_type_id : Option RustTypeId
  pub node_data : Option (Data F)

pub record InputSlotState (F : Type 0) : Type 0 where
  pub id : InputSlotId
  pub label : String
  pub data_type : DataType
  pub max_connections : Option ℕ
  pub inspector_visible : Bool
  pub default_value : Option (DataValue F)

pub record OutputSlotState : Type 0 where
  pub id : OutputSlotId
  pub label : String
  pub data_type : DataType

-- an owner: the path of the node and the index of the slot
abbrev pub Owner : Type 0
Owner = NodePath × ℕ

pub record NodeStates (F : Type 0) : Type 0 where
  pub nodes : HashMap NodePath (NodeState F)
  pub input_slots : HashMap NodePath (List (InputSlotState F))
  pub output_slots : HashMap NodePath (List OutputSlotState)
  pub input_slot_owner : HashMap InputSlotId Owner
  pub output_slot_owner : HashMap OutputSlotId Owner
  pub edges : HashMap EdgeId Edge
  pub input_connections : HashMap InputSlotId (List EdgeId)
  pub output_connections : HashMap OutputSlotId (List EdgeId)
  pub outgoing_edges : HashMap NodePath (List EdgeId)
  pub incoming_edges : HashMap NodePath (List EdgeId)
  pub changed_nodes : HashSet NodePath
  pub path_index : PathIndex
  pub structure_generation : ℕ

-- `NodeStates::default`
unfoldable pub default : {F : Type 0} → NodeStates F
default = record {
  nodes = HashMap.empty;
  input_slots = HashMap.empty;
  output_slots = HashMap.empty;
  input_slot_owner = HashMap.empty;
  output_slot_owner = HashMap.empty;
  edges = HashMap.empty;
  input_connections = HashMap.empty;
  output_connections = HashMap.empty;
  outgoing_edges = HashMap.empty;
  incoming_edges = HashMap.empty;
  changed_nodes = HashSet.empty;
  path_index = PathIndex.default;
  structure_generation = 0;
}

-- the generation is a `u64`, and `wrapping_add`
unfoldable pub next_generation : ℕ → ℕ
next_generation g = (g + 1) % 2 ^ 64

module _ {F : Type 0} where
  unfoldable pub bump_structure : NodeStates F → NodeStates F
  bump_structure s = record s { structure_generation = next_generation s.structure_generation }

  unfoldable pub input_slot_count : NodeStates F → NodePath → ℕ
  input_slot_count s path = length (get_list s.input_slots path)

  unfoldable pub output_slot_count : NodeStates F → NodePath → ℕ
  output_slot_count s path = length (get_list s.output_slots path)

  -- self.input_slots.get(path)?.get(slot_index)
  unfoldable pub input_slot : NodeStates F → NodePath → ℕ → Option (InputSlotState F)
  input_slot s path index = get_elem? (get_list s.input_slots path) index

  unfoldable pub output_slot : NodeStates F → NodePath → ℕ → Option OutputSlotState
  output_slot s path index = get_elem? (get_list s.output_slots path) index

  -- `get`
  unfoldable pub node : NodeStates F → NodePath → Option (NodeState F)
  node s path = HashMap.get s.nodes path

  unfoldable pub get_edge : NodeStates F → EdgeId → Option Edge
  get_edge s edge_id = HashMap.get s.edges edge_id

  unfoldable pub edges_for_input : NodeStates F → InputSlotId → List EdgeId
  edges_for_input s slot_id = get_list s.input_connections slot_id

  unfoldable pub edges_for_output : NodeStates F → OutputSlotId → List EdgeId
  edges_for_output s slot_id = get_list s.output_connections slot_id

  unfoldable pub incoming_edges_at : NodeStates F → NodePath → List EdgeId
  incoming_edges_at s path = get_list s.incoming_edges path

  unfoldable pub outgoing_edges_at : NodeStates F → NodePath → List EdgeId
  outgoing_edges_at s path = get_list s.outgoing_edges path

  unfoldable pub mark_changed : NodeStates F → NodePath → NodeStates F
  mark_changed s path = record s { changed_nodes = HashSet.insert s.changed_nodes path }

  -- `drain_changed_nodes` returns the set and leaves it empty
  unfoldable pub drain_changed_nodes : NodeStates F → HashSet NodePath × NodeStates F
  drain_changed_nodes s = (s.changed_nodes, record s { changed_nodes = HashSet.empty })

  unfoldable pub restore_changed_nodes : NodeStates F → List NodePath → NodeStates F
  restore_changed_nodes s paths = record s { changed_nodes = HashSet.extend s.changed_nodes paths }
