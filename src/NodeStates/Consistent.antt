-- ===== src/NodeStates/Consistent.antt =====
-- The invariant of src/node_graph/node_state.rs: the slot ids and their owners are in lock-step on
-- both sides, every edge names the slots that its ids own, and the four indexes have exactly the
-- edges. The modules below are about the operations, by groups.
pub mod Edges
pub mod Reorder
pub mod Shifts
pub mod InputSlots
pub mod OutputSlots
pub mod Fresh
pub mod Nodes
use cognet.Prelude.{◌≡◌, refl, some, none, ap, nat_eq, arith}
use cognet.HashMap
use cognet.HashMap.{HashMap, get-empty}
use cognet.ListMap.{get_list, get_list-empty}
use cognet.NodePath.{NodePath, path_eq}
use cognet.Edge.{Edge, EdgeId}
use cognet.NodeStates.{NodeStates, default, InputSlotState, OutputSlotState, bump_structure, Owner}
use cognet.NodeStates.Slots.{input_id, output_id}
use cognet.NodeStates.Lockstep.{InLockstep, id_at-nil}
use cognet.NodeStates.Index.{IsIndexed}
use Prim.Native.Nat.{ℕ}

abbrev pub input_key : Edge → ℕ
input_key edge = edge.to_input_slot_id

abbrev pub output_key : Edge → ℕ
output_key edge = edge.from_output_slot_id

abbrev pub source : Edge → NodePath
source edge = edge.from_node

abbrev pub sink : Edge → NodePath
sink edge = edge.to_node

-- both ends of the edge are what the owners of its slot ids say
pub record IsAligned (inputs outputs : HashMap ℕ Owner) (edge : Edge) : Type 0 where
  pub input_end :
      HashMap.get inputs edge.to_input_slot_id ≡ some (edge.to_node, edge.to_input_slot_index)
  pub output_end :
      HashMap.get outputs edge.from_output_slot_id
      ≡ some (edge.from_node, edge.from_output_slot_index)

pub record IsConsistent {F : Type 0} (s : NodeStates F) : Type 0 where
  pub inputs : InLockstep input_id s.input_slots s.input_slot_owner
  pub outputs : InLockstep output_id s.output_slots s.output_slot_owner
  pub ends :
      (id : EdgeId) (edge : Edge)
      → HashMap.get s.edges id ≡ some edge
      → IsAligned s.input_slot_owner s.output_slot_owner edge
  pub by_input : IsIndexed input_key s.input_connections s.edges
  pub by_output : IsIndexed output_key s.output_connections s.edges
  pub by_source : IsIndexed source s.outgoing_edges s.edges
  pub by_sink : IsIndexed sink s.incoming_edges s.edges

module _ {F : Type 0} where
  pub bump_structure-IsConsistent :
      (s : NodeStates F) → IsConsistent s → IsConsistent (bump_structure s)
  unfolding bump_structure
  bump_structure-IsConsistent s w = record {
    inputs = w.inputs;
    outputs = w.outputs;
    ends = w.ends;
    by_input = w.by_input;
    by_output = w.by_output;
    by_source = w.by_source;
    by_sink = w.by_sink;
  }

  -- the empty state
  pub default-IsConsistent : IsConsistent (default {F = F})
  unfolding default
  default-IsConsistent = record {
    inputs = record {
      at = λ k p i. ground (
        arith,
        get-empty {V = Owner} k,
        get_list-empty {V = InputSlotState F} p,
        id_at-nil (input_id {F = F}) i,
      );
    };
    outputs = record {
      at = λ k p i. ground (
        arith,
        get-empty {V = Owner} k,
        get_list-empty {V = OutputSlotState} p,
        id_at-nil output_id i,
      );
    };
    ends = λ id edge h. absurd (cc (get-empty {V = Edge} id, h));
    by_input = record {
      exact = λ k id. ground (arith, get-empty {V = Edge} id, get_list-empty {V = EdgeId} k);
      nodup = λ k. rw (get_list-empty {V = EdgeId} k) tt;
    };
    by_output = record {
      exact = λ k id. ground (arith, get-empty {V = Edge} id, get_list-empty {V = EdgeId} k);
      nodup = λ k. rw (get_list-empty {V = EdgeId} k) tt;
    };
    by_source = record {
      exact = λ k id. ground (arith, get-empty {V = Edge} id, get_list-empty {V = EdgeId} k);
      nodup = λ k. rw (get_list-empty {V = EdgeId} k) tt;
    };
    by_sink = record {
      exact = λ k id. ground (arith, get-empty {V = Edge} id, get_list-empty {V = EdgeId} k);
      nodup = λ k. rw (get_list-empty {V = EdgeId} k) tt;
    };
  }
