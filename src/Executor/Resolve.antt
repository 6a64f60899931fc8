-- ===== src/Executor/Resolve.antt =====
-- `resolve_value_through_interface`: the value that an edge delivers.
pub mod Laws
use cognet.Prelude.{
  ℕ, zero, suc, Option, none, some, Bool, true, false, List, if◌then◌else◌, nat_eq,
}
use cognet.HashMap
use cognet.HashSet
use cognet.Result.{to_option}
use cognet.NodePath.{NodePath, path_eq}
use cognet.Slot.Data.{Data, from_any_typed}
use cognet.Edge.{Edge, OutputSlotId}
use cognet.ExecutionCache.{ExecutionCache, get_output}
use cognet.NodeStates.{NodeStates, InputSlotState, input_slot, edges_for_input}
use cognet.Executor.Interface.{Visited, port_eq, is_interface, walk_edges, walk_fuel}

abbrev pub is_some {ℓ} : {A : Type ℓ} → Option A → Bool
is_some none = false
is_some (some a) = true

module _ {F : Type 0} where
  -- default_value.as_ref() and `from_any_typed(..).ok()`
  unfoldable pub slot_default : InputSlotState F → Option (Data F)
  slot_default slot = elim slot.default_value [
    | none ↦ none
    | some value ↦ to_option (from_any_typed value slot.data_type)
  ]

  unfoldable pub or_default :
      InputSlotState F → Option (Data F) × Visited → Option (Data F) × Visited
  unfolding slot_default
  or_default slot (some value, visited) = (some value, visited)
  or_default slot (none, visited) = (slot_default slot, visited)

  unfoldable pub resolve_value :
      ℕ
      → NodeStates F
      → ExecutionCache F
      → NodePath
      → ℕ
      → OutputSlotId
      → Visited
      → Option (Data F) × Visited
  unfolding or_default
  resolve_value zero s cache from_node index slot_id visited = (none, visited)
  resolve_value (suc fuel) s cache from_node index slot_id visited =
      if HashSet.contains visited (from_node, index)
      then (none, visited)
      else let visited' = HashSet.insert visited (from_node, index) in
        if is_interface s from_node
        then elim (input_slot s from_node index) [
          | none ↦ (none, visited')
          | some slot ↦ or_default slot (
              walk_edges s
                (λ edge seen. elim edge [
                  | none ↦ (none, seen)
                  | some e ↦
                      resolve_value fuel s cache e.from_node e.from_output_slot_index
                        e.from_output_slot_id seen
                ])
                is_some none (edges_for_input s slot.id) visited')
        ]
        else (get_output cache slot_id, visited')

  unfoldable pub resolve_value_through_interface :
      NodeStates F → ExecutionCache F → NodePath → ℕ → OutputSlotId → Option (Data F)
  unfolding resolve_value walk_fuel
  resolve_value_through_interface s cache from_node index slot_id =
      (resolve_value (walk_fuel s) s cache from_node index slot_id HashSet.empty).0
