-- ===== src/PathApi.antt =====
-- src/node_graph/path_api.rs: the operations on the node at a path that store or clear its data
-- and the default values of its input slots. The paths in the error texts are not modelled.
pub mod Ends
pub mod Fields
pub mod Laws
use cognet.Prelude.{ℕ, Bool, true, false, Option, none, some, List, if◌then◌else◌}
use mathlib.Core.Option
use cognet.HashMap
use cognet.Result.{Result, ok, err}
use cognet.NodePath.{NodeId, NodePath, child, path_eq}
use cognet.PathIndex
use cognet.Slot.Data.{Data, DataValue}
use cognet.NodeStates.{NodeStates, NodeState, InputSlotState, node, input_slot, mark_changed}
use cognet.NodeStates.Setters.{set_input_slot, is_some}
use cognet.NodeGraph.{NodeGraph, subgraph_proxy_ids_at_path}

pub data PathError : Type 0 where
  node_not_found slot_not_found proxy_slot_not_found : PathError

abbrev pub Answer : Type 0 → Type 0
Answer F = NodeGraph F × Result {0, 0} PathError Unit

module _ {F : Type 0} where
  unfoldable pub children_of_path : NodeGraph F → NodePath → List NodeId
  children_of_path g path = PathIndex.children_of g.node_states.path_index path

  abbrev pub with_data : Option (Data F) → NodeState F → NodeState F
  with_data data_value state = record state { node_data = data_value }

  unfoldable pub set_node_data : NodeStates F → NodePath → Option (Data F) → NodeStates F
  unfolding mark_changed
  set_node_data s path data_value =
      mark_changed (record s { nodes = HashMap.update s.nodes path (with_data data_value) }) path

  unfoldable pub write_node_data_at : NodeGraph F → NodePath → Option (Data F) → Answer F
  unfolding node set_node_data
  write_node_data_at g path data_value =
      if is_some (node g.node_states path)
      then (record g { node_states = set_node_data g.node_states path data_value }, ok tt)
      else (g, err PathError.node_not_found)

  unfoldable pub update_node_data_at : NodeGraph F → NodePath → Data F → Answer F
  unfolding write_node_data_at
  update_node_data_at g path data_value = write_node_data_at g path (some data_value)

  unfoldable pub clear_node_data_at : NodeGraph F → NodePath → Answer F
  unfolding write_node_data_at
  clear_node_data_at g path = write_node_data_at g path none

  abbrev pub with_default : Option (DataValue F) → InputSlotState F → InputSlotState F
  with_default v slot = record slot { default_value = v }

  -- the path of the input proxy, of a subgraph node
  unfoldable pub input_proxy_at : NodeGraph F → NodePath → Option NodePath
  unfolding subgraph_proxy_ids_at_path
  input_proxy_at g path = Option.map (λ ids. child path ids.0) (subgraph_proxy_ids_at_path g path)

  -- the checks before any change
  unfoldable pub check_targets :
      NodeStates F → NodePath → ℕ → Option NodePath → Result {0, 0} PathError Unit
  unfolding input_slot
  check_targets s path index none =
      if is_some (input_slot s path index) then ok tt else err PathError.slot_not_found
  check_targets s path index (some proxy) =
      if is_some (input_slot s path index)
      then (if is_some (input_slot s proxy index)
          then ok tt
          else err PathError.proxy_slot_not_found)
      else err PathError.slot_not_found

  -- both slots are written, then both paths marked
  unfoldable pub write_targets :
      NodeStates F → NodePath → ℕ → Option NodePath → Option (DataValue F) → NodeStates F
  unfolding set_input_slot mark_changed
  write_targets s path index none v =
      mark_changed (set_input_slot s path index (with_default v)).0 path
  write_targets s path index (some proxy) v =
      let first = (set_input_slot s path index (with_default v)).0 in
      let both = (set_input_slot first proxy index (with_default v)).0 in
      mark_changed (mark_changed both path) proxy

  unfoldable pub write_default_at : NodeGraph F → NodePath → ℕ → Option (DataValue F) → Answer F
  unfolding check_targets write_targets input_proxy_at
  write_default_at g path index v =
      let proxy = input_proxy_at g path in
      elim (check_targets g.node_states path index proxy) [
        | err e ↦ (g, err e)
        | ok done ↦
            (record g { node_states = write_targets g.node_states path index proxy v }, ok tt)
      ]

  unfoldable pub update_input_slot_default_data_at : NodeGraph F → NodePath → ℕ → Data F → Answer F
  unfolding write_default_at
  update_input_slot_default_data_at g path index data_value =
      write_default_at g path index (some data_value.value)

  unfoldable pub clear_input_slot_default_data_at : NodeGraph F → NodePath → ℕ → Answer F
  unfolding write_default_at
  clear_input_slot_default_data_at g path index = write_default_at g path index none
