-- ===== src/PathApi/Ends.antt =====
-- src/node_graph/path_api.rs: from an edge back to the external port of the subgraph that it was
-- aimed at.
pub mod Laws
use cognet.Prelude.{ℕ, Bool, Option, none, some, length, ◌==◌, nat_eq, if◌then◌else◌}
use mathlib.Core.Option
use cognet.NodePath
use cognet.NodePath.{NodeId, NodePath, child}
use cognet.Edge.{Edge, InputSlotId, OutputSlotId}
use cognet.NodeStates.{input_slot, output_slot}
use cognet.NodeGraph.{NodeGraph, subgraph_proxy_ids_at_path}

-- the end is the proxy, and the instance is the last segment of its path
unfoldable pub instance_of :
    NodePath → Option NodeId → (NodeId × NodeId → NodeId) → Option (NodeId × NodeId) → Option NodeId
instance_of sg_path end_id select_proxy none = none
instance_of sg_path none select_proxy (some ids) = none
instance_of sg_path (some end_id) select_proxy (some ids) =
    if end_id == select_proxy ids then NodePath.leaf sg_path else none

module _ {F : Type 0} where
  input_port :
      NodeGraph F → NodePath → ℕ → Option (NodeId × NodeId) → Option (NodePath × InputSlotId)
  unfolding input_slot
  input_port g sg_path port_index none = none
  input_port g sg_path port_index (some (input_proxy_id, output_proxy_id)) =
      let in_path = child sg_path input_proxy_id in
      Option.map (λ slot. (in_path, slot.id)) (input_slot g.node_states in_path port_index)

  unfoldable pub subgraph_external_input_slot :
      NodeGraph F → NodePath → ℕ → Option (NodePath × InputSlotId)
  unfolding input_port subgraph_proxy_ids_at_path
  subgraph_external_input_slot g sg_path port_index =
      input_port g sg_path port_index (subgraph_proxy_ids_at_path g sg_path)

  output_port :
      NodeGraph F → NodePath → ℕ → Option (NodeId × NodeId) → Option (NodePath × OutputSlotId)
  unfolding output_slot
  output_port g sg_path port_index none = none
  output_port g sg_path port_index (some (input_proxy_id, output_proxy_id)) =
      let out_path = child sg_path output_proxy_id in
      Option.map (λ slot. (out_path, slot.id)) (output_slot g.node_states out_path port_index)

  unfoldable pub subgraph_external_output_slot :
      NodeGraph F → NodePath → ℕ → Option (NodePath × OutputSlotId)
  unfolding output_port subgraph_proxy_ids_at_path
  subgraph_external_output_slot g sg_path port_index =
      output_port g sg_path port_index (subgraph_proxy_ids_at_path g sg_path)

  unfoldable pub instance_at :
      NodeGraph F → NodePath → (NodeId × NodeId → NodeId) → Option NodePath → Option NodeId
  unfolding instance_of subgraph_proxy_ids_at_path
  instance_at g endpoint select_proxy none = none
  instance_at g endpoint select_proxy (some sg_path) =
      if length sg_path.segments == 1
      then instance_of sg_path (NodePath.leaf endpoint) select_proxy
          (subgraph_proxy_ids_at_path g sg_path)
      else none

  unfoldable pub root_level_instance_at_proxy :
      NodeGraph F → NodePath → (NodeId × NodeId → NodeId) → Option NodeId
  unfolding instance_at
  root_level_instance_at_proxy g endpoint select_proxy =
      instance_at g endpoint select_proxy (NodePath.parent endpoint)

  unfoldable pub edge_external_target : NodeGraph F → Edge → Option (NodeId × ℕ)
  unfolding root_level_instance_at_proxy
  edge_external_target g edge =
      Option.map (λ id. (id, edge.to_input_slot_index))
        (root_level_instance_at_proxy g edge.to_node (λ ids. ids.0))

  unfoldable pub edge_external_source : NodeGraph F → Edge → Option (NodeId × ℕ)
  unfolding root_level_instance_at_proxy
  edge_external_source g edge =
      Option.map (λ id. (id, edge.from_output_slot_index))
        (root_level_instance_at_proxy g edge.from_node (λ ids. ids.1))
