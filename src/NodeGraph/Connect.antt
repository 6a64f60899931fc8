-- ===== src/NodeGraph/Connect.antt =====
-- src/node_graph/node_graph_system.rs: `add_edge_with_id`, `create_edge_at` and the functions that
-- connect nodes. Each gives the graph that it leaves and its result. A recorded error is returned
-- as the `GraphError` of which the source returns the text.
pub mod Laws
pub mod Outcome
pub mod Limits
use cognet.Prelude.{
  ℕ, Bool, true, false, Option, none, some, List, ◌==◌, if◌then◌else◌, leb, length, nat_eq,
}
use cognet.Result.{Result, ok, err, ok_or, ◌>>=◌}
use cognet.NodePath.{NodeId, NodePath, root, child, leaf}
use cognet.Slot.DataType.{data_type_eq}
use cognet.Edge.{Edge, EdgeId}
use cognet.ErrorKind.{ErrorTarget}
use cognet.GraphError.{
  GraphError, node_not_found, input_slot_not_found, output_slot_not_found, type_mismatch,
  connection_limit_exceeded,
}
use cognet.NodeStates.{
  NodeStates, InputSlotState, OutputSlotState, node, input_slot, output_slot, get_edge,
  edges_for_input,
}
use cognet.NodeStates.Edges.{add_edge}
use cognet.NodeGraph.{NodeGraph, subgraph_proxy_ids_at_path, add_error, clear_error}

pub data ConnectError : Type 0 where
  no_proxy_input no_proxy_output : NodePath → ℕ → ConnectError
  from_node_is_root to_node_is_root : ConnectError
  refused : GraphError → ConnectError
  already_exists : EdgeId → ConnectError
  -- of `create_edge_at`
  invalid_output_slot_index invalid_input_slot_index : ConnectError

module _ {F : Type 0} where
  -- an end at a subgraph's external slot moves to the slot of its proxy
  unfoldable pub retarget_input :
      NodeStates F → Edge → Option (NodeId × NodeId) → Result ConnectError Edge
  retarget_input s edge none = ok edge
  retarget_input s edge (some (input_proxy_id, output_proxy_id)) =
      let proxy_path = child edge.to_node input_proxy_id in
      do
        slot ←
            ok_or (input_slot s proxy_path edge.to_input_slot_index)
              (no_proxy_input proxy_path edge.to_input_slot_index)
        ok (record edge { to_node = proxy_path; to_input_slot_id = slot.id })

  unfoldable pub retarget_output :
      NodeStates F → Edge → Option (NodeId × NodeId) → Result ConnectError Edge
  retarget_output s edge none = ok edge
  retarget_output s edge (some (input_proxy_id, output_proxy_id)) =
      let proxy_path = child edge.from_node output_proxy_id in
      do
        slot ←
            ok_or (output_slot s proxy_path edge.from_output_slot_index)
              (no_proxy_output proxy_path edge.from_output_slot_index)
        ok (record edge { from_node = proxy_path; from_output_slot_id = slot.id })

  unfoldable pub retarget : NodeGraph F → Edge → Result ConnectError Edge
  unfolding retarget_input retarget_output
  retarget g edge = do
    moved ← retarget_input g.node_states edge (subgraph_proxy_ids_at_path g edge.to_node)
    retarget_output g.node_states moved (subgraph_proxy_ids_at_path g moved.from_node)

  -- `current >= max`, where the slot has a limit
  unfoldable pub check_limit :
      NodeStates F → NodeId → Edge → InputSlotState F → Option ℕ → Result GraphError (Unit {0})
  check_limit s to_node_id edge to_slot none = ok tt
  check_limit s to_node_id edge to_slot (some max) =
      if leb max (length (edges_for_input s to_slot.id))
      then err (connection_limit_exceeded to_node_id edge.to_input_slot_index max)
      else ok tt

  unfoldable pub check_slots :
      NodeStates F
      → NodeId
      → Edge
      → OutputSlotState
      → InputSlotState F
      → Result GraphError (Unit {0})
  unfolding check_limit
  check_slots s to_node_id edge from_slot to_slot =
      if from_slot.data_type == to_slot.data_type
      then check_limit s to_node_id edge to_slot to_slot.max_connections
      else err
          (type_mismatch to_node_id edge.to_input_slot_index from_slot.data_type to_slot.data_type)

  -- the block of checks under the read lock
  unfoldable pub validate : NodeStates F → NodeId → NodeId → Edge → Result GraphError (Unit {0})
  unfolding check_slots
  validate s from_node_id to_node_id edge = do
    _ ← ok_or (node s edge.from_node) (node_not_found from_node_id)
    _ ← ok_or (node s edge.to_node) (node_not_found to_node_id)
    from_slot ←
        ok_or (output_slot s edge.from_node edge.from_output_slot_index)
          (output_slot_not_found from_node_id edge.from_output_slot_index)
    to_slot ←
        ok_or (input_slot s edge.to_node edge.to_input_slot_index)
          (input_slot_not_found to_node_id edge.to_input_slot_index)
    check_slots s to_node_id edge from_slot to_slot

  -- an id that is taken is refused, and no error is recorded
  unfoldable pub add_new :
      NodeGraph F → EdgeId → Edge → Option Edge → NodeGraph F × Result ConnectError EdgeId
  add_new g edge_id edge (some other) = (g, err (already_exists edge_id))
  add_new g edge_id edge none =
      (record g { node_states = add_edge g.node_states edge_id edge }, ok edge_id)

  unfoldable pub add_checked :
      NodeGraph F
      → EdgeId
      → Edge
      → Result GraphError (Unit {0})
      → NodeGraph F × Result ConnectError EdgeId
  unfolding add_new
  add_checked g edge_id edge (err e) = (add_error g e, err (refused e))
  add_checked g edge_id edge (ok u) = add_new g edge_id edge (get_edge g.node_states edge_id)

  unfoldable pub add_between :
      NodeGraph F
      → EdgeId
      → Edge
      → Option NodeId
      → Option NodeId
      → NodeGraph F × Result ConnectError EdgeId
  unfolding add_checked validate
  add_between g edge_id edge none to = (g, err from_node_is_root)
  add_between g edge_id edge (some from_node_id) none = (g, err to_node_is_root)
  add_between g edge_id edge (some from_node_id) (some to_node_id) =
      add_checked (clear_error g (ErrorTarget.input_port to_node_id edge.to_input_slot_index))
        edge_id edge (validate g.node_states from_node_id to_node_id edge)

  unfoldable pub add_retargeted :
      NodeGraph F → EdgeId → Result ConnectError Edge → NodeGraph F × Result ConnectError EdgeId
  unfolding add_between
  add_retargeted g edge_id (err e) = (g, err e)
  add_retargeted g edge_id (ok edge) =
      add_between g edge_id edge (leaf edge.from_node) (leaf edge.to_node)

  unfoldable pub add_edge_with_id :
      NodeGraph F → EdgeId → Edge → NodeGraph F × Result ConnectError EdgeId
  unfolding add_retargeted retarget
  add_edge_with_id g edge_id edge = add_retargeted g edge_id (retarget g edge)

  unfoldable pub create_edge_at :
      NodeGraph F → NodePath → ℕ → NodePath → ℕ → Result ConnectError Edge
  create_edge_at g from_path from_index to_path to_index = do
    from_slot ← ok_or (output_slot g.node_states from_path from_index) invalid_output_slot_index
    to_slot ← ok_or (input_slot g.node_states to_path to_index) invalid_input_slot_index
    ok (record {
      from_node = from_path;
      from_output_slot_index = from_index;
      from_output_slot_id = from_slot.id;
      to_node = to_path;
      to_input_slot_index = to_index;
      to_input_slot_id = to_slot.id;
    })

  unfoldable pub connect_created :
      NodeGraph F → EdgeId → Result ConnectError Edge → NodeGraph F × Result ConnectError EdgeId
  unfolding add_edge_with_id
  connect_created g edge_id (err e) = (g, err e)
  connect_created g edge_id (ok edge) = add_edge_with_id g edge_id edge

  -- `connect_nodes_at` is this at a fresh id
  unfoldable pub connect_nodes_at_with_id :
      NodeGraph F → EdgeId → NodePath → ℕ → NodePath → ℕ → NodeGraph F × Result ConnectError EdgeId
  unfolding connect_created create_edge_at
  connect_nodes_at_with_id g edge_id from_path from_index to_path to_index =
      connect_created g edge_id (create_edge_at g from_path from_index to_path to_index)

  unfoldable pub connect_with_id :
      NodeGraph F → EdgeId → NodeId → ℕ → NodeId → ℕ → NodeGraph F × Result ConnectError EdgeId
  unfolding connect_nodes_at_with_id
  connect_with_id g edge_id from from_index to to_index =
      connect_nodes_at_with_id g edge_id (child root from) from_index (child root to) to_index
