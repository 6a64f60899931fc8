-- ===== src/NodeStates/Edges.antt =====
-- src/node_graph/node_state.rs: `add_edge`, `remove_edge`, `remove_edges_for_node_at` and the two
-- `reorder_*_edge`, with the four indexes that they keep.
use cognet.Prelude.{
  ℕ, ◌+◌, Bool, true, false, ◌||◌, Option, none, some, List, [], ◌∷◌, ◌==◌, if◌then◌else◌,
  insert_at, remove_at, length, min, nat_eq,
}
use cognet.HashMap
use cognet.HashSet
use cognet.ListMap.{get_list, push_entry, retain_entry}
use cognet.NodePath.{NodePath, path_eq}
use cognet.Edge.{Edge, EdgeId}
use cognet.NodeStates.{NodeStates, bump_structure}

abbrev pub touches : NodePath → Edge → Bool
touches path edge = (edge.from_node == path) || (edge.to_node == path)

-- connections.iter().position(|id| id == edge_id)
unfoldable pub position : EdgeId → List EdgeId → Option ℕ
position edge_id [] = none
position edge_id (x ∷ xs) =
    let rest = position edge_id xs in
    if x == edge_id then some 0 else elim rest [ none ↦ none | some i ↦ some (i + 1) ]

-- the moved list: removed at its old place, inserted at the clamped new one
unfoldable pub moved : List EdgeId → EdgeId → ℕ → ℕ → List EdgeId
moved connections edge_id old_index new_index =
    let left = remove_at connections old_index in
    insert_at left (min new_index (length left)) edge_id

module _ {F : Type 0} where
  unfoldable pub add_edge : NodeStates F → EdgeId → Edge → NodeStates F
  unfolding bump_structure
  add_edge s edge_id edge =
      let b = bump_structure s in
      record b {
        changed_nodes = HashSet.insert s.changed_nodes edge.to_node;
        input_connections = push_entry s.input_connections edge.to_input_slot_id edge_id;
        output_connections = push_entry s.output_connections edge.from_output_slot_id edge_id;
        outgoing_edges = push_entry s.outgoing_edges edge.from_node edge_id;
        incoming_edges = push_entry s.incoming_edges edge.to_node edge_id;
        edges = HashMap.insert s.edges edge_id edge;
      }

  -- the edge is out of `edges`, and leaves the four indexes
  unfoldable pub unindex : NodeStates F → EdgeId → Edge → NodeStates F
  unindex s edge_id edge = record s {
    edges = HashMap.remove s.edges edge_id;
    changed_nodes = HashSet.insert s.changed_nodes edge.to_node;
    input_connections = retain_entry s.input_connections edge.to_input_slot_id edge_id;
    output_connections = retain_entry s.output_connections edge.from_output_slot_id edge_id;
    outgoing_edges = retain_entry s.outgoing_edges edge.from_node edge_id;
    incoming_edges = retain_entry s.incoming_edges edge.to_node edge_id;
  }

  unfoldable pub remove_found : NodeStates F → EdgeId → Option Edge → NodeStates F × Option Edge
  unfolding unindex
  remove_found s edge_id none = (s, none)
  remove_found s edge_id (some edge) = (unindex s edge_id edge, some edge)

  unfoldable pub remove_edge : NodeStates F → EdgeId → NodeStates F × Option Edge
  unfolding remove_found bump_structure
  remove_edge s edge_id = remove_found (bump_structure s) edge_id (HashMap.get s.edges edge_id)

  unfoldable pub remove_edges : NodeStates F → List EdgeId → NodeStates F
  remove_edges s [] = s
  remove_edges s (edge_id ∷ rest) = remove_edges (remove_edge s edge_id).0 rest

  unfoldable pub remove_edges_for_node_at : NodeStates F → NodePath → NodeStates F
  unfolding bump_structure
  remove_edges_for_node_at s path =
      remove_edges (bump_structure s) (HashMap.keys_where (λ id edge. touches path edge) s.edges)

  unfoldable pub reorder_output_at :
      NodeStates F → EdgeId → ℕ → Edge → Option ℕ → NodeStates F × Bool
  unfolding moved
  reorder_output_at s edge_id new_index edge none = (s, false)
  reorder_output_at s edge_id new_index edge (some old_index) = (
    record s {
      output_connections = HashMap.insert s.output_connections edge.from_output_slot_id (
          moved (get_list s.output_connections edge.from_output_slot_id) edge_id old_index
            new_index);
      changed_nodes = HashSet.insert s.changed_nodes edge.from_node;
    },
    true,
  )

  unfoldable pub reorder_output_found :
      NodeStates F → EdgeId → ℕ → Option Edge → NodeStates F × Bool
  unfolding reorder_output_at
  reorder_output_found s edge_id new_index none = (s, false)
  reorder_output_found s edge_id new_index (some edge) =
      reorder_output_at s edge_id new_index edge
        (position edge_id (get_list s.output_connections edge.from_output_slot_id))

  -- a missing list has no position either
  unfoldable pub reorder_output_edge : NodeStates F → EdgeId → ℕ → NodeStates F × Bool
  unfolding reorder_output_found bump_structure
  reorder_output_edge s edge_id new_index =
      reorder_output_found (bump_structure s) edge_id new_index (HashMap.get s.edges edge_id)

  unfoldable pub reorder_input_at :
      NodeStates F → EdgeId → ℕ → Edge → Option ℕ → NodeStates F × Bool
  unfolding moved
  reorder_input_at s edge_id new_index edge none = (s, false)
  reorder_input_at s edge_id new_index edge (some old_index) = (
    record s {
      input_connections =
          HashMap.insert s.input_connections edge.to_input_slot_id (
            moved (get_list s.input_connections edge.to_input_slot_id) edge_id old_index new_index);
      changed_nodes = HashSet.insert s.changed_nodes edge.to_node;
    },
    true,
  )

  unfoldable pub reorder_input_found : NodeStates F → EdgeId → ℕ → Option Edge → NodeStates F × Bool
  unfolding reorder_input_at
  reorder_input_found s edge_id new_index none = (s, false)
  reorder_input_found s edge_id new_index (some edge) =
      reorder_input_at s edge_id new_index edge
        (position edge_id (get_list s.input_connections edge.to_input_slot_id))

  unfoldable pub reorder_input_edge : NodeStates F → EdgeId → ℕ → NodeStates F × Bool
  unfolding reorder_input_found bump_structure
  reorder_input_edge s edge_id new_index =
      reorder_input_found (bump_structure s) edge_id new_index (HashMap.get s.edges edge_id)
