-- ===== src/NodeStates/Consistent/Reorder.antt =====
-- The reordering of a slot's connections in node_state.rs and the invariant.
use cognet.Prelude.{ℕ, ◌≡◌, refl, Option, none, some, nat_eq}
use cognet.HashMap
use cognet.ListMap.{get_list}
use cognet.NodePath.{path_eq}
use cognet.Edge.{Edge, EdgeId}
use cognet.NodeStates.{NodeStates, bump_structure}
use cognet.NodeStates.Edges.{
  position, reorder_input_edge, reorder_input_at, reorder_input_found, reorder_output_edge,
  reorder_output_at, reorder_output_found,
}
use cognet.NodeStates.Index.{moved-IsIndexed}
use cognet.NodeStates.Consistent.{IsConsistent, bump_structure-IsConsistent, input_key, output_key}

module _ {F : Type 0} where
  reorder_input_at-IsConsistent :
      (s : NodeStates F) (id : EdgeId) (n : ℕ) (edge : Edge) (o : Option ℕ)
      → position id (get_list s.input_connections edge.to_input_slot_id) ≡ o
      → IsConsistent s
      → IsConsistent (reorder_input_at s id n edge o).0
  unfolding reorder_input_at
  reorder_input_at-IsConsistent s id n edge none e w = w
  reorder_input_at-IsConsistent s id n edge (some i) e w = record {
    inputs = w.inputs;
    outputs = w.outputs;
    ends = w.ends;
    by_input = moved-IsIndexed input_key edge.to_input_slot_id id i n w.by_input e;
    by_output = w.by_output;
    by_source = w.by_source;
    by_sink = w.by_sink;
  }

  -- Reordering an edge among the connections of its input slot keeps the invariant.
  pub reorder_input_edge-IsConsistent :
      (s : NodeStates F) (id : EdgeId) (n : ℕ)
      → IsConsistent s
      → IsConsistent (reorder_input_edge s id n).0
  unfolding reorder_input_edge
  reorder_input_edge-IsConsistent s id n w = go (HashMap.get s.edges id)
    where
      go : (o : Option Edge) → IsConsistent (reorder_input_found (bump_structure s) id n o).0
      go none = bump_structure-IsConsistent s w
      go (some edge) =
          reorder_input_at-IsConsistent (bump_structure s) id n edge
            (position id (get_list s.input_connections edge.to_input_slot_id)) refl
            (bump_structure-IsConsistent s w)

  reorder_output_at-IsConsistent :
      (s : NodeStates F) (id : EdgeId) (n : ℕ) (edge : Edge) (o : Option ℕ)
      → position id (get_list s.output_connections edge.from_output_slot_id) ≡ o
      → IsConsistent s
      → IsConsistent (reorder_output_at s id n edge o).0
  unfolding reorder_output_at
  reorder_output_at-IsConsistent s id n edge none e w = w
  reorder_output_at-IsConsistent s id n edge (some i) e w = record {
    inputs = w.inputs;
    outputs = w.outputs;
    ends = w.ends;
    by_input = w.by_input;
    by_output = moved-IsIndexed output_key edge.from_output_slot_id id i n w.by_output e;
    by_source = w.by_source;
    by_sink = w.by_sink;
  }

  -- Reordering an edge among the connections of its output slot keeps the invariant.
  pub reorder_output_edge-IsConsistent :
      (s : NodeStates F) (id : EdgeId) (n : ℕ)
      → IsConsistent s
      → IsConsistent (reorder_output_edge s id n).0
  unfolding reorder_output_edge
  reorder_output_edge-IsConsistent s id n w = go (HashMap.get s.edges id)
    where
      go : (o : Option Edge) → IsConsistent (reorder_output_found (bump_structure s) id n o).0
      go none = bump_structure-IsConsistent s w
      go (some edge) =
          reorder_output_at-IsConsistent (bump_structure s) id n edge
            (position id (get_list s.output_connections edge.from_output_slot_id)) refl
            (bump_structure-IsConsistent s w)
