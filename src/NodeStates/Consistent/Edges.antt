-- ===== src/NodeStates/Consistent/Edges.antt =====
-- The edge operations of node_state.rs and the invariant.
use cognet.Prelude.{
  ◌≡◌, refl, Option, none, some, List, [], ◌∷◌, ◌==◌, arith, if◌then◌else◌, contains, nat_eq,
  nat_beq_iff,
}
use cognet.HashMap
use cognet.HashMap.{HashMap, get-insert, get-remove, contains-keys_where, holds_at}
use cognet.NodePath.{NodePath, path_eq}
use cognet.Edge.{Edge, EdgeId}
use cognet.NodeStates.{NodeStates, bump_structure}
use cognet.NodeStates.Edges.{
  add_edge, remove_edge, unindex, remove_found, remove_edges, touches, remove_edges_for_node_at,
}
use cognet.NodeStates.Index.{push-IsIndexed, retain-IsIndexed}
use cognet.NodeStates.Consistent.{
  IsAligned, IsConsistent, bump_structure-IsConsistent, input_key, output_key, source, sink,
}

module _ {F : Type 0} where
  -- A new edge whose ends are owned as it says keeps the invariant.
  pub add_edge-IsConsistent :
      (s : NodeStates F) (id : EdgeId) (edge : Edge)
      → IsConsistent s
      → HashMap.get s.edges id ≡ none
      → IsAligned s.input_slot_owner s.output_slot_owner edge
      → IsConsistent (add_edge s id edge)
  unfolding add_edge
  add_edge-IsConsistent s id edge w fresh a = record {
    inputs = w.inputs;
    outputs = w.outputs;
    ends = λ j other h. ground (arith, get-insert s.edges id edge j, w.ends j other, a);
    by_input = push-IsIndexed input_key id edge w.by_input fresh;
    by_output = push-IsIndexed output_key id edge w.by_output fresh;
    by_source = push-IsIndexed source id edge w.by_source fresh;
    by_sink = push-IsIndexed sink id edge w.by_sink fresh;
  }

  unindex-IsConsistent :
      (s : NodeStates F) (id : EdgeId) (edge : Edge)
      → IsConsistent s
      → HashMap.get s.edges id ≡ some edge
      → IsConsistent (unindex s id edge)
  unfolding unindex
  unindex-IsConsistent s id edge w found = record {
    inputs = w.inputs;
    outputs = w.outputs;
    ends = λ j other h. ground (arith, get-remove s.edges id j, w.ends j other);
    by_input = retain-IsIndexed input_key id edge w.by_input found;
    by_output = retain-IsIndexed output_key id edge w.by_output found;
    by_source = retain-IsIndexed source id edge w.by_source found;
    by_sink = retain-IsIndexed sink id edge w.by_sink found;
  }

  -- Removing an edge, or an id that names none, keeps the invariant.
  pub remove_edge-IsConsistent :
      (s : NodeStates F) (id : EdgeId) → IsConsistent s → IsConsistent (remove_edge s id).0
  unfolding remove_edge bump_structure
  remove_edge-IsConsistent s id w = go (HashMap.get s.edges id) refl
    where
      go :
          (o : Option Edge)
          → HashMap.get s.edges id ≡ o
          → IsConsistent (remove_found (bump_structure s) id o).0
      go none e = bump_structure-IsConsistent s w
      go (some edge) e =
          unindex-IsConsistent (bump_structure s) id edge (bump_structure-IsConsistent s w) e

  -- what is left of the edges
  pub get-remove_edge :
      (s : NodeStates F) (id j : EdgeId)
      → HashMap.get (remove_edge s id).0.edges j ≡ (if id == j then none else HashMap.get s.edges j)
  unfolding remove_edge bump_structure
  get-remove_edge s id j = go (HashMap.get s.edges id) refl
    where
      go :
          (o : Option Edge)
          → HashMap.get s.edges id ≡ o
          → HashMap.get (remove_found (bump_structure s) id o).0.edges j
            ≡ (if id == j then none else HashMap.get s.edges j)
      go none e = ground (arith, nat_beq_iff id j)
      go (some edge) e = get-remove s.edges id j

  pub remove_edges-IsConsistent :
      (ids : List EdgeId) (s : NodeStates F) → IsConsistent s → IsConsistent (remove_edges s ids)
  unfolding remove_edges
  remove_edges-IsConsistent [] s w = w
  remove_edges-IsConsistent (id ∷ rest) s w =
      remove_edges-IsConsistent rest (remove_edge s id).0 (remove_edge-IsConsistent s id w)

  pub get-remove_edges :
      (ids : List EdgeId) (s : NodeStates F) (j : EdgeId)
      → HashMap.get (remove_edges s ids).edges j
        ≡ (if contains ids j then none else HashMap.get s.edges j)
  unfolding remove_edges
  get-remove_edges [] s j = refl
  get-remove_edges (id ∷ rest) s j =
      ground (arith, get-remove_edges rest (remove_edge s id).0 j, get-remove_edge s id j)

  -- Removing every edge of a node keeps the invariant.
  pub remove_edges_for_node_at-IsConsistent :
      (s : NodeStates F) (path : NodePath)
      → IsConsistent s
      → IsConsistent (remove_edges_for_node_at s path)
  unfolding remove_edges_for_node_at
  remove_edges_for_node_at-IsConsistent s path w =
      remove_edges-IsConsistent (HashMap.keys_where (λ id edge. touches path edge) s.edges)
        (bump_structure s) (bump_structure-IsConsistent s w)

  -- Exactly the edges with an end at the node go; every other edge stays as it was.
  pub get-remove_edges_for_node_at :
      (s : NodeStates F) (path : NodePath) (j : EdgeId)
      → HashMap.get (remove_edges_for_node_at s path).edges j ≡ (
          if holds_at (λ id edge. touches path edge) s.edges j then none else HashMap.get s.edges j)
  unfolding remove_edges_for_node_at bump_structure
  get-remove_edges_for_node_at s path j = ground (
    arith,
    get-remove_edges (HashMap.keys_where (λ id edge. touches path edge) s.edges) (bump_structure s)
        j,
    contains-keys_where (λ id edge. touches path edge) s.edges j,
  )
