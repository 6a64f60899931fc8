-- ===== src/NodeStates/Effects/Removals.antt =====
-- `remove_edge` and `remove_node` of node_state.rs, read edge by edge and node by node.
use cognet.Prelude.{
  ℕ, ◌≡◌, ◌≢◌, refl, inl, inr, false, not, ◌&&◌, Option, none, some, List, [], ◌==◌, contains,
  arith, ◌∙◌, ◌||◌, ◌∷◌, ◌↔◌, Eq, if◌then◌else◌, nat_eq, nat_beq_iff, beq_refl, ap, Option-cases,
}
use cognet.HashMap
use cognet.HashMap.{HashMap, get-remove, get-empty, holds_at}
use cognet.HashSet
use cognet.HashSet.{contains-insert}
use cognet.ListMap.{get_list, get_list-remove}
use cognet.NodePath.{NodeId, NodePath, path_eq, child}
use cognet.PathIndex
use cognet.PathIndex.Laws.{holds, holds-remove}
use cognet.Edge.{Edge, EdgeId, InputSlotId, OutputSlotId}
use cognet.NodeStates.{
  NodeStates, bump_structure, input_slot, output_slot, node, get_edge, edges_for_input,
  edges_for_output, incoming_edges_at, outgoing_edges_at,
}
use cognet.NodeStates.Edges.{
  remove_edge, remove_found, unindex, remove_edges, touches, remove_edges_for_node_at,
}
use cognet.NodeStates.Nodes.{remove_node, drop_slots}
use cognet.NodeStates.Index.{IsIndexed}
use cognet.NodeStates.Consistent.{IsConsistent}
use cognet.NodeStates.Consistent.Edges.{
  remove_edge-IsConsistent, get-remove_edge, get-remove_edges_for_node_at,
}
use cognet.NodeStates.Consistent.Nodes.{remove_node-IsConsistent}

not_indexed :
    {K : Type 0} ⦃e : Eq K⦄ (key : Edge → K) (index : HashMap K (List EdgeId))
    (edges : HashMap EdgeId Edge) (id : EdgeId)
    → IsIndexed key index edges
    → HashMap.get edges id ≡ none
    → (k : K) → contains (get_list index k) id ≡ false
not_indexed key index edges id w gone k = ground (arith, w.exact k id)

untouched :
    (path : NodePath) (edge : Edge)
    → (touches path edge ≡ false) ↔ ((edge.from_node ≢ path) × (edge.to_node ≢ path))
untouched path edge = (
  λ h. (
    λ e. ground (arith, path_eq.beq_iff edge.from_node path),
    λ e. ground (arith, path_eq.beq_iff edge.to_node path),
  ),
  λ h. ground (arith, path_eq.beq_iff edge.from_node path, path_eq.beq_iff edge.to_node path),
)

edges_left :
    (before after : HashMap EdgeId Edge) (path : NodePath) (id : EdgeId) (edge : Edge)
    → HashMap.get after id
      ≡ (if holds_at (λ id edge. touches path edge) before id then none else HashMap.get before id)
    → (HashMap.get after id ≡ some edge)
      ↔ ((HashMap.get before id ≡ some edge) × (edge.from_node ≢ path) × (edge.to_node ≢ path))
edges_left before after path id edge left = elim (Option-cases (HashMap.get before id)) [
  | inl gone ↦ (λ h. absurd (ground arith), λ h. absurd (cc (gone, h.0)))
  | inr (found, there) ↦ (
    λ h.
        let same : found ≡ edge = ground arith in
        let apart : touches path edge ≡ false = ground arith in
        let (from, to) = (untouched path edge).0 apart in (ground arith, from, to),
    λ h. let apart = (untouched path edge).1 (h.1, h.2) in ground arith,
  )
]

module _ {F : Type 0} where
  -- The id names no edge, and stands in none of the four indexes.
  pub record IsUnknown (s : NodeStates F) (id : EdgeId) : Type 0 where
    pub edge : get_edge s id ≡ none
    pub input : (k : InputSlotId) → contains (edges_for_input s k) id ≡ false
    pub output : (k : OutputSlotId) → contains (edges_for_output s k) id ≡ false
    pub outgoing : (p : NodePath) → contains (outgoing_edges_at s p) id ≡ false
    pub incoming : (p : NodePath) → contains (incoming_edges_at s p) id ≡ false

  -- In a consistent store an id with no edge stands in no index.
  no_edge-IsUnknown :
      (s : NodeStates F) (id : EdgeId) → IsConsistent s → get_edge s id ≡ none → IsUnknown s id
  unfolding get_edge edges_for_input edges_for_output outgoing_edges_at incoming_edges_at
  no_edge-IsUnknown s id w gone = record {
    edge = gone;
    input = not_indexed _ s.input_connections s.edges id w.by_input gone;
    output = not_indexed _ s.output_connections s.edges id w.by_output gone;
    outgoing = not_indexed _ s.outgoing_edges s.edges id w.by_source gone;
    incoming = not_indexed _ s.incoming_edges s.edges id w.by_sink gone;
  }

  remove_edge-returns : (s : NodeStates F) (id : EdgeId) → (remove_edge s id).1 ≡ get_edge s id
  unfolding remove_edge get_edge bump_structure
  remove_edge-returns s id = go (HashMap.get s.edges id)
    where
      go : (o : Option Edge) → (remove_found (bump_structure s) id o).1 ≡ o
      go none = refl
      go (some edge) = refl

  remove_edge-keeps :
      (s : NodeStates F) (id : EdgeId)
      → ((remove_edge s id).0.nodes ≡ s.nodes)
        × ((remove_edge s id).0.input_slots ≡ s.input_slots)
        × ((remove_edge s id).0.output_slots ≡ s.output_slots)
        × ((remove_edge s id).0.path_index ≡ s.path_index)
  unfolding remove_edge unindex bump_structure
  remove_edge-keeps s id = go (HashMap.get s.edges id)
    where
      go :
          (o : Option Edge)
          → let t = (remove_found (bump_structure s) id o).0 in
            (t.nodes ≡ s.nodes)
            × (t.input_slots ≡ s.input_slots)
            × (t.output_slots ≡ s.output_slots)
            × (t.path_index ≡ s.path_index)
      go none = (refl, refl, refl, refl)
      go (some edge) = (refl, refl, refl, refl)

  remove_edge-marks :
      (s : NodeStates F) (id : EdgeId) (edge : Edge)
      → get_edge s id ≡ some edge
      → (p : NodePath)
      → HashSet.contains (remove_edge s id).0.changed_nodes p
        ≡ ((edge.to_node == p) || HashSet.contains s.changed_nodes p)
  unfolding remove_edge get_edge unindex bump_structure
  remove_edge-marks s id edge there p = rw there (contains-insert s.changed_nodes edge.to_node p)

  -- Removing an edge returns it. Afterwards its id names no edge and stands in none of the four
  -- indexes, every other edge is as it was, the sink of the edge is marked as changed and no other
  -- node is, and the store stays consistent.
  pub remove_edge_outcome :
      (s : NodeStates F) (id : EdgeId) (edge : Edge)
      → IsConsistent s
      → get_edge s id ≡ some edge
      → let (t, removed) = remove_edge s id in
        (removed ≡ some edge)
        × IsUnknown t id
        × ((j : EdgeId) → j ≢ id → get_edge t j ≡ get_edge s j)
        × ((p : NodePath)
            → HashSet.contains t.changed_nodes p
              ≡ ((edge.to_node == p) || HashSet.contains s.changed_nodes p))
        × IsConsistent t
  unfolding get_edge
  remove_edge_outcome s id edge w there =
      let t = (remove_edge s id).0 in
      let still = remove_edge-IsConsistent s id w in
      (
        remove_edge-returns s id ∙ there,
        no_edge-IsUnknown t id still (ground (arith, get-remove_edge s id id, beq_refl id)),
        λ j other. ground (arith, get-remove_edge s id j, nat_beq_iff id j),
        remove_edge-marks s id edge there,
        still,
      )

  -- Nothing of the node is left: no state, no slots, no edge with an end at it, and no entry in the
  -- path index. Of the other nodes all of it is as it was, and of the other edges.
  pub record IsTornDown (s t : NodeStates F) (path : NodePath) : Type 0 where
    pub state : (q : NodePath) → node t q ≡ (if path == q then none else node s q)
    pub input :
        (q : NodePath) (i : ℕ) → input_slot t q i ≡ (if path == q then none else input_slot s q i)
    pub output :
        (q : NodePath) (i : ℕ) → output_slot t q i ≡ (if path == q then none else output_slot s q i)
    pub edges :
        (id : EdgeId) (edge : Edge)
        → (get_edge t id ≡ some edge)
          ↔ ((get_edge s id ≡ some edge) × (edge.from_node ≢ path) × (edge.to_node ≢ path))
    pub children :
        (q : NodePath) (id : NodeId)
        → holds t.path_index q id ≡ (holds s.path_index q id && not (path == child q id))

  -- what the removal of edges does not touch
  record IsEdgesOnly (s t : NodeStates F) : Type 0 where
    nodes : t.nodes ≡ s.nodes
    input_slots : t.input_slots ≡ s.input_slots
    output_slots : t.output_slots ≡ s.output_slots
    path_index : t.path_index ≡ s.path_index

  remove_edges-IsEdgesOnly :
      (ids : List EdgeId) (s : NodeStates F) → IsEdgesOnly s (remove_edges s ids)
  unfolding remove_edges
  remove_edges-IsEdgesOnly [] s = record {
    nodes = refl;
    input_slots = refl;
    output_slots = refl;
    path_index = refl;
  }
  remove_edges-IsEdgesOnly (id ∷ ids) s =
      let rest = remove_edges-IsEdgesOnly ids (remove_edge s id).0 in
      let (n, i, o, x) = remove_edge-keeps s id in
      record {
        nodes = rest.nodes ∙ n;
        input_slots = rest.input_slots ∙ i;
        output_slots = rest.output_slots ∙ o;
        path_index = rest.path_index ∙ x;
      }

  remove_node-IsTornDown :
      (s : NodeStates F) (path : NodePath) → IsTornDown s (remove_node s path).0 path
  unfolding remove_node drop_slots bump_structure node input_slot output_slot get_edge
      remove_edges_for_node_at
  remove_node-IsTornDown s path =
      let torn : NodeStates F = record (bump_structure s) {
        path_index = PathIndex.remove s.path_index path;
      } in
      let u = remove_edges_for_node_at torn path in
      let kept =
        remove_edges-IsEdgesOnly (HashMap.keys_where (λ id edge. touches path edge) s.edges)
          (bump_structure torn) in
      record {
        state = λ q. ground (arith, get-remove u.nodes path q, kept.nodes);
        input = λ q i. ground (arith, get_list-remove u.input_slots path q, kept.input_slots);
        output = λ q i. ground (arith, get_list-remove u.output_slots path q, kept.output_slots);
        edges = λ id edge.
            edges_left s.edges u.edges path id edge (get-remove_edges_for_node_at torn path id);
        children = λ q id. rw kept.path_index (holds-remove s.path_index path q id);
      }

  -- Removing a node returns its state and takes it out: its state, its slots and its entry in the
  -- path index are gone, exactly the edges with an end at it are too, and all else of these is as
  -- it was. The store stays consistent, so that the owners of its slots are gone as well.
  pub remove_node_outcome :
      (s : NodeStates F) (path : NodePath)
      → IsConsistent s
      → ((remove_node s path).1 ≡ node s path)
        × IsTornDown s (remove_node s path).0 path
        × IsConsistent (remove_node s path).0
  unfolding remove_node node bump_structure remove_edges_for_node_at
  remove_node_outcome s path w = (
    ap (λ m. HashMap.get m path)
        (remove_edges-IsEdgesOnly (HashMap.keys_where (λ id edge. touches path edge) s.edges) (
          bump_structure
            (record (bump_structure s) { path_index = PathIndex.remove s.path_index path }))).nodes,
    remove_node-IsTornDown s path,
    remove_node-IsConsistent s path w,
  )
