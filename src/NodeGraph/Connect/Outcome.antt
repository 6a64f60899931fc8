-- ===== src/NodeGraph/Connect/Outcome.antt =====
-- The outcomes of `add_edge_with_id` and `connect_nodes_at_with_id`.
use cognet.Prelude.{ℕ, ◌≡◌, ◌⊎◌, refl, ap, inl, inr, none, some, Option-cases, nat_eq}
use cognet.Result.{Result, ok, err, Result-cases}
use cognet.NodePath.{NodeId, NodePath, leaf}
use cognet.Edge.{Edge, EdgeId}
use cognet.ErrorKind.{ErrorTarget}
use cognet.NodeStates.{NodeStates, get_edge, input_slot, output_slot}
use cognet.NodeStates.Edges.{add_edge}
use cognet.NodeStates.Lockstep.{id_at}
use cognet.NodeStates.Consistent.{IsConsistent, IsAligned}
use cognet.NodeStates.Consistent.Edges.{add_edge-IsConsistent}
use cognet.NodeGraph.{NodeGraph, add_error, clear_error}
use cognet.NodeGraph.Connect.{
  ConnectError, retarget, validate, add_new, add_checked, add_between, add_retargeted,
  add_edge_with_id, create_edge_at, connect_created, connect_nodes_at_with_id,
}
use cognet.NodeGraph.Connect.Laws.{
  IsResolved, IsAcceptable, retarget-IsResolved, create_edge_at-IsResolved, validate-IsAcceptable,
}

abbrev pub Answer : Type 0 → Type 0
Answer F = NodeGraph F × Result ConnectError EdgeId

module _ {F : Type 0} where
  -- an error, and the node states of before
  pub record IsRefused (g : NodeGraph F) (a : Answer F) : Type 0 where
    pub error : ConnectError
    pub answer : a.1 ≡ err error
    pub unchanged : a.0.node_states ≡ g.node_states

  -- the edge, with no end at the root, added under a new id
  pub record IsAdded (g : NodeGraph F) (edge_id : EdgeId) (edge : Edge) (a : Answer F)
      : Type 0 where
    pub from_below_root : (id : NodeId) × (leaf edge.from_node ≡ some id)
    pub to_below_root : (id : NodeId) × (leaf edge.to_node ≡ some id)
    pub acceptable : IsAcceptable g.node_states edge
    pub fresh : get_edge g.node_states edge_id ≡ none
    pub answer : a.1 ≡ ok edge_id
    pub added : a.0.node_states ≡ add_edge g.node_states edge_id edge

  add_checked-outcome :
      (g h : NodeGraph F) (edge_id : EdgeId) (edge : Edge) (f t : NodeId)
      → h.node_states ≡ g.node_states
      → leaf edge.from_node ≡ some f
      → leaf edge.to_node ≡ some t
      → IsRefused g (add_checked h edge_id edge (validate g.node_states f t edge))
        ⊎ IsAdded g edge_id edge (add_checked h edge_id edge (validate g.node_states f t edge))
  unfolding add_checked add_new add_error
  add_checked-outcome g h edge_id edge f t same l k =
      elim (Result-cases (validate g.node_states f t edge)) [
        | inr (e, v) ↦
            inl (rw v (record { error = ConnectError.refused e; answer = refl; unchanged = same }))
        | inl (tt, v) ↦ elim (Option-cases (get_edge h.node_states edge_id)) [
          | inr (other, taken) ↦ inl (
              rw (v, taken)
                (record {
                  error = ConnectError.already_exists edge_id;
                  answer = refl;
                  unchanged = same;
                }))
          | inl free ↦ inr (
              rw (v, free)
                (record {
                  from_below_root = (f, l);
                  to_below_root = (t, k);
                  acceptable = validate-IsAcceptable g.node_states f t edge v;
                  fresh = rw (← same) free;
                  answer = refl;
                  added = rw same refl;
                }))
        ]
      ]

  -- `add_edge_with_id` refuses the edge and leaves the node states as they were, or the edge, its
  -- ends moved from external slots to the slots of the proxies, joins existing slots of existing
  -- nodes below the root, the slots have one type and room for it, its id is new, and it is added.
  pub add_edge_with_id_outcome :
      (g : NodeGraph F) (edge_id : EdgeId) (edge : Edge)
      → IsRefused g (add_edge_with_id g edge_id edge)
        ⊎ ((moved : Edge) × (retarget g edge ≡ ok moved)
            × IsAdded g edge_id moved (add_edge_with_id g edge_id edge))
  unfolding add_edge_with_id add_retargeted add_between clear_error
  add_edge_with_id_outcome g edge_id edge = elim (Result-cases (retarget g edge)) [
    | inr (e, m) ↦ inl (rw m (record { error = e; answer = refl; unchanged = refl }))
    | inl (moved, m) ↦ elim (Option-cases (leaf moved.from_node)) [
      | inl l ↦ inl (
          rw (m, l)
            (record { error = ConnectError.from_node_is_root; answer = refl; unchanged = refl }))
      | inr (f, l) ↦ elim (Option-cases (leaf moved.to_node)) [
        | inl k ↦ inl (
            rw (m, l, k)
              (record { error = ConnectError.to_node_is_root; answer = refl; unchanged = refl }))
        | inr (t, k) ↦
            rw (m, l, k)
              (elim (add_checked-outcome g
                (clear_error g (ErrorTarget.input_port t moved.to_input_slot_index)) edge_id moved f
                t refl l k) [ inl r ↦ inl r | inr a ↦ inr (moved, refl, a) ])
      ]
    ]
  ]

  -- the owners of the slots of an acceptable edge
  acceptable-IsAligned :
      (s : NodeStates F) (edge : Edge)
      → IsConsistent s
      → IsResolved s edge
      → IsAcceptable s edge
      → IsAligned s.input_slot_owner s.output_slot_owner edge
  unfolding id_at input_slot output_slot
  acceptable-IsAligned s edge w r a = record {
    input_end =
        (w.inputs.at edge.to_input_slot_id edge.to_node edge.to_input_slot_index).1
          (rw a.to_found (ap some (r.input_end a.to_slot a.to_found)));
    output_end =
        (w.outputs.at edge.from_output_slot_id edge.from_node edge.from_output_slot_index).1
          (rw a.from_found (ap some (r.output_end a.from_slot a.from_found)));
  }

  -- Adding an edge whose slot ids are those of the slots that it names keeps the node states
  -- consistent, also where the edge is refused or moved to a proxy.
  pub add_edge_with_id-IsConsistent :
      (g : NodeGraph F) (edge_id : EdgeId) (edge : Edge)
      → IsConsistent g.node_states
      → IsResolved g.node_states edge
      → IsConsistent (add_edge_with_id g edge_id edge).0.node_states
  unfolding get_edge
  add_edge_with_id-IsConsistent g edge_id edge w r =
      elim (add_edge_with_id_outcome g edge_id edge) [
        | inl refusal ↦ rw refusal.unchanged w
        | inr (moved, m, a) ↦ rw a.added (
            add_edge-IsConsistent g.node_states edge_id moved w a.fresh (
              acceptable-IsAligned g.node_states moved w (retarget-IsResolved g edge moved r m)
                a.acceptable))
      ]

  -- Connecting two nodes, by any paths and slot indexes and under any id, keeps the node states
  -- consistent, also where the connection is refused.
  pub connect_nodes_at_with_id-IsConsistent :
      (g : NodeGraph F) (edge_id : EdgeId) (from_path : NodePath) (i : ℕ) (to_path : NodePath)
      (j : ℕ)
      → IsConsistent g.node_states
      → IsConsistent (connect_nodes_at_with_id g edge_id from_path i to_path j).0.node_states
  unfolding connect_nodes_at_with_id connect_created
  connect_nodes_at_with_id-IsConsistent g edge_id from_path i to_path j w =
      elim (Result-cases (create_edge_at g from_path i to_path j)) [
        | inr (e, c) ↦ rw c w
        | inl (edge, c) ↦ rw c (
            add_edge_with_id-IsConsistent g edge_id edge w
              (create_edge_at-IsResolved g from_path i to_path j edge c))
      ]
