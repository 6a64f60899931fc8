-- ===== src/NodeGraph/Connect/Limits.antt =====
-- The limits of the input slots, and the functions of node_graph_system.rs that connect nodes.
use cognet.Prelude.{
  ℕ, ◌+◌, ◌≤◌, ◌≡◌, refl, inl, inr, some, [], ◌∷◌, length, arith, ◌==◌, nat_eq, nat_beq_iff,
  length-append, if◌then◌else◌, Bool-cases,
}
use cognet.HashMap
use cognet.ListMap.{get_list, get_list-push_entry}
use cognet.Result.{Result-cases}
use cognet.NodePath.{NodePath, path_eq}
use cognet.Edge.{Edge, EdgeId}
use cognet.NodeStates.{NodeStates, InputSlotState, input_slot, edges_for_input}
use cognet.NodeStates.Edges.{add_edge}
use cognet.NodeStates.Lockstep.{id_at}
use cognet.NodeStates.Consistent.{IsConsistent}
use cognet.NodeGraph.{NodeGraph}
use cognet.NodeGraph.Connect.{
  add_edge_with_id, create_edge_at, connect_created, connect_nodes_at_with_id,
}
use cognet.NodeGraph.Connect.Laws.{
  IsResolved, IsAcceptable, retarget-IsResolved, create_edge_at-IsResolved,
}
use cognet.NodeGraph.Connect.Outcome.{add_edge_with_id_outcome}

module _ {F : Type 0} where
  -- no input slot has more connections than its limit
  pub record IsWithinLimits (s : NodeStates F) : Type 0 where
    pub at :
        (path : NodePath) (index : ℕ) (slot : InputSlotState F) (max : ℕ)
        → input_slot s path index ≡ some slot
        → slot.max_connections ≡ some max
        → length (edges_for_input s slot.id) ≤ max

  -- an id names one slot
  same_slot :
      (s : NodeStates F) (p q : NodePath) (i j : ℕ) (slot other : InputSlotState F)
      → IsConsistent s
      → input_slot s p i ≡ some slot
      → input_slot s q j ≡ some other
      → slot.id ≡ other.id
      → slot ≡ other
  unfolding input_slot id_at
  same_slot s p q i j slot other w a b e =
      let l : HashMap.get s.input_slot_owner slot.id ≡ some (p, i) =
        (w.inputs.at slot.id p i).1 (rw a refl) in
      let r : HashMap.get s.input_slot_owner other.id ≡ some (q, j) =
        (w.inputs.at other.id q j).1 (rw b refl) in
      cc (l, r, a, b, e)

  connections-add_edge :
      (s : NodeStates F) (edge_id : EdgeId) (edge : Edge) (k : ℕ)
      → length (edges_for_input (add_edge s edge_id edge) k) ≡ (
          if edge.to_input_slot_id == k
          then length (edges_for_input s k) + 1
          else length (edges_for_input s k))
  unfolding edges_for_input add_edge
  connections-add_edge s edge_id edge k = ground (
    arith,
    get_list-push_entry s.input_connections edge.to_input_slot_id edge_id k,
    length-append (get_list s.input_connections k) (edge_id ∷ []),
  )

  input_slot-add_edge :
      (s : NodeStates F) (edge_id : EdgeId) (edge : Edge) (p : NodePath) (i : ℕ)
      → input_slot (add_edge s edge_id edge) p i ≡ input_slot s p i
  unfolding input_slot add_edge
  input_slot-add_edge s edge_id edge p i = refl

  accepted-IsWithinLimits :
      (s : NodeStates F) (edge_id : EdgeId) (edge : Edge)
      → IsConsistent s
      → IsResolved s edge
      → IsAcceptable s edge
      → IsWithinLimits s
      → IsWithinLimits (add_edge s edge_id edge)
  accepted-IsWithinLimits s edge_id edge w r a limits = record {
    at = λ p i slot max there limit.
        let found = rw input_slot-add_edge at there in
        let id = r.input_end a.to_slot a.to_found in
        rw (connections-add_edge s edge_id edge slot.id)
          (elim (Bool-cases (edge.to_input_slot_id == slot.id)) [
            | inl e ↦
                let same =
                  same_slot s p edge.to_node i edge.to_input_slot_index slot a.to_slot w found
                    a.to_found (cc ((nat_beq_iff edge.to_input_slot_id slot.id).0 e, id)) in
                rw e (rw same (a.room max (rw same at limit)))
            | inr e ↦ rw e (limits.at p i slot max found limit)
          ]);
  }

  -- Adding an edge whose slot ids are those of the slots that it names exceeds no slot's limit,
  -- where the node states were consistent and within their limits.
  pub add_edge_with_id-IsWithinLimits :
      (g : NodeGraph F) (edge_id : EdgeId) (edge : Edge)
      → IsConsistent g.node_states
      → IsResolved g.node_states edge
      → IsWithinLimits g.node_states
      → IsWithinLimits (add_edge_with_id g edge_id edge).0.node_states
  add_edge_with_id-IsWithinLimits g edge_id edge w r limits =
      elim (add_edge_with_id_outcome g edge_id edge) [
        | inl refusal ↦ rw refusal.unchanged limits
        | inr (moved, m, a) ↦ rw a.added (
            accepted-IsWithinLimits g.node_states edge_id moved w
              (retarget-IsResolved g edge moved r m) a.acceptable limits)
      ]

  -- Connecting two nodes, by any paths and slot indexes and under any id, exceeds no slot's limit,
  -- where the node states were consistent and within their limits.
  pub connect_nodes_at_with_id-IsWithinLimits :
      (g : NodeGraph F) (edge_id : EdgeId) (from_path : NodePath) (i : ℕ) (to_path : NodePath)
      (j : ℕ)
      → IsConsistent g.node_states
      → IsWithinLimits g.node_states
      → IsWithinLimits (connect_nodes_at_with_id g edge_id from_path i to_path j).0.node_states
  unfolding connect_nodes_at_with_id connect_created
  connect_nodes_at_with_id-IsWithinLimits g edge_id from_path i to_path j w limits =
      elim (Result-cases (create_edge_at g from_path i to_path j)) [
        | inr (e, c) ↦ rw c limits
        | inl (edge, c) ↦ rw c (
            add_edge_with_id-IsWithinLimits g edge_id edge w
              (create_edge_at-IsResolved g from_path i to_path j edge c) limits)
      ]
