-- ===== src/NodeGraph/Connect/Laws.antt =====
-- Edges whose slot ids are resolved, and edges that meet the checks of `add_edge_with_id`.
use cognet.Prelude.{
  ℕ, ◌+◌, ◌≤◌, ◌≡◌, inl, inr, Option, none, some, ◌==◌, length, arith, Option-cases, Bool-cases,
  nat_eq,
}
use cognet.Result.{ok, Result-cases}
use cognet.NodePath.{NodeId, NodePath, child}
use cognet.Slot.DataType.{data_type_eq}
use cognet.Edge.{Edge}
use cognet.NodeStates.{
  NodeStates, NodeState, InputSlotState, OutputSlotState, node, input_slot, output_slot,
  edges_for_input,
}
use cognet.NodeGraph.{NodeGraph, subgraph_proxy_ids_at_path}
use cognet.NodeGraph.Connect.{
  retarget_input, retarget_output, retarget, check_limit, check_slots, validate, create_edge_at,
}

module _ {F : Type 0} where
  -- the slot ids of the edge are those of the slots that it names by path and index
  pub record IsResolved (s : NodeStates F) (edge : Edge) : Type 0 where
    pub input_end :
        (slot : InputSlotState F)
        → input_slot s edge.to_node edge.to_input_slot_index ≡ some slot
        → slot.id ≡ edge.to_input_slot_id
    pub output_end :
        (slot : OutputSlotState)
        → output_slot s edge.from_node edge.from_output_slot_index ≡ some slot
        → slot.id ≡ edge.from_output_slot_id

  retarget_input-IsResolved :
      (s : NodeStates F) (edge moved : Edge) (o : Option (NodeId × NodeId))
      → IsResolved s edge
      → retarget_input s edge o ≡ ok moved
      → IsResolved s moved
  unfolding retarget_input
  retarget_input-IsResolved s edge moved none r h = let m : edge ≡ moved = cc h in rw (← m) r
  retarget_input-IsResolved s edge moved (some (i, o)) r h =
      elim (Option-cases (input_slot s (child edge.to_node i) edge.to_input_slot_index)) [
        | inl e ↦ absurd (cc (rw e at h))
        | inr (slot, e) ↦
            let m : record edge { to_node = child edge.to_node i; to_input_slot_id = slot.id }
                ≡ moved =
              cc (rw e at h) in
            rw (← m) (record { input_end = λ t g. cc (e, g); output_end = r.output_end })
      ]

  retarget_output-IsResolved :
      (s : NodeStates F) (edge moved : Edge) (o : Option (NodeId × NodeId))
      → IsResolved s edge
      → retarget_output s edge o ≡ ok moved
      → IsResolved s moved
  unfolding retarget_output
  retarget_output-IsResolved s edge moved none r h = let m : edge ≡ moved = cc h in rw (← m) r
  retarget_output-IsResolved s edge moved (some (i, o)) r h =
      elim (Option-cases (output_slot s (child edge.from_node o) edge.from_output_slot_index)) [
        | inl e ↦ absurd (cc (rw e at h))
        | inr (slot, e) ↦
            let m : record edge {
              from_node = child edge.from_node o;
              from_output_slot_id = slot.id;
            }
                ≡ moved =
              cc (rw e at h) in
            rw (← m) (record { input_end = r.input_end; output_end = λ t g. cc (e, g) })
      ]

  pub retarget-IsResolved :
      (g : NodeGraph F) (edge moved : Edge)
      → IsResolved g.node_states edge
      → retarget g edge ≡ ok moved
      → IsResolved g.node_states moved
  unfolding retarget
  retarget-IsResolved g edge moved r h =
      elim (Result-cases
        (retarget_input g.node_states edge (subgraph_proxy_ids_at_path g edge.to_node))) [
          | inl (mid, e) ↦
              retarget_output-IsResolved g.node_states mid moved
                (subgraph_proxy_ids_at_path g mid.from_node)
                (retarget_input-IsResolved g.node_states edge mid
                  (subgraph_proxy_ids_at_path g edge.to_node) r e)
                (rw e at h)
          | inr (x, e) ↦ absurd (cc (rw e at h))
        ]

  pub create_edge_at-IsResolved :
      (g : NodeGraph F) (from_path : NodePath) (i : ℕ) (to_path : NodePath) (j : ℕ) (edge : Edge)
      → create_edge_at g from_path i to_path j ≡ ok edge
      → IsResolved g.node_states edge
  unfolding create_edge_at
  create_edge_at-IsResolved g from_path i to_path j edge h =
      elim (Option-cases (output_slot g.node_states from_path i)) [
        | inl e ↦ absurd (cc (rw e at h))
        | inr (from_slot, e) ↦ elim (Option-cases (input_slot g.node_states to_path j)) [
          | inl f ↦ absurd (cc (rw (e, f) at h))
          | inr (to_slot, f) ↦
              let m : record {
                from_node = from_path;
                from_output_slot_index = i;
                from_output_slot_id = from_slot.id;
                to_node = to_path;
                to_input_slot_index = j;
                to_input_slot_id = to_slot.id;
              }
                  ≡ edge =
                cc (rw (e, f) at h) in
              rw (← m) (record { input_end = λ t x. cc (f, x); output_end = λ t x. cc (e, x) })
        ]
      ]

  -- what the checks establish: both nodes and both slots are there, the slots have one type, and
  -- there is room
  pub record IsAcceptable (s : NodeStates F) (edge : Edge) : Type 0 where
    pub from_there : (state : NodeState F) × (node s edge.from_node ≡ some state)
    pub to_there : (state : NodeState F) × (node s edge.to_node ≡ some state)
    pub from_slot : OutputSlotState
    pub to_slot : InputSlotState F
    pub from_found : output_slot s edge.from_node edge.from_output_slot_index ≡ some from_slot
    pub to_found : input_slot s edge.to_node edge.to_input_slot_index ≡ some to_slot
    pub one_type : from_slot.data_type ≡ to_slot.data_type
    pub room :
        (max : ℕ)
        → to_slot.max_connections ≡ some max
        → length (edges_for_input s to_slot.id) + 1 ≤ max

  check_limit-room :
      (s : NodeStates F) (t : NodeId) (edge : Edge) (slot : InputSlotState F) (o : Option ℕ)
      (max : ℕ)
      → check_limit s t edge slot o ≡ ok tt
      → o ≡ some max
      → length (edges_for_input s slot.id) + 1 ≤ max
  unfolding check_limit
  check_limit-room s t edge slot o max h e = ground arith

  pub validate-IsAcceptable :
      (s : NodeStates F) (f t : NodeId) (edge : Edge)
      → validate s f t edge ≡ ok tt
      → IsAcceptable s edge
  unfolding validate check_slots
  validate-IsAcceptable s f t edge h = elim (Option-cases (node s edge.from_node)) [
    | inl a ↦ absurd (cc (rw a at h))
    | inr (n, a) ↦ elim (Option-cases (node s edge.to_node)) [
      | inl b ↦ absurd (cc (rw (a, b) at h))
      | inr (m, b) ↦
          elim (Option-cases (output_slot s edge.from_node edge.from_output_slot_index)) [
            | inl c ↦ absurd (cc (rw (a, b, c) at h))
            | inr (from_slot, c) ↦
                elim (Option-cases (input_slot s edge.to_node edge.to_input_slot_index)) [
                  | inl d ↦ absurd (cc (rw (a, b, c, d) at h))
                  | inr (to_slot, d) ↦
                      elim (Bool-cases (from_slot.data_type == to_slot.data_type)) [
                        | inl q ↦ record {
                          from_there = (n, a);
                          to_there = (m, b);
                          from_slot = from_slot;
                          to_slot = to_slot;
                          from_found = c;
                          to_found = d;
                          one_type =
                              (data_type_eq.beq_iff from_slot.data_type to_slot.data_type).0 q;
                          room = λ max e.
                              check_limit-room s t edge to_slot to_slot.max_connections max
                                (rw (a, b, c, d, q) at h) e;
                        }
                        | inr q ↦ absurd (cc (rw (a, b, c, d, q) at h))
                      ]
                ]
          ]
    ]
  ]
