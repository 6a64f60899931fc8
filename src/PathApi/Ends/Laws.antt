-- ===== src/PathApi/Ends/Laws.antt =====
-- src/node_graph/path_api.rs: the walk back from an edge undoes the retargeting of
-- `add_edge_with_id`.
use cognet.Prelude.{◌≡◌, refl, Option, none, some, nat_eq, nat_beq_iff, Option-cases, inl, inr}
use cognet.Result.{ok, Result-cases}
use cognet.NodePath.{NodeId, child, root}
use cognet.NodePath.Laws.{parent-child, leaf-child}
use cognet.Edge.{Edge}
use cognet.NodeStates.{NodeStates, input_slot, output_slot}
use cognet.NodeGraph.{NodeGraph, subgraph_proxy_ids_at_path}
use cognet.NodeGraph.Connect.{retarget, retarget_input, retarget_output}
use cognet.PathApi.Ends.{
  root_level_instance_at_proxy, instance_at, instance_of, edge_external_target,
  edge_external_source,
}

module _ {F : Type 0} where
  root_level_instance_at_proxy-child :
      (g : NodeGraph F) (id : NodeId) (select_proxy : NodeId × NodeId → NodeId)
      (ids : NodeId × NodeId)
      → subgraph_proxy_ids_at_path g (child root id) ≡ some ids
      → root_level_instance_at_proxy g (child (child root id) (select_proxy ids)) select_proxy
        ≡ some id
  unfolding root_level_instance_at_proxy instance_at instance_of child root
  root_level_instance_at_proxy-child g id select_proxy ids h =
      rw
        (
          parent-child (child root id) (select_proxy ids),
          h,
          leaf-child (child root id) (select_proxy ids),
          leaf-child root id,
          (nat_beq_iff (select_proxy ids) (select_proxy ids)).1 refl,
        )
        refl

  retarget_input-keeps :
      (s : NodeStates F) (edge moved : Edge) (o : Option (NodeId × NodeId))
      → retarget_input s edge o ≡ ok moved
      → (moved.from_node ≡ edge.from_node)
        × (moved.from_output_slot_index ≡ edge.from_output_slot_index)
  unfolding retarget_input
  retarget_input-keeps s edge moved none h = let m : edge ≡ moved = cc h in rw (← m) (refl, refl)
  retarget_input-keeps s edge moved (some (i, o)) h =
      elim (Option-cases (input_slot s (child edge.to_node i) edge.to_input_slot_index)) [
        | inl gone ↦ absurd (cc (rw gone at h))
        | inr (slot, there) ↦
            let m : record edge { to_node = child edge.to_node i; to_input_slot_id = slot.id }
                ≡ moved =
              cc (rw there at h) in
            rw (← m) (refl, refl)
      ]

  retarget_input-moves :
      (s : NodeStates F) (edge moved : Edge) (i o : NodeId)
      → retarget_input s edge (some (i, o)) ≡ ok moved
      → (moved.to_node ≡ child edge.to_node i)
        × (moved.to_input_slot_index ≡ edge.to_input_slot_index)
  unfolding retarget_input
  retarget_input-moves s edge moved i o h =
      elim (Option-cases (input_slot s (child edge.to_node i) edge.to_input_slot_index)) [
        | inl gone ↦ absurd (cc (rw gone at h))
        | inr (slot, there) ↦
            let m : record edge { to_node = child edge.to_node i; to_input_slot_id = slot.id }
                ≡ moved =
              cc (rw there at h) in
            rw (← m) (refl, refl)
      ]

  retarget_output-keeps :
      (s : NodeStates F) (edge moved : Edge) (o : Option (NodeId × NodeId))
      → retarget_output s edge o ≡ ok moved
      → (moved.to_node ≡ edge.to_node) × (moved.to_input_slot_index ≡ edge.to_input_slot_index)
  unfolding retarget_output
  retarget_output-keeps s edge moved none h = let m : edge ≡ moved = cc h in rw (← m) (refl, refl)
  retarget_output-keeps s edge moved (some (i, o)) h =
      elim (Option-cases (output_slot s (child edge.from_node o) edge.from_output_slot_index)) [
        | inl gone ↦ absurd (cc (rw gone at h))
        | inr (slot, there) ↦
            let m : record edge {
              from_node = child edge.from_node o;
              from_output_slot_id = slot.id;
            }
                ≡ moved =
              cc (rw there at h) in
            rw (← m) (refl, refl)
      ]

  retarget_output-moves :
      (s : NodeStates F) (edge moved : Edge) (i o : NodeId)
      → retarget_output s edge (some (i, o)) ≡ ok moved
      → (moved.from_node ≡ child edge.from_node o)
        × (moved.from_output_slot_index ≡ edge.from_output_slot_index)
  unfolding retarget_output
  retarget_output-moves s edge moved i o h =
      elim (Option-cases (output_slot s (child edge.from_node o) edge.from_output_slot_index)) [
        | inl gone ↦ absurd (cc (rw gone at h))
        | inr (slot, there) ↦
            let m : record edge {
              from_node = child edge.from_node o;
              from_output_slot_id = slot.id;
            }
                ≡ moved =
              cc (rw there at h) in
            rw (← m) (refl, refl)
      ]

  -- An edge aimed at an input port of a subgraph at the root is retargeted to an edge from which
  -- `edge_external_target` gives back the subgraph and the port.
  pub edge_external_target-retarget :
      (g : NodeGraph F) (edge moved : Edge) (id : NodeId) (ids : NodeId × NodeId)
      → edge.to_node ≡ child root id
      → subgraph_proxy_ids_at_path g (child root id) ≡ some ids
      → retarget g edge ≡ ok moved
      → edge_external_target g moved ≡ some (id, edge.to_input_slot_index)
  unfolding retarget edge_external_target
  edge_external_target-retarget g edge moved id (i, o) at_root has r =
      elim (Result-cases
        (retarget_input g.node_states edge (subgraph_proxy_ids_at_path g edge.to_node))) [
          | inl (mid, e) ↦
              let found : subgraph_proxy_ids_at_path g edge.to_node ≡ some (i, o) =
                rw at_root has in
              let first = retarget_input-moves g.node_states edge mid i o (rw found at e) in
              let second =
                retarget_output-keeps g.node_states mid moved
                  (subgraph_proxy_ids_at_path g mid.from_node) (rw e at r) in
              rw
                (
                  second.0,
                  second.1,
                  first.0,
                  first.1,
                  at_root,
                  root_level_instance_at_proxy-child g id (λ ids. ids.0) (i, o) has,
                )
                refl
          | inr (x, e) ↦ absurd (cc (rw e at r))
        ]

  -- An edge from an output port of a subgraph at the root is retargeted to an edge from which
  -- `edge_external_source` gives back the subgraph and the port.
  pub edge_external_source-retarget :
      (g : NodeGraph F) (edge moved : Edge) (id : NodeId) (ids : NodeId × NodeId)
      → edge.from_node ≡ child root id
      → subgraph_proxy_ids_at_path g (child root id) ≡ some ids
      → retarget g edge ≡ ok moved
      → edge_external_source g moved ≡ some (id, edge.from_output_slot_index)
  unfolding retarget edge_external_source
  edge_external_source-retarget g edge moved id (i, o) at_root has r =
      elim (Result-cases
        (retarget_input g.node_states edge (subgraph_proxy_ids_at_path g edge.to_node))) [
          | inl (mid, e) ↦
              let first =
                retarget_input-keeps g.node_states edge mid
                  (subgraph_proxy_ids_at_path g edge.to_node) e in
              let found : subgraph_proxy_ids_at_path g mid.from_node ≡ some (i, o) =
                rw (first.0, at_root) has in
              let kept : retarget_output g.node_states mid
                    (subgraph_proxy_ids_at_path g mid.from_node)
                  ≡ ok moved =
                rw e at r in
              let second = retarget_output-moves g.node_states mid moved i o (rw found at kept) in
              rw
                (
                  second.0,
                  second.1,
                  first.0,
                  first.1,
                  at_root,
                  root_level_instance_at_proxy-child g id (λ ids. ids.1) (i, o) has,
                )
                refl
          | inr (x, e) ↦ absurd (cc (rw e at r))
        ]
