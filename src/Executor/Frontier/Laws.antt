-- ===== src/Executor/Frontier/Laws.antt =====
-- The answer of `must_execute` edge by edge, and a context as a function of the outputs behind it.
use cognet.Prelude.{
  ℕ, suc, ◌≡◌, refl, ap, inl, inr, some, true, false, List, [], ◌∷◌, nat_eq, contains, ◌==◌,
  nat_beq_iff, beq_refl, arith, Bool-cases, Option-cases, get_elem?,
}
use cognet.HashSet
use cognet.HashSet.{HashSet}
use cognet.ListMap.{get_list}
use cognet.NodePath.{NodePath, path_eq}
use cognet.Edge.{Edge, EdgeId, OutputSlotId}
use cognet.ExecutionCache.{ExecutionCache, get_output}
use cognet.NodeStates.{NodeStates, InputSlotState, edges_for_input, incoming_edges_at, get_edge}
use cognet.NodeStates.Lockstep.{id_at}
use cognet.NodeStates.Consistent.{IsConsistent}
use cognet.Executor.Interface.{port_eq, walk_fuel}
use cognet.Executor.Resolve.{resolve_value_through_interface}
use cognet.Executor.Frontier.{ChangeFrontier, source_changed, any_source_changed, must_execute}
use cognet.Executor.Frontier.Origins.{Origin, resolve_value-ext}
use cognet.Executor.Context.{
  push_some, edge_inputs, slot_inputs, all_slot_inputs, build_execution_context,
}

module _ {F : Type 0} (s : NodeStates F) where
  any_source_changed-false :
      (f : ChangeFrontier) (ids : List EdgeId) (id : EdgeId) (edge : Edge)
      → any_source_changed f s ids ≡ false
      → contains ids id ≡ true
      → get_edge s id ≡ some edge
      → (source_changed
          (walk_fuel s)
          f
          s
          edge.from_node
          edge.from_output_slot_index
          HashSet.empty).0
        ≡ false
  unfolding any_source_changed
  any_source_changed-false f [] id edge h m e = cc
  any_source_changed-false f (i ∷ ids) id edge h m e = elim (Bool-cases (i == id)) [
    | inl same ↦ ground (arith, nat_beq_iff i id)
    | inr other ↦ elim (Option-cases (get_edge s i)) [
      | inl gone ↦ absurd (ground arith)
      | inr (first, there) ↦ any_source_changed-false f ids id edge (ground arith) (ground arith) e
    ]
  ]

  pub must_execute-false :
      (f : ChangeFrontier) (path : NodePath) (id : EdgeId) (edge : Edge)
      → must_execute f s path ≡ false
      → contains (incoming_edges_at s path) id ≡ true
      → get_edge s id ≡ some edge
      → (source_changed
          (walk_fuel s)
          f
          s
          edge.from_node
          edge.from_output_slot_index
          HashSet.empty).0
        ≡ false
  unfolding must_execute
  must_execute-false f path id edge h m e =
      any_source_changed-false f (incoming_edges_at s path) id edge (ground arith) m e

  edge_inputs-ext :
      (before after : ExecutionCache F) (ids : List EdgeId)
      → ((id : EdgeId) (edge : Edge)
          → contains ids id ≡ true
          → get_edge s id ≡ some edge
          → resolve_value_through_interface s before edge.from_node edge.from_output_slot_index
              edge.from_output_slot_id
            ≡ resolve_value_through_interface s after edge.from_node edge.from_output_slot_index
                edge.from_output_slot_id)
      → edge_inputs s before ids ≡ edge_inputs s after ids
  unfolding edge_inputs
  edge_inputs-ext before after [] same = refl
  edge_inputs-ext before after (i ∷ ids) same =
      let rest = edge_inputs-ext before after ids (λ id edge m e. same id edge (ground arith) e) in
      elim (Option-cases (get_edge s i)) [
        | inl gone ↦ rw (edge_inputs, gone) rest
        | inr (edge, there) ↦
            rw (edge_inputs, there, same i edge (ground (arith, beq_refl i)) there)
              (ap
                (push_some (
                  resolve_value_through_interface s after edge.from_node edge.from_output_slot_index
                    edge.from_output_slot_id))
                rest)
      ]

  all_slot_inputs-ext :
      (before after : ExecutionCache F) (slots : List (InputSlotState F))
      → ((i : ℕ) (slot : InputSlotState F)
          → get_elem? slots i ≡ some slot
          → edge_inputs s before (edges_for_input s slot.id)
            ≡ edge_inputs s after (edges_for_input s slot.id))
      → all_slot_inputs s before slots ≡ all_slot_inputs s after slots
  unfolding all_slot_inputs slot_inputs
  all_slot_inputs-ext before after [] same = refl
  all_slot_inputs-ext before after (slot ∷ slots) same =
      let rest = all_slot_inputs-ext before after slots (λ i t e. same (suc i) t e) in
      rw (same 0 slot refl, rest) refl

  -- an edge into a slot of the node leads to the node
  pub input_edge-sink :
      (path : NodePath) (i : ℕ) (slot : InputSlotState F) (id : EdgeId) (edge : Edge)
      → IsConsistent s
      → get_elem? (get_list s.input_slots path) i ≡ some slot
      → contains (edges_for_input s slot.id) id ≡ true
      → get_edge s id ≡ some edge
      → edge.to_node ≡ path
  unfolding get_edge edges_for_input id_at
  input_edge-sink path i slot id edge w e m there =
      let owner = (w.inputs.at slot.id path i).1 (rw e refl) in
      let aligned = (w.ends id edge there).input_end in
      ground (arith, w.by_input.exact slot.id id, nat_beq_iff edge.to_input_slot_id slot.id)

  pub input_edge-incoming :
      (path : NodePath) (i : ℕ) (slot : InputSlotState F) (id : EdgeId) (edge : Edge)
      → IsConsistent s
      → get_elem? (get_list s.input_slots path) i ≡ some slot
      → contains (edges_for_input s slot.id) id ≡ true
      → get_edge s id ≡ some edge
      → contains (incoming_edges_at s path) id ≡ true
  unfolding get_edge incoming_edges_at
  input_edge-incoming path i slot id edge w e m there = ground (
    arith,
    input_edge-sink path i slot id edge w e m there,
    w.by_sink.exact path id,
    path_eq.beq_iff edge.to_node path,
  )

  -- A context depends on the outputs at the origins of the edges into the node only.
  pub build_execution_context-ext :
      (path : NodePath) (before after : ExecutionCache F)
      → IsConsistent s
      → ((id : EdgeId) (edge : Edge) (source : NodePath) (source_id : OutputSlotId)
          → contains (incoming_edges_at s path) id ≡ true
          → get_edge s id ≡ some edge
          → Origin s source source_id edge.from_node edge.from_output_slot_index
              edge.from_output_slot_id
          → get_output before source_id ≡ get_output after source_id)
      → build_execution_context path s before ≡ build_execution_context path s after
  unfolding build_execution_context resolve_value_through_interface
  build_execution_context-ext path before after w same =
      let inputs = all_slot_inputs-ext before after (get_list s.input_slots path) (λ i slot e.
        edge_inputs-ext before after (edges_for_input s slot.id) (λ id edge m there.
          ap (λ r. r.0)
            (resolve_value-ext s (walk_fuel s) before after edge.from_node
              edge.from_output_slot_index edge.from_output_slot_id HashSet.empty
              (λ a b o.
                same id edge a b (input_edge-incoming path i slot id edge w e m there) there
                  o)))) in
      rw inputs refl
