-- ===== src/Executor/Frontier/Skipped.antt =====
-- What it means that a node is skipped: it would be given what it was given.
use cognet.Prelude.{
  ℕ, suc, ◌+◌, ◌≡◌, refl, ap, sym, ◌∙◌, inl, inr, some, true, false, List, [], ◌∷◌, nat_eq,
  contains, beq_refl, arith, Option-cases, get_elem?,
}
use cognet.HashMap
use cognet.HashSet
use cognet.HashSet.{HashSet}
use cognet.ListMap.{get_list}
use cognet.NodePath.{NodePath, path_eq}
use cognet.Edge.{Edge, EdgeId, OutputSlotId}
use cognet.ExecutionCache.{ExecutionCache, get_output}
use cognet.NodeStates.{NodeStates, InputSlotState, input_slot, edges_for_input, get_edge}
use cognet.NodeStates.Consistent.{IsConsistent}
use cognet.Executor.Interface.{port_eq, walk_fuel}
use cognet.Executor.Resolve.{resolve_value_through_interface}
use cognet.Executor.Resolve.Laws.{resolve_value_terminates}
use cognet.Executor.Frontier.{ChangeFrontier, must_execute}
use cognet.Executor.Frontier.Laws.{must_execute-false, input_edge-incoming}
use cognet.Executor.Frontier.Edits.{
  Behind, IsQuiet, IsMarked, source_changed-IsQuiet, Behind-owner, resolve_value-across,
}
use cognet.Executor.Context.{
  push_some, edge_inputs, slot_inputs, all_slot_inputs, build_execution_context,
}

module _ {F : Type 0} (then now : NodeStates F) (before after : ExecutionCache F) where
  resolve_value_through_interface-across :
      (f : ChangeFrontier) (path : NodePath) (i : ℕ) (id : OutputSlotId)
      → IsMarked f.seed then now
      → ((last : NodePath) (j : ℕ) (last_id : OutputSlotId)
          → Behind now last j last_id path i id
          → IsQuiet now f last)
      → ((last : NodePath) (j : ℕ) (last_id : OutputSlotId)
          → Behind now last j last_id path i id
          → HashSet.contains f.changed last ≡ false
          → get_output before last_id ≡ get_output after last_id)
      → resolve_value_through_interface then before path i id
        ≡ resolve_value_through_interface now after path i id
  resolve_value_through_interface-across f path i id marked quiet same =
      let fuel = walk_fuel then + walk_fuel now in
      sym (resolve_value_terminates then fuel before path i id (omega arith))
      ∙ ap (λ r. r.0)
          (resolve_value-across then now fuel f before after path i id HashSet.empty marked quiet
            same)
      ∙ resolve_value_terminates now fuel after path i id (omega arith)

  edge_inputs-across :
      (ids : List EdgeId)
      → ((id : EdgeId) → contains ids id ≡ true → get_edge then id ≡ get_edge now id)
      → ((id : EdgeId) (edge : Edge)
          → contains ids id ≡ true
          → get_edge now id ≡ some edge
          → resolve_value_through_interface then before edge.from_node edge.from_output_slot_index
              edge.from_output_slot_id
            ≡ resolve_value_through_interface now after edge.from_node edge.from_output_slot_index
                edge.from_output_slot_id)
      → edge_inputs then before ids ≡ edge_inputs now after ids
  unfolding edge_inputs
  edge_inputs-across [] edges same = refl
  edge_inputs-across (i ∷ ids) edges same =
      let rest =
        edge_inputs-across ids (λ id m. edges id (ground arith))
          (λ id edge m e. same id edge (ground arith) e) in
      let first : contains (i ∷ ids) i ≡ true = ground (arith, beq_refl i) in
      elim (Option-cases (get_edge now i)) [
        | inl gone ↦ rw (edge_inputs, edges i first, gone) rest
        | inr (edge, there) ↦
            rw (edge_inputs, edges i first, there, same i edge first there)
              (ap
                (push_some (
                  resolve_value_through_interface now after edge.from_node
                    edge.from_output_slot_index edge.from_output_slot_id))
                rest)
      ]

  all_slot_inputs-across :
      (slots : List (InputSlotState F))
      → ((i : ℕ) (slot : InputSlotState F)
          → get_elem? slots i ≡ some slot
          → edge_inputs then before (edges_for_input then slot.id)
            ≡ edge_inputs now after (edges_for_input now slot.id))
      → all_slot_inputs then before slots ≡ all_slot_inputs now after slots
  unfolding all_slot_inputs slot_inputs
  all_slot_inputs-across [] same = refl
  all_slot_inputs-across (slot ∷ slots) same =
      let rest = all_slot_inputs-across slots (λ i t e. same (suc i) t e) in
      rw (same 0 slot refl, rest) refl

must_execute-clean :
    {F : Type 0} (s : NodeStates F) (f : ChangeFrontier) (path : NodePath)
    → must_execute f s path ≡ false
    → HashSet.contains f.seed path ≡ false
unfolding must_execute
must_execute-clean s f path h = ground arith

-- A node is skipped only where it would be given what it was given before. Between the graph of then
-- and the consistent graph of now only nodes of the seed were edited, in their data, their default
-- values, their slots or their incoming edges, and none became or ceased to be an interface. The
-- caches agree on the output slots of the nodes that have not changed in the pass. Then a skipped
-- node gets the same context from both.
pub must_execute-context :
    {F : Type 0} (then now : NodeStates F) (before after : ExecutionCache F) (f : ChangeFrontier)
    (path : NodePath)
    → IsConsistent now
    → IsMarked f.seed then now
    → must_execute f now path ≡ false
    → ((source : NodePath) (i : ℕ) (id : OutputSlotId)
        → HashMap.get now.output_slot_owner id ≡ some (source, i)
        → HashSet.contains f.changed source ≡ false
        → get_output before id ≡ get_output after id)
    → build_execution_context path then before ≡ build_execution_context path now after
unfolding build_execution_context get_edge input_slot
must_execute-context then now before after f path w marked skipped same =
    let clean = must_execute-clean now f path skipped in
    let inputs =
      all_slot_inputs-across then now before after (get_list now.input_slots path) (λ i slot e.
        ap (edge_inputs then before) (marked.connections path i slot clean e)
        ∙ edge_inputs-across then now before after (edges_for_input now slot.id)
            (λ id m. marked.edges path i slot id clean e m)
            (λ id edge m there.
              let still =
                must_execute-false now f path id edge skipped
                  (input_edge-incoming now path i slot id edge w e m there) there in
              resolve_value_through_interface-across then now before after f edge.from_node
                edge.from_output_slot_index edge.from_output_slot_id marked
                (λ a j b o. source_changed-IsQuiet now (walk_fuel now) f HashSet.empty o still)
                (λ a j b o unchanged.
                  same a j b (Behind-owner now w (w.ends id edge there).output_end o)
                    unchanged))) in
    rw (marked.state path clean, marked.input path clean, marked.output path clean, inputs) refl
