-- ===== src/Executor/Frontier/Origins.antt =====
-- The output slots that a walk through interfaces leads back to.
use cognet.Prelude.{
  ℕ, zero, suc, ◌≡◌, refl, ap, inl, inr, Option, none, some, Bool, true, false, List, [], ◌∷◌,
  nat_eq, contains, Bool-cases, Option-cases,
}
use cognet.HashMap
use cognet.HashSet
use cognet.HashSet.{HashSet}
use cognet.NodePath.{NodePath, path_eq, is_empty}
use cognet.Edge.{Edge, EdgeId, OutputSlotId}
use cognet.ExecutionCache.{ExecutionCache, get_output}
use cognet.NodeStates.{NodeStates, InputSlotState, input_slot, edges_for_input, get_edge}
use cognet.NodeStates.Consistent.{IsConsistent}
use cognet.Executor.Interface.{Visited, port_eq, is_interface}
use cognet.Executor.Interface.Walks.{walk_edges-ext}
use cognet.Executor.Resolve.{resolve_value, or_default, is_some}
use cognet.Executor.Resolve.Laws.{through}
use cognet.Executor.Frontier.{ChangeFrontier, source_changed}

module _ {F : Type 0} (s : NodeStates F) where
  -- the output slots at the ends of the chains through interfaces that lead to a port
  pub data Origin (source : NodePath) (source_id : OutputSlotId)
      : NodePath → ℕ → OutputSlotId → Type 0 where
    own : {i : ℕ} → is_interface s source ≡ false → Origin source source_id source i source_id
    via :
        {path : NodePath} {i : ℕ} {id : OutputSlotId}
        → is_interface s path ≡ true
        → (slot : InputSlotState F) (edge_id : EdgeId) (edge : Edge)
        → input_slot s path i ≡ some slot
        → contains (edges_for_input s slot.id) edge_id ≡ true
        → get_edge s edge_id ≡ some edge
        → Origin source source_id edge.from_node edge.from_output_slot_index
            edge.from_output_slot_id
        → Origin source source_id path i id

  abbrev pub asked : ℕ → ChangeFrontier → Option Edge → Visited → Bool × Visited
  asked fuel f edge seen = elim edge [
    | none ↦ (true, seen)
    | some e ↦ source_changed fuel f s e.from_node e.from_output_slot_index seen
  ]

  pub no_member :
      (ids : List EdgeId) (id : EdgeId) → is_empty ids ≡ true → ¬ (contains ids id ≡ true)
  no_member [] id h m = cc
  no_member (i ∷ ids) id h m = cc

  through-ext :
      (fuel : ℕ) (before after : ExecutionCache F) (w : Visited) (o : Option Edge)
      → ((e : Edge)
          → o ≡ some e
          → resolve_value fuel s before e.from_node e.from_output_slot_index e.from_output_slot_id w
            ≡ resolve_value fuel s after e.from_node e.from_output_slot_index e.from_output_slot_id
                w)
      → through s fuel before o w ≡ through s fuel after o w
  through-ext fuel before after w none same = refl
  through-ext fuel before after w (some e) same = same e refl

  -- a value depends on the outputs behind the port only
  pub resolve_value-ext :
      (fuel : ℕ) (before after : ExecutionCache F) (path : NodePath) (i : ℕ) (id : OutputSlotId)
      (v : Visited)
      → ((source : NodePath) (source_id : OutputSlotId)
          → Origin source source_id path i id
          → get_output before source_id ≡ get_output after source_id)
      → resolve_value fuel s before path i id v ≡ resolve_value fuel s after path i id v
  unfolding resolve_value
  resolve_value-ext zero before after path i id v same = refl
  resolve_value-ext (suc fuel) before after path i id v same =
      elim (Bool-cases (HashSet.contains v (path, i))) [
        | inl seen ↦ rw seen refl
        | inr new ↦ elim (Bool-cases (is_interface s path)) [
          | inr plain ↦ rw (new, plain, same path id (own plain)) refl
          | inl proxy ↦ elim (Option-cases (input_slot s path i)) [
            | inl e ↦ rw (new, proxy, e) refl
            | inr (slot, e) ↦
                let walked =
                  walk_edges-ext s is_some none (through s fuel before) (through s fuel after)
                    (λ w. Unit) (edges_for_input s slot.id) (HashSet.insert v (path, i)) tt
                    (λ j w m q. through-ext fuel before after w (get_edge s j) (λ edge there.
                      resolve_value-ext fuel before after edge.from_node edge.from_output_slot_index
                        edge.from_output_slot_id w
                        (λ a b o. same a b (via proxy slot j edge e m there o))))
                    (λ o w q. tt) in
                rw (new, proxy, e) (ap (or_default slot) walked)
          ]
        ]
      ]

  -- the sources of a port whose output slot the node owns own their output slots
  pub Origin-owner :
      {source : NodePath} {source_id : OutputSlotId} {path : NodePath} {i : ℕ} {id : OutputSlotId}
      → IsConsistent s
      → HashMap.get s.output_slot_owner id ≡ some (path, i)
      → Origin source source_id path i id
      → (j : ℕ) × (HashMap.get s.output_slot_owner source_id ≡ some (source, j))
  unfolding get_edge
  Origin-owner w h (own {i} plain) = (i, h)
  Origin-owner w h (via proxy slot edge_id edge e m there o) =
      Origin-owner w (w.ends edge_id edge there).output_end o
