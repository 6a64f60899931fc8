-- ===== src/Executor/Collect/Shown.antt =====
-- What `collect_outputs` shows of a node, read slot by slot.
use cognet.Prelude.{
  ℕ, zero, suc, ◌≡◌, ◌≢◌, refl, ◌∙◌, inl, inr, Option, none, some, true, List, [], ◌∷◌, contains,
  length, get_elem?, nat_eq, if◌then◌else◌,
}
use mathlib.Core.Option
use cognet.ListMap.{get_list}
use cognet.NodePath.{NodePath, path_eq, is_empty}
use cognet.Edge.{Edge, EdgeId}
use cognet.Slot.Data.{Data}
use cognet.ExecutionCache.{ExecutionCache, get_output}
use cognet.NodeStates.{
  NodeStates, OutputSlotState, get_edge, incoming_edges_at, input_slot_count, output_slot,
}
use cognet.Executor.Context.{snapshot_outputs, outputs_of}
use cognet.Executor.Collect.{nones, sink_inputs, shown_values}
use cognet.Executor.Collect.Inputs.{
  delivered_by, length-nones, get_elem?-nones, length-sink_inputs, sink_inputs-delivered,
  sink_inputs-missing,
}

module _ {F : Type 0} (s : NodeStates F) (cache : ExecutionCache F) where
  -- the edge leads to the slot `index` of the node
  pub record IsInto (path : NodePath) (index : ℕ) (id : EdgeId) (edge : Edge) : Type 0 where
    pub incoming : contains (incoming_edges_at s path) id ≡ true
    pub there : get_edge s id ≡ some edge
    pub slot : edge.to_input_slot_index ≡ index

  -- A node with output slots is shown by what the cache has for each. Another node is shown by its
  -- input slots: a value is one that an edge into the slot delivers, and a slot without a value has
  -- no edge that delivers one.
  pub record IsShown (path : NodePath) (values : List (Option (Data F))) : Type 0 where
    pub outputs :
        (i : ℕ)
        → get_list s.output_slots path ≢ []
        → get_elem? values i ≡ Option.map (λ slot. get_output cache slot.id) (output_slot s path i)
    pub slots : get_list s.output_slots path ≡ [] → length values ≡ input_slot_count s path
    pub delivered :
        (i : ℕ) (d : Data F)
        → get_list s.output_slots path ≡ []
        → get_elem? values i ≡ some (some d)
        → (id : EdgeId) × (edge : Edge) × IsInto path i id edge
          × (delivered_by s cache edge ≡ some d)
    pub missing :
        (i : ℕ) (id : EdgeId) (edge : Edge)
        → get_list s.output_slots path ≡ []
        → get_elem? values i ≡ some none
        → IsInto path i id edge
        → delivered_by s cache edge ≡ none

  get_elem?-outputs_of :
      (slots : List OutputSlotState) (i : ℕ)
      → get_elem? (outputs_of cache slots) i
        ≡ Option.map (λ slot. get_output cache slot.id) (get_elem? slots i)
  unfolding outputs_of
  get_elem?-outputs_of [] i = refl
  get_elem?-outputs_of (slot ∷ slots) zero = refl
  get_elem?-outputs_of (slot ∷ slots) (suc i) = get_elem?-outputs_of slots i

  -- What is shown of a node is what `IsShown` says.
  pub shown_values-IsShown : (path : NodePath) → IsShown path (shown_values s cache path)
  unfolding shown_values snapshot_outputs output_slot input_slot_count
  shown_values-IsShown path = go (get_list s.output_slots path) refl
    where
      sink : List (Option (Data F))
      sink = sink_inputs s cache (nones (input_slot_count s path)) (incoming_edges_at s path)

      go :
          (l : List OutputSlotState)
          → get_list s.output_slots path ≡ l
          → IsShown path
              (if is_empty l then sink else outputs_of cache (get_list s.output_slots path))
      go [] bare = record {
        outputs = λ i some_slot. absurd (some_slot bare);
        slots = λ none_there.
            length-sink_inputs s cache (nones (input_slot_count s path)) (incoming_edges_at s path)
            ∙ length-nones s cache (input_slot_count s path);
        delivered = λ i d none_there h.
            elim (sink_inputs-delivered s cache (nones (input_slot_count s path))
              (incoming_edges_at s path) i d h) [
                | inl before ↦ absurd (get_elem?-nones s cache (input_slot_count s path) i d before)
                | inr (id, edge, m, there, k, given) ↦
                    (id, edge, record { incoming = m; there = there; slot = k }, given)
              ];
        missing = λ i id edge none_there h into.
            (sink_inputs-missing s cache (nones (input_slot_count s path))
                (incoming_edges_at s path) i h).1
              id edge into.incoming into.there into.slot;
      }
      go (slot ∷ slots) full = record {
        outputs = λ i some_slot. get_elem?-outputs_of (get_list s.output_slots path) i;
        slots = λ none_there. absurd (cc (full, none_there));
        delivered = λ i d none_there h. absurd (cc (full, none_there));
        missing = λ i id edge none_there h into. absurd (cc (full, none_there));
      }
