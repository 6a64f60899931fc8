-- ===== src/Examples/Skipping.antt =====
-- A node that is skipped while the default value of another one was edited.
use cognet.Prelude.{
  ℕ, ◌≡◌, refl, false, none, some, [], ◌∷◌, arith, nat_eq, nat_beq_iff, list_beq, string_eq, inl,
  inr, Bool-cases, ◌==◌,
}
use cognet.HashMap
use cognet.HashMap.{get-insert}
use cognet.HashSet
use cognet.ListMap.{get_list, push_entry, get_list-update}
use cognet.NodePath.{NodePath, root, child, path_eq, path_beq}
use cognet.Edge.{OutputSlotId}
use cognet.Slot.Data.{Data, number}
use cognet.Slot.DataType.{DataType}
use cognet.ExecutionCache.{ExecutionCache, get_output}
use cognet.NodeStates.{
  NodeStates, default, bump_structure, get_edge, incoming_edges_at, node, input_slot,
  edges_for_input,
}
use cognet.NodeStates.Nodes.{add_node, output_states}
use cognet.NodeStates.Slots
use cognet.NodeStates.Edges.{add_edge}
use cognet.NodeStates.Setters.{set_input_slot, set_input_slot-IsConsistent, modify_at}
use cognet.NodeStates.Consistent.{IsConsistent}
use cognet.PathApi.{with_default}
use cognet.Executor.Interface.{is_interface, walk_fuel, port_eq}
use cognet.Executor.Frontier.{ChangeFrontier, source_changed, any_source_changed, must_execute}
use cognet.Executor.Frontier.Edits.{IsMarked}
use cognet.Executor.Frontier.Skipped.{must_execute-context}
use cognet.Executor.Context.{build_execution_context}
use cognet.Examples.States.{first, second, wired, wired-IsConsistent}

abbrev edited : NodeStates ℕ
edited = (set_input_slot wired first 0 (with_default (some (number 9)))).0

edited-IsConsistent : IsConsistent edited
edited-IsConsistent =
    set_input_slot-IsConsistent wired first 0 (with_default (some (number 9))) wired-IsConsistent
      (λ slot. refl)

-- the first node was edited, and its outputs did not change
abbrev frontier : ChangeFrontier
frontier = record { seed = record { elements = first ∷ [] }; changed = HashSet.empty }

edited-IsMarked : IsMarked frontier.seed wired edited
unfolding set_input_slot bump_structure is_interface node edges_for_input get_edge HashSet.contains
edited-IsMarked = record {
  kinds = λ p. refl;
  state = λ p clean. refl;
  input = λ p clean. ground (
    arith,
    get_list-update wired.input_slots first (modify_at (with_default (some (number 9))) 0) p refl,
  );
  output = λ p clean. refl;
  connections = λ p i slot clean e. refl;
  edges = λ p i slot id clean e m. refl;
}

skipped : must_execute frontier edited second ≡ false
unfolding must_execute any_source_changed source_changed is_interface node walk_fuel
    incoming_edges_at input_slot edges_for_input set_input_slot add_edge add_node default
    bump_structure get_edge get_list push_entry root child path_beq list_beq HashMap.get
    HashMap.insert HashMap.empty HashMap.keys_where HashMap.update HashSet.contains HashSet.empty
skipped = refl

abbrev five : Data ℕ
five = record { value = number 5; data_type = DataType.number }

abbrev before : ExecutionCache ℕ
before = record { outputs = HashMap.insert HashMap.empty 20 five }

-- with the value of a slot that no node owns any more
abbrev after : ExecutionCache ℕ
after = record { outputs = HashMap.insert before.outputs 50 five }

unowned : HashMap.get edited.output_slot_owner 50 ≡ none
unfolding set_input_slot add_edge add_node output_states Slots.insert_owners default bump_structure
    HashMap.get HashMap.insert HashMap.empty
unowned = refl

outputs_agree :
    (source : NodePath) (i : ℕ) (id : OutputSlotId)
    → HashMap.get edited.output_slot_owner id ≡ some (source, i)
    → HashSet.contains frontier.changed source ≡ false
    → get_output before id ≡ get_output after id
unfolding get_output
outputs_agree source i id owned unchanged = elim (Bool-cases (50 == id)) [
  | inl same ↦ let e : 50 ≡ id = (nat_beq_iff 50 id).0 same in absurd (cc (unowned, owned, e))
  | inr other ↦ ground (arith, get-insert before.outputs 50 five id)
]

must_execute-context_example :
    build_execution_context second wired before ≡ build_execution_context second edited after
must_execute-context_example =
    must_execute-context wired edited before after frontier second edited-IsConsistent
      edited-IsMarked skipped outputs_agree
