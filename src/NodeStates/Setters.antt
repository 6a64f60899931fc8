-- ===== src/NodeStates/Setters.antt =====
-- src/node_graph/node_state.rs: the setters that rewrite one slot in place, and what the callers of
-- a subgraph see of its proxies.
use cognet.Prelude.{
  length, get_elem?, ap, map, ℕ, zero, suc, ◌≡◌, refl, Bool, true, false, Option, none, some, List,
  [], ◌∷◌, String, arith, nat_eq, map,
}
use mathlib.Core.Option
use cognet.HashMap
use cognet.HashMap.{HashMap}
use cognet.ListMap.{get_list, get_list-update}
use cognet.NodePath.{NodeId, NodePath, child, path_eq}
use cognet.Slot.DataType.{DataType}
use cognet.NodeStates.{
  NodeStates, InputSlotState, OutputSlotState, Owner, bump_structure, input_slot, output_slot,
  input_slot_count,
}
use cognet.NodeStates.Slots.{input_id, output_id}
use cognet.NodeStates.Lockstep.{id_at, InLockstep}
use cognet.NodeStates.Consistent.{IsConsistent}

-- `slots.get_mut(index)`, written through
abbrev pub modify_at {ℓ} : {A : Type ℓ} → (A → A) → ℕ → List A → List A
modify_at f i [] = []
modify_at f zero (x ∷ xs) = f x ∷ xs
modify_at f (suc i) (x ∷ xs) = x ∷ modify_at f i xs

-- (0..n).filter_map(f).collect()
abbrev pub filter_map_to {ℓ} : {A : Type ℓ} → ℕ → (ℕ → Option A) → List A
filter_map_to zero f = []
filter_map_to (suc n) f =
    let rest = filter_map_to n (λ i. f (suc i)) in elim (f 0) [ none ↦ rest | some a ↦ a ∷ rest ]

abbrev pub is_some {ℓ} : {A : Type ℓ} → Option A → Bool
is_some none = false
is_some (some a) = true

module _ {F : Type 0} where
  unfoldable pub set_input_slot :
      NodeStates F → NodePath → ℕ → (InputSlotState F → InputSlotState F) → NodeStates F × Bool
  unfolding bump_structure input_slot
  set_input_slot s path index f =
      let b = bump_structure s in
      (
        record b { input_slots = HashMap.update s.input_slots path (modify_at f index) },
        is_some (input_slot s path index),
      )

  unfoldable pub set_output_slot :
      NodeStates F → NodePath → ℕ → (OutputSlotState → OutputSlotState) → NodeStates F × Bool
  unfolding bump_structure output_slot
  set_output_slot s path index f =
      let b = bump_structure s in
      (
        record b { output_slots = HashMap.update s.output_slots path (modify_at f index) },
        is_some (output_slot s path index),
      )

  unfoldable pub set_input_slot_inspector_visible :
      NodeStates F → NodePath → ℕ → Bool → NodeStates F × Bool
  unfolding set_input_slot
  set_input_slot_inspector_visible s path index visible =
      set_input_slot s path index (λ slot. record slot { inspector_visible = visible })

  unfoldable pub set_input_slot_label : NodeStates F → NodePath → ℕ → String → NodeStates F × Bool
  unfolding set_input_slot
  set_input_slot_label s path index label =
      set_input_slot s path index (λ slot. record slot { label = label })

  unfoldable pub set_output_slot_label : NodeStates F → NodePath → ℕ → String → NodeStates F × Bool
  unfolding set_output_slot
  set_output_slot_label s path index label =
      set_output_slot s path index (λ slot. record slot { label = label })

  unfoldable pub external_slot : InputSlotState F → String × DataType
  external_slot slot = (slot.label, slot.data_type)

  unfoldable pub subgraph_external_inputs :
      NodeStates F → NodePath → NodeId → List (String × DataType)
  unfolding external_slot
  subgraph_external_inputs s sg_path input_proxy_id =
      let in_path = child sg_path input_proxy_id in
      filter_map_to (input_slot_count s in_path)
        (λ i. Option.map external_slot (input_slot s in_path i))

  unfoldable pub subgraph_external_outputs :
      NodeStates F → NodePath → NodeId → List (String × DataType)
  unfolding external_slot
  subgraph_external_outputs s sg_path output_proxy_id =
      let out_path = child sg_path output_proxy_id in
      filter_map_to (input_slot_count s out_path)
        (λ i. Option.map external_slot (input_slot s out_path i))

  filter_map_to-list :
      (l : List (InputSlotState F))
      → filter_map_to (length l) (λ i. Option.map external_slot (get_elem? l i))
        ≡ map external_slot l
  filter_map_to-list [] = refl
  filter_map_to-list (x ∷ xs) = ap (λ l. external_slot x ∷ l) (filter_map_to-list xs)

  -- The callers of a subgraph see the labels and types of all the input slots of the input proxy
  -- as its inputs, and those of the output proxy as its outputs, in the order of the slots.
  pub subgraph_external_slots :
      (s : NodeStates F) (sg_path : NodePath) (input_proxy_id output_proxy_id : NodeId)
      → (subgraph_external_inputs s sg_path input_proxy_id
          ≡ map external_slot (get_list s.input_slots (child sg_path input_proxy_id)))
        × (subgraph_external_outputs s sg_path output_proxy_id
            ≡ map external_slot (get_list s.input_slots (child sg_path output_proxy_id)))
  unfolding subgraph_external_inputs subgraph_external_outputs input_slot_count input_slot
  subgraph_external_slots s sg_path input_proxy_id output_proxy_id = (
    filter_map_to-list (get_list s.input_slots (child sg_path input_proxy_id)),
    filter_map_to-list (get_list s.input_slots (child sg_path output_proxy_id)),
  )

module _ {ℓ} {S : Type ℓ} (id : S → ℕ) (f : S → S) (same : (x : S) → id (f x) ≡ id x) where
  id_at-modify_at : (i j : ℕ) (l : List S) → id_at id (modify_at f i l) j ≡ id_at id l j
  unfolding id_at
  id_at-modify_at i j [] = refl
  id_at-modify_at zero zero (x ∷ xs) = rw same refl
  id_at-modify_at zero (suc j) (x ∷ xs) = refl
  id_at-modify_at (suc i) zero (x ∷ xs) = refl
  id_at-modify_at (suc i) (suc j) (x ∷ xs) = id_at-modify_at i j xs

  modify-InLockstep :
      (slots : HashMap NodePath (List S)) (owner : HashMap ℕ Owner) (path : NodePath) (i : ℕ)
      → InLockstep id slots owner
      → InLockstep id (HashMap.update slots path (modify_at f i)) owner
  modify-InLockstep slots owner path i w = record {
    at = λ k p j. ground (
      arith,
      w.at k p j,
      get_list-update slots path (modify_at f i) p refl,
      id_at-modify_at i j (get_list slots p),
    );
  }

module _ {F : Type 0} where
  -- A change of an input slot that keeps its id keeps the invariant.
  pub set_input_slot-IsConsistent :
      (s : NodeStates F) (path : NodePath) (index : ℕ) (f : InputSlotState F → InputSlotState F)
      → IsConsistent s
      → ((slot : InputSlotState F) → input_id (f slot) ≡ input_id slot)
      → IsConsistent (set_input_slot s path index f).0
  unfolding set_input_slot bump_structure
  set_input_slot-IsConsistent s path index f w same = record {
    inputs = modify-InLockstep input_id f same s.input_slots s.input_slot_owner path index w.inputs;
    outputs = w.outputs;
    ends = w.ends;
    by_input = w.by_input;
    by_output = w.by_output;
    by_source = w.by_source;
    by_sink = w.by_sink;
  }

  -- A change of an output slot that keeps its id keeps the invariant.
  pub set_output_slot-IsConsistent :
      (s : NodeStates F) (path : NodePath) (index : ℕ) (f : OutputSlotState → OutputSlotState)
      → IsConsistent s
      → ((slot : OutputSlotState) → output_id (f slot) ≡ output_id slot)
      → IsConsistent (set_output_slot s path index f).0
  unfolding set_output_slot bump_structure
  set_output_slot-IsConsistent s path index f w same = record {
    inputs = w.inputs;
    outputs =
        modify-InLockstep output_id f same s.output_slots s.output_slot_owner path index w.outputs;
    ends = w.ends;
    by_input = w.by_input;
    by_output = w.by_output;
    by_source = w.by_source;
    by_sink = w.by_sink;
  }
