-- ===== src/NodeStates/Effects/Cuts.antt =====
-- `remove_input_slot` of node_state.rs, read slot by slot, and the edges of the slot that goes.
use cognet.Prelude.{
  ◌↔◌, ltb, ◌==◌, inl, inr, Option-cases, List-cases, Bool-cases, contains, true, beq_refl,
  nat_beq_iff, ℕ, zero, suc, ◌∷◌, sym, ◌∙◌, ◌≤◌, ◌<◌, ◌≡◌, ◌≢◌, refl, Option, none, some, List, [],
  get_elem?, get_elem?-remove_at, remove_at, arith, nat_eq,
}
use mathlib.Core.Option
use cognet.HashMap
use cognet.HashMap.{get-map_values}
use cognet.ListMap.{get_list, get_list-insert}
use cognet.NodePath.{NodePath, path_eq}
use cognet.Edge.{Edge, EdgeId, InputSlotId}
use cognet.NodeStates.{
  NodeStates, InputSlotState, input_slot, edges_for_input, get_edge, bump_structure,
}
use cognet.NodeStates.Slots.{
  remove_input_slot, remove_input_found, reindex_input_slot_owners, shift_input_down,
}
use cognet.NodeStates.Lockstep.{id_at}
use cognet.NodeStates.Effects.Slots.{without_index}
use cognet.NodeStates.Consistent.{IsConsistent}
use cognet.NodeStates.Consistent.InputSlots.{remove_input_slot-IsConsistent}

get_elem?-past {ℓ} :
    {A : Type ℓ} (xs : List A) (i j : ℕ) → get_elem? xs i ≡ none → i ≤ j → get_elem? xs j ≡ none
get_elem?-past [] i j h b = refl
get_elem?-past (x ∷ xs) zero j h b = absurd (cc h)
get_elem?-past (x ∷ xs) (suc i) zero h b = absurd (omega arith)
get_elem?-past (x ∷ xs) (suc i) (suc j) h b = get_elem?-past xs i j h (omega arith)

down-without_index :
    (path : NodePath) (i : ℕ) (o : Option Edge)
    → Option.map without_index (Option.map (shift_input_down path i) o) ≡ Option.map without_index o
unfolding shift_input_down
down-without_index path i none = refl
down-without_index path i (some e) = ground arith

module _ {F : Type 0} where
  -- The slot at the index is gone, the slots above have moved down by one, and all others are where
  -- they were. The edges still have their ends and slot ids.
  pub record IsCutOut (s t : NodeStates F) (path : NodePath) (index : ℕ) : Type 0 where
    pub below : (j : ℕ) → j < index → input_slot t path j ≡ input_slot s path j
    pub above : (j : ℕ) → index ≤ j → input_slot t path j ≡ input_slot s path (suc j)
    pub elsewhere : (q : NodePath) (j : ℕ) → q ≢ path → input_slot t q j ≡ input_slot s q j
    pub edges :
        (id : EdgeId)
        → Option.map without_index (get_edge t id) ≡ Option.map without_index (get_edge s id)

  remove_input_found-IsCutOut :
      (s : NodeStates F) (path : NodePath) (index : ℕ) (o : Option (InputSlotState F))
      → input_slot s path index ≡ o
      → IsCutOut s (remove_input_found s path index o) path index
  unfolding remove_input_found reindex_input_slot_owners input_slot get_edge
  remove_input_found-IsCutOut s path index none gone = record {
    below = λ j b. refl;
    above = λ j b.
        let slots = get_list s.input_slots path in
        get_elem?-past slots index j gone b
        ∙ sym (get_elem?-past slots index (suc j) gone (omega arith));
    elsewhere = λ q j other. refl;
    edges = λ id. refl;
  }
  remove_input_found-IsCutOut s path index (some removed) there =
      let slots = get_list s.input_slots path in
      let read = λ (q : NodePath). get_list-insert s.input_slots path (remove_at slots index) q in
      record {
        below = λ j b.
            ground (arith, read path, path_eq.beq_iff path path, get_elem?-remove_at slots index j);
        above = λ j b.
            ground (arith, read path, path_eq.beq_iff path path, get_elem?-remove_at slots index j);
        elsewhere = λ q j other. ground (arith, read q, path_eq.beq_iff path q);
        edges = λ id.
            rw (get-map_values (shift_input_down path index) s.edges id)
              (down-without_index path index (HashMap.get s.edges id));
      }

  remove_input_slot-IsCutOut :
      (s : NodeStates F) (path : NodePath) (index : ℕ)
      → IsCutOut s (remove_input_slot s path index) path index
  unfolding remove_input_slot bump_structure input_slot get_edge
  remove_input_slot-IsCutOut s path index =
      let cut =
        remove_input_found-IsCutOut (bump_structure s) path index (input_slot s path index) refl in
      record { below = cut.below; above = cut.above; elsewhere = cut.elsewhere; edges = cut.edges }

  -- a slot is owned by its place
  input_slot-owner :
      (s : NodeStates F) (p : NodePath) (i : ℕ) (slot : InputSlotState F)
      → IsConsistent s
      → input_slot s p i ≡ some slot
      → HashMap.get s.input_slot_owner slot.id ≡ some (p, i)
  unfolding input_slot id_at
  input_slot-owner s p i slot w there = (w.inputs.at slot.id p i).1 (rw there refl)

  -- a slot with the id of the one that is taken out would stand in two places
  cut_out-id :
      (s t : NodeStates F) (path : NodePath) (index : ℕ) (slot : InputSlotState F) (p : NodePath)
      (i : ℕ) (other : InputSlotState F)
      → IsConsistent s
      → IsCutOut s t path index
      → input_slot s path index ≡ some slot
      → input_slot t p i ≡ some other
      → other.id ≢ slot.id
  cut_out-id s t path index slot p i other w cut there found same =
      let owner = input_slot-owner s path index slot w there in
      elim (Bool-cases (p == path)) [
        | inr away ↦
            let q : p ≢ path = λ e. ground (arith, path_eq.beq_iff p path) in
            let twice = input_slot-owner s p i other w (sym (cut.elsewhere p i q) ∙ found) in
            q (cc (owner, twice, same))
        | inl home ↦
            let e : p ≡ path = (path_eq.beq_iff p path).0 home in
            let moved : input_slot t path i ≡ some other = rw (← e) found in
            elim (Bool-cases (ltb i index)) [
              | inl low ↦
                  let twice =
                    input_slot-owner s path i other w (sym (cut.below i (ground arith)) ∙ moved) in
                  let k : i ≡ index = cc (owner, twice, same) in ground arith
              | inr high ↦
                  let twice =
                    input_slot-owner s path (suc i) other w
                      (sym (cut.above i (ground arith)) ∙ moved) in
                  let k : suc i ≡ index = cc (owner, twice, same) in ground arith
            ]
      ]

  -- an edge that is left names a slot that is left
  edge_slot :
      (t : NodeStates F) (id : EdgeId) (edge : Edge)
      → IsConsistent t
      → get_edge t id ≡ some edge
      → (slot : InputSlotState F) × (input_slot t edge.to_node edge.to_input_slot_index ≡ some slot)
        × (slot.id ≡ edge.to_input_slot_id)
  unfolding input_slot get_edge id_at
  edge_slot t id edge w there =
      let at =
        (w.inputs.at edge.to_input_slot_id edge.to_node edge.to_input_slot_index).0
          (w.ends id edge there).input_end in
      elim (Option-cases
        (get_elem? (get_list t.input_slots edge.to_node) edge.to_input_slot_index)) [
          | inl gone ↦ absurd (cc (rw gone at at))
          | inr (slot, found) ↦ (slot, found, cc (rw found at at))
        ]

  connected_edge :
      (s : NodeStates F) (k : InputSlotId) (id : EdgeId) (rest : List EdgeId)
      → IsConsistent s
      → edges_for_input s k ≡ id ∷ rest
      → (edge : Edge) × (get_edge s id ≡ some edge) × (edge.to_input_slot_id ≡ k)
  unfolding edges_for_input get_edge
  connected_edge s k id rest w wired =
      let member : contains (get_list s.input_connections k) id ≡ true =
        rw wired (ground (arith, beq_refl id)) in
      elim (Option-cases (HashMap.get s.edges id)) [
        | inl gone ↦ absurd (ground (arith, w.by_input.exact k id))
        | inr (edge, there) ↦ (
          edge,
          there,
          ground (arith, w.by_input.exact k id, nat_beq_iff edge.to_input_slot_id k),
        )
      ]

  edge_kept :
      (s t : NodeStates F) (id : EdgeId) (edge : Edge)
      → Option.map without_index (get_edge t id) ≡ Option.map without_index (get_edge s id)
      → get_edge s id ≡ some edge
      → (edge' : Edge) × (get_edge t id ≡ some edge')
        × (edge'.to_input_slot_id ≡ edge.to_input_slot_id)
  edge_kept s t id edge same there = elim (Option-cases (get_edge t id)) [
    | inl gone ↦ absurd (cc (rw (gone, there) at same))
    | inr (edge', left) ↦ (edge', left, cc (rw (left, there) at same))
  ]

  consistent-unused :
      (s t : NodeStates F) (path : NodePath) (index : ℕ) (slot : InputSlotState F)
      → IsConsistent s
      → IsConsistent t
      → IsCutOut s t path index
      → input_slot s path index ≡ some slot
      → edges_for_input s slot.id ≡ []
  consistent-unused s t path index slot w w' cut there =
      elim (List-cases (edges_for_input s slot.id)) [
        | inl bare ↦ bare
        | inr (id, rest, wired) ↦
            let (edge, known, end) = connected_edge s slot.id id rest w wired in
            let (edge', left, key) = edge_kept s t id edge (cut.edges id) known in
            let (other, found, same) = edge_slot t id edge' w' left in
            absurd (
              cut_out-id s t path index slot edge'.to_node edge'.to_input_slot_index other w cut
                there found (same ∙ key ∙ end))
      ]

  -- Removing an input slot takes it out: the slots above it move down by one, no other slot moves,
  -- and the edges keep their ends and slot ids. At an index with no slot nothing moves. A consistent
  -- store stays so, with the indexes of the edges following the slots, exactly when no edge is
  -- connected to the slot.
  pub remove_input_slot_outcome :
      (s : NodeStates F) (path : NodePath) (index : ℕ)
      → IsConsistent s
      → IsCutOut s (remove_input_slot s path index) path index
        × (IsConsistent (remove_input_slot s path index) ↔ (
            (slot : InputSlotState F)
            → input_slot s path index ≡ some slot
            → edges_for_input s slot.id ≡ []))
  remove_input_slot_outcome s path index w =
      let cut = remove_input_slot-IsCutOut s path index in
      (
        cut,
        (
          λ still slot there.
              consistent-unused s (remove_input_slot s path index) path index slot w still cut
                there,
          λ unused. remove_input_slot-IsConsistent s path index w unused,
        ),
      )
