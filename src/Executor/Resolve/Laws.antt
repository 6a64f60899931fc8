-- ===== src/Executor/Resolve/Laws.antt =====
-- That the walk of `resolve_value_through_interface` ends, and where its value comes from.
use cognet.Prelude.{
  ℕ, zero, suc, ◌<◌, ◌≤◌, ◌≡◌, ◌⊎◌, ◌∙◌, ap, refl, inl, inr, Option, none, some, true, false,
  contains, nat_eq, arith, Bool-cases, Option-cases,
}
use cognet.HashSet
use cognet.HashSet.{contains-insert}
use cognet.NodePath.{NodePath, path_eq}
use cognet.Slot.Data.{Data}
use cognet.Edge.{Edge, EdgeId, OutputSlotId}
use cognet.ExecutionCache.{ExecutionCache, get_output}
use cognet.NodeStates.{NodeStates, InputSlotState, input_slot, edges_for_input, get_edge}
use cognet.Executor.Interface.{Visited, port_eq, is_interface, walk_edges, walk_fuel}
use cognet.Executor.Interface.Walks.{Grows, walk_edges-Grows, walk_edges-ext, walk_edges-stopped}
use cognet.Executor.Interface.Fuel.{free, slotted, free-Grows, free-slots_at, free-port}
use cognet.Executor.Resolve.{
  is_some, slot_default, or_default, resolve_value, resolve_value_through_interface,
}

module _ {F : Type 0} (s : NodeStates F) where
  -- the step of the loop over the edges
  abbrev pub through : ℕ → ExecutionCache F → Option Edge → Visited → Option (Data F) × Visited
  through fuel cache edge seen = elim edge [
    | none ↦ (none, seen)
    | some e ↦
        resolve_value fuel s cache e.from_node e.from_output_slot_index e.from_output_slot_id seen
  ]

  or_default-visited :
      (slot : InputSlotState F) (r : Option (Data F) × Visited) → (or_default slot r).1 ≡ r.1
  unfolding or_default
  or_default-visited slot (none, v) = refl
  or_default-visited slot (some d, v) = refl

  insert-Grows : (v : Visited) (path : NodePath) (i : ℕ) → Grows v (HashSet.insert v (path, i))
  insert-Grows v path i q m = ground (arith, contains-insert v (path, i) q)

  through-Grows :
      (fuel : ℕ) (cache : ExecutionCache F)
      → ((e : Edge) (w : Visited)
          → Grows w
              (resolve_value fuel s cache e.from_node e.from_output_slot_index e.from_output_slot_id
                w).1)
      → (o : Option Edge) (w : Visited) → Grows w (through fuel cache o w).1
  through-Grows fuel cache ih none w p m = m
  through-Grows fuel cache ih (some e) w p m = ih e w p m

  pub resolve_value-Grows :
      (fuel : ℕ) (cache : ExecutionCache F) (path : NodePath) (i : ℕ) (id : OutputSlotId)
      (v : Visited)
      → Grows v (resolve_value fuel s cache path i id v).1
  unfolding resolve_value
  resolve_value-Grows zero cache path i id v p m = m
  resolve_value-Grows (suc fuel) cache path i id v p m =
      elim (Bool-cases (HashSet.contains v (path, i))) [
        | inl seen ↦ rw seen m
        | inr new ↦ elim (Bool-cases (is_interface s path)) [
          | inr plain ↦ rw (new, plain) (insert-Grows v path i p m)
          | inl proxy ↦ elim (Option-cases (input_slot s path i)) [
            | inl e ↦ rw (new, proxy, e) (insert-Grows v path i p m)
            | inr (slot, e) ↦
                let step = through fuel cache in
                let after = HashSet.insert v (path, i) in
                let grows = through-Grows fuel cache (λ e w.
                  resolve_value-Grows fuel cache e.from_node e.from_output_slot_index
                    e.from_output_slot_id w) in
                rw (new, proxy, e, or_default-visited)
                  (walk_edges-Grows s is_some none step grows (edges_for_input s slot.id) after p
                    (insert-Grows v path i p m))
          ]
        ]
      ]

  through-same :
      (fuel more : ℕ) (cache : ExecutionCache F) (w : Visited)
      → ((e : Edge)
          → resolve_value fuel s cache e.from_node e.from_output_slot_index e.from_output_slot_id w
            ≡ resolve_value more s cache e.from_node e.from_output_slot_index e.from_output_slot_id
                w)
      → (o : Option Edge) → through fuel cache o w ≡ through more cache o w
  through-same fuel more cache w ih none = refl
  through-same fuel more cache w ih (some e) = ih e

  -- All fuel above the number of the ports not visited gives the same value.
  pub resolve_value-fuel :
      (fuel more : ℕ) (cache : ExecutionCache F) (path : NodePath) (i : ℕ) (id : OutputSlotId)
      (v : Visited)
      → free s v (slotted s) < fuel
      → free s v (slotted s) < more
      → resolve_value fuel s cache path i id v ≡ resolve_value more s cache path i id v
  unfolding resolve_value
  resolve_value-fuel zero more cache path i id v h k = absurd (omega arith)
  resolve_value-fuel (suc fuel) zero cache path i id v h k = absurd (omega arith)
  resolve_value-fuel (suc fuel) (suc more) cache path i id v h k =
      elim (Bool-cases (HashSet.contains v (path, i))) [
        | inl seen ↦ rw seen refl
        | inr new ↦ elim (Bool-cases (is_interface s path)) [
          | inr plain ↦ rw (new, plain) refl
          | inl proxy ↦ elim (Option-cases (input_slot s path i)) [
            | inl e ↦ rw (new, proxy, e) refl
            | inr (slot, e) ↦
                let after = HashSet.insert v (path, i) in
                let falls = free-port s v path i slot new e in
                let step = through fuel cache in
                let same =
                  walk_edges-ext s is_some none step (through more cache)
                    (λ w. free s w (slotted s) < suc (free s after (slotted s)))
                    (edges_for_input s slot.id) after (omega arith)
                    (λ j w m q.
                      through-same fuel more cache w
                        (λ e.
                          resolve_value-fuel fuel more cache e.from_node e.from_output_slot_index
                            e.from_output_slot_id w (omega arith) (omega arith))
                        (get_edge s j))
                    (λ o w q. omega (
                      arith,
                      free-Grows s w (step o w).1 (slotted s) (
                          through-Grows fuel cache
                            (λ e w.
                              resolve_value-Grows fuel cache e.from_node e.from_output_slot_index
                                e.from_output_slot_id w)
                            o w),
                    )) in
                rw (new, proxy, e) (ap (or_default slot) same)
          ]
        ]
      ]

  -- Resolving a value ends: with any fuel above the number of the input slots of the graph it is the
  -- same value.
  pub resolve_value_terminates :
      (more : ℕ) (cache : ExecutionCache F) (path : NodePath) (i : ℕ) (id : OutputSlotId)
      → walk_fuel s ≤ more
      → (resolve_value more s cache path i id HashSet.empty).0
        ≡ resolve_value_through_interface s cache path i id
  unfolding resolve_value_through_interface walk_fuel
  resolve_value_terminates more cache path i id h =
      let bound = free-slots_at s HashSet.empty (slotted s) in
      ap (λ r. r.0)
        (resolve_value-fuel more (walk_fuel s) cache path i id HashSet.empty (omega arith)
          (omega arith))

  -- where a value can come from: the cached output of a node that is no interface, the value that
  -- an edge delivers to the mirrored input slot of an interface, or the default of that slot
  pub data Delivers (cache : ExecutionCache F) (d : Data F)
      : NodePath → ℕ → OutputSlotId → Type 0 where
    cached :
        {path : NodePath} {i : ℕ} {id : OutputSlotId}
        → is_interface s path ≡ false
        → get_output cache id ≡ some d
        → Delivers cache d path i id
    forwarded :
        {path : NodePath} {i : ℕ} {id : OutputSlotId}
        → is_interface s path ≡ true
        → (slot : InputSlotState F) (edge_id : EdgeId) (edge : Edge)
        → input_slot s path i ≡ some slot
        → contains (edges_for_input s slot.id) edge_id ≡ true
        → get_edge s edge_id ≡ some edge
        → Delivers cache d edge.from_node edge.from_output_slot_index edge.from_output_slot_id
        → Delivers cache d path i id
    defaulted :
        {path : NodePath} {i : ℕ} {id : OutputSlotId}
        → is_interface s path ≡ true
        → (slot : InputSlotState F) → input_slot s path i ≡ some slot
        → slot_default slot ≡ some d
        → Delivers cache d path i id

  through-some :
      (fuel : ℕ) (cache : ExecutionCache F) (o : Option Edge) (w : Visited) (d : Data F)
      → (through fuel cache o w).0 ≡ some d
      → (e : Edge) × (o ≡ some e)
        × ((resolve_value fuel s cache e.from_node e.from_output_slot_index e.from_output_slot_id
              w).0
            ≡ some d)
  through-some fuel cache none w d h = cc
  through-some fuel cache (some e) w d h = (e, refl, h)

  or_default-some :
      (slot : InputSlotState F) (r : Option (Data F) × Visited) (d : Data F)
      → (or_default slot r).0 ≡ some d
      → (r.0 ≡ some d) ⊎ (slot_default slot ≡ some d)
  unfolding or_default
  or_default-some slot (none, v) d h = inr h
  or_default-some slot (some a, v) d h = inl h

  resolve_value-Delivers :
      (fuel : ℕ) (cache : ExecutionCache F) (path : NodePath) (i : ℕ) (id : OutputSlotId)
      (v : Visited) (d : Data F)
      → (resolve_value fuel s cache path i id v).0 ≡ some d
      → Delivers cache d path i id
  unfolding resolve_value
  resolve_value-Delivers zero cache path i id v d h = cc
  resolve_value-Delivers (suc fuel) cache path i id v d h =
      elim (Bool-cases (HashSet.contains v (path, i))) [
        | inl seen ↦ absurd (cc (rw seen at h))
        | inr new ↦ elim (Bool-cases (is_interface s path)) [
          | inr plain ↦ cached plain (rw (new, plain) at h)
          | inl proxy ↦ elim (Option-cases (input_slot s path i)) [
            | inl e ↦ absurd (cc (rw (new, proxy, e) at h))
            | inr (slot, e) ↦
                let after = HashSet.insert v (path, i) in
                let ids = edges_for_input s slot.id in
                let walk = walk_edges s (through fuel cache) is_some none ids after in
                elim (or_default-some slot walk d (rw (new, proxy, e) at h)) [
                  | inr own ↦ defaulted proxy slot e own
                  | inl found ↦
                      let (j, w, m, same) =
                        walk_edges-stopped s is_some none (through fuel cache) ids after refl
                          (rw found refl) in
                      let (edge, there, value) =
                        through-some fuel cache (get_edge s j) w d (same ∙ found) in
                      forwarded proxy slot j edge e m there (
                        resolve_value-Delivers fuel cache edge.from_node edge.from_output_slot_index
                          edge.from_output_slot_id w d value)
                ]
          ]
        ]
      ]

  -- A resolved value is the cached output of a node that is no interface, or the default of an
  -- interface's input slot, at the end of a chain of edges that mirrors the ports.
  pub resolve_value_through_interface-Delivers :
      (cache : ExecutionCache F) (path : NodePath) (i : ℕ) (id : OutputSlotId) (d : Data F)
      → resolve_value_through_interface s cache path i id ≡ some d
      → Delivers cache d path i id
  unfolding resolve_value_through_interface
  resolve_value_through_interface-Delivers cache path i id d h =
      resolve_value-Delivers (walk_fuel s) cache path i id HashSet.empty d h
