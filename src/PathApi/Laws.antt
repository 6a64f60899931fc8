-- ===== src/PathApi/Laws.antt =====
-- src/node_graph/path_api.rs: a default value is written to the slot and to its mirror, or nothing
-- is.
use cognet.Prelude.{
  ℕ, zero, suc, ◌≡◌, refl, Bool, true, false, ◌&&◌, ◌||◌, Option, none, some, List, [], ◌∷◌, ◌==◌,
  arith, nat_eq, nat_beq_iff, if◌then◌else◌, ◌⊎◌, inl, inr, get_elem?, Option-cases,
}
use mathlib.Core.Option
use cognet.HashSet
use cognet.HashSet.{contains-insert}
use cognet.ListMap.{get_list, get_list-update}
use cognet.Result.{ok, err}
use cognet.NodePath.{NodePath, path_eq}
use cognet.Slot.Data.{DataValue}
use cognet.NodeStates.{NodeStates, InputSlotState, input_slot, mark_changed, bump_structure}
use cognet.NodeStates.Setters.{set_input_slot, set_input_slot-IsConsistent, is_some, modify_at}
use cognet.NodeStates.Consistent.{IsConsistent}
use cognet.NodeGraph.{NodeGraph}
use cognet.PathApi.{
  PathError, check_targets, write_targets, write_default_at, input_proxy_at, with_default,
}

get_elem?-modify_at {ℓ} :
    {A : Type ℓ} (f : A → A) (i j : ℕ) (l : List A)
    → get_elem? (modify_at f i l) j
      ≡ (if i == j then Option.map f (get_elem? l j) else get_elem? l j)
get_elem?-modify_at f i j [] = ground arith
get_elem?-modify_at f zero zero (x ∷ xs) = refl
get_elem?-modify_at f zero (suc j) (x ∷ xs) = ground (arith, nat_beq_iff 0 (suc j))
get_elem?-modify_at f (suc i) zero (x ∷ xs) = ground (arith, nat_beq_iff (suc i) 0)
get_elem?-modify_at f (suc i) (suc j) (x ∷ xs) =
    ground (arith, get_elem?-modify_at f i j xs, nat_beq_iff (suc i) (suc j), nat_beq_iff i j)

abbrev pub is_target : NodePath → Option NodePath → NodePath → Bool
is_target path none q = path == q
is_target path (some proxy) q = (path == q) || (proxy == q)

module _ {F : Type 0} where
  -- the default value of a slot, where there is the slot
  unfoldable pub default_at : NodeStates F → NodePath → ℕ → Option (Option (DataValue F))
  unfolding input_slot
  default_at s path index = Option.map (λ slot. slot.default_value) (input_slot s path index)

  -- The default value `v` stands in the slot `index` of the targets, every other default value is
  -- as it was, and the targets are marked as changed.
  pub record IsMirrored (before after : NodeStates F) (path : NodePath) (proxy : Option NodePath)
      (index : ℕ) (v : Option (DataValue F)) : Type 0 where
    pub at :
        (q : NodePath) (j : ℕ)
        → default_at after q j
          ≡ (if is_target path proxy q && (index == j) then some v else default_at before q j)
    pub marked :
        (q : NodePath)
        → HashSet.contains after.changed_nodes q
          ≡ (is_target path proxy q || HashSet.contains before.changed_nodes q)

  input_slot-set_input_slot :
      (s : NodeStates F) (p : NodePath) (i : ℕ) (f : InputSlotState F → InputSlotState F)
      (q : NodePath) (j : ℕ)
      → input_slot (set_input_slot s p i f).0 q j
        ≡ (if (p == q) && (i == j) then Option.map f (input_slot s q j) else input_slot s q j)
  unfolding input_slot set_input_slot bump_structure
  input_slot-set_input_slot s p i f q j = ground (
    arith,
    get_list-update s.input_slots p (modify_at f i) q refl,
    get_elem?-modify_at f i j (get_list s.input_slots q),
  )

  set_input_slot-keeps :
      (s : NodeStates F) (p : NodePath) (i : ℕ) (v : Option (DataValue F)) (q : NodePath) (j : ℕ)
      → is_some (input_slot (set_input_slot s p i (with_default v)).0 q j)
        ≡ is_some (input_slot s q j)
  set_input_slot-keeps s p i v q j = elim (Option-cases (input_slot s q j)) [
    | inl none_there ↦ ground (arith, input_slot-set_input_slot s p i (with_default v) q j)
    | inr (slot, there) ↦ ground (arith, input_slot-set_input_slot s p i (with_default v) q j)
  ]

  default_at-set_input_slot :
      (s : NodeStates F) (p : NodePath) (i : ℕ) (v : Option (DataValue F)) (q : NodePath) (j : ℕ)
      → is_some (input_slot s p i) ≡ true
      → default_at (set_input_slot s p i (with_default v)).0 q j
        ≡ (if (p == q) && (i == j) then some v else default_at s q j)
  unfolding default_at
  default_at-set_input_slot s p i v q j h = elim (Option-cases (input_slot s q j)) [
    | inl none_there ↦ ground (
      arith,
      input_slot-set_input_slot s p i (with_default v) q j,
      path_eq.beq_iff p q,
      nat_beq_iff i j,
    )
    | inr (slot, there) ↦ ground (arith, input_slot-set_input_slot s p i (with_default v) q j)
  ]

  check_targets-found :
      (s : NodeStates F) (path : NodePath) (index : ℕ) (proxy : Option NodePath) (q : NodePath)
      → check_targets s path index proxy ≡ ok tt
      → is_target path proxy q ≡ true
      → is_some (input_slot s q index) ≡ true
  unfolding check_targets
  check_targets-found s path index none q c t = ground (arith, path_eq.beq_iff path q)
  check_targets-found s path index (some proxy) q c t =
      ground (arith, path_eq.beq_iff path q, path_eq.beq_iff proxy q)

  write_targets-IsMirrored :
      (s : NodeStates F) (path : NodePath) (index : ℕ) (proxy : Option NodePath)
      (v : Option (DataValue F))
      → check_targets s path index proxy ≡ ok tt
      → IsMirrored s (write_targets s path index proxy v) path proxy index v
  unfolding write_targets mark_changed default_at set_input_slot bump_structure
  write_targets-IsMirrored s path index none v c = record {
    at = λ q j. ground (
      arith,
      default_at-set_input_slot s path index v q j,
      check_targets-found s path index none path c,
      path_eq.beq_iff path path,
    );
    marked = λ q. contains-insert s.changed_nodes path q;
  }
  write_targets-IsMirrored s path index (some proxy) v c = record {
    at = λ q j.
        let first = (set_input_slot s path index (with_default v)).0 in
        ground (
          arith,
          default_at-set_input_slot s path index v q j,
          default_at-set_input_slot first proxy index v q j,
          set_input_slot-keeps s path index v proxy index,
          check_targets-found s path index (some proxy) path c,
          check_targets-found s path index (some proxy) proxy c,
          path_eq.beq_iff path path,
          path_eq.beq_iff proxy proxy,
        );
    marked = λ q. ground (
      arith,
      contains-insert s.changed_nodes path q,
      contains-insert (HashSet.insert s.changed_nodes path) proxy q,
    );
  }

  mark_changed-IsConsistent :
      (s : NodeStates F) (path : NodePath) → IsConsistent s → IsConsistent (mark_changed s path)
  unfolding mark_changed
  mark_changed-IsConsistent s path w = record {
    inputs = w.inputs;
    outputs = w.outputs;
    ends = w.ends;
    by_input = w.by_input;
    by_output = w.by_output;
    by_source = w.by_source;
    by_sink = w.by_sink;
  }

  write_targets-IsConsistent :
      (s : NodeStates F) (path : NodePath) (index : ℕ) (proxy : Option NodePath)
      (v : Option (DataValue F))
      → IsConsistent s
      → IsConsistent (write_targets s path index proxy v)
  unfolding write_targets
  write_targets-IsConsistent s path index none v w =
      mark_changed-IsConsistent _ path
        (set_input_slot-IsConsistent s path index (with_default v) w (λ slot. refl))
  write_targets-IsConsistent s path index (some proxy) v w =
      let first = (set_input_slot s path index (with_default v)).0 in
      mark_changed-IsConsistent _ proxy (
        mark_changed-IsConsistent _ path (
          set_input_slot-IsConsistent first proxy index (with_default v)
            (set_input_slot-IsConsistent s path index (with_default v) w (λ slot. refl))
            (λ slot. refl)))

  -- the slot and, of a subgraph, the slot of its input proxy
  unfoldable pub targets_found : NodeStates F → NodePath → ℕ → Option NodePath → Bool
  targets_found s path index none = is_some (input_slot s path index)
  targets_found s path index (some proxy) =
      is_some (input_slot s path index) && is_some (input_slot s proxy index)

  check_targets-cases :
      (s : NodeStates F) (path : NodePath) (index : ℕ) (proxy : Option NodePath)
      → ((targets_found s path index proxy ≡ true) × (check_targets s path index proxy ≡ ok tt))
        ⊎ ((targets_found s path index proxy ≡ false)
            × ((e : PathError) × (check_targets s path index proxy ≡ err e)))
  unfolding targets_found check_targets
  check_targets-cases s path index none = elim (Option-cases (input_slot s path index)) [
    | inl gone ↦ rw gone (inr (refl, (PathError.slot_not_found, refl)))
    | inr (slot, there) ↦ rw there (inl (refl, refl))
  ]
  check_targets-cases s path index (some proxy) = elim (Option-cases (input_slot s path index)) [
    | inl gone ↦ rw gone (inr (refl, (PathError.slot_not_found, refl)))
    | inr (slot, there) ↦ elim (Option-cases (input_slot s proxy index)) [
      | inl gone ↦ rw (there, gone) (inr (refl, (PathError.proxy_slot_not_found, refl)))
      | inr (mirror, found) ↦ rw (there, found) (inl (refl, refl))
    ]
  ]

  -- Where the slot is there and, for a subgraph, also the slot of its input proxy, the value is
  -- stored in both, every other default value stays, both nodes are marked as changed, no other
  -- node is marked, and the store stays consistent. Otherwise
  -- the answer is an error and the graph is as it was.
  pub write_default_at_outcome :
      (g : NodeGraph F) (path : NodePath) (index : ℕ) (v : Option (DataValue F))
      → IsConsistent g.node_states
      → ((targets_found g.node_states path index (input_proxy_at g path) ≡ true)
          × ((write_default_at g path index v).1 ≡ ok tt)
          × IsMirrored g.node_states
              (write_default_at g path index v).0.node_states
              path
              (input_proxy_at g path)
              index
              v
          × IsConsistent (write_default_at g path index v).0.node_states)
        ⊎ ((targets_found g.node_states path index (input_proxy_at g path) ≡ false)
            × ((e : PathError) × (write_default_at g path index v ≡ (g, err e))))
  unfolding write_default_at
  write_default_at_outcome g path index v w =
      elim (check_targets-cases g.node_states path index (input_proxy_at g path)) [
        | inl (found, c) ↦
            rw (write_default_at, c)
              (inl (
                found,
                refl,
                write_targets-IsMirrored g.node_states path index (input_proxy_at g path) v c,
                write_targets-IsConsistent g.node_states path index (input_proxy_at g path) v w,
              ))
        | inr (missing, (e, c)) ↦ rw (write_default_at, c) (inr (missing, (e, refl)))
      ]
