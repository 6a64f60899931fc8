-- ===== src/Executor/Collect/Inputs.antt =====
-- The values that `collect_outputs` gathers from the edges into a node, slot by slot.
use cognet.Prelude.{
  ℕ, zero, suc, ◌≡◌, ◌≢◌, ◌≤◌, ◌⊎◌, refl, ap, sym, ◌∙◌, inl, inr, Option, none, some, true, List,
  [], ◌∷◌, ◌==◌, contains, length, leb, get_elem?, arith, nat_eq, nat_beq_iff, beq_refl, Bool-cases,
  Option-cases, if◌then◌else◌,
}
use mathlib.Core.Option
use cognet.NodePath.{path_eq}
use cognet.Edge.{Edge, EdgeId}
use cognet.Slot.Data.{Data}
use cognet.ExecutionCache.{ExecutionCache}
use cognet.NodeStates.{NodeStates, get_edge}
use cognet.Executor.Resolve.{resolve_value_through_interface}
use cognet.Executor.Collect.{nones, store_some, value_of_edge, put_input, sink_inputs}

module _ {F : Type 0} (s : NodeStates F) (cache : ExecutionCache F) where
  abbrev pub delivered_by : Edge → Option (Data F)
  delivered_by edge =
      resolve_value_through_interface s cache edge.from_node edge.from_output_slot_index
        edge.from_output_slot_id

  get_elem?-store_some :
      (os : List (Option (Data F))) (i : ℕ) (a : Data F) (j : ℕ)
      → get_elem? (store_some os i a) j
        ≡ (if i == j then Option.map (λ o. some a) (get_elem? os j) else get_elem? os j)
  get_elem?-store_some [] i a j = ground arith
  get_elem?-store_some (o ∷ os) zero a zero = refl
  get_elem?-store_some (o ∷ os) zero a (suc j) = ground (arith, nat_beq_iff 0 (suc j))
  get_elem?-store_some (o ∷ os) (suc i) a zero = ground (arith, nat_beq_iff (suc i) 0)
  get_elem?-store_some (o ∷ os) (suc i) a (suc j) =
      ground (arith, get_elem?-store_some os i a j, nat_beq_iff (suc i) (suc j), nat_beq_iff i j)

  length-store_some :
      (os : List (Option (Data F))) (i : ℕ) (a : Data F) → length (store_some os i a) ≡ length os
  length-store_some [] i a = refl
  length-store_some (o ∷ os) zero a = refl
  length-store_some (o ∷ os) (suc i) a = ap suc (length-store_some os i a)

  store_some-past :
      (os : List (Option (Data F))) (i : ℕ) (a : Data F) → length os ≤ i → store_some os i a ≡ os
  store_some-past [] i a h = refl
  store_some-past (o ∷ os) zero a h = absurd (omega arith)
  store_some-past (o ∷ os) (suc i) a h = ap (λ l. o ∷ l) (store_some-past os i a (omega arith))

  pub length-nones : (n : ℕ) → length (nones {A = Data F} n) ≡ n
  length-nones zero = refl
  length-nones (suc n) = ap suc (length-nones n)

  pub get_elem?-nones : (n i : ℕ) (d : Data F) → get_elem? (nones n) i ≢ some (some d)
  get_elem?-nones zero i d = cc
  get_elem?-nones (suc n) zero d = cc
  get_elem?-nones (suc n) (suc i) d = get_elem?-nones n i d

  put_input-none :
      (os : List (Option (Data F))) (edge : Edge)
      → delivered_by edge ≡ none
      → put_input s cache os edge ≡ os
  unfolding put_input value_of_edge
  put_input-none os edge h = ground arith

  put_input-some :
      (os : List (Option (Data F))) (edge : Edge) (d : Data F)
      → delivered_by edge ≡ some d
      → put_input s cache os edge ≡ store_some os edge.to_input_slot_index d
  unfolding put_input value_of_edge
  put_input-some os edge d h = elim (Bool-cases (leb (length os) edge.to_input_slot_index)) [
    | inl past ↦
        rw (put_input, past) (sym (store_some-past os edge.to_input_slot_index d (ground arith)))
    | inr room ↦ rw (put_input, room, value_of_edge, h) refl
  ]

  length-put_input :
      (os : List (Option (Data F))) (edge : Edge) → length (put_input s cache os edge) ≡ length os
  length-put_input os edge = elim (Option-cases (delivered_by edge)) [
    | inl h ↦ rw (put_input-none os edge h) refl
    | inr (d, h) ↦ rw (put_input-some os edge d h) (length-store_some os edge.to_input_slot_index d)
  ]

  pub length-sink_inputs :
      (os : List (Option (Data F))) (ids : List EdgeId)
      → length (sink_inputs s cache os ids) ≡ length os
  unfolding sink_inputs
  length-sink_inputs os [] = refl
  length-sink_inputs os (id ∷ ids) = elim (Option-cases (get_edge s id)) [
    | inl gone ↦ rw (sink_inputs, gone) (length-sink_inputs os ids)
    | inr (edge, there) ↦
        rw (sink_inputs, there)
          (length-sink_inputs (put_input s cache os edge) ids ∙ length-put_input os edge)
  ]

  -- a value after the edges was there before, or one of them delivers it
  pub sink_inputs-delivered :
      (os : List (Option (Data F))) (ids : List EdgeId) (i : ℕ) (d : Data F)
      → get_elem? (sink_inputs s cache os ids) i ≡ some (some d)
      → (get_elem? os i ≡ some (some d))
        ⊎ ((id : EdgeId) × (edge : Edge) × (contains ids id ≡ true)
            × (get_edge s id ≡ some edge)
            × (edge.to_input_slot_index ≡ i)
            × (delivered_by edge ≡ some d))
  unfolding sink_inputs
  sink_inputs-delivered os [] i d h = inl h
  sink_inputs-delivered os (id ∷ ids) i d h = elim (Option-cases (get_edge s id)) [
    | inl gone ↦ elim (sink_inputs-delivered os ids i d (rw (sink_inputs, gone) at h)) [
      | inl before ↦ inl before
      | inr (j, e, m, a, b, c) ↦ inr (j, e, ground arith, a, b, c)
    ]
    | inr (edge, there) ↦
        elim (sink_inputs-delivered (put_input s cache os edge) ids i d
          (rw (sink_inputs, there) at h)) [
            | inr (j, e, m, a, b, c) ↦ inr (j, e, ground arith, a, b, c)
            | inl put ↦ elim (Option-cases (delivered_by edge)) [
              | inl nothing ↦ inl (rw (put_input-none os edge nothing) at put)
              | inr (value, given) ↦
                  let stored = rw (put_input-some os edge value given) at put in
                  let read = get_elem?-store_some os edge.to_input_slot_index value i in
                  elim (Bool-cases (edge.to_input_slot_index == i)) [
                    | inr other ↦ inl (ground arith)
                    | inl here ↦
                        let same : value ≡ d = ground arith in
                        inr (
                          id,
                          edge,
                          ground (arith, beq_refl id),
                          there,
                          (nat_beq_iff edge.to_input_slot_index i).0 here,
                          given ∙ ap some same,
                        )
                  ]
            ]
          ]
  ]

  put_input-missing :
      (os : List (Option (Data F))) (edge : Edge) (i : ℕ)
      → get_elem? (put_input s cache os edge) i ≡ some none
      → (get_elem? os i ≡ some none) × (edge.to_input_slot_index ≡ i → delivered_by edge ≡ none)
  put_input-missing os edge i h = elim (Option-cases (delivered_by edge)) [
    | inl nothing ↦ (rw (put_input-none os edge nothing) at h, λ k. nothing)
    | inr (value, given) ↦
        let stored = rw (put_input-some os edge value given) at h in
        let read = get_elem?-store_some os edge.to_input_slot_index value i in
        elim (Bool-cases (edge.to_input_slot_index == i)) [
          | inl here ↦ absurd (ground arith)
          | inr other ↦
              (ground arith, λ k. absurd (ground (arith, nat_beq_iff edge.to_input_slot_index i)))
        ]
  ]

  -- a slot without a value after the edges had none before, and none of them delivers one to it
  pub sink_inputs-missing :
      (os : List (Option (Data F))) (ids : List EdgeId) (i : ℕ)
      → get_elem? (sink_inputs s cache os ids) i ≡ some none
      → (get_elem? os i ≡ some none)
        × ((id : EdgeId) (edge : Edge)
            → contains ids id ≡ true
            → get_edge s id ≡ some edge
            → edge.to_input_slot_index ≡ i
            → delivered_by edge ≡ none)
  unfolding sink_inputs
  sink_inputs-missing os [] i h = (h, λ id edge m e k. absurd (cc m))
  sink_inputs-missing os (id ∷ ids) i h = elim (Option-cases (get_edge s id)) [
    | inl gone ↦
        let (before, later) = sink_inputs-missing os ids i (rw (sink_inputs, gone) at h) in
        (
          before,
          λ j edge m e k. elim (Bool-cases (id == j)) [
            | inl same ↦ absurd (cc (gone, e, (nat_beq_iff id j).0 same))
            | inr other ↦ later j edge (ground arith) e k
          ],
        )
    | inr (first, there) ↦
        let (put, later) =
          sink_inputs-missing (put_input s cache os first) ids i (rw (sink_inputs, there) at h) in
        let (before, empty_handed) = put_input-missing os first i put in
        (
          before,
          λ j edge m e k. elim (Bool-cases (id == j)) [
            | inl same ↦
                let one : first ≡ edge = cc (there, e, (nat_beq_iff id j).0 same) in
                rw (← one) (empty_handed (rw (← one) at k))
            | inr other ↦ later j edge (ground arith) e k
          ],
        )
  ]
