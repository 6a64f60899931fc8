-- ===== src/Executor/Execute/Order.antt =====
-- The nodes of a level can run in any order, as they do on a worker pool.
use cognet.Prelude.{
  ℕ, zero, suc, ◌≡◌, ◌≢◌, ◌⊎◌, refl, sym, ◌∙◌, inl, inr, some, List, [], ◌∷◌, ◌==◌, arith,
  Option-cases, Bool-cases, nat_eq, get_elem?,
}
use cognet.HashMap
use cognet.HashMap.{HashMap}
use cognet.ListMap.{get_list}
use cognet.NodePath.{NodePath, path_eq}
use cognet.Edge.{OutputSlotId}
use cognet.Slot.DataType.{DataType}
use cognet.ExecutionCache.{ExecutionCache, get_output}
use cognet.NodeStates.{NodeStates, OutputSlotState, get_edge, incoming_edges_at, input_slot}
use cognet.NodeStates.Lockstep.{id_at}
use cognet.NodeStates.Slots.{output_id}
use cognet.NodeStates.Consistent.{IsConsistent}
use cognet.NodeImpl.{NodeImpl}
use cognet.TopologicalSort.Cycle.{Walk, direct, onward}
use cognet.Executor.Closure.Downstream.{Feeds}
use cognet.Executor.Context.{writer_slots, outputs_of, snapshot_outputs, build_execution_context}
use cognet.Executor.Frontier.Origins.{Origin, own, via, Origin-owner}
use cognet.Executor.Frontier.Laws.{build_execution_context-ext, input_edge-sink}
use cognet.Executor.Execute.{apply_writes, execute_node_sync, run_entity}
use cognet.Executor.Execute.Writes.{Misses, apply_writes-Misses, apply_writes-ext}

writer_slots-get :
    (slots : List OutputSlotState) (i : ℕ) (k : OutputSlotId) (t : DataType)
    → get_elem? (writer_slots slots) i ≡ some (k, t)
    → id_at output_id slots i ≡ some k
unfolding writer_slots id_at
writer_slots-get [] i k t h = cc
writer_slots-get (slot ∷ slots) zero k t h = ground arith
writer_slots-get (slot ∷ slots) (suc i) k t h = writer_slots-get slots i k t h

module _ {F : Type 0} (s : NodeStates F) where
  -- the writer of a node has no slot that another node owns
  abbrev Unowned : NodePath → OutputSlotId → Type 0
  Unowned path k = (i : ℕ) → HashMap.get s.output_slot_owner k ≢ some (path, i)

  writer-Misses :
      (path : NodePath) (cache : ExecutionCache F) (k : OutputSlotId)
      → IsConsistent s
      → Unowned path k
      → Misses (build_execution_context path s cache).output_writer k
  unfolding build_execution_context
  writer-Misses path cache k w free i t h =
      free i ((w.outputs.at k path i).1 (writer_slots-get (get_list s.output_slots path) i k t h))

  outputs_of-ext :
      (a b : ExecutionCache F) (slots : List OutputSlotState)
      → ((i : ℕ) (k : OutputSlotId)
          → id_at output_id slots i ≡ some k
          → get_output a k ≡ get_output b k)
      → outputs_of a slots ≡ outputs_of b slots
  unfolding outputs_of id_at
  outputs_of-ext a b [] same = refl
  outputs_of-ext a b (slot ∷ slots) same =
      rw (same 0 slot.id refl, outputs_of-ext a b slots (λ i k e. same (suc i) k e)) refl

  -- a chain of interfaces that leads back to a node is a walk from it
  Origin-Walk :
      {source : NodePath} {source_id : OutputSlotId} {path : NodePath} {i : ℕ} {id : OutputSlotId}
      → IsConsistent s
      → Origin s source source_id path i id
      → (source ≡ path) ⊎ Walk (Feeds s) source path
  unfolding input_slot
  Origin-Walk w (own plain) = inl refl
  Origin-Walk {source} {path} w (via {i} proxy slot edge_id edge e m there o) =
      let into : Feeds s edge.from_node path = record {
        id = edge_id;
        edge = edge;
        there = there;
        source = refl;
        sink = input_edge-sink s path i slot edge_id edge w e m there;
      } in
      elim (Origin-Walk w o) [
        | inl same ↦ inr (direct (rw same into))
        | inr walk ↦ inr (onward walk into)
      ]

  -- The runs of a node from two caches that agree behind its inputs and on its own outputs.
  run_entity-ext :
      (path : NodePath) (node : NodeImpl F) (a b : ExecutionCache F)
      → build_execution_context path s a ≡ build_execution_context path s b
      → IsConsistent s
      → ((i : ℕ) (k : OutputSlotId)
          → HashMap.get s.output_slot_owner k ≡ some (path, i)
          → get_output a k ≡ get_output b k)
      → ((run_entity path node s a).0 ≡ (run_entity path node s b).0)
        × ((k : OutputSlotId)
            → get_output a k ≡ get_output b k
            → get_output (run_entity path node s a).1 k ≡ get_output (run_entity path node s b).1 k)
  unfolding run_entity snapshot_outputs
  run_entity-ext path node a b ctx w same =
      let slots = get_list s.output_slots path in
      let c = build_execution_context path s b in
      let writes = (node.execute_sync c).writes in
      let stays = λ (k : OutputSlotId) (e : get_output a k ≡ get_output b k).
        apply_writes-ext c.output_writer writes a b k e in
      let own_slot = λ (i : ℕ) (k : OutputSlotId) (e : id_at output_id slots i ≡ some k).
        same i k ((w.outputs.at k path i).1 e) in
      let before = outputs_of-ext a b slots own_slot in
      let after =
        outputs_of-ext (apply_writes c.output_writer writes a)
          (apply_writes c.output_writer writes b) slots (λ i k e. stays k (own_slot i k e)) in
      (rw (ctx, before, after) refl, λ k e. rw ctx (stays k e))

  run_entity-misses :
      (path : NodePath) (node : NodeImpl F) (cache : ExecutionCache F) (k : OutputSlotId)
      → IsConsistent s
      → Unowned path k
      → get_output (run_entity path node s cache).1 k ≡ get_output cache k
  unfolding run_entity
  run_entity-misses path node cache k w free =
      let c = build_execution_context path s cache in
      apply_writes-Misses c.output_writer (node.execute_sync c).writes cache k
        (writer-Misses path cache k w free)

module _ {F : Type 0} (nodes : HashMap NodePath (NodeImpl F)) (s : NodeStates F) where
  execute-ext :
      (path : NodePath) (a b : ExecutionCache F)
      → build_execution_context path s a ≡ build_execution_context path s b
      → IsConsistent s
      → ((i : ℕ) (k : OutputSlotId)
          → HashMap.get s.output_slot_owner k ≡ some (path, i)
          → get_output a k ≡ get_output b k)
      → ((execute_node_sync path nodes a s).0 ≡ (execute_node_sync path nodes b s).0)
        × ((k : OutputSlotId)
            → get_output a k ≡ get_output b k
            → get_output (execute_node_sync path nodes a s).1 k
              ≡ get_output (execute_node_sync path nodes b s).1 k)
  unfolding execute_node_sync
  execute-ext path a b ctx w same = elim (Option-cases (HashMap.get nodes path)) [
    | inl e ↦ rw (execute_node_sync, e) (refl, λ k h. h)
    | inr (node, e) ↦ rw (execute_node_sync, e) (run_entity-ext s path node a b ctx w same)
  ]

  execute-misses :
      (path : NodePath) (cache : ExecutionCache F) (k : OutputSlotId)
      → IsConsistent s
      → Unowned s path k
      → get_output (execute_node_sync path nodes cache s).1 k ≡ get_output cache k
  unfolding execute_node_sync
  execute-misses path cache k w free = elim (Option-cases (HashMap.get nodes path)) [
    | inl e ↦ rw (execute_node_sync, e) refl
    | inr (node, e) ↦ rw (execute_node_sync, e) (run_entity-misses s path node cache k w free)
  ]

  owner_unique :
      (k : OutputSlotId) {p q : NodePath} {i j : ℕ}
      → HashMap.get s.output_slot_owner k ≡ some (p, i)
      → HashMap.get s.output_slot_owner k ≡ some (q, j)
      → p ≡ q
  owner_unique k a b = ground arith

  -- what the one node writes is not read by another that it does not lead to
  context-apart :
      (p q : NodePath) (cache : ExecutionCache F)
      → IsConsistent s
      → ¬ Walk (Feeds s) p q
      → build_execution_context q s (execute_node_sync p nodes cache s).1
        ≡ build_execution_context q s cache
  unfolding get_edge incoming_edges_at
  context-apart p q cache w apart =
      build_execution_context-ext s q (execute_node_sync p nodes cache s).1 cache w
        (λ id edge source source_id m there o.
          let into : Feeds s edge.from_node q = record {
            id = id;
            edge = edge;
            there = there;
            source = refl;
            sink = ground (arith, w.by_sink.exact q id, path_eq.beq_iff edge.to_node q);
          } in
          let (j, owner) = Origin-owner s w (w.ends id edge there).output_end o in
          let leads : Walk (Feeds s) source q = elim (Origin-Walk s w o) [
            | inl same ↦ direct (rw same into)
            | inr walk ↦ onward walk into
          ] in
          execute-misses p cache source_id w
            (λ i mine. apart (rw (owner_unique source_id mine owner) leads)))

  owned_or_free :
      (p : NodePath) (k : OutputSlotId)
      → ((i : ℕ) × (HashMap.get s.output_slot_owner k ≡ some (p, i))) ⊎ Unowned s p k
  owned_or_free p k = elim (Option-cases (HashMap.get s.output_slot_owner k)) [
    | inl e ↦ inr (λ i h. cc)
    | inr ((q, i), e) ↦ elim (Bool-cases (q == p)) [
      | inl same ↦ inl (i, rw (← (path_eq.beq_iff q p).0 same) e)
      | inr other ↦ inr (λ j h. ground (arith, path_eq.beq_iff q p))
    ]
  ]

  -- Two different nodes of which neither leads to the other run with the same results in either
  -- order, and leave the same outputs.
  pub execute_node_sync-commutes :
      (p q : NodePath) (cache : ExecutionCache F)
      → IsConsistent s
      → p ≢ q
      → ¬ Walk (Feeds s) p q
      → ¬ Walk (Feeds s) q p
      → let (p_first, after_p) = execute_node_sync p nodes cache s in
        let (q_second, after_pq) = execute_node_sync q nodes after_p s in
        let (q_first, after_q) = execute_node_sync q nodes cache s in
        let (p_second, after_qp) = execute_node_sync p nodes after_q s in
        (p_first ≡ p_second)
        × (q_first ≡ q_second)
        × ((id : OutputSlotId) → get_output after_pq id ≡ get_output after_qp id)
  execute_node_sync-commutes p q cache w differ pq qp =
      let after_p = (execute_node_sync p nodes cache s).1 in
      let after_q = (execute_node_sync q nodes cache s).1 in
      let of_q =
        execute-ext q after_p cache (context-apart p q cache w pq) w (λ i k owner.
          execute-misses p cache k w (λ j mine. differ (owner_unique k mine owner))) in
      let of_p = execute-ext p after_q cache (context-apart q p cache w qp) w (λ i k owner.
        execute-misses q cache k w (λ j mine. differ (sym (owner_unique k mine owner)))) in
      (
        sym of_p.0,
        sym of_q.0,
        λ k. elim (owned_or_free p k) [
          | inl (i, mine) ↦
              let free : Unowned s q k = λ j owner. differ (owner_unique k mine owner) in
              execute-misses q after_p k w free ∙ sym (of_p.1 k (execute-misses q cache k w free))
          | inr free ↦
              of_q.1 k (execute-misses p cache k w free) ∙ sym (execute-misses p after_q k w free)
        ],
      )
