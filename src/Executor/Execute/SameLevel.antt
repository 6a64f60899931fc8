-- ===== src/Executor/Execute/SameLevel.antt =====
-- Two nodes of one level of a plan.
use cognet.Prelude.{◌≡◌, ◌≢◌, ◌<◌, true, arith, contains}
use cognet.HashMap.{HashMap}
use cognet.Result.{ok}
use cognet.NodePath.{NodePath, path_eq}
use cognet.Edge.{OutputSlotId}
use cognet.ExecutionCache.{ExecutionCache, get_output}
use cognet.NodeStates.Consistent.{IsConsistent}
use cognet.NodeGraph.{NodeGraph}
use cognet.NodeImpl.{NodeImpl}
use cognet.TopologicalSort.Cycle.{Walk, direct, onward, level_of}
use cognet.Executor.{ExecutionPlan}
use cognet.Executor.Closure.Downstream.{Feeds, fed}
use cognet.Executor.Plan.{build_execution_plan}
use cognet.Executor.Plan.Laws.{build_execution_plan_plans}
use cognet.Executor.Execute.{execute_node_sync}
use cognet.Executor.Execute.Order.{execute_node_sync-commutes}

module _ {F : Type 0} (g : NodeGraph F) (plan : ExecutionPlan) where
  -- a walk from a planned node goes up the levels, among planned nodes
  Walk-climbs :
      {p q : NodePath}
      → IsConsistent g.node_states
      → (build_execution_plan g).0 ≡ ok plan
      → contains plan.planned_node_paths p ≡ true
      → Walk (Feeds g.node_states) p q
      → (contains plan.planned_node_paths q ≡ true)
        × (level_of plan.levels p < level_of plan.levels q)
  Walk-climbs {p} w made m (direct {v} f) =
      let (same, once, member, climbs) = build_execution_plan_plans g plan w made in
      ((member v).1 (fed ((member p).0 m) f), climbs p v m f)
  Walk-climbs {p} c made m (onward {v} {w} walk f) =
      let (same, once, member, climbs) = build_execution_plan_plans g plan c made in
      let (k, below) = Walk-climbs c made m walk in
      ((member w).1 (fed ((member v).0 k) f), omega (arith, climbs v w k f))

  -- Two nodes of one level of a plan can run in either order: each has the same run, and the
  -- outputs are the same in the end.
  pub execute_node_sync_same_level :
      (nodes : HashMap NodePath (NodeImpl F)) (p q : NodePath) (cache : ExecutionCache F)
      → IsConsistent g.node_states
      → (build_execution_plan g).0 ≡ ok plan
      → contains plan.planned_node_paths p ≡ true
      → contains plan.planned_node_paths q ≡ true
      → level_of plan.levels p ≡ level_of plan.levels q
      → p ≢ q
      → let (p_first, after_p) = execute_node_sync p nodes cache g.node_states in
        let (q_second, after_pq) = execute_node_sync q nodes after_p g.node_states in
        let (q_first, after_q) = execute_node_sync q nodes cache g.node_states in
        let (p_second, after_qp) = execute_node_sync p nodes after_q g.node_states in
        (p_first ≡ p_second)
        × (q_first ≡ q_second)
        × ((id : OutputSlotId) → get_output after_pq id ≡ get_output after_qp id)
  execute_node_sync_same_level nodes p q cache w made mp mq level differ =
      execute_node_sync-commutes nodes g.node_states p q cache w differ
        (λ walk. omega (arith, (Walk-climbs w made mp walk).1, level))
        (λ walk. omega (arith, (Walk-climbs w made mq walk).1, level))
