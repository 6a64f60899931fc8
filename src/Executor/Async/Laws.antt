-- ===== src/Executor/Async/Laws.antt =====
-- The two kernels on a graph without `AsyncIo` nodes.
use cognet.Prelude.{
  ◌≡◌, refl, ap, inl, inr, Bool, true, false, not, List, [], ◌∷◌, append-nil, retain,
}
use cognet.HashMap.{HashMap}
use cognet.Result.{ok, Result-cases}
use cognet.NodePath.{NodePath, path_eq}
use cognet.NodeGraph.{NodeGraph}
use cognet.NodeImpl.{NodeImpl}
use cognet.Executor.{ExecutionPlan}
use cognet.Executor.Plan.{
  build_execution_plan, plan_changed, net_removed, is_async_node, leaves, validate_for_sync,
  validate_async_in_sync_plan,
}
use cognet.Executor.Frontier.{must_execute}
use cognet.Executor.Execute.{Pass, execute_level, execute_levels}
use cognet.Executor.Async.{
  prepare_all, await_all, execute_async_level, execute_async_levels, execute_async_plan,
  execute_async_planned, execute_async_inner,
}
use cognet.Executor.Sync.{start_pass, execute_plan, execute_planned, execute_sync_inner}

retain-none :
    (p : NodePath → Bool) (xs : List NodePath) → ((x : NodePath) → p x ≡ false) → retain p xs ≡ []
retain-none p [] h = refl
retain-none p (x ∷ xs) h = rw (h x) (retain-none p xs h)

retain-all :
    (p : NodePath → Bool) (xs : List NodePath) → ((x : NodePath) → p x ≡ true) → retain p xs ≡ xs
retain-all p [] h = refl
retain-all p (x ∷ xs) h = rw (h x) (ap (λ l. x ∷ l) (retain-all p xs h))

module _ {F : Type 0} (nodes : HashMap NodePath (NodeImpl F)) where
  abbrev pub AllSync : Type 0
  AllSync = (path : NodePath) → is_async_node nodes path ≡ false

  execute_async_level-eq :
      (pass : Pass F) (level : List NodePath)
      → AllSync
      → execute_async_level nodes pass level ≡ execute_level nodes pass level
  unfolding execute_async_level execute_level prepare_all await_all
  execute_async_level-eq pass level all =
      let runnable = retain (must_execute pass.frontier pass.graph.node_states) level in
      let bare = retain-none (is_async_node nodes) runnable all in
      let full =
        retain-all (λ path. not (is_async_node nodes path)) runnable (λ path. rw (all path) refl) in
      rw (bare, full, append-nil) refl

  execute_async_levels-eq :
      (pass : Pass F) (levels : List (List NodePath))
      → AllSync
      → execute_async_levels nodes pass levels ≡ execute_levels nodes pass levels
  unfolding execute_async_levels execute_levels
  execute_async_levels-eq pass [] all = refl
  execute_async_levels-eq pass (level ∷ levels) all =
      rw (execute_async_level-eq pass level all)
        (execute_async_levels-eq (execute_level nodes pass level) levels all)

  validate_for_sync-AllSync :
      (plan : ExecutionPlan) → AllSync → validate_for_sync plan nodes ≡ ok tt
  unfolding validate_for_sync validate_async_in_sync_plan leaves
  validate_for_sync-AllSync plan all =
      rw (retain-none (is_async_node nodes) plan.planned_node_paths all) refl

  execute_async_planned-eq :
      (g : NodeGraph F) (plan : ExecutionPlan)
      → AllSync
      → execute_async_planned nodes g plan ≡ execute_planned nodes g plan
  unfolding execute_async_planned execute_planned execute_async_plan execute_plan
  execute_async_planned-eq g plan all =
      let valid = validate_for_sync-AllSync plan all in
      let levels = execute_async_levels-eq (start_pass g plan) plan.levels all in
      rw (valid, levels) refl

  -- On a graph without `AsyncIo` nodes the asynchronous call does what the synchronous one does: it
  -- returns the same, and leaves the same graph and the same events.
  pub execute_async_inner_sync :
      (g : NodeGraph F) → AllSync → execute_async_inner nodes g ≡ execute_sync_inner nodes g
  unfolding execute_async_inner execute_sync_inner build_execution_plan
  execute_async_inner_sync g all =
      elim (Result-cases
        (plan_changed g.node_states (net_removed g.node_states g.removed_since_last_execute))) [
          | inl (plan, p) ↦
              rw (execute_async_inner, execute_sync_inner, p)
                (execute_async_planned-eq (record g { removed_since_last_execute = [] }) plan all)
          | inr (failed, p) ↦ rw (execute_async_inner, execute_sync_inner, p) refl
        ]
