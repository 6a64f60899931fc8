-- ===== src/Executor/Sync/Laws.antt =====
-- What a call of `execute_sync` leaves behind.
use cognet.Prelude.{
  ◌≡◌, refl, sym, ◌∙◌, inl, inr, true, false, ◌||◌, Option, none, some, List, [], ◌∷◌, arith,
  contains, flatten, if◌then◌else◌, Bool-cases, nat_eq,
}
use cognet.HashMap
use cognet.HashMap.{HashMap, get-insert, get-empty}
use cognet.HashSet
use cognet.HashSet.{contains-empty, contains-extend}
use cognet.Result.{Result, ok, err, Result-cases}
use cognet.NodePath.{NodePath, path_eq}
use cognet.ExecutionCache.{ExecutionCache}
use cognet.Slot.Data.{Data}
use cognet.NodeStates.{NodeStates, drain_changed_nodes, restore_changed_nodes}
use cognet.NodeGraph.{NodeGraph, clear_execution_errors}
use cognet.NodeImpl.{NodeImpl}
use cognet.Executor.{ExecutionPlan, ExecutionResult, GraphExecutionError, plan_is_empty}
use cognet.Executor.Plan.{
  plan_changed, net_removed, build_execution_plan, validate_for_sync, commit_plan_drain,
  restore_dirty_for_failed,
}
use cognet.Executor.Frontier
use cognet.Executor.Execute.{Pass, execute_levels}
use cognet.Executor.Execute.Traces.{IsTraced, has_started, has_failed, execute_levels-IsTraced}
use cognet.Executor.Execute.Ran.{execute_levels-executed}
use cognet.Executor.Collect.Shown.{IsShown, shown_values-IsShown}
use cognet.Executor.Collect.{collect_outputs, collect_node_outputs, shown_values}
use cognet.Executor.Sync.{start_pass, execute_plan, execute_planned, execute_sync_inner}

module _ {F : Type 0} (nodes : HashMap NodePath (NodeImpl F)) where
  execute_planned-err :
      (g : NodeGraph F) (plan : ExecutionPlan) (e : GraphExecutionError)
      → (execute_planned nodes g plan).returned ≡ err e
      → ((execute_planned nodes g plan).graph ≡ g) × ((execute_planned nodes g plan).events ≡ [])
  unfolding execute_planned execute_plan
  execute_planned-err g plan e h = elim (Bool-cases (plan_is_empty plan)) [
    | inl bare ↦ absurd (cc (rw bare at h))
    | inr full ↦ elim (Result-cases (validate_for_sync plan nodes)) [
      | inl (valid, v) ↦ absurd (cc (rw (full, v) at h))
      | inr (refused, v) ↦ rw (full, v) (refl, refl)
    ]
  ]

  abbrev planned : NodeGraph F → Result GraphExecutionError ExecutionPlan
  planned g = plan_changed g.node_states (net_removed g.node_states g.removed_since_last_execute)

  -- Where `execute_sync` returns an error no node has run, and the graph is as it was: the changed
  -- nodes, the outputs and the errors too. Only the record of the removed nodes is taken away.
  pub execute_sync_inner_rejects :
      (g : NodeGraph F) (e : GraphExecutionError)
      → (execute_sync_inner nodes g).returned ≡ err e
      → ((execute_sync_inner nodes g).graph ≡ record g { removed_since_last_execute = [] })
        × ((execute_sync_inner nodes g).events ≡ [])
  unfolding execute_sync_inner build_execution_plan
  execute_sync_inner_rejects g e h = elim (Result-cases (planned g)) [
    | inl (plan, p) ↦
        rw (execute_sync_inner, p)
          (execute_planned-err (record g { removed_since_last_execute = [] }) plan e
            (rw (execute_sync_inner, p) at h))
    | inr (failed, p) ↦ rw (execute_sync_inner, p) (refl, refl)
  ]

  start_pass-IsTraced :
      (g : NodeGraph F) (plan : ExecutionPlan)
      → IsTraced (drain_changed_nodes g.node_states).1 (start_pass g plan)
  unfolding start_pass commit_plan_drain clear_execution_errors
  start_pass-IsTraced g plan = record {
    states = refl;
    started = λ v. refl;
    failed = λ v. sym (contains-empty v);
  }

  abbrev done : NodeGraph F → ExecutionPlan → Pass F
  done g plan = execute_levels nodes (start_pass g plan) plan.levels

  done-IsTraced :
      (g : NodeGraph F) (plan : ExecutionPlan)
      → IsTraced (drain_changed_nodes g.node_states).1 (done g plan)
  done-IsTraced g plan =
      execute_levels-IsTraced (drain_changed_nodes g.node_states).1 nodes (start_pass g plan)
        plan.levels (start_pass-IsTraced g plan)

  restore-contains :
      (g : NodeGraph F) (paths : List NodePath) (v : NodePath)
      → HashSet.contains (restore_dirty_for_failed g paths).node_states.changed_nodes v
        ≡ (contains paths v || HashSet.contains g.node_states.changed_nodes v)
  unfolding restore_dirty_for_failed restore_changed_nodes
  restore-contains g [] v = refl
  restore-contains g (p ∷ ps) v = contains-extend g.node_states.changed_nodes (p ∷ ps) v

  -- After a plan has been executed the changed nodes are exactly those of which the callback was
  -- told that they failed.
  pub execute_plan_dirty :
      (g : NodeGraph F) (plan : ExecutionPlan) (v : NodePath)
      → HashSet.contains (execute_plan nodes g plan).graph.node_states.changed_nodes v
        ≡ has_failed (execute_plan nodes g plan).events v
  unfolding execute_plan
  execute_plan_dirty g plan v =
      let pass = done g plan in
      let trace = done-IsTraced g plan in
      let clean : HashSet.contains pass.graph.node_states.changed_nodes v ≡ false =
        rw trace.states (unfold drain_changed_nodes in contains-empty v) in
      let again = restore-contains pass.graph pass.failed_paths.elements v in
      let known : HashSet.contains pass.failed_paths v ≡ contains pass.failed_paths.elements v =
        unfold HashSet.contains in refl in
      ground (arith, trace.failed v)

  -- When a plan is executed, its nodes that were changed themselves are all started, and no other
  -- nodes than its own are.
  pub execute_plan_starts :
      (g : NodeGraph F) (plan : ExecutionPlan) (v : NodePath)
      → (contains (flatten plan.levels) v ≡ true
          → HashSet.contains plan.seed_nodes v ≡ true
          → has_started (execute_plan nodes g plan).events v ≡ true)
        × (has_started (execute_plan nodes g plan).events v ≡ true
            → contains (flatten plan.levels) v ≡ true)
  unfolding execute_plan start_pass Frontier.new
  execute_plan_starts g plan v =
      let trace = done-IsTraced g plan in
      let (stays, seeds, only) = execute_levels-executed nodes (start_pass g plan) plan.levels v in
      (λ m k. trace.started v ∙ seeds m k, λ h. ground (arith, only (sym (trace.started v) ∙ h)))

  collect_node_outputs-get :
      (s : NodeStates F) (cache : ExecutionCache F) (m : HashMap NodePath (List (Option (Data F))))
      (paths : List NodePath) (v : NodePath)
      → HashMap.get (collect_node_outputs s cache m paths) v
        ≡ (if contains paths v then some (shown_values s cache v) else HashMap.get m v)
  unfolding collect_node_outputs
  collect_node_outputs-get s cache m [] v = refl
  collect_node_outputs-get s cache m (p ∷ ps) v = ground (
    arith,
    collect_node_outputs-get s cache (HashMap.insert m p (shown_values s cache p)) ps v,
    get-insert m p (shown_values s cache p) v,
    path_eq.beq_iff p v,
  )

  execute_plan-node_outputs :
      (g : NodeGraph F) (plan : ExecutionPlan) (result : ExecutionResult F) (v : NodePath)
      → (execute_plan nodes g plan).returned ≡ ok result
      → let after = execute_plan nodes g plan in
        HashMap.get result.node_outputs v ≡ (
          if has_started after.events v
          then some (shown_values after.graph.node_states after.graph.cache v)
          else none)
  unfolding execute_plan collect_outputs
  execute_plan-node_outputs g plan result v h =
      let pass = done g plan in
      let after = restore_dirty_for_failed pass.graph pass.failed_paths.elements in
      let collected =
        collect_node_outputs-get after.node_states after.cache HashMap.empty
          pass.executed_node_paths v in
      let same : collect_outputs after plan pass.executed_node_paths ≡ result = ground (arith, h) in
      rw (← same) (
        ground (
          arith,
          collected,
          (done-IsTraced g plan).started v,
          get-empty {V = List (Option (Data F))} v,
        ))

  -- The result of an executed plan has values for exactly the nodes that were started. Those of a
  -- node with output slots are what the cache has for these slots after the pass. Those of another
  -- node are by its input slots: a value is one that an edge into the slot delivers, and where there
  -- is none no edge into the slot delivers one.
  pub execute_plan_outputs :
      (g : NodeGraph F) (plan : ExecutionPlan) (result : ExecutionResult F) (v : NodePath)
      → (execute_plan nodes g plan).returned ≡ ok result
      → let after = execute_plan nodes g plan in
        (has_started after.events v ≡ false → HashMap.get result.node_outputs v ≡ none)
        × (has_started after.events v ≡ true
            → (values : List (Option (Data F))) × (HashMap.get result.node_outputs v ≡ some values)
              × IsShown after.graph.node_states after.graph.cache v values)
  execute_plan_outputs g plan result v h =
      let after = execute_plan nodes g plan in
      let read = execute_plan-node_outputs g plan result v h in
      (
        λ idle. ground arith,
        λ started. (
          shown_values after.graph.node_states after.graph.cache v,
          ground arith,
          shown_values-IsShown after.graph.node_states after.graph.cache v,
        ),
      )
