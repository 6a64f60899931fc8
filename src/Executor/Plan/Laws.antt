-- ===== src/Executor/Plan/Laws.antt =====
-- What a plan names.
use cognet.Prelude.{
  ◌<◌, ◌≡◌, ◌↔◌, ◌⊎◌, List-cases, refl, inl, inr, true, not, ◌&&◌, none, some, List, [], ◌∷◌,
  contains, flatten, nat_eq, nat_beq_iff, arith, ◌==◌, IsNodup, Bool-cases, Option-cases, beq_refl,
}
use cognet.HashMap
use cognet.HashMap.{contains-keys_where, contains-retain}
use cognet.HashSet
use cognet.HashSet.{HashSet}
use cognet.Result.{ok, Result-cases}
use cognet.NodePath.{NodeId, NodePath, leaf, path_eq}
use cognet.NodeStates.{NodeStates}
use cognet.NodeStates.Consistent.{IsConsistent}
use cognet.NodeGraph.{NodeGraph}
use cognet.TopologicalSort.{topological_sort}
use cognet.TopologicalSort.Cycle.{level_of}
use cognet.TopologicalSort.Dependencies.{Leads}
use cognet.TopologicalSort.Correct.{topological_sort_orders, topological_sort_partitions}
use cognet.Executor.{ExecutionPlan}
use cognet.Executor.Closure.{affected_by}
use cognet.Executor.Closure.Downstream.{
  Feeds, Downstream, seed, fed, affected_by-IsNodup, affected_by_iff,
}
use cognet.Executor.Plan.{
  empty_plan, sorted_plan, leaves, node_ids, net_removed, plan_of, plan_changed,
  build_execution_plan,
}

leaves_iff :
    (paths : List NodePath) (id : NodeId)
    → (contains (leaves paths) id ≡ true)
      ↔ ((path : NodePath) × (contains paths path ≡ true) × (leaf path ≡ some id))
unfolding leaves
leaves_iff [] id = (λ h. cc, λ (path, m, e). cc)
leaves_iff (path ∷ paths) id = (
  λ h. elim (Option-cases (leaf path)) [
    | inl e ↦ let (q, m, l) = (leaves_iff paths id).0 (ground arith) in (q, ground arith, l)
    | inr (i, e) ↦ elim (Bool-cases (i == id)) [
      | inl same ↦ (path, ground (arith, beq_refl path), ground (arith, nat_beq_iff i id))
      | inr other ↦ let (q, m, l) = (leaves_iff paths id).0 (ground arith) in (q, ground arith, l)
    ]
  ],
  λ (q, m, l). elim (Bool-cases (path == q)) [
    | inl same ↦ ground (arith, path_eq.beq_iff path q, beq_refl id)
    | inr other ↦
        let later = (leaves_iff paths id).1 (q, ground arith, l) in
        elim (Option-cases (leaf path)) [ inl e ↦ ground arith | inr (i, e) ↦ ground arith ]
  ],
)

module _ {F : Type 0} where
  -- the state has a node whose path ends in the id
  pub record IsLive (s : NodeStates F) (id : NodeId) : Type 0 where
    pub path : NodePath
    pub there : ¬ (HashMap.get s.nodes path ≡ none)
    pub ends : leaf path ≡ some id

  node_ids_iff : (s : NodeStates F) (id : NodeId) → (contains (node_ids s) id ≡ true) ↔ IsLive s id
  unfolding node_ids
  node_ids_iff s id =
      let keys = λ (p : NodePath). contains-keys_where (λ path node. true) s.nodes p in
      let all = HashMap.keys_where (λ path node. true) s.nodes in
      (
        λ h.
            let (p, m, l) = (leaves_iff all id).0 h in
            record { path = p; there = λ e. ground (arith, keys p); ends = l },
        λ (h : IsLive s id). (leaves_iff all id).1 (
          h.path,
          ground (arith, keys h.path, Option-cases (HashMap.get s.nodes h.path), h.there),
          h.ends,
        ),
      )

  net_removed-contains :
      (s : NodeStates F) (removed : List NodeId) (id : NodeId)
      → contains (net_removed s removed) id
        ≡ (contains removed id && not (contains (node_ids s) id))
  unfolding net_removed
  net_removed-contains s [] id = refl
  net_removed-contains s (r ∷ rs) id =
      contains-retain (λ i. not (contains (node_ids s) i)) (r ∷ rs) id

  -- a plan is the empty one, or that of the sorted closure
  plan_changed-eq_ok :
      (s : NodeStates F) (removed : List NodeId) (plan : ExecutionPlan)
      → plan_changed s removed ≡ ok plan
      → ((s.changed_nodes.elements ≡ []) × (plan ≡ empty_plan removed))
        ⊎ ((levels : List (List NodePath)) × (topological_sort s
                (affected_by s s.changed_nodes).elements
              ≡ ok levels)
            × (plan ≡ sorted_plan s.changed_nodes (affected_by s s.changed_nodes) removed levels))
  unfolding plan_changed plan_of
  plan_changed-eq_ok s removed plan h = elim (List-cases s.changed_nodes.elements) [
    | inl nil ↦ inl (nil, ground arith)
    | inr (p, rest, e) ↦
        elim (Result-cases (topological_sort s (affected_by s s.changed_nodes).elements)) [
          | inl (levels, sorted) ↦ inr (levels, sorted, ground arith)
          | inr (failed, sorted) ↦ absurd (ground arith)
        ]
  ]

  plan_changed-removed :
      (s : NodeStates F) (removed : List NodeId) (plan : ExecutionPlan)
      → plan_changed s removed ≡ ok plan
      → plan.removed_nodes ≡ removed
  plan_changed-removed s removed plan h = elim (plan_changed-eq_ok s removed plan h) [
    | inl (nil, same) ↦ rw same refl
    | inr (levels, sorted, same) ↦ rw same refl
  ]

  -- A plan reports as removed exactly the ids recorded since the last one that no node has now; it
  -- takes the record away, and leaves the rest of the graph as it is.
  pub build_execution_plan_removed :
      (g : NodeGraph F) (plan : ExecutionPlan) (id : NodeId)
      → (build_execution_plan g).0 ≡ ok plan
      → ((contains plan.removed_nodes id ≡ true)
          ↔ ((contains g.removed_since_last_execute id ≡ true) × ¬ IsLive g.node_states id))
        × ((build_execution_plan g).1 ≡ record g { removed_since_last_execute = [] })
  unfolding build_execution_plan
  build_execution_plan_removed g plan id h =
      let s = g.node_states in
      let same = plan_changed-removed s (net_removed s g.removed_since_last_execute) plan h in
      let member = net_removed-contains s g.removed_since_last_execute id in
      let live = node_ids_iff s id in
      (
        (
          λ m. (ground arith, λ l. ground (arith, live.1 l)),
          λ (m, dead). elim (Bool-cases (contains (node_ids s) id)) [
            | inl alive ↦ absurd (dead (live.0 alive))
            | inr gone ↦ ground arith
          ],
        ),
        refl,
      )

  nothing-Downstream :
      (s : NodeStates F) (v : NodePath)
      → s.changed_nodes.elements ≡ []
      → ¬ Downstream s s.changed_nodes v
  unfolding HashSet.contains
  nothing-Downstream s v nil (seed m) = cc (rw nil at m)
  nothing-Downstream s v nil (fed {u} d f) = nothing-Downstream s u nil d

  leads :
      (s : NodeStates F) (targets : List NodePath) {u v : NodePath}
      → Feeds s u v
      → contains targets u ≡ true
      → contains targets v ≡ true
      → Leads s targets u v
  leads s targets f a b = record {
    id = f.id;
    edge = f.edge;
    there = f.there;
    source = f.source;
    sink = f.sink;
    source_in = a;
    sink_in = b;
  }

  -- Where a plan is made, the planned nodes are exactly those downstream of the changed ones, each
  -- once and in the order of the levels, and a node stands in a later level than one that feeds it.
  pub build_execution_plan_plans :
      (g : NodeGraph F) (plan : ExecutionPlan)
      → IsConsistent g.node_states
      → (build_execution_plan g).0 ≡ ok plan
      → (plan.planned_node_paths ≡ flatten plan.levels)
        × IsNodup plan.planned_node_paths
        × ((v : NodePath)
            → (contains plan.planned_node_paths v ≡ true)
              ↔ Downstream g.node_states g.node_states.changed_nodes v)
        × ((u v : NodePath)
            → contains plan.planned_node_paths u ≡ true
            → Feeds g.node_states u v
            → level_of plan.levels u < level_of plan.levels v)
  unfolding build_execution_plan
  build_execution_plan_plans g plan w h =
      let s = g.node_states in
      elim (plan_changed-eq_ok s (net_removed s g.removed_since_last_execute) plan h) [
        | inl (nil, same) ↦
            rw same
              (refl, tt, λ v. (λ m. cc, λ d. absurd (nothing-Downstream s v nil d)), λ u v m f. cc)
        | inr (levels, sorted, same) ↦
            let dirty = affected_by s s.changed_nodes in
            let nodup = affected_by-IsNodup s s.changed_nodes w in
            let (full, once, member) =
              topological_sort_partitions s dirty.elements levels w nodup sorted in
            let reached = λ (v : NodePath). affected_by_iff s s.changed_nodes v w in
            let planned : (v : NodePath)
                → (contains (flatten levels) v ≡ true) ↔ Downstream s s.changed_nodes v =
              λ v. (
                λ m. (reached v).0 (unfold HashSet.contains in (member v).0 m),
                λ d. (member v).1 (unfold HashSet.contains in (reached v).1 d),
              ) in
            rw same (
              refl,
              once,
              planned,
              λ u v m f.
                  let d = (planned u).0 m in
                  topological_sort_orders s dirty.elements levels u v w nodup sorted (
                    leads s dirty.elements f ((member u).0 m)
                      ((member v).0 ((planned v).1 (fed d f)))),
            )
      ]
