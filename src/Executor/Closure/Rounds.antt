-- ===== src/Executor/Closure/Rounds.antt =====
-- Each round of the search of `build_execution_plan` takes a path off the queue for good.
use cognet.Prelude.{
  ◌+◌, ◌<◌, ◌≤◌, ◌≡◌, refl, inl, inr, true, false, List, [], ◌∷◌, arith, ◌==◌, if◌then◌else◌,
  contains, length, length-append, nat_eq, Bool-cases, Option-cases, beq_refl,
}
use cognet.HashMap
use cognet.HashMap.{HashMap, contains-keys_where}
use cognet.HashSet
use cognet.HashSet.{HashSet, contains-insert, contains-empty, IsNodup-insert}
use cognet.ListMap.{get_list-none}
use cognet.NodePath.{NodePath, path_eq}
use cognet.Edge.{EdgeId}
use cognet.NodeStates.{NodeStates, get_edge, outgoing_edges_at}
use cognet.Executor.Closure.{unaffected_sinks, visit, edges_left, sources}

module _ {F : Type 0} (s : NodeStates F) where
  length-unaffected_sinks :
      (affected : HashSet NodePath) (ids : List EdgeId)
      → length (unaffected_sinks s affected ids) ≤ length ids
  unfolding unaffected_sinks
  length-unaffected_sinks affected [] = omega arith
  length-unaffected_sinks affected (id ∷ ids) = elim (Option-cases (get_edge s id)) [
    | inl e ↦ ground (arith, length-unaffected_sinks affected ids)
    | inr (edge, e) ↦ ground (arith, length-unaffected_sinks affected ids)
  ]

  -- a new path takes its edges out of those that are left
  edges_left-insert :
      (affected : HashSet NodePath) (path : NodePath) (ks : List NodePath)
      → HashSet.contains affected path ≡ false
      → edges_left s (HashSet.insert affected path) ks
          + (if contains ks path then length (outgoing_edges_at s path) else 0)
        ≤ edges_left s affected ks
  edges_left-insert affected path [] h = omega arith
  edges_left-insert affected path (k ∷ ks) h = elim (Bool-cases (path == k)) [
    | inl same ↦ rw (← (path_eq.beq_iff path k).0 same) (
        ground (
          arith,
          edges_left-insert affected path ks h,
          contains-insert affected path path,
          beq_refl path,
        ))
    | inr other ↦ ground (
      arith,
      edges_left-insert affected path ks h,
      contains-insert affected path k,
      path_eq.beq_iff path k,
      path_eq.beq_iff k path,
    )
  ]

  sources-or-none :
      (path : NodePath) → contains (sources s) path ≡ false → outgoing_edges_at s path ≡ []
  unfolding outgoing_edges_at
  sources-or-none path h = elim (Option-cases (HashMap.get s.outgoing_edges path)) [
    | inl e ↦ get_list-none s.outgoing_edges path e
    | inr (ids, e) ↦
        absurd (ground (arith, contains-keys_where (λ p l. true) s.outgoing_edges path))
  ]

  pub visit-falls :
      (affected : HashSet NodePath) (path : NodePath) (queue : List NodePath)
      → let next = visit s affected path queue in
        length next.1 + edges_left s next.0 (sources s)
        < length (path ∷ queue) + edges_left s affected (sources s)
  unfolding visit
  visit-falls affected path queue = elim (Bool-cases (HashSet.contains affected path)) [
    | inl seen ↦ rw seen (omega arith)
    | inr new ↦
        let after = HashSet.insert affected path in
        let ids = outgoing_edges_at s path in
        let short = length-unaffected_sinks after ids in
        let apart = length-append queue (unaffected_sinks s after ids) in
        let fall = edges_left-insert affected path (sources s) new in
        rw new (elim (Bool-cases (contains (sources s) path)) [
          | inl source ↦ omega (arith, rw source at fall)
          | inr bare ↦
              let no_ids : length ids ≡ 0 = rw (sources-or-none path bare) refl in
              omega (arith, rw bare at fall)
        ])
  ]
