-- ===== src/TopologicalSort/Checked.antt =====
-- The loop of `topological_sort` where `*deg -= 1` panics on zero, as it does with overflow checks.
use cognet.Prelude.{
  ℕ, zero, suc, ◌-◌, ◌≡◌, refl, inl, inr, Option, none, some, List, [], ◌∷◌, ◌++◌, arith, without,
  false, ◌==◌, if◌then◌else◌, IsNodup, Option-cases, nat_eq, append-nil,
}
use cognet.HashMap
use cognet.NodePath.{NodePath, path_eq}
use cognet.ListMap.{get_list}
use cognet.NodeStates.{NodeStates}
use cognet.NodeStates.Consistent.{IsConsistent}
use cognet.TopologicalSort.{Degrees, relax, process_level, sort_levels, degrees_of}
use cognet.TopologicalSort.Sums.{minus}
use cognet.TopologicalSort.Rounds.{
  IsCounted, queued, less, popped, degree-positive, relax_one, relax_skip, queued-append,
  relax-IsCounted, pop-IsCounted, process_level-IsCounted,
}
use cognet.TopologicalSort.Counting.{successors, initial_queue, degrees_of-IsCounted}
use cognet.TopologicalSort.Dependencies.{IsConsistent-AreSourced}

-- `none` is the panic
unfoldable pub checked_relax :
    Degrees → List NodePath → List NodePath → Option (Degrees × List NodePath)
checked_relax m queue [] = some (m, queue)
checked_relax m queue (neighbor ∷ neighbors) = elim (HashMap.get m.in_degree neighbor) [
  | none ↦ checked_relax m queue neighbors
  | some deg ↦
      if deg == 0
      then none
      else checked_relax (record m { in_degree = HashMap.insert m.in_degree neighbor (deg - 1) })
          (if deg - 1 == 0 then queue ++ neighbor ∷ [] else queue) neighbors
]

unfoldable pub checked_process_level :
    Degrees → List NodePath → List NodePath → Option (Degrees × List NodePath)
unfolding checked_relax
checked_process_level m queue [] = some (m, queue)
checked_process_level m queue (path ∷ level) =
    let popped = record m { adj_list = HashMap.remove m.adj_list path } in
    elim (checked_relax popped queue (get_list m.adj_list path)) [
      | none ↦ none
      | some (m', queue') ↦ checked_process_level m' queue' level
    ]

unfoldable pub checked_sort_levels : ℕ → Degrees → List NodePath → Option (List (List NodePath))
unfolding checked_process_level
checked_sort_levels zero m queue = some []
checked_sort_levels (suc fuel) m [] = some []
checked_sort_levels (suc fuel) m (path ∷ level) = elim (checked_process_level m [] (path ∷ level)) [
  | none ↦ none
  | some (m', next) ↦ elim (checked_sort_levels fuel m' next) [
    | none ↦ none
    | some levels ↦ some ((path ∷ level) ∷ levels)
  ]
]

module _ (next : NodePath → List NodePath) where
  checked_relax_lem :
      (live level queue ns : List NodePath) (m : Degrees)
      → IsCounted next live (level ++ queue) ns m
      → checked_relax m queue ns ≡ some (relax m queue ns)
  unfolding checked_relax relax
  checked_relax_lem live level queue [] m w = refl
  checked_relax_lem live level queue (n ∷ ns) m w =
      elim (Option-cases (HashMap.get m.in_degree n)) [
        | inl e ↦
            rw (e, checked_relax, relax)
              (checked_relax_lem live level queue ns m
                (relax_skip next live (level ++ queue) n ns m w e))
        | inr (d, e) ↦
            let positive = degree-positive next live (level ++ queue) n ns m d w e in
            let nonzero : (d == 0) ≡ false = ground arith in
            rw (e, checked_relax, relax, nonzero)
              (checked_relax_lem live level (queued next (d - 1) queue n) ns (less next m n (d - 1))
                (rw (← queued-append next (d - 1) level queue n)
                  (relax_one next live (level ++ queue) n ns m d w e)))
      ]

  checked_process_level_lem :
      (live level queue : List NodePath) (m : Degrees)
      → IsCounted next live (level ++ queue) [] m
      → checked_process_level m queue level ≡ some (process_level m queue level)
  unfolding checked_process_level process_level
  checked_process_level_lem live [] queue m w = refl
  checked_process_level_lem live (u ∷ level) queue m w =
      let ns = get_list m.adj_list u in
      let start = pop-IsCounted next live (level ++ queue) u m w in
      let r = relax (popped next m u) queue ns in
      rw
        (
          checked_process_level,
          process_level,
          checked_relax_lem (without u live) level queue ns (popped next m u) start,
        )
        (checked_process_level_lem (without u live) level r.1 r.0
          (relax-IsCounted next (without u live) level queue ns (popped next m u) start))

  checked_sort_levels_lem :
      (fuel : ℕ) (live queue : List NodePath) (m : Degrees)
      → IsCounted next live queue [] m
      → checked_sort_levels fuel m queue ≡ some (sort_levels fuel m queue)
  unfolding checked_sort_levels sort_levels
  checked_sort_levels_lem zero live queue m w = refl
  checked_sort_levels_lem (suc fuel) live [] m w = refl
  checked_sort_levels_lem (suc fuel) live (path ∷ level) m w =
      let done = process_level m [] (path ∷ level) in
      let start : IsCounted next live ((path ∷ level) ++ []) [] m = rw append-nil w in
      let rest =
        checked_sort_levels_lem fuel (minus live (path ∷ level)) done.1 done.0
          (process_level-IsCounted next live (path ∷ level) [] m start) in
      rw
        (
          checked_sort_levels,
          sort_levels,
          checked_process_level_lem live (path ∷ level) [] m start,
          rest,
        )
        refl

-- In the sort of targets without repetition no in-degree is taken below zero: the loop whose
-- subtraction panics there has the same levels, and does not panic.
pub topological_sort_in_range :
    {F : Type 0} (s : NodeStates F) (targets : List NodePath) (fuel : ℕ)
    → IsConsistent s
    → IsNodup targets
    → let m = degrees_of s targets in
      checked_sort_levels fuel m (initial_queue m) ≡ some (sort_levels fuel m (initial_queue m))
topological_sort_in_range s targets fuel w n =
    let m = degrees_of s targets in
    checked_sort_levels_lem (successors s targets) fuel targets (initial_queue m) m
      (degrees_of-IsCounted s targets n (IsConsistent-AreSourced s targets w))
