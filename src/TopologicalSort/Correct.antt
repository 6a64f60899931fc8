-- ===== src/TopologicalSort/Correct.antt =====
-- What `topological_sort` returns.
use cognet.Prelude.{
  ℕ, suc, ◌<◌, ◌≡◌, ◌↔◌, ◌⊎◌, ◌≢◌, missing, refl, inl, inr, true, false, List, [], ◌∷◌, arith, ◌==◌,
  contains, IsNodup, IsSubset-full, length, length-append, flatten, Bool-cases, nat_eq, nat_beq_iff,
}
use cognet.Result.{ok, err}
use cognet.NodePath.{NodePath, path_eq}
use cognet.NodeStates.{NodeStates}
use cognet.NodeStates.Consistent.{IsConsistent}
use cognet.TopologicalSort.{
  contains_a_cycle, degrees_of, sort_levels, topological_sort, total_count,
}
use cognet.TopologicalSort.Counting.{successors, initial_queue, degrees_of-IsCounted}
use cognet.TopologicalSort.Dependencies.{Leads, successors_iff, IsConsistent-AreSourced}
use cognet.TopologicalSort.Order.{IsSorted, sort_levels-IsSorted, sort_levels-fuel}
use cognet.TopologicalSort.Levels.{none_empty, sort_levels-none_empty}
use cognet.TopologicalSort.Cycle.{Walk, level_of, level_of-lt, Walk-lt, find_cycle}

pub total_count_lem : (levels : List (List NodePath)) → total_count levels ≡ length (flatten levels)
total_count_lem [] = refl
total_count_lem (level ∷ levels) =
    omega (arith, total_count_lem levels, length-append level (flatten levels))

module _ {F : Type 0} (s : NodeStates F) (targets : List NodePath) where
  abbrev all_levels : List (List NodePath)
  all_levels =
      let m = degrees_of s targets in sort_levels (suc (length targets)) m (initial_queue m)

  all_levels-IsSorted :
      IsConsistent s → IsNodup targets → IsSorted (successors s targets) targets all_levels
  all_levels-IsSorted w n =
      sort_levels-IsSorted (successors s targets) (suc (length targets)) targets
        (initial_queue (degrees_of s targets)) (degrees_of s targets)
        (degrees_of-IsCounted s targets n (IsConsistent-AreSourced s targets w)) (omega arith)

  -- the two results, by the number of the nodes in the levels
  sort-cases :
      ((topological_sort s targets ≡ ok all_levels)
        × (length (flatten all_levels) ≡ length targets))
      ⊎ ((topological_sort s targets ≡ err contains_a_cycle)
          × (length (flatten all_levels) ≢ length targets))
  unfolding topological_sort
  sort-cases =
      let total = total_count_lem all_levels in
      elim (Bool-cases (total_count all_levels == length targets)) [
        | inl e ↦
            inl (rw e refl, ground (arith, nat_beq_iff (total_count all_levels) (length targets)))
        | inr e ↦
            inr (rw e refl, ground (arith, nat_beq_iff (total_count all_levels) (length targets)))
      ]

  ok-all_levels :
      (levels : List (List NodePath))
      → topological_sort s targets ≡ ok levels
      → (levels ≡ all_levels) × (length (flatten all_levels) ≡ length targets)
  ok-all_levels levels h = elim sort-cases [
    | inl (e, n) ↦ (cc (e, h), n)
    | inr (e, n) ↦ absurd (cc (e, h))
  ]

  -- Where the sort succeeds for targets without repetition, no level is empty, each target stands
  -- in exactly one place of the levels, and nothing else does.
  pub topological_sort_partitions :
      (levels : List (List NodePath))
      → IsConsistent s
      → IsNodup targets
      → topological_sort s targets ≡ ok levels
      → (none_empty levels ≡ true)
        × IsNodup (flatten levels)
        × ((v : NodePath) → (contains (flatten levels) v ≡ true) ↔ (contains targets v ≡ true))
  topological_sort_partitions levels w n h =
      let (same, full) = ok-all_levels levels h in
      let sorted = all_levels-IsSorted w n in
      rw same (
        sort_levels-none_empty (suc (length targets)) (degrees_of s targets)
            (initial_queue (degrees_of s targets)),
        sorted.nodup,
        λ v. (
          sorted.inside v,
          IsSubset-full (flatten all_levels) targets sorted.nodup sorted.inside (omega arith) v,
        ),
      )

  -- Where the sort succeeds for targets without repetition, an edge between two targets leads from
  -- an earlier level to a later one.
  pub topological_sort_orders :
      (levels : List (List NodePath)) (u v : NodePath)
      → IsConsistent s
      → IsNodup targets
      → topological_sort s targets ≡ ok levels
      → Leads s targets u v
      → level_of levels u < level_of levels v
  topological_sort_orders levels u v w n h r =
      let (_, _, member) = topological_sort_partitions levels w n h in
      let sorted = all_levels-IsSorted w n in
      level_of-lt (successors s targets) levels u v (rw (ok-all_levels levels h).0 sorted.layered)
        ((member u).1 r.source_in) ((member v).1 r.sink_in)
        ((successors_iff s targets u v w r.source_in).1 r)

  abbrev Leftover : NodePath → Type 0
  Leftover v = (contains targets v ≡ true) × (contains (flatten all_levels) v ≡ false)

  Leftover-cycle :
      IsConsistent s
      → IsNodup targets
      → (v : NodePath) → Leftover v
      → (u : NodePath) × Walk (Leads s targets) u u
  Leftover-cycle w n v l =
      find_cycle (Leads s targets) Leftover targets (λ u k. k.0)
        (λ x k.
          let (u, m, f, c) = (all_levels-IsSorted w n).stuck x k.0 k.1 in
          (u, (m, f), (successors_iff s targets u x w m).0 c))
        (length targets) v [] l (refl, tt) (λ a m. ground (arith, path_eq.beq_iff v a)) (λ a m. cc)
        (omega arith)

  -- The sort of targets without repetition fails exactly when the edges between the targets close
  -- a cycle.
  pub topological_sort_fails :
      IsConsistent s
      → IsNodup targets
      → (topological_sort s targets ≡ err contains_a_cycle)
        ↔ ((v : NodePath) × Walk (Leads s targets) v v)
  topological_sort_fails w n = (
    λ h. elim sort-cases [
      | inl (e, k) ↦ absurd (cc (e, h))
      | inr (e, k) ↦
          let sorted = all_levels-IsSorted w n in
          let (v, m, f) = missing (flatten all_levels) targets k sorted.inside sorted.nodup n in
          Leftover-cycle w n v (m, f)
    ],
    λ (v, p). elim sort-cases [
      | inl (e, k) ↦ absurd (
          omega (
            arith,
            Walk-lt (Leads s targets) (level_of all_levels)
                (λ a b r. topological_sort_orders all_levels a b w n e r) p,
          ))
      | inr (e, k) ↦ e
    ],
  )

  -- The `while` loop of the sort of targets without repetition ends: with any fuel above the number
  -- of the targets it has the levels that it has with one more than that number.
  pub topological_sort_terminates :
      (more : ℕ)
      → IsConsistent s
      → IsNodup targets
      → length targets < more
      → let m = degrees_of s targets in
        sort_levels more m (initial_queue m)
        ≡ sort_levels (suc (length targets)) m (initial_queue m)
  topological_sort_terminates more w n h =
      let m = degrees_of s targets in
      sort_levels-fuel (successors s targets) more (suc (length targets)) targets (initial_queue m)
        m (degrees_of-IsCounted s targets n (IsConsistent-AreSourced s targets w)) h (omega arith)
