-- ===== src/TopologicalSort/Order.antt =====
-- The levels of the loop of `topological_sort`, from any state that the counts describe.
use cognet.Prelude.{
  ap, ℕ, zero, suc, ◌<◌, ◌≡◌, refl, true, false, List, [], ◌∷◌, ◌++◌, arith, contains,
  contains-append, without, IsNodup, length, flatten, nat_eq, beq_refl, append-nil, IsSubset,
  IsNodup-append_disjoint, length-without_lt,
}
use cognet.NodePath.{NodePath, path_eq}
use cognet.TopologicalSort.{Degrees, process_level, sort_levels}
use cognet.TopologicalSort.Sums.{minus, contains-minus, length-minus_le, weight-source, weight-zero}
use cognet.TopologicalSort.Rounds.{IsCounted, process_level-IsCounted}

module _ (next : NodePath → List NodePath) where
  -- no node of a level or after it leads into the level
  abbrev pub IsLayered : List (List NodePath) → Type 0
  IsLayered [] = Unit
  IsLayered (level ∷ levels) =
      ((u v : NodePath)
        → contains (level ++ flatten levels) u ≡ true
        → contains level v ≡ true
        → contains (next u) v ≡ false)
      × IsLayered levels

  -- a node that is left over is led into from one that is left over
  abbrev pub IsStuck : List NodePath → List NodePath → Type 0
  IsStuck live sorted =
      (v : NodePath)
      → contains live v ≡ true
      → contains sorted v ≡ false
      → (u : NodePath) × (contains live u ≡ true)
        × (contains sorted u ≡ false)
        × (contains (next u) v ≡ true)

  pub record IsSorted (live : List NodePath) (levels : List (List NodePath)) : Type 0 where
    pub nodup : IsNodup (flatten levels)
    pub inside : IsSubset (flatten levels) live
    pub layered : IsLayered levels
    pub stuck : IsStuck live (flatten levels)

  blocked : (live : List NodePath) (m : Degrees) → IsCounted next live [] [] m → IsStuck live []
  blocked live m w v l o =
      let (d, g) = w.known v l in
      let (u, m, c) = weight-source next live v (ground (arith, w.degree v d g, w.ready v)) in
      (u, m, refl, c)

  -- one level before the levels of the rest
  level-IsSorted :
      (live level : List NodePath) (levels : List (List NodePath)) (m : Degrees)
      → IsCounted next live level [] m
      → IsSorted (minus live level) levels
      → IsSorted live (level ∷ levels)
  level-IsSorted live level levels m w rest = record {
    nodup =
        IsNodup-append_disjoint level (flatten levels) w.queue_nodup rest.nodup
          (λ a l. ground (arith, rest.inside a, contains-minus live level a));
    inside = λ a l. ground (
      arith,
      rest.inside a,
      contains-minus live level a,
      w.ready a,
      contains-append level (flatten levels) a,
    );
    layered = (
      λ u v l k. ground (
        arith,
        w.ready v,
        w.degree v 0,
        weight-zero next live u v,
        rest.inside u,
        contains-minus live level u,
        w.ready u,
        contains-append level (flatten levels) u,
      ),
      rest.layered,
    );
    stuck = λ v l o.
        let (u, m, f, c) =
          rest.stuck v
            (ground (arith, contains-minus live level v, contains-append level (flatten levels) v))
            (ground (arith, contains-append level (flatten levels) v)) in
        (
          u,
          ground (arith, contains-minus live level u),
          ground (arith, contains-minus live level u, contains-append level (flatten levels) u),
          c,
        );
  }

  pub length-minus_lt :
      (live : List NodePath) (path : NodePath) (level : List NodePath) (m : Degrees)
      → IsCounted next live (path ∷ level) [] m
      → length (minus live (path ∷ level)) < length live
  length-minus_lt live path level m w =
      let is_live = ((w.ready path).0 (ground (arith, beq_refl path))).0 in
      omega (arith, length-minus_le (without path live) level, length-without_lt path live is_live)

  -- More fuel than there are nodes left is enough.
  pub sort_levels-IsSorted :
      (fuel : ℕ) (live queue : List NodePath) (m : Degrees)
      → IsCounted next live queue [] m
      → length live < fuel
      → IsSorted live (sort_levels fuel m queue)
  unfolding sort_levels
  sort_levels-IsSorted zero live queue m w h = absurd (omega arith)
  sort_levels-IsSorted (suc fuel) live [] m w h = record {
    nodup = tt;
    inside = λ a l. absurd cc;
    layered = tt;
    stuck = blocked live m w;
  }
  sort_levels-IsSorted (suc fuel) live (path ∷ level) m w h =
      let done = process_level m [] (path ∷ level) in
      let counted = process_level-IsCounted next live (path ∷ level) [] m (rw append-nil w) in
      let shorter = length-minus_lt live path level m w in
      level-IsSorted live (path ∷ level) (sort_levels fuel done.0 done.1) m w
        (sort_levels-IsSorted fuel (minus live (path ∷ level)) done.1 done.0 counted (omega arith))

  -- All fuel above the number of the nodes left gives the same levels.
  pub sort_levels-fuel :
      (fuel more : ℕ) (live queue : List NodePath) (m : Degrees)
      → IsCounted next live queue [] m
      → length live < fuel
      → length live < more
      → sort_levels fuel m queue ≡ sort_levels more m queue
  unfolding sort_levels
  sort_levels-fuel zero more live queue m w h k = absurd (omega arith)
  sort_levels-fuel (suc fuel) zero live queue m w h k = absurd (omega arith)
  sort_levels-fuel (suc fuel) (suc more) live [] m w h k = refl
  sort_levels-fuel (suc fuel) (suc more) live (path ∷ level) m w h k =
      let done = process_level m [] (path ∷ level) in
      let counted = process_level-IsCounted next live (path ∷ level) [] m (rw append-nil w) in
      let shorter = length-minus_lt live path level m w in
      ap (λ rest. (path ∷ level) ∷ rest)
        (sort_levels-fuel fuel more (minus live (path ∷ level)) done.1 done.0 counted (omega arith)
          (omega arith))
