-- ===== src/TopologicalSort/Levels.antt =====
-- Which levels the loop of `topological_sort` makes: those of a queue that is not empty.
use cognet.Prelude.{ℕ, zero, suc, ◌≡◌, refl, Bool, true, not, ◌&&◌, List, [], ◌∷◌, nat_eq}
use cognet.NodePath.{NodePath, is_empty, path_eq}
use cognet.TopologicalSort.{Degrees, process_level, sort_levels}

abbrev pub none_empty : List (List NodePath) → Bool
none_empty [] = true
none_empty (level ∷ levels) = not (is_empty level) && none_empty levels

pub sort_levels-none_empty :
    (fuel : ℕ) (m : Degrees) (queue : List NodePath) → none_empty (sort_levels fuel m queue) ≡ true
unfolding sort_levels
sort_levels-none_empty zero m queue = refl
sort_levels-none_empty (suc fuel) m [] = refl
sort_levels-none_empty (suc fuel) m (path ∷ level) =
    let done = process_level m [] (path ∷ level) in sort_levels-none_empty fuel done.0 done.1
