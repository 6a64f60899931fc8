-- ===== src/TopologicalSort.antt =====
-- src/node_graph/node_graph_system.rs: `topological_sort`, which groups the target paths into
-- levels. A `HashSet` or `HashMap` is iterated in the order of its list.
pub mod Levels
pub mod Sums
pub mod Counting
pub mod Rounds
pub mod Order
pub mod Dependencies
pub mod Cycle
pub mod Correct
pub mod Checked
use cognet.Prelude.{
  ℕ, zero, suc, ◌+◌, ◌-◌, Option, none, some, List, [], ◌∷◌, ◌++◌, ◌==◌, if◌then◌else◌, contains,
  length, nat_eq,
}
use cognet.Result.{Result, ok, err}
use cognet.HashMap
use cognet.HashMap.{HashMap}
use cognet.ListMap.{get_list, push_entry}
use cognet.NodePath.{NodePath, path_eq}
use cognet.Edge.{Edge, EdgeId}
use cognet.NodeStates.{NodeStates, get_edge, outgoing_edges_at}

-- "Graph contains a cycle."
pub data SortError : Type 0 where
  contains_a_cycle : SortError

pub record Degrees : Type 0 where
  pub in_degree : HashMap NodePath ℕ
  pub adj_list : HashMap NodePath (List NodePath)

unfoldable pub no_degrees : Degrees
no_degrees = record { in_degree = HashMap.empty; adj_list = HashMap.empty }

unfoldable pub init_degrees : Degrees → List NodePath → Degrees
init_degrees m [] = m
init_degrees m (path ∷ paths) =
    init_degrees
      (record {
        in_degree = HashMap.insert m.in_degree path 0;
        adj_list = HashMap.insert m.adj_list path [];
      })
      paths

-- .entry(to).and_modify(|count| *count += 1).or_insert(1)
unfoldable pub increment : HashMap NodePath ℕ → NodePath → HashMap NodePath ℕ
increment m to = HashMap.insert m to (elim (HashMap.get m to) [ none ↦ 1 | some count ↦ count + 1 ])

-- an id with no edge behind it is passed over
unfoldable pub count_edge : List NodePath → Degrees → Option Edge → Degrees
unfolding increment
count_edge targets m none = m
count_edge targets m (some edge) =
    if contains targets edge.to_node
    then record {
      in_degree = increment m.in_degree edge.to_node;
      adj_list = push_entry m.adj_list edge.from_node edge.to_node;
    }
    else m

module _ {F : Type 0} where
  unfoldable pub count_edges : NodeStates F → List NodePath → Degrees → List EdgeId → Degrees
  unfolding count_edge get_edge
  count_edges s targets m [] = m
  count_edges s targets m (id ∷ ids) =
      count_edges s targets (count_edge targets m (get_edge s id)) ids

  unfoldable pub count_all : NodeStates F → List NodePath → Degrees → List NodePath → Degrees
  unfolding count_edges outgoing_edges_at
  count_all s targets m [] = m
  count_all s targets m (path ∷ paths) =
      count_all s targets (count_edges s targets m (outgoing_edges_at s path)) paths

-- the neighbours of a popped node: each loses one, and joins the queue at zero
unfoldable pub relax : Degrees → List NodePath → List NodePath → Degrees × List NodePath
relax m queue [] = (m, queue)
relax m queue (neighbor ∷ neighbors) = elim (HashMap.get m.in_degree neighbor) [
  | none ↦ relax m queue neighbors
  | some deg ↦
      relax (record m { in_degree = HashMap.insert m.in_degree neighbor (deg - 1) })
        (if deg - 1 == 0 then queue ++ neighbor ∷ [] else queue) neighbors
]

-- `for _ in 0..queue.len()`: the nodes of one level are popped, and `queue` is what follows them
unfoldable pub process_level : Degrees → List NodePath → List NodePath → Degrees × List NodePath
unfolding relax
process_level m queue [] = (m, queue)
process_level m queue (path ∷ level) =
    let popped = record m { adj_list = HashMap.remove m.adj_list path } in
    let (m', queue') = relax popped queue (get_list m.adj_list path) in
    process_level m' queue' level

-- `while !queue.is_empty()`; the fuel is one more than the number of targets
unfoldable pub sort_levels : ℕ → Degrees → List NodePath → List (List NodePath)
unfolding process_level
sort_levels zero m queue = []
sort_levels (suc fuel) m [] = []
sort_levels (suc fuel) m (path ∷ level) =
    let (m', next) = process_level m [] (path ∷ level) in (path ∷ level) ∷ sort_levels fuel m' next

-- sorted.iter().map(|level| level.len()).sum()
abbrev pub total_count : List (List NodePath) → ℕ
total_count [] = 0
total_count (level ∷ levels) = length level + total_count levels

abbrev pub sorted_or_cycle :
    List NodePath → List (List NodePath) → Result SortError (List (List NodePath))
sorted_or_cycle targets sorted =
    if total_count sorted == length targets then ok sorted else err contains_a_cycle

unfoldable pub degrees_of : {F : Type 0} → NodeStates F → List NodePath → Degrees
unfolding init_degrees count_all no_degrees
degrees_of s targets = count_all s targets (init_degrees no_degrees targets) targets

unfoldable pub topological_sort :
    {F : Type 0} → NodeStates F → List NodePath → Result SortError (List (List NodePath))
unfolding degrees_of sort_levels
topological_sort s targets =
    let m = degrees_of s targets in
    let queue = HashMap.keys_where (λ path deg. deg == 0) m.in_degree in
    sorted_or_cycle targets (sort_levels (suc (length targets)) m queue)
