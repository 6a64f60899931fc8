-- ===== src/TopologicalSort/Counting/First.antt =====
-- The first loop of `topological_sort`, which writes the degree zero and the empty list.
use cognet.Prelude.{ℕ, ◌≡◌, refl, none, some, List, [], ◌∷◌, arith, if◌then◌else◌, contains, nat_eq}
use cognet.HashMap
use cognet.HashMap.{IsKeyed, insert-IsKeyed, get-insert, get-empty}
use cognet.ListMap.{get_list, get_list-insert, get_list-empty}
use cognet.NodePath.{NodePath, path_eq}
use cognet.TopologicalSort.{Degrees, no_degrees, init_degrees}

pub init_degrees-get :
    (paths : List NodePath) (m : Degrees) (v : NodePath)
    → HashMap.get (init_degrees m paths).in_degree v
      ≡ (if contains paths v then some 0 else HashMap.get m.in_degree v)
unfolding init_degrees
init_degrees-get [] m v = refl
init_degrees-get (path ∷ paths) m v = ground (
  arith,
  init_degrees-get paths
      (record {
        in_degree = HashMap.insert m.in_degree path 0;
        adj_list = HashMap.insert m.adj_list path [];
      })
      v,
  get-insert m.in_degree path 0 v,
)

pub init_degrees-get_list :
    (paths : List NodePath) (m : Degrees) (v : NodePath)
    → get_list (init_degrees m paths).adj_list v
      ≡ (if contains paths v then [] else get_list m.adj_list v)
unfolding init_degrees
init_degrees-get_list [] m v = refl
init_degrees-get_list (path ∷ paths) m v = ground (
  arith,
  init_degrees-get_list paths
      (record {
        in_degree = HashMap.insert m.in_degree path 0;
        adj_list = HashMap.insert m.adj_list path [];
      })
      v,
  get_list-insert m.adj_list path [] v,
)

pub init_degrees-IsKeyed :
    (paths : List NodePath) (m : Degrees)
    → IsKeyed m.in_degree
    → IsKeyed (init_degrees m paths).in_degree
unfolding init_degrees
init_degrees-IsKeyed [] m w = w
init_degrees-IsKeyed (path ∷ paths) m w =
    init_degrees-IsKeyed paths
      (record {
        in_degree = HashMap.insert m.in_degree path 0;
        adj_list = HashMap.insert m.adj_list path [];
      })
      (insert-IsKeyed m.in_degree path 0 w)

pub no_degrees-get : (v : NodePath) → HashMap.get no_degrees.in_degree v ≡ none
unfolding no_degrees
no_degrees-get v = get-empty {V = ℕ} v

pub no_degrees-get_list : (v : NodePath) → get_list no_degrees.adj_list v ≡ []
unfolding no_degrees
no_degrees-get_list v = get_list-empty {V = NodePath} v
