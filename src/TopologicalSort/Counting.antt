-- ===== src/TopologicalSort/Counting.antt =====
-- The degrees that `topological_sort` counts before its first round.
pub mod First
use cognet.TopologicalSort.Counting.First.{
  init_degrees-get, init_degrees-get_list, init_degrees-IsKeyed, no_degrees-get,
}
use cognet.Prelude.{
  ℕ, zero, suc, ◌+◌, ◌≡◌, refl, inl, inr, Bool, true, false, ◌&&◌, ◌||◌, Option, none, some, List,
  [], ◌∷◌, ◌++◌, append-nil, append_assoc, arith, ◌==◌, if◌then◌else◌, contains, IsNodup,
  Option-cases, Bool-cases, nat_eq, beq_refl,
}
use cognet.HashMap
use cognet.TopologicalSort.Rounds.{IsCounted}
use cognet.HashMap.{
  IsKeyed, insert-IsKeyed, empty-IsKeyed, IsNodup-keys_where, get-insert, holds_at, get-empty,
  contains-keys_where,
}
use cognet.ListMap.{get_list, get_list-insert, get_list-empty, get_list-push_entry, push_entry}
use cognet.NodePath.{NodePath, path_eq}
use cognet.Edge.{Edge, EdgeId}
use cognet.NodeStates.{NodeStates, get_edge, outgoing_edges_at}
use cognet.TopologicalSort.{
  Degrees, no_degrees, init_degrees, increment, count_edge, count_edges, count_all, degrees_of,
}
use cognet.TopologicalSort.Sums.{weight, weight-nil, weight-ext, weight-push}

-- the paths that the queue starts with
abbrev at_zero : NodePath → ℕ → Bool
at_zero path deg = deg == 0

abbrev pub initial_queue : Degrees → List NodePath
initial_queue m = HashMap.keys_where at_zero m.in_degree

module _ {F : Type 0} (s : NodeStates F) (targets : List NodePath) where
  -- where the edge leads, when that is a target
  abbrev pub sink_of : Option Edge → List NodePath
  sink_of none = []
  sink_of (some edge) = if contains targets edge.to_node then edge.to_node ∷ [] else []

  abbrev pub sinks : List EdgeId → List NodePath
  sinks [] = []
  sinks (id ∷ ids) = sink_of (get_edge s id) ++ sinks ids

  -- the targets that the edges of the node lead to
  abbrev pub successors : NodePath → List NodePath
  successors u = sinks (outgoing_edges_at s u)

  -- the ids are of edges that leave the node
  abbrev pub AllFrom : NodePath → List EdgeId → Type 0
  AllFrom u ids =
      (id : EdgeId) (edge : Edge)
      → contains ids id ≡ true
      → get_edge s id ≡ some edge
      → edge.from_node ≡ u

  record IsTallied (m : Degrees) : Type 0 where
    keyed : IsKeyed m.in_degree
    domain :
        (v : NodePath) → contains targets v ≡ true → (d : ℕ) × (HashMap.get m.in_degree v ≡ some d)
    inside : (v : NodePath) (d : ℕ) → HashMap.get m.in_degree v ≡ some d → contains targets v ≡ true
    tally :
        (v : NodePath) (d : ℕ)
        → HashMap.get m.in_degree v ≡ some d
        → d ≡ weight (get_list m.adj_list) targets v

  count_edge-IsTallied :
      (m : Degrees) (o : Option Edge)
      → IsNodup targets
      → ((edge : Edge) → o ≡ some edge → contains targets edge.from_node ≡ true)
      → IsTallied m
      → IsTallied (count_edge targets m o)
  unfolding count_edge increment
  count_edge-IsTallied m none n f w = w
  count_edge-IsTallied m (some edge) n f w = elim (Bool-cases (contains targets edge.to_node)) [
    | inr out ↦ rw out w
    | inl here ↦
        let to = edge.to_node in
        let (d, has) = w.domain to here in
        let m' = count_edge targets m (some edge) in
        rw (here, has)
          record {
            keyed = insert-IsKeyed m.in_degree to (d + 1) w.keyed;
            domain = λ v l. ground (arith, get-insert m.in_degree to (d + 1) v, w.domain v l);
            inside = λ v k g.
                ground
                  (arith, get-insert m.in_degree to (d + 1) v, w.inside v k, path_eq.beq_iff to v);
            tally = λ v k g. ground (
              arith,
              get-insert m.in_degree to (d + 1) v,
              w.tally v k,
              w.tally to d has,
              path_eq.beq_iff to v,
              weight-push (get_list m.adj_list) (get_list (push_entry m.adj_list edge.from_node to))
                  targets edge.from_node to v n (f edge refl)
                  (get_list-push_entry m.adj_list edge.from_node to),
            );
          }
  ]

  get_list-count_edge :
      (m : Degrees) (o : Option Edge) (path u : NodePath)
      → ((edge : Edge) → o ≡ some edge → edge.from_node ≡ path)
      → get_list (count_edge targets m o).adj_list u
        ≡ (if path == u then get_list m.adj_list u ++ sink_of o else get_list m.adj_list u)
  unfolding count_edge
  get_list-count_edge m none path u f = ground (arith, append-nil (get_list m.adj_list u))
  get_list-count_edge m (some edge) path u f = ground (
    arith,
    append-nil (get_list m.adj_list u),
    f edge refl,
    get_list-push_entry m.adj_list edge.from_node edge.to_node u,
  )

  count_edges-IsTallied :
      (path : NodePath) (ids : List EdgeId) (m : Degrees)
      → IsNodup targets
      → contains targets path ≡ true
      → AllFrom path ids
      → IsTallied m
      → IsTallied (count_edges s targets m ids)
  unfolding count_edges
  count_edges-IsTallied path [] m n h from w = w
  count_edges-IsTallied path (id ∷ ids) m n h from w =
      count_edges-IsTallied path ids (count_edge targets m (get_edge s id)) n h
        (λ j edge l g. from j edge (ground arith) g)
        (count_edge-IsTallied m (get_edge s id) n
          (λ edge g. rw (from id edge (ground (arith, beq_refl id)) g) h) w)

  get_list-count_edges :
      (path u : NodePath) (ids : List EdgeId) (m : Degrees)
      → AllFrom path ids
      → get_list (count_edges s targets m ids).adj_list u
        ≡ (if path == u then get_list m.adj_list u ++ sinks ids else get_list m.adj_list u)
  unfolding count_edges
  get_list-count_edges path u [] m from = ground (arith, append-nil (get_list m.adj_list u))
  get_list-count_edges path u (id ∷ ids) m from = ground (
    arith,
    get_list-count_edges path u ids (count_edge targets m (get_edge s id))
        (λ j edge l g. from j edge (ground arith) g),
    get_list-count_edge m (get_edge s id) path u
        (λ edge g. from id edge (ground (arith, beq_refl id)) g),
    append_assoc (get_list m.adj_list u) (sink_of (get_edge s id)) (sinks ids),
  )

  init_degrees-IsTallied : IsTallied (init_degrees no_degrees targets)
  init_degrees-IsTallied = record {
    keyed = init_degrees-IsKeyed targets no_degrees (unfold no_degrees in empty-IsKeyed);
    domain = λ v l. (0, ground (arith, init_degrees-get targets no_degrees v));
    inside = λ v d g. ground (arith, init_degrees-get targets no_degrees v, no_degrees-get v);
    tally = λ v d g. ground (
      arith,
      init_degrees-get targets no_degrees v,
      no_degrees-get v,
      weight-nil (get_list (init_degrees no_degrees targets).adj_list) targets v
          (λ u l. ground (arith, init_degrees-get_list targets no_degrees u)),
    );
  }

  -- every id that is listed under a path has an edge that leaves it
  abbrev pub AreSourced : Type 0
  AreSourced = (u : NodePath) → AllFrom u (outgoing_edges_at s u)

  count_all-IsTallied :
      (paths : List NodePath) (m : Degrees)
      → IsNodup targets
      → AreSourced
      → ((u : NodePath) → contains paths u ≡ true → contains targets u ≡ true)
      → IsTallied m
      → IsTallied (count_all s targets m paths)
  unfolding count_all
  count_all-IsTallied [] m n from sub w = w
  count_all-IsTallied (path ∷ paths) m n from sub w =
      count_all-IsTallied paths (count_edges s targets m (outgoing_edges_at s path)) n from
        (λ u l. sub u (ground arith))
        (count_edges-IsTallied path (outgoing_edges_at s path) m n
          (sub path (ground (arith, beq_refl path))) (from path) w)

  get_list-count_all :
      (paths : List NodePath) (m : Degrees) (u : NodePath)
      → AreSourced
      → IsNodup paths
      → get_list (count_all s targets m paths).adj_list u ≡ (
          if contains paths u then get_list m.adj_list u ++ successors u else get_list m.adj_list u)
  unfolding count_all
  get_list-count_all [] m u from n = refl
  get_list-count_all (path ∷ paths) m u from n = ground (
    arith,
    get_list-count_all paths (count_edges s targets m (outgoing_edges_at s path)) u from n.1,
    get_list-count_edges path u (outgoing_edges_at s path) m (from path),
    path_eq.beq_iff path u,
    n.0,
  )

  -- The counts at the start of the first round.
  pub degrees_of-IsCounted :
      IsNodup targets
      → AreSourced
      → IsCounted successors targets
          (initial_queue (degrees_of s targets))
          []
          (degrees_of s targets)
  unfolding degrees_of
  degrees_of-IsCounted n from =
      let start = init_degrees no_degrees targets in
      let m = degrees_of s targets in
      let w = count_all-IsTallied targets start n from (λ u l. l) init_degrees-IsTallied in
      let lists : (u : NodePath)
          → contains targets u ≡ true
          → get_list m.adj_list u ≡ successors u =
        λ u l. ground (
          arith,
          get_list-count_all targets start u from n,
          init_degrees-get_list targets no_degrees u,
        ) in
      record {
        live_nodup = n;
        queue_nodup = IsNodup-keys_where at_zero m.in_degree w.keyed;
        lists = lists;
        degree = λ v d g.
            ground
              (arith, w.tally v d g, weight-ext (get_list m.adj_list) successors targets v lists);
        known = w.domain;
        waiting = λ v d g. w.inside v (suc d) g;
        ready = λ v. ground (
          arith,
          contains-keys_where at_zero m.in_degree v,
          w.inside v 0,
          Option-cases (HashMap.get m.in_degree v),
        );
      }
