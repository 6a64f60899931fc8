-- ===== src/TopologicalSort/Dependencies.antt =====
-- When one target comes before another: an edge of the state leads from it to the other.
use cognet.Prelude.{
  ◌≡◌, ◌↔◌, inl, inr, true, some, List, [], ◌∷◌, arith, contains, contains-append, Option-cases,
  beq_refl, Bool-cases, nat_eq, nat_beq_iff,
}
use cognet.NodePath.{NodePath, path_eq}
use cognet.Edge.{Edge, EdgeId}
use cognet.NodeStates.{NodeStates, get_edge, outgoing_edges_at}
use cognet.NodeStates.Consistent.{IsConsistent}
use cognet.TopologicalSort.Counting.{successors, sinks, sink_of, AreSourced}

module _ {F : Type 0} (s : NodeStates F) (targets : List NodePath) where
  -- an edge of the state from the one target to the other
  pub record Leads (u v : NodePath) : Type 0 where
    pub id : EdgeId
    pub edge : Edge
    pub there : get_edge s id ≡ some edge
    pub source : edge.from_node ≡ u
    pub sink : edge.to_node ≡ v
    pub source_in : contains targets u ≡ true
    pub sink_in : contains targets v ≡ true

  pub IsConsistent-AreSourced : IsConsistent s → AreSourced s targets
  unfolding get_edge outgoing_edges_at
  IsConsistent-AreSourced w u id edge l g =
      ground (arith, w.by_source.exact u id, path_eq.beq_iff edge.from_node u)

  sinks-contains :
      (ids : List EdgeId) (id : EdgeId) (edge : Edge)
      → contains ids id ≡ true
      → get_edge s id ≡ some edge
      → contains targets edge.to_node ≡ true
      → contains (sinks s targets ids) edge.to_node ≡ true
  sinks-contains [] id edge l g t = cc
  sinks-contains (i ∷ ids) id edge l g t = ground (
    arith,
    sinks-contains ids id edge,
    nat_beq_iff i id,
    contains-append (sink_of s targets (get_edge s i)) (sinks s targets ids) edge.to_node,
    beq_refl edge.to_node,
  )

  contains-sinks :
      (ids : List EdgeId) (v : NodePath)
      → contains (sinks s targets ids) v ≡ true
      → (id : EdgeId) × (edge : Edge) × (contains ids id ≡ true)
        × (get_edge s id ≡ some edge)
        × (edge.to_node ≡ v)
        × (contains targets v ≡ true)
  contains-sinks [] v h = cc
  contains-sinks (i ∷ ids) v h = elim (Bool-cases (contains (sinks s targets ids) v)) [
    | inl later ↦
        let (id, edge, m, g, e, t) = contains-sinks ids v later in (id, edge, ground arith, g, e, t)
    | inr other ↦ elim (Option-cases (get_edge s i)) [
      | inl e ↦ absurd (
          ground
            (arith, contains-append (sink_of s targets (get_edge s i)) (sinks s targets ids) v))
      | inr (edge, e) ↦
          let same : (edge.to_node ≡ v) × (contains targets v ≡ true) = ground (
            arith,
            path_eq.beq_iff edge.to_node v,
            contains-append (sink_of s targets (get_edge s i)) (sinks s targets ids) v,
          ) in
          (i, edge, ground (arith, beq_refl i), e, same.0, same.1)
    ]
  ]

  listed :
      {u v : NodePath}
      → IsConsistent s
      → (h : Leads u v) → contains (outgoing_edges_at s u) h.id ≡ true
  unfolding get_edge outgoing_edges_at
  listed {u} w h =
      ground
        (arith, w.by_source.exact u h.id, path_eq.beq_iff h.edge.from_node u, h.there, h.source)

  pub successors_iff :
      (u v : NodePath)
      → IsConsistent s
      → contains targets u ≡ true
      → (contains (successors s targets u) v ≡ true) ↔ Leads u v
  successors_iff u v w l = (
    λ h.
        let (id, edge, m, g, e, t) = contains-sinks (outgoing_edges_at s u) v h in
        record {
          id = id;
          edge = edge;
          there = g;
          source = IsConsistent-AreSourced w u id edge m g;
          sink = e;
          source_in = l;
          sink_in = t;
        },
    λ (h : Leads u v). rw (← h.sink) (
        sinks-contains (outgoing_edges_at s u) h.id h.edge (listed w h) h.there
          (rw h.sink h.sink_in)),
  )
