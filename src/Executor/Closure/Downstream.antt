-- ===== src/Executor/Closure/Downstream.antt =====
-- What the breadth-first search of `build_execution_plan` collects.
use cognet.Prelude.{
  ℕ, zero, suc, ◌+◌, ◌<◌, ◌≡◌, ◌↔◌, inl, inr, true, false, ◌||◌, some, List, [], ◌∷◌, arith, ◌==◌,
  contains, contains-append, length, IsNodup, nat_eq, nat_beq_iff, Bool-cases, Option-cases,
  beq_refl,
}
use cognet.HashSet
use cognet.HashSet.{HashSet, contains-insert, contains-empty, IsNodup-insert}
use cognet.NodePath.{NodePath, path_eq}
use cognet.Edge.{Edge, EdgeId}
use cognet.NodeStates.{NodeStates, get_edge, outgoing_edges_at}
use cognet.NodeStates.Consistent.{IsConsistent}
use cognet.Executor.Closure.{
  unaffected_sinks, visit, collect_affected, edges_left, sources, closure_fuel, affected_by,
}
use cognet.Executor.Closure.Rounds.{visit-falls}

module _ {F : Type 0} (s : NodeStates F) where
  -- an edge of the state from the one node to the other
  pub record Feeds (u v : NodePath) : Type 0 where
    pub id : EdgeId
    pub edge : Edge
    pub there : get_edge s id ≡ some edge
    pub source : edge.from_node ≡ u
    pub sink : edge.to_node ≡ v

  -- the changed nodes, and what the edges lead to from them
  pub data Downstream (changed : HashSet NodePath) : NodePath → Type 0 where
    seed : {v : NodePath} → HashSet.contains changed v ≡ true → Downstream changed v
    fed : {u v : NodePath} → Downstream changed u → Feeds u v → Downstream changed v

  contains-unaffected_sinks :
      (affected : HashSet NodePath) (ids : List EdgeId) (v : NodePath)
      → contains (unaffected_sinks s affected ids) v ≡ true
      → (id : EdgeId) × (edge : Edge) × (contains ids id ≡ true)
        × (get_edge s id ≡ some edge)
        × (edge.to_node ≡ v)
  unfolding unaffected_sinks
  contains-unaffected_sinks affected [] v h = cc
  contains-unaffected_sinks affected (i ∷ ids) v h =
      elim (Bool-cases (contains (unaffected_sinks s affected ids) v)) [
        | inl later ↦
            let (id, edge, m, g, e) = contains-unaffected_sinks affected ids v later in
            (id, edge, ground arith, g, e)
        | inr other ↦ elim (Option-cases (get_edge s i)) [
          | inl e ↦ absurd (ground arith)
          | inr (edge, e) ↦ (
            i,
            edge,
            ground (arith, beq_refl i),
            e,
            ground (arith, path_eq.beq_iff edge.to_node v),
          )
        ]
      ]

  unaffected_sinks-contains :
      (affected : HashSet NodePath) (ids : List EdgeId) (id : EdgeId) (edge : Edge)
      → contains ids id ≡ true
      → get_edge s id ≡ some edge
      → HashSet.contains affected edge.to_node ≡ false
      → contains (unaffected_sinks s affected ids) edge.to_node ≡ true
  unfolding unaffected_sinks
  unaffected_sinks-contains affected [] id edge m g out = cc
  unaffected_sinks-contains affected (i ∷ ids) id edge m g out =
      elim (Option-cases (get_edge s i)) [
        | inl e ↦ ground (arith, unaffected_sinks-contains affected ids id edge, nat_beq_iff i id)
        | inr (other, e) ↦ ground (
          arith,
          unaffected_sinks-contains affected ids id edge,
          nat_beq_iff i id,
          beq_refl edge.to_node,
        )
      ]

  record IsSearch (changed affected : HashSet NodePath) (queue : List NodePath) : Type 0 where
    nodup : IsNodup affected.elements
    sound :
        (v : NodePath)
        → (HashSet.contains affected v || contains queue v) ≡ true
        → Downstream changed v
    seeds :
        (v : NodePath)
        → HashSet.contains changed v ≡ true
        → (HashSet.contains affected v || contains queue v) ≡ true
    closed :
        (u v : NodePath)
        → HashSet.contains affected u ≡ true
        → Feeds u v
        → (HashSet.contains affected v || contains queue v) ≡ true

  listed :
      {u v : NodePath}
      → IsConsistent s
      → (h : Feeds u v) → contains (outgoing_edges_at s u) h.id ≡ true
  unfolding get_edge outgoing_edges_at
  listed {u} w h =
      ground
        (arith, w.by_source.exact u h.id, path_eq.beq_iff h.edge.from_node u, h.there, h.source)

  feeds :
      (u v : NodePath) (id : EdgeId) (edge : Edge)
      → IsConsistent s
      → contains (outgoing_edges_at s u) id ≡ true
      → get_edge s id ≡ some edge
      → edge.to_node ≡ v
      → Feeds u v
  unfolding get_edge outgoing_edges_at
  feeds u v id edge w m g e = record {
    id = id;
    edge = edge;
    there = g;
    source = ground (arith, w.by_source.exact u id, path_eq.beq_iff edge.from_node u);
    sink = e;
  }

  visit-IsSearch :
      (changed affected : HashSet NodePath) (path : NodePath) (queue : List NodePath)
      → IsConsistent s
      → IsSearch changed affected (path ∷ queue)
      → let next = visit s affected path queue in IsSearch changed next.0 next.1
  unfolding visit
  visit-IsSearch changed affected path queue w h =
      elim (Bool-cases (HashSet.contains affected path)) [
        | inl seen ↦ rw seen record {
          nodup = h.nodup;
          sound = λ v m. h.sound v (ground arith);
          seeds = λ v m. ground (arith, h.seeds v m, path_eq.beq_iff path v);
          closed = λ u v m f. ground (arith, h.closed u v m f, path_eq.beq_iff path v);
        }
        | inr new ↦
            let after = HashSet.insert affected path in
            let ids = outgoing_edges_at s path in
            let found = unaffected_sinks s after ids in
            rw new record {
              nodup = IsNodup-insert affected path h.nodup;
              sound = λ v m. elim (Bool-cases (contains found v)) [
                | inl here ↦
                    let (id, edge, l, g, e) = contains-unaffected_sinks after ids v here in
                    fed (h.sound path (ground (arith, beq_refl path)))
                      (feeds path v id edge w l g e)
                | inr other ↦
                    h.sound v (
                      ground
                        (arith, contains-insert affected path v, contains-append queue found v))
              ];
              seeds = λ v m. ground (
                arith,
                h.seeds v m,
                contains-insert affected path v,
                contains-append queue found v,
              );
              closed = λ u v m f. elim (Bool-cases (path == u)) [
                | inl same ↦
                    let own : Feeds path v = rw ((path_eq.beq_iff path u).0 same) f in
                    let sinks =
                      unaffected_sinks-contains after ids own.id own.edge (listed w own)
                        own.there in
                    ground (arith, contains-append queue found v, sinks, own.sink)
                | inr other ↦ ground (
                  arith,
                  h.closed u v,
                  contains-insert affected path u,
                  contains-insert affected path v,
                  contains-append queue found v,
                )
              ];
            }
      ]

  collect_affected-IsSearch :
      (fuel : ℕ) (changed affected : HashSet NodePath) (queue : List NodePath)
      → IsConsistent s
      → IsSearch changed affected queue
      → length queue + edges_left s affected (sources s) < fuel
      → IsSearch changed (collect_affected fuel s affected queue) []
  unfolding collect_affected
  collect_affected-IsSearch zero changed affected queue w h n = absurd (omega arith)
  collect_affected-IsSearch (suc fuel) changed affected [] w h n = h
  collect_affected-IsSearch (suc fuel) changed affected (path ∷ queue) w h n =
      let next = visit s affected path queue in
      collect_affected-IsSearch fuel changed next.0 next.1 w
        (visit-IsSearch changed affected path queue w h)
        (omega (arith, visit-falls s affected path queue))

  affected_by-IsSearch :
      (changed : HashSet NodePath) → IsConsistent s → IsSearch changed (affected_by s changed) []
  unfolding affected_by closure_fuel
  affected_by-IsSearch changed w =
      collect_affected-IsSearch (closure_fuel s changed.elements) changed HashSet.empty
        changed.elements w
        (record {
          nodup = unfold HashSet.empty in tt;
          sound = λ v m. seed {v = v} (unfold HashSet.contains in ground (arith, contains-empty v));
          seeds = λ v m. unfold HashSet.contains in ground (arith, contains-empty v);
          closed = λ u v m f. absurd (ground (arith, contains-empty u));
        })
        (omega arith)

  pub affected_by-IsNodup :
      (changed : HashSet NodePath) → IsConsistent s → IsNodup (affected_by s changed).elements
  affected_by-IsNodup changed w = (affected_by-IsSearch changed w).nodup

  full :
      (changed : HashSet NodePath) (v : NodePath)
      → IsSearch changed (affected_by s changed) []
      → Downstream changed v
      → HashSet.contains (affected_by s changed) v ≡ true
  full changed v h (seed m) = ground (arith, h.seeds v m)
  full changed v h (fed {u} p f) = ground (arith, h.closed u v (full changed u h p) f)

  -- The search ends with exactly the nodes that are downstream of the changed ones.
  pub affected_by_iff :
      (changed : HashSet NodePath) (v : NodePath)
      → IsConsistent s
      → (HashSet.contains (affected_by s changed) v ≡ true) ↔ Downstream changed v
  affected_by_iff changed v w =
      let h = affected_by-IsSearch changed w in (λ m. h.sound v (ground arith), full changed v h)
