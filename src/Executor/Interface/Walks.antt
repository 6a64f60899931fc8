-- ===== src/Executor/Interface/Walks.antt =====
-- The loop over the edges that lead into a port.
use cognet.Prelude.{
  ◌≡◌, refl, inl, inr, Bool, true, false, Option, List, [], ◌∷◌, ◌==◌, arith, nat_eq, contains,
  nat_beq_iff, beq_refl, Bool-cases,
}
use cognet.HashSet
use cognet.Edge.{Edge, EdgeId}
use cognet.NodeStates.{NodeStates, get_edge}
use cognet.Executor.Interface.{Port, port_eq, Visited, walk_edges}

-- nothing that was visited is forgotten
abbrev pub Grows : Visited → Visited → Type 0
Grows a b = (p : Port) → HashSet.contains a p ≡ true → HashSet.contains b p ≡ true

module _ {F : Type 0} {A : Type 0} (s : NodeStates F) (stops : A → Bool) (last : A) where
  pub walk_edges-Grows :
      (step : Option Edge → Visited → A × Visited)
      → ((o : Option Edge) (v : Visited) → Grows v (step o v).1)
      → (ids : List EdgeId) (v : Visited) → Grows v (walk_edges s step stops last ids v).1
  walk_edges-Grows step grows [] v p m = m
  walk_edges-Grows step grows (id ∷ ids) v p m =
      let next = step (get_edge s id) v in
      ground (arith, grows (get_edge s id) v p m, walk_edges-Grows step grows ids next.1 p)

  -- two steps that agree where a property of the visited ports holds, which the first one keeps
  pub walk_edges-ext :
      (f g : Option Edge → Visited → A × Visited) (P : Visited → Type 0) (ids : List EdgeId)
      (v : Visited)
      → P v
      → ((id : EdgeId) (w : Visited)
          → contains ids id ≡ true
          → P w
          → f (get_edge s id) w ≡ g (get_edge s id) w)
      → ((o : Option Edge) (w : Visited) → P w → P (f o w).1)
      → walk_edges s f stops last ids v ≡ walk_edges s g stops last ids v
  walk_edges-ext f g P [] v p same keeps = refl
  walk_edges-ext f g P (id ∷ ids) v p same keeps =
      let next = f (get_edge s id) v in
      let here = same id v (ground (arith, beq_refl id)) p in
      let later =
        walk_edges-ext f g P ids next.1 (keeps (get_edge s id) v p)
          (λ j w m q. same j w (ground arith) q) keeps in
      rw (← here, later) refl

  -- an answer that stops the loop is that of one of the edges
  pub walk_edges-stopped :
      (step : Option Edge → Visited → A × Visited) (ids : List EdgeId) (v : Visited)
      → stops last ≡ false
      → stops (walk_edges s step stops last ids v).0 ≡ true
      → (id : EdgeId) × (w : Visited) × (contains ids id ≡ true)
        × ((step (get_edge s id) w).0 ≡ (walk_edges s step stops last ids v).0)
  walk_edges-stopped step [] v l h = absurd (cc (l, h))
  walk_edges-stopped step (id ∷ ids) v l h =
      let next = step (get_edge s id) v in
      elim (Bool-cases (stops next.0)) [
        | inl stop ↦ (id, v, ground (arith, beq_refl id), rw stop refl)
        | inr go ↦
            let (j, w, m, e) = walk_edges-stopped step ids next.1 l (rw go at h) in
            (j, w, ground arith, rw go e)
      ]

  -- where no answer stops the loop, every edge is asked
  pub walk_edges-passed :
      (step : Option Edge → Visited → A × Visited) (ids : List EdgeId) (v : Visited) (id : EdgeId)
      → stops (walk_edges s step stops last ids v).0 ≡ false
      → contains ids id ≡ true
      → (w : Visited) × (stops (step (get_edge s id) w).0 ≡ false)
  walk_edges-passed step [] v id h m = cc
  walk_edges-passed step (i ∷ ids) v id h m =
      let next = step (get_edge s i) v in
      elim (Bool-cases (stops next.0)) [
        | inl stop ↦ absurd (cc (rw stop at h, stop))
        | inr go ↦ elim (Bool-cases (i == id)) [
          | inl same ↦ (v, rw (← (nat_beq_iff i id).0 same) go)
          | inr other ↦ walk_edges-passed step ids next.1 id (rw go at h) (ground arith)
        ]
      ]
