-- ===== src/TopologicalSort/Cycle.antt =====
-- Walks along the dependencies, and the cycles that stop `topological_sort`.
use cognet.Prelude.{
  ℕ, zero, suc, ◌+◌, ◌<◌, ◌≡◌, inl, inr, true, List, [], ◌∷◌, arith, ◌==◌, if◌then◌else◌, contains,
  contains-append, IsNodup, length, flatten, Bool-cases, IsSubset, length-subset,
}
use cognet.NodePath.{NodePath, path_eq}
use cognet.TopologicalSort.Order.{IsLayered}

-- one step or more
pub data Walk (step : NodePath → NodePath → Type 0) (u : NodePath) : NodePath → Type 0 where
  direct : {v : NodePath} → step u v → Walk step u v
  onward : {v w : NodePath} → Walk step u v → step v w → Walk step u w

-- the position of the first level that has the path
abbrev pub level_of : List (List NodePath) → NodePath → ℕ
level_of [] v = 0
level_of (level ∷ levels) v =
    let later = level_of levels v in if contains level v then 0 else suc later

pub level_of-lt :
    (next : NodePath → List NodePath) (levels : List (List NodePath)) (u v : NodePath)
    → IsLayered next levels
    → contains (flatten levels) u ≡ true
    → contains (flatten levels) v ≡ true
    → contains (next u) v ≡ true
    → level_of levels u < level_of levels v
level_of-lt next [] u v h lu lv c = cc
level_of-lt next (level ∷ levels) u v h lu lv c = ground (
  arith,
  h.0 u v lu,
  level_of-lt next levels u v h.1,
  contains-append level (flatten levels) u,
  contains-append level (flatten levels) v,
)

module _ (step : NodePath → NodePath → Type 0) where
  pub preceded : {u v w : NodePath} → step u v → Walk step v w → Walk step u w
  preceded r (direct q) = onward (direct r) q
  preceded r (onward p q) = onward (preceded r p) q

  pub Walk-lt :
      (f : NodePath → ℕ)
      → ((u v : NodePath) → step u v → f u < f v)
      → {u v : NodePath} → Walk step u v
      → f u < f v
  Walk-lt f h (direct {v} r) = h _ v r
  Walk-lt f h (onward {v} {w} p r) = omega (arith, Walk-lt f h p, h v w r)

  -- Going back from node to node among finitely many, some node comes up twice.
  pub find_cycle :
      (left : NodePath → Type 0) (live : List NodePath)
      → ((v : NodePath) → left v → contains live v ≡ true)
      → ((v : NodePath) → left v → (u : NodePath) × left u × step u v)
      → (n : ℕ) (h : NodePath) (ts : List NodePath) → left h
      → IsNodup (h ∷ ts)
      → IsSubset (h ∷ ts) live
      → ((a : NodePath) → contains ts a ≡ true → Walk step h a)
      → length live < n + length (h ∷ ts)
      → (v : NodePath) × Walk step v v
  find_cycle left live inside back zero h ts l n sub reach len =
      absurd (omega (arith, length-subset (h ∷ ts) live n sub))
  find_cycle left live inside back (suc k) h ts l n sub reach len =
      let (u, lu, r) = back h l in
      let onto : (a : NodePath) → contains (h ∷ ts) a ≡ true → Walk step u a = λ a m.
        elim (Bool-cases (h == a)) [
          | inl same ↦ rw (← (path_eq.beq_iff h a).0 same) (direct r)
          | inr other ↦ preceded r (reach a (ground arith))
        ] in
      elim (Bool-cases (contains (h ∷ ts) u)) [
        | inl met ↦ (u, onto u met)
        | inr fresh ↦
            find_cycle left live inside back k u (h ∷ ts) lu (fresh, n)
              (λ a m. ground (arith, path_eq.beq_iff u a, sub a, inside u lu)) onto (omega arith)
      ]
