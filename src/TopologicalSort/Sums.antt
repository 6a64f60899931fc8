-- ===== src/TopologicalSort/Sums.antt =====
-- Occurrences in the neighbour lists of a set of nodes: what an in-degree counts.
use cognet.Prelude.{
  ℕ, suc, ◌&&◌, not, ◌+◌, ◌<◌, ◌≤◌, ◌≡◌, refl, true, false, List, [], ◌∷◌, ◌++◌, arith, Eq, ◌==◌,
  if◌then◌else◌, contains, length-without_le, without, contains-without, IsNodup, length, beq_refl,
  Bool-cases, inl, inr,
}

module _ {K : Type 0} ⦃e : Eq K⦄ where
  -- how often the key stands in the list
  abbrev pub count : K → List K → ℕ
  count v [] = 0
  count v (x ∷ xs) = let rest = count v xs in if x == v then suc rest else rest

  -- how often the key stands in the lists of the nodes
  abbrev pub weight : (K → List K) → List K → K → ℕ
  weight next [] v = 0
  weight next (u ∷ us) v = count v (next u) + weight next us v

  -- the nodes that are left when some are taken out
  abbrev pub minus : List K → List K → List K
  minus live [] = live
  minus live (u ∷ us) = minus (without u live) us

  pub count-append : (v : K) (xs ys : List K) → count v (xs ++ ys) ≡ count v xs + count v ys
  count-append v [] ys = omega arith
  count-append v (x ∷ xs) ys = ground (arith, count-append v xs ys)

  pub contains-count : (v : K) (xs : List K) → contains xs v ≡ true → 0 < count v xs
  contains-count v (x ∷ xs) h = ground (arith, contains-count v xs)
  contains-count v [] h = cc

  pub count-contains : (v : K) (xs : List K) → 0 < count v xs → contains xs v ≡ true
  count-contains v [] h = absurd (omega arith)
  count-contains v (x ∷ xs) h = ground (arith, count-contains v xs)

  pub without-fresh : (x : K) (xs : List K) → contains xs x ≡ false → without x xs ≡ xs
  without-fresh x [] h = refl
  without-fresh x (y ∷ ys) h = ground (arith, without-fresh x ys)

  pub weight-without :
      (next : K → List K) (us : List K) (u v : K)
      → IsNodup us
      → contains us u ≡ true
      → weight next us v ≡ count v (next u) + weight next (without u us) v
  weight-without next [] u v n h = cc
  weight-without next (w ∷ ws) u v n h = elim (Bool-cases (w == u)) [
    | inl same ↦ ground (arith, (e.beq_iff w u).0 same, without-fresh w ws n.0)
    | inr other ↦ ground (arith, weight-without next ws u v n.1)
  ]

  pub contains-minus :
      (live us : List K) (v : K)
      → contains (minus live us) v ≡ (contains live v && not (contains us v))
  contains-minus live [] v = ground arith
  contains-minus live (u ∷ us) v =
      ground (arith, contains-minus (without u live) us v, contains-without u live v)

  pub length-minus_le : (live us : List K) → length (minus live us) ≤ length live
  length-minus_le live [] = omega arith
  length-minus_le live (u ∷ us) =
      omega (arith, length-minus_le (without u live) us, length-without_le u live)

  -- a weight that is not zero comes from some node
  pub weight-source :
      (next : K → List K) (us : List K) (v : K)
      → 0 < weight next us v
      → (u : K) × (contains us u ≡ true) × (contains (next u) v ≡ true)
  weight-source next [] v h = absurd (omega arith)
  weight-source next (u ∷ us) v h = elim (Bool-cases (contains (next u) v)) [
    | inl here ↦ (u, ground (arith, beq_refl u), here)
    | inr out ↦
        let (w, m, s) = weight-source next us v (ground (arith, count-contains v (next u))) in
        (w, ground arith, s)
  ]

  pub weight-zero :
      (next : K → List K) (us : List K) (u v : K)
      → weight next us v ≡ 0
      → contains us u ≡ true
      → contains (next u) v ≡ false
  weight-zero next [] u v z h = cc
  weight-zero next (w ∷ ws) u v z h = elim (Bool-cases (w == u)) [
    | inl same ↦ ground (arith, (e.beq_iff w u).0 same, contains-count v (next w))
    | inr other ↦ weight-zero next ws u v (omega arith) (ground arith)
  ]

  pub weight-ext :
      (f g : K → List K) (us : List K) (v : K)
      → ((u : K) → contains us u ≡ true → f u ≡ g u)
      → weight f us v ≡ weight g us v
  weight-ext f g [] v h = refl
  weight-ext f g (u ∷ us) v h =
      ground
        (arith, h u (ground (arith, beq_refl u)), weight-ext f g us v (λ w m. h w (ground arith)))

  pub weight-nil :
      (f : K → List K) (us : List K) (v : K)
      → ((u : K) → contains us u ≡ true → f u ≡ [])
      → weight f us v ≡ 0
  weight-nil f [] v h = refl
  weight-nil f (u ∷ us) v h =
      ground
        (arith, h u (ground (arith, beq_refl u)), weight-nil f us v (λ w m. h w (ground arith)))

  -- one list grows by one element
  pub weight-push :
      (f g : K → List K) (us : List K) (from to v : K)
      → IsNodup us
      → contains us from ≡ true
      → ((u : K) → g u ≡ (if from == u then f u ++ to ∷ [] else f u))
      → weight g us v ≡ (if to == v then suc (weight f us v) else weight f us v)
  weight-push f g us from to v n m h = ground (
    arith,
    weight-without f us from v n m,
    weight-without g us from v n m,
    h from,
    beq_refl from,
    count-append v (f from) (to ∷ []),
    weight-ext g f (without from us) v (λ u k. ground (arith, h u, contains-without from us u)),
  )
