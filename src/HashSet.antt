-- ===== src/HashSet.antt =====
-- `std::collections::HashSet`: a list without repetitions, written by `insert` and `extend`.
use cognet.Prelude.{
  ◌≡◌, refl, Bool, false, ◌||◌, List, [], ◌∷◌, arith, Eq, ◌==◌, if◌then◌else◌, IsNodup,
}
use cognet.Prelude

pub record HashSet {ℓ} (K : Type ℓ) : Type ℓ where
  pub elements : List K

unfoldable pub empty {ℓ} : {K : Type ℓ} → HashSet K
empty = record { elements = [] }

module _ {ℓ} {K : Type ℓ} ⦃e : Eq K⦄ where
  -- s.contains(k)
  unfoldable pub contains : HashSet K → K → Bool
  contains s k = Prelude.contains s.elements k

  -- s.insert(k)
  unfoldable pub insert : HashSet K → K → HashSet K
  unfolding contains
  insert s k = if contains s k then s else record { elements = k ∷ s.elements }

  -- s.extend(ks)
  unfoldable pub extend : HashSet K → List K → HashSet K
  unfolding insert
  extend s [] = s
  extend s (k ∷ ks) = extend (insert s k) ks

  pub contains-empty : (k : K) → contains empty k ≡ false
  unfolding contains empty
  contains-empty k = refl

  pub contains-insert :
      (s : HashSet K) (k j : K) → contains (insert s k) j ≡ ((k == j) || contains s j)
  unfolding insert
  contains-insert s k j = ground (arith, e.beq_iff k j)

  pub contains-extend :
      (s : HashSet K) (ks : List K) (j : K)
      → contains (extend s ks) j ≡ (Prelude.contains ks j || contains s j)
  unfolding extend
  contains-extend s [] j = refl
  contains-extend s (k ∷ ks) j =
      ground (arith, contains-extend (insert s k) ks j, contains-insert s k j)

  -- the elements of a set never repeat
  pub IsNodup-insert : (s : HashSet K) (k : K) → IsNodup s.elements → IsNodup (insert s k).elements
  unfolding insert contains
  IsNodup-insert s k h = ground arith

pub ruleset set_laws = (contains-empty, contains-insert, contains-extend)
