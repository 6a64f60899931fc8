-- ===== src/Prelude/Subsets.antt =====
-- Lists without repetitions as sets: one inside the other, and their lengths.
use Prim.Native.Nat.{◌≤◌, ◌<◌}
use mathlib.Core.Path.{◌≡◌}
use mathlib.Core.Logic.{◌⊎◌, ◌≢◌, inl, inr}
use mathlib.Core.Bool.{true, false}
use mathlib.Core.List.{List, [], ◌∷◌, ◌++◌}
use native.Mathlib.Omega.{arith}
use cognet.Prelude.Tests.{Bool-cases}
use cognet.Prelude.Classes.{Eq, ◌==◌, beq_refl}
use cognet.Prelude.Lists.{length, contains, contains-append, without, contains-without, IsNodup}

module _ {ℓ} {A : Type ℓ} ⦃e : Eq A⦄ where
  abbrev pub IsSubset : List A → List A → Type ℓ
  IsSubset xs ys = (a : A) → contains xs a ≡ true → contains ys a ≡ true

  pub length-without_le : (x : A) (xs : List A) → length (without x xs) ≤ length xs
  length-without_le x [] = omega arith
  length-without_le x (y ∷ ys) = ground (arith, length-without_le x ys)

  pub length-without_lt :
      (x : A) (xs : List A) → contains xs x ≡ true → length (without x xs) < length xs
  length-without_lt x [] h = cc
  length-without_lt x (y ∷ ys) h = ground (arith, length-without_lt x ys, length-without_le x ys)

  IsSubset-without :
      (x : A) (xs ys : List A)
      → contains xs x ≡ false
      → IsSubset (x ∷ xs) ys
      → IsSubset xs (without x ys)
  IsSubset-without x xs ys h sub a m = ground (arith, contains-without x ys a, sub a, e.beq_iff x a)

  -- the pigeonhole principle
  pub length-subset : (xs ys : List A) → IsNodup xs → IsSubset xs ys → length xs ≤ length ys
  length-subset [] ys n sub = omega arith
  length-subset (x ∷ xs) ys n sub = omega (
    arith,
    length-subset xs (without x ys) n.1 (IsSubset-without x xs ys n.0 sub),
    length-without_lt x ys (sub x (ground (arith, beq_refl x))),
  )

  -- a list without repetitions that is as long as what it is taken from has all of it
  pub IsSubset-full :
      (xs ys : List A) → IsNodup xs → IsSubset xs ys → length ys ≤ length xs → IsSubset ys xs
  IsSubset-full [] [] n sub h a m = m
  IsSubset-full [] (y ∷ ys) n sub h a m = absurd (omega arith)
  IsSubset-full (x ∷ xs) ys n sub h a m = elim (Bool-cases (x == a)) [
    | inl same ↦ ground arith
    | inr other ↦
        let shorter = length-without_lt x ys (sub x (ground (arith, beq_refl x))) in
        let rest =
          IsSubset-full xs (without x ys) n.1 (IsSubset-without x xs ys n.0 sub) (omega arith) a
            (ground (arith, contains-without x ys a)) in
        ground arith
  ]

  pub IsNodup-append_disjoint :
      (xs ys : List A)
      → IsNodup xs
      → IsNodup ys
      → ((a : A) → contains xs a ≡ true → contains ys a ≡ false)
      → IsNodup (xs ++ ys)
  IsNodup-append_disjoint [] ys n k h = k
  IsNodup-append_disjoint (x ∷ xs) ys n k h = (
    ground (arith, contains-append xs ys x, n.0, h x, beq_refl x),
    IsNodup-append_disjoint xs ys n.1 k (λ a m. h a (ground arith)),
  )

  subset_or_missing :
      (ys xs : List A)
      → IsSubset ys xs ⊎ ((a : A) × (contains ys a ≡ true) × (contains xs a ≡ false))
  subset_or_missing [] xs = inl (λ a m. cc)
  subset_or_missing (y ∷ ys) xs = elim (Bool-cases (contains xs y)) [
    | inr out ↦ inr (y, ground (arith, beq_refl y), out)
    | inl here ↦ elim (subset_or_missing ys xs) [
      | inl sub ↦ inl (λ a m. ground (arith, sub a, e.beq_iff y a))
      | inr (a, m, out) ↦ inr (a, ground arith, out)
    ]
  ]

  -- of two lists without repetitions, one inside the other, the longer has an element more
  pub missing :
      (xs ys : List A)
      → length xs ≢ length ys
      → IsSubset xs ys
      → IsNodup xs
      → IsNodup ys
      → (a : A) × (contains ys a ≡ true) × (contains xs a ≡ false)
  missing xs ys differ sub n k = elim (subset_or_missing ys xs) [
    | inl all ↦ absurd (omega (arith, length-subset xs ys n sub, length-subset ys xs k all))
    | inr found ↦ found
  ]
