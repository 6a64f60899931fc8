-- ===== src/Prelude/Lists.antt =====
-- Lists measured and indexed by native numbers, under the library's names, and what `Vec` adds:
-- membership tests, insertion and removal at an index, `retain`.
use Prim.Native.Nat.{ℕ, zero, suc, ◌+◌, ◌-◌, ◌≤◌, ◌<◌}
use mathlib.Core.Path.{◌≡◌, refl, ap}
use mathlib.Core.Bool.{Bool, false, not, ◌||◌, ◌&&◌}
use mathlib.Core.List.{List, [], ◌∷◌, ◌++◌}
use mathlib.Core.Option.{Option, none, some}
use native.Mathlib.Omega.{arith}
use cognet.Prelude.Tests.{if◌then◌else◌, nat_beq, ltb}
use cognet.Prelude.Classes.{Eq, ◌==◌}

module _ {ℓ} {A : Type ℓ} where
  abbrev pub length : List A → ℕ
  length [] = 0
  length (x ∷ xs) = suc (length xs)

  abbrev pub get_elem? : List A → ℕ → Option A
  get_elem? [] i = none
  get_elem? (x ∷ xs) zero = some x
  get_elem? (x ∷ xs) (suc i) = get_elem? xs i

  abbrev pub drop : ℕ → List A → List A
  drop zero xs = xs
  drop (suc n) [] = []
  drop (suc n) (x ∷ xs) = drop n xs

  -- `Vec::insert`; past the end it appends (Rust panics there, and its callers clamp the index)
  abbrev pub insert_at : List A → ℕ → A → List A
  insert_at xs zero a = a ∷ xs
  insert_at [] (suc i) a = a ∷ []
  insert_at (x ∷ xs) (suc i) a = x ∷ insert_at xs i a

  -- `Vec::remove`; past the end it changes nothing (Rust panics there)
  abbrev pub remove_at : List A → ℕ → List A
  remove_at [] i = []
  remove_at (x ∷ xs) zero = xs
  remove_at (x ∷ xs) (suc i) = x ∷ remove_at xs i

  abbrev pub retain : (A → Bool) → List A → List A
  retain p [] = []
  retain p (x ∷ xs) = let rest = retain p xs in if p x then x ∷ rest else rest

  -- ls.iter().flatten()
  abbrev pub flatten : List (List A) → List A
  flatten [] = []
  flatten (l ∷ ls) = l ++ flatten ls

  pub length-append : (xs ys : List A) → length (xs ++ ys) ≡ length xs + length ys
  length-append [] ys = omega arith
  length-append (x ∷ xs) ys = omega (arith, length-append xs ys)

  pub get_elem?-lt : (xs : List A) (i : ℕ) (a : A) → get_elem? xs i ≡ some a → i < length xs
  get_elem?-lt [] i a h = cc
  get_elem?-lt (x ∷ xs) zero a h = omega arith
  get_elem?-lt (x ∷ xs) (suc i) a h = omega (arith, get_elem?-lt xs i a h)

  pub get_elem?-append :
      (xs ys : List A) (i : ℕ)
      → get_elem? (xs ++ ys) i
        ≡ (if ltb i (length xs) then get_elem? xs i else get_elem? ys (i - length xs))
  get_elem?-append [] ys zero = refl
  get_elem?-append [] ys (suc i) = ground arith
  get_elem?-append (x ∷ xs) ys zero = ground arith
  get_elem?-append (x ∷ xs) ys (suc i) = ground (arith, get_elem?-append xs ys i)

  -- Reading after an insertion: below, at and above the new element.
  pub get_elem?-insert_at :
      (xs : List A) (i : ℕ) (a : A) (j : ℕ)
      → i ≤ length xs
      → get_elem? (insert_at xs i a) j
        ≡ (if ltb j i then get_elem? xs j else if nat_beq j i then some a else get_elem? xs (j - 1))
  get_elem?-insert_at xs zero a zero h = refl
  get_elem?-insert_at xs zero a (suc j) h = ground arith
  get_elem?-insert_at [] (suc i) a j h = absurd (omega arith)
  get_elem?-insert_at (x ∷ xs) (suc i) a zero h = ground arith
  get_elem?-insert_at (x ∷ xs) (suc i) a (suc zero) h =
      ground (arith, get_elem?-insert_at xs i a zero)
  get_elem?-insert_at (x ∷ xs) (suc i) a (suc (suc j)) h =
      ground (arith, get_elem?-insert_at xs i a (suc j))

  -- Reading after a removal.
  pub get_elem?-remove_at :
      (xs : List A) (i j : ℕ)
      → get_elem? (remove_at xs i) j ≡ (if ltb j i then get_elem? xs j else get_elem? xs (suc j))
  get_elem?-remove_at [] i j = ground arith
  get_elem?-remove_at (x ∷ xs) zero j = ground arith
  get_elem?-remove_at (x ∷ xs) (suc i) zero = ground arith
  get_elem?-remove_at (x ∷ xs) (suc i) (suc j) = ground (arith, get_elem?-remove_at xs i j)

  pub length-insert_at : (xs : List A) (i : ℕ) (a : A) → length (insert_at xs i a) ≡ suc (length xs)
  length-insert_at xs zero a = refl
  length-insert_at [] (suc i) a = refl
  length-insert_at (x ∷ xs) (suc i) a = ap suc (length-insert_at xs i a)

  pub length-remove_at :
      (xs : List A) (i : ℕ) → i < length xs → suc (length (remove_at xs i)) ≡ length xs
  length-remove_at [] i h = absurd (omega arith)
  length-remove_at (x ∷ xs) zero h = refl
  length-remove_at (x ∷ xs) (suc i) h = ap suc (length-remove_at xs i (omega arith))

  pub get_elem?-drop :
      (n : ℕ) (xs : List A) (i : ℕ) → get_elem? (drop n xs) i ≡ get_elem? xs (n + i)
  get_elem?-drop zero xs i = ground arith
  get_elem?-drop (suc n) [] i = refl
  get_elem?-drop (suc n) (x ∷ xs) i = ground (arith, get_elem?-drop n xs i)

module _ {ℓ} {A : Type ℓ} ⦃e : Eq A⦄ where
  -- `slice::contains`
  abbrev pub contains : List A → A → Bool
  contains [] a = false
  contains (x ∷ xs) a = (x == a) || contains xs a

  pub contains-append :
      (xs ys : List A) (a : A) → contains (xs ++ ys) a ≡ (contains xs a || contains ys a)
  contains-append [] ys a = refl
  contains-append (x ∷ xs) ys a = ground (arith, contains-append xs ys a)

  -- `retain(|id| *id != x)`
  abbrev pub without : A → List A → List A
  without x xs = retain (λ y. not (y == x)) xs

  pub contains-without :
      (x : A) (xs : List A) (a : A) → contains (without x xs) a ≡ (contains xs a && not (x == a))
  contains-without x [] a = refl
  contains-without x (y ∷ ys) a =
      ground (arith, contains-without x ys a, e.beq_iff y x, e.beq_iff y a, e.beq_iff x a)

  -- no element stands twice
  abbrev pub IsNodup : List A → Type 0
  IsNodup [] = Unit
  IsNodup (x ∷ xs) = (contains xs x ≡ false) × IsNodup xs

  pub IsNodup-without : (x : A) (xs : List A) → IsNodup xs → IsNodup (without x xs)
  IsNodup-without x [] h = tt
  IsNodup-without x (y ∷ ys) h = ground (arith, IsNodup-without x ys h.1, contains-without x ys y)

  pub IsNodup-append :
      (xs : List A) (a : A) → contains xs a ≡ false → IsNodup xs → IsNodup (xs ++ a ∷ [])
  IsNodup-append [] a h n = (refl, tt)
  IsNodup-append (x ∷ xs) a h n =
      ground
        (arith, IsNodup-append xs a, contains-append xs (a ∷ []) x, e.beq_iff x a, e.beq_iff a x)

module _ {ℓ} {A : Type ℓ} where
  pub insert_at-length : (xs : List A) (a : A) → insert_at xs (length xs) a ≡ xs ++ a ∷ []
  insert_at-length [] a = refl
  insert_at-length (x ∷ xs) a = ap (λ l. x ∷ l) (insert_at-length xs a)

  pub drop-append_length : (xs ys : List A) → drop (length xs) (xs ++ ys) ≡ ys
  drop-append_length [] ys = refl
  drop-append_length (x ∷ xs) ys = drop-append_length xs ys
