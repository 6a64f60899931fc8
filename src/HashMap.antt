-- ===== src/HashMap.antt =====
-- `std::collections::HashMap`: an association list in which a write takes the place of the
-- earlier entries of its key. The order of the entries is an iteration order; no law below
-- mentions it. Clients prove with `map_laws` and leave the representation shut.
use cognet.Prelude.{
  ℕ, length, ◌≡◌, refl, inl, inr, Bool, false, not, ◌&&◌, Option, none, some, List, [], ◌∷◌, arith,
  Eq, ◌==◌, if◌then◌else◌, contains, retain, IsNodup, Bool-cases, Option-cases, beq_refl,
}
use mathlib.Core.Option

pub record HashMap {ℓ κ} (K : Type ℓ) (V : Type κ) : Type (ℓ ⊔ κ) where
  pub entries : List (K × V)

module _ {ℓ κ} {K : Type ℓ} {V : Type κ} where
  unfoldable pub empty : HashMap K V
  empty = record { entries = [] }

  -- `values_mut` with a body that rewrites each value
  map_entries {μ} : {W : Type μ} → (V → W) → List (K × V) → List (K × W)
  map_entries f [] = []
  map_entries f ((k, v) ∷ l) = (k, f v) ∷ map_entries f l

  unfoldable pub map_values {μ} : {W : Type μ} → (V → W) → HashMap K V → HashMap K W
  unfolding map_entries
  map_values f m = record { entries = map_entries f m.entries }

-- m.len()
unfoldable pub len {ℓ κ} : {K : Type ℓ} {V : Type κ} → HashMap K V → ℕ
len m = length m.entries

module _ {ℓ κ} {K : Type ℓ} {V : Type κ} ⦃e : Eq K⦄ where
  lookup : K → List (K × V) → Option V
  lookup k [] = none
  lookup k ((j, v) ∷ l) = if j == k then some v else lookup k l

  drop_key : K → List (K × V) → List (K × V)
  drop_key k [] = []
  drop_key k ((j, v) ∷ l) = let rest = drop_key k l in if j == k then rest else (j, v) ∷ rest

  -- m.get(k)
  unfoldable pub get : HashMap K V → K → Option V
  unfolding lookup
  get m k = lookup k m.entries

  -- m.remove(k)
  unfoldable pub remove : HashMap K V → K → HashMap K V
  unfolding drop_key
  remove m k = record { entries = drop_key k m.entries }

  -- m.insert(k, v)
  unfoldable pub insert : HashMap K V → K → V → HashMap K V
  unfolding drop_key
  insert m k v = record { entries = (k, v) ∷ drop_key k m.entries }

  -- `if let Some(v) = m.get_mut(k) { *v = f(v) }`
  store_over : HashMap K V → K → (V → V) → Option V → HashMap K V
  store_over m k f none = m
  store_over m k f (some v) = insert m k (f v)

  unfoldable pub update : HashMap K V → K → (V → V) → HashMap K V
  unfolding store_over get insert
  update m k f = store_over m k f (get m k)

  keys_of : List (K × V) → List K
  keys_of [] = []
  keys_of ((k, v) ∷ l) = k ∷ keys_of l

  -- m.iter().filter(|(k, v)| p(k, v)).map(|(k, _)| k): each key with the value that it has
  test_at : (K → V → Bool) → K → Option V → Bool
  test_at p k none = false
  test_at p k (some v) = p k v

  unfoldable pub keys_where : (K → V → Bool) → HashMap K V → List K
  unfolding keys_of test_at get
  keys_where p m = retain (λ k. test_at p k (get m k)) (keys_of m.entries)

  -- ks.for_each(|k| m.remove(k))
  unfoldable pub remove_all : HashMap K V → List K → HashMap K V
  unfolding remove
  remove_all m [] = m
  remove_all m (k ∷ ks) = remove_all (remove m k) ks

  -- m.retain(|k, v| p(k, v))
  unfoldable pub retain_if : (K → V → Bool) → HashMap K V → HashMap K V
  unfolding keys_where remove_all
  retain_if p m = remove_all m (keys_where (λ k v. not (p k v)) m)

  lookup-drop_key :
      (k j : K) (l : List (K × V)) → lookup j (drop_key k l) ≡ (if k == j then none else lookup j l)
  unfolding lookup drop_key
  lookup-drop_key k j [] = ground arith
  lookup-drop_key k j ((i, v) ∷ l) =
      ground (arith, lookup-drop_key k j l, e.beq_iff i k, e.beq_iff i j, e.beq_iff k j)

  pub get-remove :
      (m : HashMap K V) (k j : K) → get (remove m k) j ≡ (if k == j then none else get m j)
  unfolding get remove
  get-remove m k j = lookup-drop_key k j m.entries

  pub get-insert :
      (m : HashMap K V) (k : K) (v : V) (j : K)
      → get (insert m k v) j ≡ (if k == j then some v else get m j)
  unfolding get insert lookup
  get-insert m k v j = ground (arith, lookup-drop_key k j m.entries)

  get-store_over :
      (m : HashMap K V) (k : K) (f : V → V) (j : K) (o : Option V)
      → get m k ≡ o
      → get (store_over m k f o) j ≡ (if k == j then Option.map f (get m j) else get m j)
  unfolding store_over
  get-store_over m k f j none h = ground (arith, e.beq_iff k j)
  get-store_over m k f j (some v) h = ground (arith, get-insert m k (f v) j, e.beq_iff k j)

  pub get-update :
      (m : HashMap K V) (k : K) (f : V → V) (j : K)
      → get (update m k f) j ≡ (if k == j then Option.map f (get m j) else get m j)
  unfolding update store_over
  get-update m k f j = get-store_over m k f j (get m k) refl

  pub get-empty : (k : K) → get (empty {K = K} {V = V}) k ≡ none
  unfolding get empty
  get-empty k = refl

pub contains-retain {ℓ} :
    {K : Type ℓ} ⦃e : Eq K⦄ (p : K → Bool) (l : List K) (k : K)
    → contains (retain p l) k ≡ (contains l k && p k)
contains-retain p [] k = refl
contains-retain ⦃e⦄ p (x ∷ xs) k = elim (Bool-cases (x == k)) [
  | inl h ↦ rw ((e.beq_iff x k).0 h) (ground (arith, contains-retain p xs k, beq_refl k))
  | inr h ↦ ground (arith, contains-retain p xs k)
]

IsNodup-retain {ℓ} :
    {K : Type ℓ} ⦃e : Eq K⦄ (p : K → Bool) (l : List K) → IsNodup l → IsNodup (retain p l)
IsNodup-retain p [] h = tt
IsNodup-retain p (x ∷ xs) h = ground (arith, IsNodup-retain p xs h.1, contains-retain p xs x)

module _ {ℓ κ} {K : Type ℓ} {V : Type κ} ⦃e : Eq K⦄ where
  -- whether the key is there and its value passes the test
  abbrev pub holds_at : (K → V → Bool) → HashMap K V → K → Bool
  holds_at p m k = elim (get m k) [ none ↦ false | some v ↦ p k v ]

  test_at-lookup :
      (p : K → V → Bool) (l : List (K × V)) (k : K)
      → (contains (keys_of l) k && test_at p k (lookup k l)) ≡ test_at p k (lookup k l)
  unfolding keys_of lookup test_at
  test_at-lookup p [] k = refl
  test_at-lookup p ((j, v) ∷ l) k = ground (arith, test_at-lookup p l k)

  pub contains-keys_where :
      (p : K → V → Bool) (m : HashMap K V) (k : K) → contains (keys_where p m) k ≡ holds_at p m k
  unfolding keys_where
  contains-keys_where p m k = ground (
    arith,
    contains-retain (λ j. test_at p j (lookup j m.entries)) (keys_of m.entries) k,
    test_at-lookup p m.entries k,
  )

  pub get-remove_all :
      (ks : List K) (m : HashMap K V) (k : K)
      → get (remove_all m ks) k ≡ (if contains ks k then none else get m k)
  unfolding remove_all
  get-remove_all [] m k = refl
  get-remove_all (j ∷ js) m k = ground (arith, get-remove_all js (remove m j) k, get-remove m j k)

  pub get-retain_if :
      (p : K → V → Bool) (m : HashMap K V) (k : K)
      → get (retain_if p m) k ≡ (if holds_at p m k then get m k else none)
  unfolding retain_if
  get-retain_if p m k = ground (
    arith,
    get-remove_all (keys_where (λ k v. not (p k v)) m) m k,
    contains-keys_where (λ k v. not (p k v)) m k,
  )

lookup-map_entries {ℓ κ μ} :
    {K : Type ℓ} {V : Type κ} ⦃e : Eq K⦄ {W : Type μ} (f : V → W) (k : K) (l : List (K × V))
    → lookup k (map_entries f l) ≡ Option.map f (lookup k l)
unfolding lookup map_entries
lookup-map_entries f k [] = refl
lookup-map_entries f k ((j, v) ∷ l) = ground (arith, lookup-map_entries f k l)

pub get-map_values {ℓ κ μ} :
    {K : Type ℓ} {V : Type κ} ⦃e : Eq K⦄ {W : Type μ} (f : V → W) (m : HashMap K V) (k : K)
    → get (map_values f m) k ≡ Option.map f (get m k)
unfolding get map_values
get-map_values f m k = lookup-map_entries f k m.entries

pub ruleset map_laws = (get-empty, get-remove, get-insert, get-update, get-map_values)

-- a value of a mapped map is the image of a value
pub get-map_values_inv {ℓ κ μ} :
    {K : Type ℓ} {V : Type κ} ⦃e : Eq K⦄ {W : Type μ} (f : V → W) (m : HashMap K V) (k : K) {w : W}
    → get (map_values f m) k ≡ some w
    → (v : V) × (get m k ≡ some v) × (w ≡ f v)
get-map_values_inv f m k h = elim (Option-cases (get m k)) [
  | inl e ↦ absurd (ground (arith, get-map_values f m k))
  | inr (v, e) ↦ (v, e, ground (arith, get-map_values f m k))
]

module _ {ℓ κ} {K : Type ℓ} {V : Type κ} ⦃e : Eq K⦄ where
  -- no key stands twice among the entries
  pub record IsKeyed (m : HashMap K V) : Type ℓ where
    keys : IsNodup (keys_of m.entries)

  contains-drop_key :
      (k j : K) (l : List (K × V))
      → contains (keys_of (drop_key k l)) j ≡ (contains (keys_of l) j && not (k == j))
  unfolding keys_of drop_key
  contains-drop_key k j [] = refl
  contains-drop_key k j ((i, v) ∷ l) =
      ground (arith, contains-drop_key k j l, e.beq_iff i k, e.beq_iff i j, e.beq_iff k j)

  IsNodup-drop_key :
      (k : K) (l : List (K × V)) → IsNodup (keys_of l) → IsNodup (keys_of (drop_key k l))
  unfolding keys_of drop_key
  IsNodup-drop_key k [] h = tt
  IsNodup-drop_key k ((i, v) ∷ l) h =
      ground (arith, IsNodup-drop_key k l h.1, contains-drop_key k i l)

  pub empty-IsKeyed : IsKeyed (empty {K = K} {V = V})
  unfolding empty keys_of
  empty-IsKeyed = record { keys = tt }

  pub insert-IsKeyed : (m : HashMap K V) (k : K) (v : V) → IsKeyed m → IsKeyed (insert m k v)
  unfolding insert keys_of
  insert-IsKeyed m k v w = record {
    keys = (
      ground (arith, contains-drop_key k k m.entries, beq_refl k),
      IsNodup-drop_key k m.entries w.keys,
    );
  }

  pub IsNodup-keys_where :
      (p : K → V → Bool) (m : HashMap K V) → IsKeyed m → IsNodup (keys_where p m)
  unfolding keys_where
  IsNodup-keys_where p m w = IsNodup-retain (λ k. test_at p k (get m k)) (keys_of m.entries) w.keys
