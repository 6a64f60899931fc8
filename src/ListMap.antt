-- ===== src/ListMap.antt =====
-- Maps from a key to a `Vec`, read as the empty list where the key is missing: what
-- `map.get(k).map(|v| v.as_slice()).unwrap_or(&[])` and `map.entry(k).or_default().push(v)` do.
use cognet.Prelude.{
  ◌≡◌, refl, not, ◌&&◌, ◌||◌, none, some, List, [], ◌∷◌, ◌++◌, arith, Eq, ◌==◌, if◌then◌else◌,
  beq_refl, contains, contains-append, without, contains-without,
}
use mathlib.Core.Option
use cognet.HashMap
use cognet.HashMap.{HashMap, get-insert, get-remove, get-update, get-empty}

module _ {ℓ κ} {K : Type ℓ} {V : Type κ} ⦃e : Eq K⦄ where
  unfoldable pub get_list : HashMap K (List V) → K → List V
  get_list m k = Option.get_or (HashMap.get m k) []

  -- m.entry(k).or_default().push(v)
  unfoldable pub push_entry : HashMap K (List V) → K → V → HashMap K (List V)
  push_entry m k v = HashMap.insert m k (get_list m k ++ v ∷ [])

  pub get_list-empty : (k : K) → get_list HashMap.empty k ≡ []
  unfolding get_list
  get_list-empty k = rw (get-empty {V = List V} k)

  pub get_list-insert :
      (m : HashMap K (List V)) (k : K) (v : List V) (j : K)
      → get_list (HashMap.insert m k v) j ≡ (if k == j then v else get_list m j)
  unfolding get_list
  get_list-insert m k v j = ground (arith, get-insert m k v j)

  pub get_list-insert_self :
      (m : HashMap K (List V)) (k : K) (v : List V) → get_list (HashMap.insert m k v) k ≡ v
  get_list-insert_self m k v = ground (arith, get_list-insert m k v k, beq_refl k)

  pub get_list-remove :
      (m : HashMap K (List V)) (k j : K)
      → get_list (HashMap.remove m k) j ≡ (if k == j then [] else get_list m j)
  unfolding get_list
  get_list-remove m k j = ground (arith, get-remove m k j)

  -- an update by a function that keeps the empty list
  pub get_list-update :
      (m : HashMap K (List V)) (k : K) (f : List V → List V) (j : K)
      → f [] ≡ []
      → get_list (HashMap.update m k f) j ≡ (if k == j then f (get_list m j) else get_list m j)
  unfolding get_list
  get_list-update m k f j h = ground (arith, get-update m k f j)

  pub get_list-push_entry :
      (m : HashMap K (List V)) (k : K) (v : V) (j : K)
      → get_list (push_entry m k v) j ≡ (if k == j then get_list m j ++ v ∷ [] else get_list m j)
  unfolding push_entry
  get_list-push_entry m k v j =
      ground (arith, get_list-insert m k (get_list m k ++ v ∷ []) j, e.beq_iff k j)

module _ {ℓ κ} {K : Type ℓ} {V : Type κ} ⦃e : Eq K⦄ ⦃d : Eq V⦄ where
  pub contains-push_entry :
      (m : HashMap K (List V)) (k : K) (v : V) (j : K) (w : V)
      → contains (get_list (push_entry m k v) j) w
        ≡ (((k == j) && (v == w)) || contains (get_list m j) w)
  contains-push_entry m k v j w =
      ground (arith, get_list-push_entry m k v j, contains-append (get_list m j) (v ∷ []) w)

  -- if let Some(l) = m.get_mut(k) { l.retain(|x| x != v) }
  unfoldable pub retain_entry : HashMap K (List V) → K → V → HashMap K (List V)
  retain_entry m k v = HashMap.update m k (without v)

  pub get_list-retain_entry :
      (m : HashMap K (List V)) (k : K) (v : V) (j : K)
      → get_list (retain_entry m k v) j
        ≡ (if k == j then without v (get_list m j) else get_list m j)
  unfolding retain_entry
  get_list-retain_entry m k v j = get_list-update m k (without v) j refl

  pub contains-retain_entry :
      (m : HashMap K (List V)) (k : K) (v : V) (j : K) (w : V)
      → contains (get_list (retain_entry m k v) j) w
        ≡ (contains (get_list m j) w && not ((k == j) && (v == w)))
  contains-retain_entry m k v j w =
      ground (arith, get_list-retain_entry m k v j, contains-without v (get_list m j) w)

module _ {ℓ κ} {K : Type ℓ} {V : Type κ} ⦃e : Eq K⦄ where
  pub get_list-none : (m : HashMap K (List V)) (k : K) → HashMap.get m k ≡ none → get_list m k ≡ []
  unfolding get_list
  get_list-none m k h = rw h

  pub get_list-some :
      (m : HashMap K (List V)) (k : K) (v : List V) → HashMap.get m k ≡ some v → get_list m k ≡ v
  unfolding get_list
  get_list-some m k v h = rw h
