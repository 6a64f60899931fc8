-- ===== src/NodeStates/Lockstep.antt =====
-- The slots of the nodes and the map from a slot id to its owner, in lock-step: what
-- src/node_graph/node_state.rs promises of `input_slot_owner` and `output_slot_owner`. The slot
-- type is a parameter, so one proof serves both sides.
pub mod Relist
pub mod Changes
pub mod Moves
use cognet.Prelude.{
  ℕ, zero, suc, ◌+◌, ◌≡◌, ◌≢◌, ◌↔◌, inl, inr, refl, Bool, Option, none, some, List, [], ◌∷◌, ◌==◌,
  arith, if◌then◌else◌, get_elem?, nat_eq, nat_beq_iff, Option-cases, Bool-cases, true, false, ◌||◌,
}
use mathlib.Core.Option
use cognet.HashMap
use cognet.HashMap.{HashMap, get-insert, get-remove}
use cognet.ListMap.{get_list}
use cognet.NodePath.{NodePath, path_eq}
use cognet.NodeStates.{Owner}
use cognet.NodeStates.Slots.{insert_owners, remove_owners}

module _ {ℓ} {S : Type ℓ} (id : S → ℕ) where
  -- the id of the slot at an index
  unfoldable pub id_at : List S → ℕ → Option ℕ
  id_at l i = Option.map id (get_elem? l i)

  pub id_at-nil : (i : ℕ) → id_at [] i ≡ none
  unfolding id_at
  id_at-nil i = refl

  pub id_at-get_elem? :
      (l l' : List S) (i j : ℕ) → get_elem? l i ≡ get_elem? l' j → id_at l i ≡ id_at l' j
  unfolding id_at
  id_at-get_elem? l l' i j e = rw e

  -- the last index, counted from `i`, at which the list has the id
  pub owner_index : ℕ → List S → ℕ → Option ℕ
  owner_index i [] k = none
  owner_index i (s ∷ ss) k =
      let rest = owner_index (suc i) ss k in
      elim rest [ some j ↦ some j | none ↦ if id s == k then some i else none ]

  abbrev or_owner : NodePath → Option ℕ → Option Owner → Option Owner
  or_owner path none o = o
  or_owner path (some j) o = some (path, j)

  pub get-insert_owners :
      (path : NodePath) (i : ℕ) (l : List S) (owner : HashMap ℕ Owner) (k : ℕ)
      → HashMap.get (insert_owners id path i l owner) k
        ≡ or_owner path (owner_index i l k) (HashMap.get owner k)
  unfolding insert_owners owner_index
  get-insert_owners path i [] owner k = refl
  get-insert_owners path i (s ∷ ss) owner k = ground (
    arith,
    get-insert_owners path (suc i) ss (HashMap.insert owner (id s) (path, i)) k,
    get-insert owner (id s) (path, i) k,
  )

  pub owner_index-some :
      (i : ℕ) (l : List S) (k j : ℕ)
      → owner_index i l k ≡ some j
      → (m : ℕ) × (j ≡ i + m) × (id_at l m ≡ some k)
  unfolding owner_index id_at
  owner_index-some i [] k j h = absurd (cc h)
  owner_index-some i (s ∷ ss) k j h = elim (Option-cases (owner_index (suc i) ss k)) [
    | inl e ↦ (0, ground arith, ground (arith, nat_beq_iff (id s) k))
    | inr (n, e) ↦
        let (m, at, found) = owner_index-some (suc i) ss k n e in (suc m, ground arith, found)
  ]

  pub owner_index-none :
      (i : ℕ) (l : List S) (k j : ℕ) → owner_index i l k ≡ none → id_at l j ≢ some k
  unfolding owner_index id_at
  owner_index-none i [] k j h = cc
  owner_index-none i (s ∷ ss) k zero h = ground (arith, nat_beq_iff (id s) k)
  owner_index-none i (s ∷ ss) k (suc j) h = ground (arith, owner_index-none (suc i) ss k j)

  -- whether a slot has the id
  pub has_id : List S → ℕ → Bool
  has_id [] k = false
  has_id (s ∷ ss) k = (id s == k) || has_id ss k

  pub has_id-true : (l : List S) (i k : ℕ) → id_at l i ≡ some k → has_id l k ≡ true
  unfolding has_id id_at
  has_id-true [] i k h = absurd (cc h)
  has_id-true (s ∷ ss) zero k h = ground (arith, nat_beq_iff (id s) k)
  has_id-true (s ∷ ss) (suc i) k h = ground (arith, has_id-true ss i k)

  pub id_at-has_id : (l : List S) (k : ℕ) → has_id l k ≡ true → (i : ℕ) × (id_at l i ≡ some k)
  unfolding has_id id_at
  id_at-has_id [] k h = absurd (cc h)
  id_at-has_id (s ∷ ss) k h = elim (Bool-cases (id s == k)) [
    | inl e ↦ (0, ground (arith, nat_beq_iff (id s) k))
    | inr e ↦ let (i, found) = id_at-has_id ss k (ground arith) in (suc i, found)
  ]

  pub get-remove_owners :
      (l : List S) (owner : HashMap ℕ Owner) (k : ℕ)
      → HashMap.get (remove_owners id l owner) k
        ≡ (if has_id l k then none else HashMap.get owner k)
  unfolding remove_owners has_id
  get-remove_owners [] owner k = refl
  get-remove_owners (s ∷ ss) owner k =
      ground
        (arith, get-remove_owners ss (HashMap.remove owner (id s)) k, get-remove owner (id s) k)

  -- A slot id is owned by a path and an index exactly where the slot with that id stands.
  pub record InLockstep (slots : HashMap NodePath (List S)) (owner : HashMap ℕ Owner) : Type 0 where
    pub at :
        (k : ℕ) (p : NodePath) (i : ℕ)
        → (HashMap.get owner k ≡ some (p, i)) ↔ (id_at (get_list slots p) i ≡ some k)
