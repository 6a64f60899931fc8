-- ===== src/NodeStates/Consistent/Fresh.antt =====
-- Slots whose ids are new: what a node's first slots do to the lock-step.
use cognet.Prelude.{ℕ, zero, suc, ◌+◌, ◌≡◌, refl, Option, none, some, List, [], ◌∷◌, arith, nat_eq}
use cognet.HashMap
use cognet.HashMap.{HashMap}
use cognet.ListMap.{get_list}
use cognet.NodePath.{NodePath, path_eq}
use cognet.NodeStates.{SlotDef, Owner}
use cognet.NodeStates.Slots.{input_id, output_id, insert_owners}
use cognet.NodeStates.Nodes.{input_states, output_states}
use cognet.NodeStates.Lockstep.{id_at, InLockstep, owner_index, owner_index-some, get-insert_owners}
use cognet.NodeStates.Lockstep.Moves.{add-InLockstep}

-- What the code relies on of `InputSlotId::new()`: a ULID that was not in use, each time another.
pub record IsFresh (owner : HashMap ℕ Owner) (ids : ℕ → ℕ) : Type 0 where
  pub unused : (i : ℕ) → HashMap.get owner (ids i) ≡ none
  pub distinct : (i j : ℕ) → ids i ≡ ids j → i ≡ j

module _ (F : Type 0) where
  pub id_at-input_states :
      (ids : ℕ → ℕ) (i : ℕ) (defs : List SlotDef) (m k : ℕ)
      → id_at (input_id {F = F}) (input_states ids i defs) m ≡ some k
      → k ≡ ids (i + m)
  unfolding id_at input_states
  id_at-input_states ids i [] m k h = absurd (cc h)
  id_at-input_states ids i (def ∷ defs) zero k h =
      let e : i + 0 ≡ i = omega arith in rw e (ground arith)
  id_at-input_states ids i (def ∷ defs) (suc m) k h =
      let e : i + suc m ≡ suc i + m = omega arith in
      rw e (id_at-input_states ids (suc i) defs m k h)

pub id_at-output_states :
    (ids : ℕ → ℕ) (i : ℕ) (defs : List SlotDef) (m k : ℕ)
    → id_at output_id (output_states ids i defs) m ≡ some k
    → k ≡ ids (i + m)
unfolding id_at output_states
id_at-output_states ids i [] m k h = absurd (cc h)
id_at-output_states ids i (def ∷ defs) zero k h =
    let e : i + 0 ≡ i = omega arith in rw e (ground arith)
id_at-output_states ids i (def ∷ defs) (suc m) k h =
    let e : i + suc m ≡ suc i + m = omega arith in rw e (id_at-output_states ids (suc i) defs m k h)

module _ {ℓ} {S : Type ℓ} (id : S → ℕ) where
  -- slots whose ids come from a fresh supply
  abbrev pub FromSupply : (ℕ → ℕ) → List S → Type 0
  FromSupply ids l = (m k : ℕ) → id_at id l m ≡ some k → k ≡ ids (0 + m)

  pub supply-InLockstep :
      {slots : HashMap NodePath (List S)} {owner : HashMap ℕ Owner} (path : NodePath) (ids : ℕ → ℕ)
      (l : List S)
      → InLockstep id slots owner
      → get_list slots path ≡ []
      → IsFresh owner ids
      → FromSupply ids l
      → InLockstep id (HashMap.insert slots path l) (insert_owners id path 0 l owner)
  supply-InLockstep path ids l w bare f given =
      add-InLockstep id path w l bare
        (λ k m n a b. ground (arith, given m k a, given n k b, f.distinct (0 + m) (0 + n)))
        (λ k m a. ground (arith, given m k a, f.unused (0 + m)))

  -- an owner that is there stays
  pub supply_keeps :
      {owner : HashMap ℕ Owner} (path : NodePath) (ids : ℕ → ℕ) (l : List S) (k : ℕ) (o : Owner)
      → IsFresh owner ids
      → FromSupply ids l
      → HashMap.get owner k ≡ some o
      → HashMap.get (insert_owners id path 0 l owner) k ≡ some o
  supply_keeps {owner} path ids l k o f given h = go (owner_index id 0 l k) refl
    where
      go :
          (x : Option ℕ)
          → owner_index id 0 l k ≡ x
          → HashMap.get (insert_owners id path 0 l owner) k ≡ some o
      go none e = ground (arith, get-insert_owners id path 0 l owner k)
      go (some j) e =
          let (m, at, found) = owner_index-some id 0 l k j e in
          absurd (ground (arith, given m k found, f.unused (0 + m)))
