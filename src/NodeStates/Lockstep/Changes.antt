-- ===== src/NodeStates/Lockstep/Changes.antt =====
-- The changes of a slot list that the operations make, each as an instance of the rule `Relist`:
-- a slot inserted, a slot removed, the first slots of a node; and the removal of a node's slots.
use cognet.Prelude.{
  ℕ, zero, suc, ◌-◌, ◌≤◌, ◌≡◌, ◌≢◌, none, some, List, [], arith, if◌then◌else◌, length, insert_at,
  remove_at, nat_eq, nat_beq, nat_beq_iff, ltb, get_elem?-insert_at, get_elem?-remove_at, true,
}
use cognet.HashMap
use cognet.HashMap.{HashMap, get-remove}
use cognet.ListMap.{get_list, get_list-remove}
use cognet.NodePath.{NodePath, path_eq, path_beq_iff}
use cognet.NodeStates.{Owner}
use cognet.NodeStates.Slots.{remove_owners}
use cognet.NodeStates.Lockstep.{
  id_at, id_at-nil, has_id, has_id-true, id_at-has_id, get-remove_owners, InLockstep,
}
use cognet.NodeStates.Lockstep.Relist.{Relist}

module _ {ℓ} {S : Type ℓ} (id : S → ℕ) where
  pub id_at-insert_at :
      (l : List S) (i : ℕ) (s : S) (j : ℕ)
      → i ≤ length l
      → id_at id (insert_at l i s) j ≡ (
          if ltb j i then id_at id l j else if nat_beq j i then some (id s) else id_at id l (j - 1))
  unfolding id_at
  id_at-insert_at l i s j h = ground (arith, get_elem?-insert_at l i s j h)

  pub id_at-remove_at :
      (l : List S) (i j : ℕ)
      → id_at id (remove_at l i) j ≡ (if ltb j i then id_at id l j else id_at id l (suc j))
  unfolding id_at
  id_at-remove_at l i j = ground (arith, get_elem?-remove_at l i j)

  module _ {slots : HashMap NodePath (List S)} {owner : HashMap ℕ Owner} (path : NodePath)
      (w : InLockstep id slots owner) where
    abbrev old : List S
    old = get_list slots path

    -- a slot with a fresh id, inserted at `i`
    pub insert-Relist :
        (i : ℕ) (s : S)
        → i ≤ length old
        → HashMap.get owner (id s) ≡ none
        → Relist id slots owner path i (insert_at old i s) owner
    insert-Relist i s h fresh = record {
      low = λ j b. ground (arith, id_at-insert_at old i s j h);
      once = λ k m n f g a b. ground (
        arith,
        id_at-insert_at old i s m h,
        id_at-insert_at old i s n h,
        w.at k path (m - 1),
        w.at k path (n - 1),
      );
      own = λ k m q j f a b. ground (arith, id_at-insert_at old i s m h, w.at k path (m - 1));
      sub = λ k q j a. a;
      keep = λ k q j a b. a;
      high = λ k j f a b. (suc j, omega arith, ground (arith, id_at-insert_at old i s (suc j) h));
    }

    -- the slot at `i`, removed
    pub remove-Relist :
        (i removed : ℕ)
        → id_at id old i ≡ some removed
        → Relist id slots owner path i (remove_at old i) (HashMap.remove owner removed)
    remove-Relist i removed h = record {
      low = λ j b. ground (arith, id_at-remove_at old i j);
      once = λ k m n f g a b. ground (
        arith,
        id_at-remove_at old i m,
        id_at-remove_at old i n,
        w.at k path (suc m),
        w.at k path (suc n),
      );
      own = λ k m q j f a b. ground (arith, id_at-remove_at old i m, w.at k path (suc m));
      sub = λ k q j a. ground (arith, get-remove owner removed k);
      keep = λ k q j a b.
          ground (arith, get-remove owner removed k, w.at removed path i, nat_beq_iff removed k);
      high = λ k j f a b. removed_high i removed h k j f a b;
    }
      where
        removed_high :
            (i removed : ℕ)
            → id_at id old i ≡ some removed
            → (k j : ℕ) → i ≤ j
            → HashMap.get (HashMap.remove owner removed) k ≡ some (path, j)
            → id_at id old j ≡ some k
            → (m : ℕ) × (i ≤ m) × (id_at id (remove_at old i) m ≡ some k)
        removed_high i removed h k zero f a b =
            absurd (ground (arith, get-remove owner removed k, nat_beq_iff removed k))
        removed_high i removed h k (suc j) f a b = (
          j,
          ground (arith, get-remove owner removed k, nat_beq_iff removed k, h, b),
          ground
              (arith, id_at-remove_at old i j, get-remove owner removed k, nat_beq_iff removed k),
        )

    -- the slots of a node that had none, with fresh ids that differ
    pub add-Relist :
        (l : List S)
        → old ≡ []
        → ((k m n : ℕ) → id_at id l m ≡ some k → id_at id l n ≡ some k → m ≡ n)
        → ((k m : ℕ) → id_at id l m ≡ some k → HashMap.get owner k ≡ none)
        → Relist id slots owner path 0 l owner
    add-Relist l bare distinct fresh = record {
      low = λ j b. absurd (omega arith);
      once = λ k m n f g a b. distinct k m n a b;
      own = λ k m q j f a b. absurd (ground (arith, fresh k m a));
      sub = λ k q j a. a;
      keep = λ k q j a b. a;
      high = λ k j f a b. absurd (ground (arith, rw bare at b, id_at-nil id j));
    }

    -- All slots of a node go, and their owners.
    pub clear-InLockstep : InLockstep id (HashMap.remove slots path) (remove_owners id old owner)
    clear-InLockstep = record {
      at = λ k q j. ground (
        arith,
        get_list-remove slots path q,
        get-remove_owners id old owner k,
        path_beq_iff path q,
        w.at k q j,
        id_at-nil id j,
        has_id-true id old j k,
        owned k q j,
      );
    }
      where
        owned :
            (k : ℕ) (q : NodePath) (j : ℕ)
            → has_id id old k ≡ true
            → HashMap.get owner k ≡ some (q, j)
            → q ≡ path
        owned k q j h a = let (i, found) = id_at-has_id id old k h in ground (arith, w.at k path i)

-- an owner at another node stays when a node's slots go
pub other_stays {ℓ} :
    {S : Type ℓ} (id : S → ℕ) {slots : HashMap NodePath (List S)} {owner : HashMap ℕ Owner}
    (path : NodePath) (k : ℕ) (q : NodePath) (j : ℕ)
    → InLockstep id slots owner
    → path ≢ q
    → HashMap.get owner k ≡ some (q, j)
    → HashMap.get (remove_owners id (get_list slots path) owner) k ≡ some (q, j)
other_stays id {slots} {owner} path k q j w n h =
    let after = clear-InLockstep id path w in
    ground (arith, w.at k q j, after.at k q j, get_list-remove slots path q, path_beq_iff path q)
