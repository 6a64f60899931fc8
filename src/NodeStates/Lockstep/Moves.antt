-- ===== src/NodeStates/Lockstep/Moves.antt =====
-- Where the owner of a surviving slot id moves when a slot is inserted or removed.
use cognet.Prelude.{
  ℕ, ◌+◌, ◌-◌, ◌≤◌, ◌≡◌, ◌≢◌, ◌&&◌, none, some, List, ◌==◌, arith, if◌then◌else◌, drop, length,
  insert_at, remove_at, insert_at-length, drop-append_length, [], ◌∷◌, nat_eq, ltb, leb,
}
use cognet.HashMap
use cognet.HashMap.{HashMap}
use cognet.ListMap.{push_entry, get_list, get_list-insert, get_list-insert_self}
use cognet.NodePath.{NodePath, path_eq, path_beq_iff}
use cognet.NodeStates.{Owner}
use cognet.NodeStates.Slots.{insert_owners}
use cognet.NodeStates.Lockstep.{id_at, InLockstep}
use cognet.NodeStates.Lockstep.Relist.{Relist-InLockstep}
use cognet.NodeStates.Lockstep.Changes.{
  id_at-insert_at, id_at-remove_at, insert-Relist, remove-Relist, add-Relist,
}

-- the index of a slot of `q` after one is inserted, or removed, at index `i` of `path`
abbrev pub index_up : NodePath → ℕ → NodePath → ℕ → ℕ
index_up path i q j = if (q == path) && leb i j then j + 1 else j

abbrev pub index_down : NodePath → ℕ → NodePath → ℕ → ℕ
index_down path i q j = if (q == path) && ltb i j then j - 1 else j

module _ {ℓ} {S : Type ℓ} (id : S → ℕ) where
  module _ {slots : HashMap NodePath (List S)} {owner : HashMap ℕ Owner} (path : NodePath)
      (w : InLockstep id slots owner) where
    abbrev old : List S
    old = get_list slots path

    -- the owners after `reindex_input_slot_owners` or its mirror, read off the new list
    abbrev reindexed : List S → ℕ → HashMap ℕ Owner → HashMap ℕ Owner
    reindexed l i o =
        insert_owners id path i (drop i (get_list (HashMap.insert slots path l) path)) o

    pub insert-InLockstep :
        (i : ℕ) (s : S)
        → i ≤ length old
        → HashMap.get owner (id s) ≡ none
        → InLockstep id
            (HashMap.insert slots path (insert_at old i s))
            (reindexed (insert_at old i s) i owner)
    insert-InLockstep i s h fresh =
        rw (get_list-insert_self slots path (insert_at old i s))
          (Relist-InLockstep id w (insert-Relist id path w i s h fresh))

    pub remove-InLockstep :
        (i removed : ℕ)
        → id_at id old i ≡ some removed
        → InLockstep id
            (HashMap.insert slots path (remove_at old i))
            (reindexed (remove_at old i) i (HashMap.remove owner removed))
    remove-InLockstep i removed h =
        rw (get_list-insert_self slots path (remove_at old i))
          (Relist-InLockstep id w (remove-Relist id path w i removed h))

    -- at or above the new slot an owner moves up by one
    pub insert_moves :
        (i : ℕ) (s : S) (k : ℕ) (q : NodePath) (j : ℕ)
        → i ≤ length old
        → HashMap.get owner (id s) ≡ none
        → HashMap.get owner k ≡ some (q, j)
        → HashMap.get (reindexed (insert_at old i s) i owner) k ≡ some (q, index_up path i q j)
    insert_moves i s k q j h fresh o =
        let after = insert-InLockstep i s h fresh in
        let target = index_up path i q j in
        ground (
          arith,
          after.at k q target,
          w.at k q j,
          get_list-insert slots path (insert_at old i s) q,
          id_at-insert_at id old i s target h,
          path_beq_iff path q,
          path_beq_iff q path,
        )

    -- above the removed slot an owner moves down by one
    pub remove_moves :
        (i removed : ℕ) (k : ℕ) (q : NodePath) (j : ℕ)
        → id_at id old i ≡ some removed
        → k ≢ removed
        → HashMap.get owner k ≡ some (q, j)
        → HashMap.get (reindexed (remove_at old i) i (HashMap.remove owner removed)) k
          ≡ some (q, index_down path i q j)
    remove_moves i removed k q j h other o =
        let after = remove-InLockstep i removed h in
        let target = index_down path i q j in
        ground (
          arith,
          after.at k q target,
          w.at k q j,
          get_list-insert slots path (remove_at old i) q,
          id_at-remove_at id old i target,
          path_beq_iff path q,
          path_beq_iff q path,
        )

    -- a slot pushed behind the others
    pub push-InLockstep :
        (s : S)
        → HashMap.get owner (id s) ≡ none
        → InLockstep id (push_entry slots path s) (HashMap.insert owner (id s) (path, length old))
    unfolding push_entry insert_owners
    push-InLockstep s fresh =
        rw (insert_at-length old s, drop-append_length old (s ∷ [])) at
          (Relist-InLockstep id w (insert-Relist id path w (length old) s (omega arith) fresh))

    -- the first slots of a node, with fresh ids that differ
    pub add-InLockstep :
        (l : List S)
        → old ≡ []
        → ((k m n : ℕ) → id_at id l m ≡ some k → id_at id l n ≡ some k → m ≡ n)
        → ((k m : ℕ) → id_at id l m ≡ some k → HashMap.get owner k ≡ none)
        → InLockstep id (HashMap.insert slots path l) (insert_owners id path 0 l owner)
    add-InLockstep l bare distinct fresh =
        Relist-InLockstep id w (add-Relist id path w l bare distinct fresh)
