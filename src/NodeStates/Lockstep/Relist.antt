-- ===== src/NodeStates/Lockstep/Relist.antt =====
-- One rule for every operation that gives a node a new list of slots and re-registers the owners
-- from an index on: what has to hold of the new list for the lock-step to be kept.
use cognet.Prelude.{
  ℕ, ◌+◌, ◌≤◌, ◌<◌, ◌≡◌, ◌≢◌, inl, inr, some, List, ◌==◌, arith, if◌then◌else◌, drop, nat_eq,
  Option-cases, Bool-cases, get_elem?-drop, ◌∙◌, ap, ◌-◌,
}
use cognet.HashMap
use cognet.HashMap.{HashMap}
use cognet.ListMap.{get_list, get_list-insert}
use cognet.NodePath.{NodePath, path_eq, path_beq_iff}
use cognet.NodeStates.{Owner}
use cognet.NodeStates.Slots.{insert_owners}
use cognet.NodeStates.Lockstep.{
  id_at, id_at-get_elem?, owner_index, owner_index-some, owner_index-none, get-insert_owners,
  InLockstep,
}

module _ {ℓ} {S : Type ℓ} (id : S → ℕ) where
  pub record Relist (slots : HashMap NodePath (List S)) (owner : HashMap ℕ Owner) (path : NodePath)
      (from : ℕ) (l : List S) (owner' : HashMap ℕ Owner) : Type 0 where
    -- the slots below `from` stay
    pub low : (j : ℕ) → j < from → id_at id l j ≡ id_at id (get_list slots path) j
    -- from `from` on each id stands once, and was no other slot's
    pub once :
        (k m n : ℕ) → from ≤ m → from ≤ n → id_at id l m ≡ some k → id_at id l n ≡ some k → m ≡ n
    pub own :
        (k m : ℕ) (q : NodePath) (j : ℕ)
        → from ≤ m
        → id_at id l m ≡ some k
        → HashMap.get owner k ≡ some (q, j)
        → (q ≡ path) × (from ≤ j)
    -- what the owners lost before are slots of this node from `from` on
    pub sub :
        (k : ℕ) (q : NodePath) (j : ℕ)
        → HashMap.get owner' k ≡ some (q, j)
        → HashMap.get owner k ≡ some (q, j)
    pub keep :
        (k : ℕ) (q : NodePath) (j : ℕ)
        → HashMap.get owner k ≡ some (q, j)
        → (q ≡ path → j < from)
        → HashMap.get owner' k ≡ some (q, j)
    -- a slot that is still owned is still there
    pub high :
        (k j : ℕ)
        → from ≤ j
        → HashMap.get owner' k ≡ some (path, j)
        → id_at id (get_list slots path) j ≡ some k
        → (m : ℕ) × (from ≤ m) × (id_at id l m ≡ some k)

  module _ {slots : HashMap NodePath (List S)} {owner : HashMap ℕ Owner} {path : NodePath}
      {from : ℕ} {l : List S} {owner' : HashMap ℕ Owner} (w : InLockstep id slots owner)
      (r : Relist slots owner path from l owner') where
    abbrev slots_after : HashMap NodePath (List S)
    slots_after = HashMap.insert slots path l

    abbrev owner_after : HashMap ℕ Owner
    owner_after = insert_owners id path from (drop from l) owner'

    id_at-drop : (m : ℕ) → id_at id (drop from l) m ≡ id_at id l (from + m)
    id_at-drop m = id_at-get_elem? id (drop from l) l m (from + m) (get_elem?-drop from l m)

    slots_at : (q : NodePath) → get_list slots_after q ≡ (if path == q then l else get_list slots q)
    slots_at q = get_list-insert slots path l q

    -- the id stands in the part that was registered anew
    registered :
        (k m : ℕ) (q : NodePath) (j : ℕ)
        → from ≤ m
        → id_at id l m ≡ some k
        → id_at id (get_list slots_after q) j ≡ some k
        → (q ≡ path) × (j ≡ m)
    registered k m q j f found h = ground (
      arith,
      slots_at q,
      path_beq_iff path q,
      r.low j,
      w.at k path j,
      w.at k q j,
      r.own k m path j f found,
      r.own k m q j f found,
      r.once k j m,
    )

    no_high :
        (k j : ℕ)
        → ((m : ℕ) → from ≤ m → id_at id l m ≢ some k)
        → from ≤ j
        → HashMap.get owner' k ≡ some (path, j)
        → id_at id (get_list slots path) j ≡ some k
        → ⊥
    no_high k j absent f o h = let (m, g, d) = r.high k j f o h in absent m g d

    -- the id does not stand there
    untouched :
        (k : ℕ) (q : NodePath) (j : ℕ)
        → ((m : ℕ) → from ≤ m → id_at id l m ≢ some k)
        → (HashMap.get owner' k ≡ some (q, j) → id_at id (get_list slots_after q) j ≡ some k)
          × (id_at id (get_list slots_after q) j ≡ some k → HashMap.get owner' k ≡ some (q, j))
    untouched k q j absent = (
      λ h. elim (Bool-cases (path == q)) [
        | inl e ↦
            let same : path ≡ q = (path_beq_iff path q).0 e in
            ground (arith, same, slots_at q, r.sub k q j h, w.at k q j, r.low j, no_high k j absent)
        | inr e ↦ ground (arith, slots_at q, r.sub k q j h, w.at k q j)
      ],
      λ h.
          ground
            (arith, path_beq_iff path q, slots_at q, w.at k q j, r.low j, absent j, r.keep k q j),
    )

    pub Relist-InLockstep : InLockstep id slots_after owner_after
    Relist-InLockstep = record {
      at = λ k q j. elim (Option-cases (owner_index id from (drop from l) k)) [
        | inl e ↦
            let none_above : (m : ℕ) → from ≤ m → id_at id l m ≢ some k = λ m f d.
              owner_index-none id from (drop from l) k (m - from) e
                (id_at-drop (m - from) ∙ ap (λ i. id_at id l i) (omega arith) ∙ d) in
            let (fwd, bwd) = untouched k q j none_above in
            ground (arith, get-insert_owners id path from (drop from l) owner' k, fwd, bwd)
        | inr (m, e) ↦
            let (n, at, d) = owner_index-some id from (drop from l) k m e in
            let found : id_at id l m ≡ some k = ground (arith, id_at-drop n) in
            ground (
              arith,
              get-insert_owners id path from (drop from l) owner' k,
              registered k m q j (omega arith) found,
              slots_at q,
              path_beq_iff path q,
            )
      ];
    }
