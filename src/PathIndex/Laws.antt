-- ===== src/PathIndex/Laws.antt =====
-- The index of path_index.rs as a set of paths, and the lists that it keeps.
use cognet.Prelude.{
  ◌≡◌, refl, inl, inr, Bool, true, false, not, ◌&&◌, ◌||◌, Option, none, some, List, [], ◌∷◌, ◌++◌,
  arith, ◌==◌, contains, without, contains-append, contains-without, IsNodup, IsNodup-append,
  IsNodup-without, nat_eq, nat_beq_iff, if◌then◌else◌,
}
use cognet.HashMap
use cognet.HashMap.{get-insert, get-remove, get-empty}
use cognet.ListMap.{get_list, get_list-insert, get_list-remove, get_list-none, get_list-some}
use cognet.NodePath.{NodeId, NodePath, root, child, path_eq, path_beq_iff, is_empty}
use cognet.NodePath.Laws.{path-view, parent-child, leaf-child, child-beq, child-beq-root, leaf-root}
use cognet.PathIndex.{PathIndex, default, children_of, insert, insert_child, remove, remove_from}

-- the paths that the index holds
abbrev pub holds : PathIndex → NodePath → NodeId → Bool
holds ix q id = contains (children_of ix q) id

insert-root : (ix : PathIndex) → insert ix root ≡ ix
unfolding insert
insert-root ix = rw leaf-root refl

insert-child :
    (ix : PathIndex) (p : NodePath) (i : NodeId) → insert ix (child p i) ≡ insert_child ix p i
unfolding insert
insert-child ix p i = rw (leaf-child, parent-child) refl

remove-root : (ix : PathIndex) → remove ix root ≡ ix
unfolding remove
remove-root ix = rw leaf-root refl

remove-child :
    (ix : PathIndex) (p : NodePath) (i : NodeId)
    → remove ix (child p i) ≡ remove_from ix p i (HashMap.get ix.by_parent p)
unfolding remove
remove-child ix p i = rw (leaf-child, parent-child) refl

holds-insert_child :
    (ix : PathIndex) (p q : NodePath) (i id : NodeId)
    → holds (insert_child ix p i) q id ≡ (((p == q) && (i == id)) || holds ix q id)
unfolding insert_child children_of
holds-insert_child ix p q i id =
    let entry = get_list ix.by_parent p in
    ground (
      arith,
      get_list-insert ix.by_parent p (if contains entry i then entry else entry ++ i ∷ []) q,
      contains-append entry (i ∷ []) id,
      path_beq_iff p q,
      nat_beq_iff i id,
    )

-- After `insert` the index holds what it held and the inserted path; inserting the root changes
-- nothing.
pub holds-insert :
    (ix : PathIndex) (p q : NodePath) (id : NodeId)
    → holds (insert ix p) q id ≡ ((p == child q id) || holds ix q id)
holds-insert ix p q id = elim (path-view p) [
  | inl r ↦
      rw (r, insert-root)
        (ground (
          arith,
          child-beq-root q id,
          path_beq_iff root (child q id),
          path_beq_iff (child q id) root,
        ))
  | inr (p', i, r) ↦ rw (r, insert-child, child-beq) (holds-insert_child ix p' q i id)
]

-- a list that is tested for `is_empty` holds nothing
contains-empty : (l : List NodeId) (a : NodeId) → is_empty l ≡ true → contains l a ≡ false
contains-empty [] a h = refl
contains-empty (x ∷ xs) a h = cc

holds-remove_from :
    (ix : PathIndex) (p q : NodePath) (i id : NodeId) (o : Option (List NodeId))
    → HashMap.get ix.by_parent p ≡ o
    → holds (remove_from ix p i o) q id ≡ (holds ix q id && not ((p == q) && (i == id)))
unfolding remove_from children_of
holds-remove_from ix p q i id none h =
    ground (arith, path_beq_iff p q, get_list-none ix.by_parent p h)
holds-remove_from ix p q i id (some v) h = ground (
  arith,
  path_beq_iff p q,
  get_list-some ix.by_parent p v h,
  get_list-remove ix.by_parent p q,
  get_list-insert ix.by_parent p (without i v) q,
  contains-without i v id,
  contains-empty (without i v) id,
)

-- After `remove` the index holds what it held less the removed path.
pub holds-remove :
    (ix : PathIndex) (p q : NodePath) (id : NodeId)
    → holds (remove ix p) q id ≡ (holds ix q id && not (p == child q id))
holds-remove ix p q id = elim (path-view p) [
  | inl r ↦
      rw (r, remove-root)
        (ground (
          arith,
          child-beq-root q id,
          path_beq_iff root (child q id),
          path_beq_iff (child q id) root,
        ))
  | inr (p', i, r) ↦
      rw (r, remove-child, child-beq)
        (holds-remove_from ix p' q i id (HashMap.get ix.by_parent p') refl)
]

-- Every list of the index is non-empty and without repetitions.
pub record IsValid (ix : PathIndex) : Type 0 where
  pub at :
      (p : NodePath) (v : List NodeId)
      → HashMap.get ix.by_parent p ≡ some v
      → (is_empty v ≡ false) × IsNodup v

pub default-IsValid : IsValid default
unfolding default
default-IsValid = record { at = λ p v h. cc (get-empty {V = List NodeId} p) }

IsNodup-get_list : (ix : PathIndex) (p : NodePath) → IsValid ix → IsNodup (get_list ix.by_parent p)
IsNodup-get_list ix p h = go (HashMap.get ix.by_parent p) refl
  where
    go :
        (o : Option (List NodeId))
        → HashMap.get ix.by_parent p ≡ o
        → IsNodup (get_list ix.by_parent p)
    go none e = rw (get_list-none ix.by_parent p e) tt
    go (some v) e = rw (get_list-some ix.by_parent p v e) (h.at p v e).1

is_empty-append : (l : List NodeId) (a : NodeId) → is_empty (l ++ a ∷ []) ≡ false
is_empty-append [] a = refl
is_empty-append (x ∷ xs) a = refl

contains-not_empty : (l : List NodeId) (a : NodeId) → contains l a ≡ true → is_empty l ≡ false
contains-not_empty [] a h = cc
contains-not_empty (x ∷ xs) a h = refl

insert_child-IsValid :
    (ix : PathIndex) (p : NodePath) (i : NodeId) → IsValid ix → IsValid (insert_child ix p i)
unfolding insert_child
insert_child-IsValid ix p i h =
    let entry = get_list ix.by_parent p in
    let entry_nodup = IsNodup-get_list ix p h in
    record {
      at = λ q v e. ground (
        arith,
        get-insert ix.by_parent p (if contains entry i then entry else entry ++ i ∷ []) q,
        h.at q v,
        contains-not_empty entry i,
        is_empty-append entry i,
        IsNodup-append entry i,
        entry_nodup,
      );
    }

-- Inserting any path keeps the index valid.
pub insert-IsValid : (ix : PathIndex) (p : NodePath) → IsValid ix → IsValid (insert ix p)
insert-IsValid ix p h = elim (path-view p) [
  | inl r ↦ rw (r, insert-root) h
  | inr (q, i, r) ↦ rw (r, insert-child) (insert_child-IsValid ix q i h)
]

remove_from-IsValid :
    (ix : PathIndex) (p : NodePath) (i : NodeId) (o : Option (List NodeId))
    → HashMap.get ix.by_parent p ≡ o
    → IsValid ix
    → IsValid (remove_from ix p i o)
unfolding remove_from
remove_from-IsValid ix p i none e h = h
remove_from-IsValid ix p i (some l) e h = record {
  at = λ q v g. ground (
    arith,
    get-insert ix.by_parent p (without i l) q,
    get-remove ix.by_parent p q,
    h.at q v,
    h.at p l e,
    IsNodup-without i l,
  );
}

-- Removing any path keeps the index valid.
pub remove-IsValid : (ix : PathIndex) (p : NodePath) → IsValid ix → IsValid (remove ix p)
remove-IsValid ix p h = elim (path-view p) [
  | inl r ↦ rw (r, remove-root) h
  | inr (q, i, r) ↦
      rw (r, remove-child) (remove_from-IsValid ix q i (HashMap.get ix.by_parent q) refl h)
]
