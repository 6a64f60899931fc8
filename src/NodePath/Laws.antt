-- ===== src/NodePath/Laws.antt =====
-- `child`, `parent` and `leaf` of src/node_graph/node_path.rs.
use cognet.Prelude.{
  ◌≡◌, ◌↔◌, ◌≢◌, ◌⊎◌, inl, inr, refl, ap, false, ◌&&◌, none, some, List, [], ◌∷◌, ◌++◌, arith, ◌==◌,
  nat_beq_iff, nat_eq,
}
use cognet.NodePath.{
  NodeId, NodePath, root, child, parent, leaf, is_root, is_empty, but_last, last, path_beq_iff,
  path_eq,
}

but_last-append {ℓ} : {A : Type ℓ} (xs : List A) (x : A) → but_last (xs ++ x ∷ []) ≡ xs
but_last-append [] x = refl
but_last-append (y ∷ []) x = refl
but_last-append (y ∷ z ∷ zs) x = ap (λ l. y ∷ l) (but_last-append (z ∷ zs) x)

last-append {ℓ} : {A : Type ℓ} (xs : List A) (x : A) → last (xs ++ x ∷ []) ≡ some x
last-append [] x = refl
last-append (y ∷ []) x = refl
last-append (y ∷ z ∷ zs) x = last-append (z ∷ zs) x

append-ne-nil {ℓ} : {A : Type ℓ} (xs : List A) (x : A) → is_empty (xs ++ x ∷ []) ≡ false
append-ne-nil [] x = refl
append-ne-nil (y ∷ ys) x = refl

pub parent-child : (p : NodePath) (id : NodeId) → parent (child p id) ≡ some p
unfolding parent child
parent-child p id = ground (arith, append-ne-nil p.segments id, but_last-append p.segments id)

pub leaf-child : (p : NodePath) (id : NodeId) → leaf (child p id) ≡ some id
unfolding leaf child
leaf-child p id = last-append p.segments id

pub child-not-root : (p : NodePath) (id : NodeId) → is_root (child p id) ≡ false
unfolding is_root child
child-not-root p id = append-ne-nil p.segments id

pub child-ne-root : (p : NodePath) (id : NodeId) → child p id ≢ root
unfolding is_root root
child-ne-root p id e = cc (child-not-root p id)

pub child_injective : (p q : NodePath) (i j : NodeId) → child p i ≡ child q j → (p ≡ q) × (i ≡ j)
child_injective p q i j e = (
  cc (parent-child p i, parent-child q j, ap parent e),
  cc (leaf-child p i, leaf-child q j, ap leaf e),
)

-- Every path is the root or a child.
snoc-view {ℓ} :
    {A : Type ℓ} (x : A) (xs : List A) → (ys : List A) × (y : A) × (x ∷ xs ≡ ys ++ y ∷ [])
snoc-view x [] = ([], x, refl)
snoc-view x (z ∷ zs) = let (ys, y, e) = snoc-view z zs in (x ∷ ys, y, ap (λ l. x ∷ l) e)

pub path-view : (p : NodePath) → (p ≡ root) ⊎ ((q : NodePath) × (id : NodeId) × (p ≡ child q id))
unfolding root child
path-view p = go p.segments refl
  where
    go :
        (s : List NodeId)
        → p.segments ≡ s
        → (p ≡ root) ⊎ ((q : NodePath) × (id : NodeId) × (p ≡ child q id))
    go [] e = inl (ap (λ (t : List NodeId). record { segments = t }) e)
    go (x ∷ xs) e =
        let (ys, y, h) = snoc-view x xs in
        inr (
          record { segments = ys },
          y,
          ap (λ (t : List NodeId). record { segments = t }) (rw (← h) e),
        )

-- The test on two children compares the parents and the last segments.
pub child-beq : (p q : NodePath) (i j : NodeId) → (child p i == child q j) ≡ ((p == q) && (i == j))
child-beq p q i j = ground (
  arith,
  path_beq_iff (child p i) (child q j),
  path_beq_iff p q,
  nat_beq_iff i j,
  child_injective p q i j,
)

pub child-beq-root : (p : NodePath) (i : NodeId) → (child p i == root) ≡ false
child-beq-root p i = ground (arith, path_beq_iff (child p i) root, child-ne-root p i)

pub parent-root : parent root ≡ none
unfolding parent root
parent-root = refl

pub leaf-root : leaf root ≡ none
unfolding leaf root
leaf-root = refl

-- A path is the child of `q` with the id `id` exactly where its parent is `q` and its leaf `id`.
pub child_iff :
    (p q : NodePath) (id : NodeId) → (p ≡ child q id) ↔ ((parent p ≡ some q) × (leaf p ≡ some id))
child_iff p q id = (
  λ e. rw e (parent-child q id, leaf-child q id),
  λ h. elim (path-view p) [
    | inl e ↦ absurd (cc (leaf-root, ap leaf e, h.1))
    | inr (r, i, e) ↦ cc (parent-child r i, leaf-child r i, ap parent e, ap leaf e, h.0, h.1)
  ],
)
