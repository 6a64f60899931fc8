-- ===== src/NodePath.antt =====
-- src/node_graph/node_path.rs: the hierarchical identity of a node. Ids are ULIDs, numbers of
-- 128 bits that the code only compares; `Arc<[NodeId]>` is the list of the segments.
pub mod Laws
pub mod Display
use cognet.Prelude.{
  ℕ, ◌≡◌, ◌↔◌, refl, ap, Bool, true, false, Option, none, some, List, [], ◌∷◌, ◌++◌, Eq, list_beq,
  list_beq_iff, nat_eq, if◌then◌else◌,
}
use mathlib.Core.Option

abbrev pub NodeId : Type 0
NodeId = ℕ

pub record NodePath : Type 0 where
  pub segments : List NodeId

unfoldable pub root : NodePath
root = record { segments = [] }

unfoldable pub child : NodePath → NodeId → NodePath
child p id = record { segments = p.segments ++ id ∷ [] }

-- `slice::is_empty`
abbrev pub is_empty {ℓ} : {A : Type ℓ} → List A → Bool
is_empty [] = true
is_empty (x ∷ xs) = false

-- segments[..segments.len() - 1]
abbrev pub but_last {ℓ} : {A : Type ℓ} → List A → List A
but_last [] = []
but_last (x ∷ []) = []
but_last (x ∷ y ∷ ys) = x ∷ but_last (y ∷ ys)

-- segments.last()
abbrev pub last {ℓ} : {A : Type ℓ} → List A → Option A
last [] = none
last (x ∷ []) = some x
last (x ∷ y ∷ ys) = last (y ∷ ys)

unfoldable pub is_root : NodePath → Bool
is_root p = is_empty p.segments

unfoldable pub parent : NodePath → Option NodePath
parent p = if is_empty p.segments then none else some (record { segments = but_last p.segments })

unfoldable pub leaf : NodePath → Option NodeId
leaf p = last p.segments

-- the derived `PartialEq`
unfoldable pub path_beq : NodePath → NodePath → Bool
path_beq p q = list_beq p.segments q.segments

pub path_beq_iff : (p q : NodePath) → (path_beq p q ≡ true) ↔ (p ≡ q)
unfolding path_beq
path_beq_iff p q = (
  λ h. ap (λ (s : List NodeId). record { segments = s }) ((list_beq_iff p.segments q.segments).0 h),
  λ e. (list_beq_iff p.segments q.segments).1 (ap (λ (r : NodePath). r.segments) e),
)

instance abbrev pub path_eq : Eq NodePath
path_eq = record { beq = path_beq; beq_iff = path_beq_iff }
