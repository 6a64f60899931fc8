-- ===== src/PathIndex.antt =====
-- src/node_graph/path_index.rs: parent path → ordered ids of its direct children.
pub mod Laws
use cognet.Prelude.{
  Option, none, some, List, [], ◌∷◌, ◌++◌, contains, without, if◌then◌else◌, nat_eq,
}
use mathlib.Core.Option
use cognet.HashMap
use cognet.HashMap.{HashMap}
use cognet.ListMap.{get_list}
use cognet.NodePath
use cognet.NodePath.{NodeId, NodePath, path_eq, is_empty}

pub record PathIndex : Type 0 where
  pub by_parent : HashMap NodePath (List NodeId)

unfoldable pub default : PathIndex
default = record { by_parent = HashMap.empty }

unfoldable pub children_of : PathIndex → NodePath → List NodeId
children_of ix p = get_list ix.by_parent p

-- `entry(parent).or_default()`, then a push unless the id is there
pub insert_child : PathIndex → NodePath → NodeId → PathIndex
insert_child ix parent local =
    let entry = get_list ix.by_parent parent in
    record {
      by_parent =
          HashMap.insert ix.by_parent parent
            (if contains entry local then entry else entry ++ local ∷ []);
    }

insert_leaf : PathIndex → NodePath → Option NodeId → PathIndex
unfolding insert_child
insert_leaf ix p none = ix
insert_leaf ix p (some local) =
    insert_child ix (Option.get_or (NodePath.parent p) NodePath.root) local

unfoldable pub insert : PathIndex → NodePath → PathIndex
unfolding insert_leaf
insert ix p = insert_leaf ix p (NodePath.leaf p)

-- `retain`, and the entry goes when it is left empty
pub remove_from : PathIndex → NodePath → NodeId → Option (List NodeId) → PathIndex
remove_from ix parent local none = ix
remove_from ix parent local (some v) =
    let kept = without local v in
    record {
      by_parent =
          if is_empty kept
          then HashMap.remove ix.by_parent parent
          else HashMap.insert ix.by_parent parent kept;
    }

remove_leaf : PathIndex → Option NodeId → Option NodePath → PathIndex
unfolding remove_from
remove_leaf ix none parent = ix
remove_leaf ix (some local) none = ix
remove_leaf ix (some local) (some parent) =
    remove_from ix parent local (HashMap.get ix.by_parent parent)

unfoldable pub remove : PathIndex → NodePath → PathIndex
unfolding remove_leaf
remove ix p = remove_leaf ix (NodePath.leaf p) (NodePath.parent p)
