-- ===== src/Examples/Paths.antt =====
-- Paths and the path index.
use cognet.Prelude.{◌≡◌, refl, not, ◌&&◌, ◌||◌, some, [], ◌∷◌, ◌==◌, list_beq}
use cognet.HashMap
use cognet.NodePath.{NodePath, root, child, parent, leaf, path_beq, path_eq}
use cognet.ListMap.{get_list}
use cognet.PathIndex.{PathIndex, default, insert, remove, children_of}
use cognet.PathIndex.Laws.{
  holds, holds-insert, holds-remove, IsValid, default-IsValid, insert-IsValid,
}

abbrev a_path : NodePath
unfolding root child
a_path = child (child root 1) 2

parent_test : parent a_path ≡ some (child root 1)
unfolding a_path parent
parent_test = refl

leaf_test : leaf a_path ≡ some 2
unfolding a_path leaf
leaf_test = refl

abbrev an_index : PathIndex
an_index = insert (insert default (child root 1)) a_path

children_test : children_of an_index (child root 1) ≡ 2 ∷ []
unfolding default insert children_of root child parent leaf HashMap.get HashMap.insert HashMap.empty
    path_beq list_beq get_list
children_test = refl

holds-insert_example :
    holds (insert default a_path) (child root 1) 2
    ≡ ((a_path == child (child root 1) 2) || holds default (child root 1) 2)
holds-insert_example = holds-insert default a_path (child root 1) 2

holds-remove_example :
    holds (remove an_index a_path) (child root 1) 2
    ≡ (holds an_index (child root 1) 2 && not (a_path == child (child root 1) 2))
holds-remove_example = holds-remove an_index a_path (child root 1) 2

an_index-IsValid : IsValid an_index
an_index-IsValid =
    insert-IsValid (insert default (child root 1)) a_path
      (insert-IsValid default (child root 1) default-IsValid)

insert-IsValid_example : IsValid (insert an_index (child root 7))
insert-IsValid_example = insert-IsValid an_index (child root 7) an_index-IsValid
