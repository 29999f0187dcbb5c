-- ===== src/Bst/Tree/Examples.antt =====
-- BST/SequentialBST.cpp and BST/STMbst.cpp: runs, and the theorems at concrete trees.
use zwq_repos.Prelude.{ℕ, ◌^◌, ◌≡◌, refl, ◌||◌, List, [], ◌∷◌, arith, has}
use zwq_repos.Bst.Tree.{Tree, leaf, node, insert, contains, preorder, new_tree, at, inf1, inf2}
use zwq_repos.Bst.Tree
use zwq_repos.Bst.Tree.Order.{Within}
use zwq_repos.Bst.Tree.Laws.{
  insert_sorted, IsAscending, insert_all, insert_refines, contains-preorder, contains-insert_all,
}
use zwq_repos.Bst.Tree.Stm
use zwq_repos.Bst.Tree.Stm.{IsLinked, search_lem, insert_sequential}

-- `populateSeqTree`
abbrev vals : List ℕ
vals = 6 ∷ 10 ∷ 7 ∷ 9 ∷ 14 ∷ 3 ∷ []

populated :
    preorder (insert_all vals new_tree) ≡ 3 ∷ 6 ∷ 7 ∷ 9 ∷ 10 ∷ 14 ∷ 4294967294 ∷ 4294967295 ∷ []
unfolding preorder insert
populated = refl

shape :
    insert 6 (insert 10 new_tree)
    ≡ node 4294967295
        (node 4294967294 (node 10 (leaf 6) (leaf 10)) (leaf 4294967294))
        (leaf 4294967295)
unfolding insert
shape = refl

insert_refines_example :
    Within 0 (2 ^ 32) (insert 6 new_tree)
    × (preorder (insert 6 new_tree) ≡ insert_sorted 6 (preorder new_tree))
    × IsAscending (preorder (insert 6 new_tree))
insert_refines_example = insert_refines 6 new_tree (omega arith) (omega arith)

printed_found : contains 6 new_tree ≡ has 6 (preorder new_tree)
printed_found = contains-preorder 6 0 (2 ^ 32) new_tree (omega arith)

contains-insert_all_example :
    contains 9 (insert_all vals new_tree) ≡ (has 9 vals || contains 9 new_tree)
contains-insert_all_example = contains-insert_all 9 vals new_tree (omega arith) (omega arith)

searched :
    IsLinked 6 (Stm.search 6 new_tree)
    × ((Stm.search 6 new_tree).2 ≡ at (Tree.search 6 new_tree) new_tree)
searched = search_lem 6 inf2 (leaf inf1) (leaf inf2)
