-- ===== src/Bst/Tree/Order.antt =====
-- BST/SequentialBST.cpp: the order of the tree, and `insert` and `search` by recursion.
use zwq_repos.Prelude.{ℕ, ◌≤◌, ◌<◌, ◌≡◌, refl, ◌==◌, ltb, arith, if◌then◌else◌}
use zwq_repos.Bst.Tree.{Tree, leaf, node, insert, split_leaf, contains}

-- Every key of a leaf lies in a range: from `lo` on, below `hi`.
abbrev pub Within : ℕ → ℕ → Tree → Type 0
Within lo hi (leaf d) = (lo ≤ d) × (d < hi)
Within lo hi (node d l r) = (lo ≤ d) × (d < hi) × Within lo d l × Within d hi r

-- The recursion that `insert` amounts to.
pub insert_node :
    (k d : ℕ) (l r : Tree)
    → insert k (node d l r) ≡ (if ltb k d then node d (insert k l) r else node d l (insert k r))
unfolding insert
insert_node k d l r = ground arith

pub insert_leaf : (k d : ℕ) → insert k (leaf d) ≡ split_leaf k (leaf d)
unfolding insert
insert_leaf k d = refl

pub contains_leaf : (k d : ℕ) → contains k (leaf d) ≡ (d == k)
unfolding contains
contains_leaf k d = refl

pub contains_node :
    (k d : ℕ) (l r : Tree)
    → contains k (node d l r) ≡ (if ltb k d then contains k l else contains k r)
unfolding contains
contains_node k d l r = ground arith

-- `insert` keeps the order: keys below a node's key to its left, the others to its right.
pub insert-Within :
    (k lo hi : ℕ) (t : Tree) → lo ≤ k → k < hi → Within lo hi t → Within lo hi (insert k t)
unfolding split_leaf
insert-Within k lo hi (leaf d) a b w = rw (insert_leaf k d) (ground arith)
insert-Within k lo hi (node d l r) a b w =
    rw (insert_node k d l r) (ground (arith, insert-Within k lo d l, insert-Within k d hi r))
