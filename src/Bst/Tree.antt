-- ===== src/Bst/Tree.antt =====
-- BST/BSTclass.h, BST/BSTclass.cpp and BST/SequentialBST.cpp: a search tree whose keys stand in the
-- leaves, used by one thread. No two pointers lead to one node, so a tree is a value and a pointer
-- into it is the path from the root. An `int` is its distance from INT_MIN, which keeps the order.
pub mod Order
pub mod Laws
pub mod Stm
mod Examples
use zwq_repos.Prelude.{
  ℕ, ◌-◌, ◌^◌, Bool, true, false, List, [], ◌∷◌, ◌++◌, ◌==◌, ltb, if◌then◌else◌,
}

-- `treeNode`: `isLeaf` tells the constructors apart.
pub data Tree : Type 0 where
  leaf : ℕ → Tree
  node : ℕ → Tree → Tree → Tree

-- `INT_MAX - 1` and `INT_MAX`
abbrev pub inf1 : ℕ
inf1 = 2 ^ 32 - 2

abbrev pub inf2 : ℕ
inf2 = 2 ^ 32 - 1

-- The constructor of `BST`.
abbrev pub new_tree : Tree
new_tree = node inf2 (leaf inf1) (leaf inf2)

pub data Direction : Type 0 where
  left right : Direction

abbrev pub key : Tree → ℕ
key (leaf d) = d
key (node d l r) = d

-- The descent of `search`: the path from the root to the leaf `l`.
unfoldable pub search : ℕ → Tree → List Direction
search k (leaf d) = []
search k (node d l r) = elim (ltb k d) [ true ↦ left ∷ search k l | false ↦ right ∷ search k r ]

-- The node at a path.
abbrev pub at : List Direction → Tree → Tree
at [] t = t
at (left ∷ p) (node d l r) = at p l
at (right ∷ p) (node d l r) = at p r
at (_ ∷ p) (leaf d) = leaf d

-- A write through the pointer with this path.
abbrev pub write_at : List Direction → (Tree → Tree) → Tree → Tree
write_at [] f t = f t
write_at (left ∷ p) f (node d l r) = node d (write_at p f l) r
write_at (right ∷ p) f (node d l r) = node d l (write_at p f r)
write_at (_ ∷ p) f (leaf d) = leaf d

abbrev pub max : ℕ → ℕ → ℕ
max a b = if ltb a b then b else a

-- `SequentialBST::insert` at the leaf that the search found: it becomes an internal node.
unfoldable pub split_leaf : ℕ → Tree → Tree
split_leaf k l =
    let d = max k (key l) in
    let split =
      if ltb k d then node d (leaf k) (leaf (key l)) else node d (leaf (key l)) (leaf k) in
    if key l == k then l else split

unfoldable pub insert : ℕ → Tree → Tree
unfolding search split_leaf
insert k t = write_at (search k t) (split_leaf k) t

-- What `testSearch` asks: whether the search ends at a leaf with the key.
unfoldable pub contains : ℕ → Tree → Bool
unfolding search
contains k t = key (at (search k t) t) == k

-- What `preorder` prints: the keys of the leaves.
unfoldable pub preorder : Tree → List ℕ
preorder (leaf d) = d ∷ []
preorder (node d l r) = preorder l ++ preorder r
