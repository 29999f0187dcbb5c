-- ===== src/Bst/Tree/Stm.antt =====
-- BST/STMbst.cpp: the same tree under a software transaction, so a call is one step. Its `search`
-- returns the last three nodes of the descent, and its `preorder` prints every node.
use zwq_repos.Prelude.{
  ℕ, ◌≡◌, refl, ap, Bool-cases, inl, inr, ◌==◌, true, false, Option, none, some, List, [], ◌∷◌,
  ◌++◌, ltb, arith, if◌then◌else◌,
}
use zwq_repos.Bst.Tree.{
  Tree, leaf, node, Direction, left, right, at, key, max, split_leaf, write_at,
}
use zwq_repos.Bst.Tree

-- `vec`: grandparent, parent and leaf, each as the subtree below it. `none` is the null pointer.
abbrev pub Found : Type 0
Found = Option Tree × Option Tree × Tree

-- The rounds of the loop, from `gp`, `p` and `l` on.
unfoldable pub search_loop : ℕ → Option Tree → Option Tree → Tree → Found
search_loop k gp p (leaf d) = (gp, p, leaf d)
search_loop k gp p (node d l r) = elim (ltb k d) [
  | true ↦ search_loop k p (some (node d l r)) l
  | false ↦ search_loop k p (some (node d l r)) r
]

unfoldable pub search : ℕ → Tree → Found
unfolding search_loop
search k root = search_loop k none none root

-- Every node before its children.
unfoldable pub preorder : Tree → List ℕ
preorder (leaf d) = d ∷ []
preorder (node d l r) = d ∷ preorder l ++ preorder r

-- The descent ends at the leaf of the sequential search.
search_loop-leaf :
    (k : ℕ) (gp p : Option Tree) (t : Tree) → (search_loop k gp p t).2 ≡ at (Tree.search k t) t
unfolding search_loop Tree.search
search_loop-leaf k gp p (leaf d) = refl
search_loop-leaf k gp p (node d l r) =
    ground (
      arith,
      search_loop-leaf k p (some (node d l r)) l,
      search_loop-leaf k p (some (node d l r)) r,
    )

-- The child of `p` to which a key leads.
abbrev pub child : ℕ → Tree → Option Tree
child k (leaf d) = none
child k (node d l r) = some (if ltb k d then l else r)

-- The key leads from the grandparent, if there is one, to the parent, and from there to the leaf.
abbrev pub IsLinked : ℕ → Found → Type 0
IsLinked k (gp, none, l) = ⊥
IsLinked k (none, some p, l) = child k p ≡ some l
IsLinked k (some gp, some p, l) = (child k gp ≡ some p) × (child k p ≡ some l)

search_loop-IsLinked :
    (k : ℕ) (gp p : Option Tree) (t : Tree)
    → IsLinked k (gp, p, t)
    → IsLinked k (search_loop k gp p t)
unfolding search_loop
search_loop-IsLinked k gp p (leaf d) h = h
search_loop-IsLinked k gp none (node d l r) h = absurd (ground arith)
search_loop-IsLinked k gp (some p) (node d l r) h = ground (
  arith,
  search_loop-IsLinked k (some p) (some (node d l r)) l,
  search_loop-IsLinked k (some p) (some (node d l r)) r,
  child_of gp h,
)
  where
    child_of :
        (g : Option Tree) → IsLinked k (g, some p, node d l r) → child k p ≡ some (node d l r)
    child_of none e = e
    child_of (some g) e = e.1

-- From an internal root, the three nodes that `search` returns hang below one another on the way
-- of the key, and the last is the leaf at which `insert` splits.
pub search_lem :
    (k d : ℕ) (l r : Tree)
    → IsLinked k (search k (node d l r))
      × ((search k (node d l r)).2 ≡ at (Tree.search k (node d l r)) (node d l r))
unfolding search search_loop
search_lem k d l r = (
  ground (
    arith,
    search_loop-IsLinked k none (some (node d l r)) l,
    search_loop-IsLinked k none (some (node d l r)) r,
  ),
  search_loop-leaf k none none (node d l r),
)

-- What `insert` writes to the leaf `newinternal` that its search gave: it becomes an internal node.
unfoldable pub become : ℕ → Tree → Tree
become k newinternal =
    let newnode = leaf k in
    let newsibling = leaf (key newinternal) in
    let d = max k (key newinternal) in
    let written = if ltb k d then node d newnode newsibling else node d newsibling newnode in
    if key newinternal == k then newinternal else written

-- `insert`, one transaction: the rounds of its search, and the write at their end.
unfoldable pub insert : ℕ → Tree → Tree
unfolding become
insert k (leaf d) = become k (leaf d)
insert k (node d l r) = elim (ltb k d) [
  | true ↦ node d (insert k l) r
  | false ↦ node d l (insert k r)
]

-- The transactional `insert` gives the tree of the sequential one.
pub insert_sequential : (k : ℕ) (t : Tree) → insert k t ≡ Tree.insert k t
unfolding insert become Tree.insert Tree.search split_leaf
insert_sequential k (leaf d) = refl
insert_sequential k (node d l r) = elim (Bool-cases (ltb k d)) [
  | inl e ↦ rw (insert, Tree.insert, Tree.search, e) (ap (λ t. node d t r) (insert_sequential k l))
  | inr e ↦ rw (insert, Tree.insert, Tree.search, e) (ap (λ t. node d l t) (insert_sequential k r))
]
