-- ===== src/Bst/NonBlocking/Invariant.antt =====
-- BST/NonBlockingBST.cpp: what holds between two steps. Beside the heap stands a history: which nodes
-- have come into the tree, with the range of keys that lead to them, and what has become of each
-- operation.
use zwq_repos.Prelude.{ℕ, ◌+◌, ◌≤◌, ◌<◌, ◌≡◌, ◌≢◌, ◌⊎◌, Bool, true, false, ltb, if◌then◌else◌}
use zwq_repos.Bst.Tree.{max, inf2}
use zwq_repos.Bst.NonBlocking.{
  UpdateRecord, Heap, root, child, dirty, clean_null, Thread, outside, at_node, at_child, found,
  helping, cleaning, returned, System,
}
use zwq_repos.Bst.NonBlocking.Route.{Route, Contains}

-- A node is that of a thread's `newNode`, or one of the new nodes of an operation.
pub data Owner : Type 0 where
  nobody : Owner
  thread operation : ℕ → Owner

-- An operation has made its parent dirty, and it has changed the child.
pub data Stage : Type 0 where
  unknown pending finished : Stage

pub record History : Type 0 where
  pub lo : ℕ → ℕ
  pub hi : ℕ → ℕ
  pub linked : ℕ → Bool
  pub owner : ℕ → Owner
  pub stage : ℕ → Stage
  pub op_key : ℕ → ℕ
  pub new_node : ℕ → ℕ
  pub sibling : ℕ → ℕ
  pub caller : ℕ → ℕ

module _ (g : History) (h : Heap) where
  -- The range of the child of `p` on the side of a key.
  abbrev pub child_lo : ℕ → ℕ → ℕ
  child_lo p k = if ltb k (h.key p) then g.lo p else h.key p

  abbrev pub child_hi : ℕ → ℕ → ℕ
  child_hi p k = if ltb k (h.key p) then h.key p else g.hi p

  pub record IsNode (a : ℕ) : Type 0 where
    pub old : a < h.next
    pub low : g.lo a ≤ h.key a
    pub high : h.key a < g.hi a

  pub record IsInner (a : ℕ) : Type 0 where
    pub left_linked : g.linked (h.left a) ≡ true
    pub left_lo : g.lo (h.left a) ≡ g.lo a
    pub left_hi : g.hi (h.left a) ≡ h.key a
    pub right_linked : g.linked (h.right a) ≡ true
    pub right_lo : g.lo (h.right a) ≡ h.key a
    pub right_hi : g.hi (h.right a) ≡ g.hi a
    pub above : g.lo a < h.key a

  -- An internal node of the tree to which the key leads.
  pub record Leads (k a : ℕ) : Type 0 where
    pub linked : g.linked a ≡ true
    pub inner : h.is_leaf a ≡ false
    pub low : g.lo a ≤ k
    pub high : k < g.hi a

  -- An operation that has made its parent dirty.
  pub record IsOp (o : ℕ) : Type 0 where
    pub positive : 0 < o
    pub old : o < h.next
    pub parent_linked : g.linked (h.parent o) ≡ true
    pub parent_inner : h.is_leaf (h.parent o) ≡ false
    pub leaf_linked : g.linked (h.leaf o) ≡ true
    pub leaf_leaf : h.is_leaf (h.leaf o) ≡ true
    pub leaf_lo : g.lo (h.leaf o) ≡ child_lo (h.parent o) (g.op_key o)
    pub leaf_hi : g.hi (h.leaf o) ≡ child_hi (h.parent o) (g.op_key o)
    pub key_low : g.lo (h.leaf o) ≤ g.op_key o
    pub key_high : g.op_key o < g.hi (h.leaf o)
    pub key_new : g.op_key o ≢ h.key (h.leaf o)
    pub subtree_old : h.subtree o < h.next
    pub subtree_inner : h.is_leaf (h.subtree o) ≡ false
    pub subtree_key : h.key (h.subtree o) ≡ max (g.op_key o) (h.key (h.leaf o))

  -- A new node that an operation has not linked.
  pub record IsUnlinked (o a d : ℕ) (leaf : Bool) : Type 0 where
    pub old : a < h.next
    pub owned : g.owner a ≡ operation o
    pub unlinked : g.linked a ≡ false
    pub is_leaf : h.is_leaf a ≡ leaf
    pub keyed : h.key a ≡ d
    pub fresh : h.update a ≡ clean_null

  pub record IsPending (o : ℕ) : Type 0 where
    pub is_dirty : h.update (h.parent o) ≡ dirty o
    pub place : child h (h.parent o) (g.op_key o) ≡ h.leaf o
    pub subtree_unlinked : IsUnlinked o (h.subtree o) (max (g.op_key o) (h.key (h.leaf o))) false
    pub new_unlinked : IsUnlinked o (g.new_node o) (g.op_key o) true
    pub sibling_unlinked : IsUnlinked o (g.sibling o) (h.key (h.leaf o)) true
    pub left_child :
        h.left (h.subtree o)
        ≡ (if ltb (g.op_key o) (h.key (h.leaf o)) then g.new_node o else g.sibling o)
    pub right_child :
        h.right (h.subtree o)
        ≡ (if ltb (g.op_key o) (h.key (h.leaf o)) then g.sibling o else g.new_node o)

  pub record IsFinished (o : ℕ) : Type 0 where
    pub gone : child h (h.parent o) (g.op_key o) ≢ h.leaf o
    pub present : Contains h (g.op_key o)

  -- The value of `update` of a node of the tree.
  pub record IsUpdate (p : ℕ) (u : UpdateRecord) : Type 0 where
    pub small : u.info < h.next
    pub known : u.info ≢ 0 → g.stage u.info ≢ unknown
    pub dirty_info : u.is_dirty ≡ true → (g.stage u.info ≢ unknown) × (h.parent u.info ≡ p)

  pub record IsHeap : Type 0 where
    pub root_linked : g.linked root ≡ true
    pub root_inner : h.is_leaf root ≡ false
    pub root_lo : g.lo root ≡ 0
    pub root_hi : g.hi root ≡ inf2 + 1
    pub null_unknown : g.stage 0 ≡ unknown
    pub positive : 0 < h.next
    pub unowned : (a : ℕ) → h.next ≤ a → g.owner a ≡ nobody
    pub node : (a : ℕ) → g.linked a ≡ true → IsNode a
    pub inner : (a : ℕ) → g.linked a ≡ true → h.is_leaf a ≡ false → IsInner a
    pub route : (k a : ℕ) → Leads k a → Route h k root a
    pub update : (p : ℕ) → g.linked p ≡ true → IsUpdate p (h.update p)
    pub op : (o : ℕ) → g.stage o ≢ unknown → IsOp o
    pub waits : (o : ℕ) → g.stage o ≡ pending → IsPending o
    pub ends : (o : ℕ) → g.stage o ≡ finished → IsFinished o
    pub once :
        (o o' : ℕ)
        → g.stage o ≡ finished
        → g.stage o' ≡ finished
        → g.op_key o ≡ g.op_key o'
        → o ≡ o'

  -- A value of `update` that was read at `p`.
  pub record Seen (p : ℕ) (u : UpdateRecord) : Type 0 where
    pub small : u.info < h.next
    pub past : u.is_dirty ≡ false → h.update p ≢ dirty u.info
    pub moved : (h.update p ≡ u) ⊎ ((h.update p).info ≢ 0)
    pub known : u.is_dirty ≡ true → g.stage u.info ≢ unknown

  -- The `newNode` of a thread.
  pub record Mine (i k n : ℕ) : Type 0 where
    pub old : n < h.next
    pub owned : g.owner n ≡ thread i
    pub unlinked : g.linked n ≡ false
    pub is_leaf : h.is_leaf n ≡ true
    pub keyed : h.key n ≡ k
    pub fresh : h.update n ≡ clean_null
    pub in_range : k ≤ inf2

  pub record Found (k p : ℕ) (u : UpdateRecord) (l : ℕ) : Type 0 where
    pub linked : g.linked l ≡ true
    pub is_leaf : h.is_leaf l ≡ true
    pub low : g.lo l ≡ child_lo p k
    pub high : g.hi l ≡ child_hi p k
    pub present : h.key l ≡ k → Contains h k
    pub still : u.is_dirty ≡ false → h.update p ≡ u → child h p k ≡ l

  abbrev pub Helps : ℕ → ℕ → ℕ → Bool → ℕ → Type 0
  Helps i k n true o = (g.stage o ≢ unknown) × (g.caller o ≡ i) × (g.op_key o ≡ k)
  Helps i k n false o = (g.stage o ≢ unknown) × Mine i k n

  abbrev pub IsThread : ℕ → Thread → Type 0
  IsThread i outside = Unit
  IsThread i (at_node k n l) = Mine i k n × Leads k l
  IsThread i (at_child k n p u) = Mine i k n × Leads k p × Seen p u
  IsThread i (found k n p u l) = Mine i k n × Leads k p × Seen p u × Found k p u l
  IsThread i (helping k n own o) = Helps i k n own o
  IsThread i (cleaning k n own o) = (g.stage o ≡ finished) × Helps i k n own o
  IsThread i (returned k true o) = (g.stage o ≡ finished) × (g.caller o ≡ i) × (g.op_key o ≡ k)
  IsThread i (returned k false o) = Contains h k

-- The thread still has to clean what the operation made dirty.
abbrev pub IsBusy : ℕ → Thread → Type 0
IsBusy o (helping k n own x) = (own ≡ true) × (x ≡ o)
IsBusy o (cleaning k n own x) = (own ≡ true) × (x ≡ o)
IsBusy o outside = ⊥
IsBusy o (at_node k n l) = ⊥
IsBusy o (at_child k n p u) = ⊥
IsBusy o (found k n p u l) = ⊥
IsBusy o (returned k b x) = ⊥

pub record IsSound (g : History) (s : System) : Type 0 where
  pub heap : IsHeap g s.heap
  pub threads : (i : ℕ) → IsThread g s.heap i (s.threads i)
  pub busy :
      (p o : ℕ) → g.linked p ≡ true → s.heap.update p ≡ dirty o → IsBusy o (s.threads (g.caller o))
  pub begun : (o : ℕ) → g.stage o ≢ unknown → s.threads (g.caller o) ≢ outside
