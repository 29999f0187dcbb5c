-- ===== src/Bst/NonBlocking.antt =====
-- BST/NonBlockingBST.cpp and BST/BSTclass.h: the tree with helping, used by any number of threads. A
-- pointer is an address, 0 the null pointer; new objects come from one counter. Each thread makes one
-- call of `insert`. A step of a thread has at most one access to what another thread can change: the
-- fields `left`, `right` and `update` of nodes. An `int` is its distance from INT_MIN.
pub mod Route
pub mod Invariant
pub mod Evolves
pub mod Extends
pub mod Updates
pub mod Flag
pub mod Flagged
pub mod Link
pub mod Linked
pub mod Keys
pub mod Kept
pub mod Lasting
pub mod Moves
pub mod Helping
pub mod Searching
pub mod Owning
pub mod Preparing
pub mod Attempting
pub mod Reached
pub mod Results
pub mod Alone
pub mod Solo
pub mod New
mod Examples
use zwq_repos.Prelude.{ℕ, ◌+◌, ◌≤◌, ◌≡◌, Bool, true, false, not, ◌&&◌, ltb, ◌==◌, if◌then◌else◌}
use zwq_repos.Bst.Tree.{max, inf1, inf2}

-- `updateRecord`
pub record UpdateRecord : Type 0 where
  pub is_dirty : Bool
  pub info : ℕ

-- The fields of `treeNode` and of `infoRecord`, by address, and the next address of `new`.
pub record Heap : Type 0 where
  pub key : ℕ → ℕ
  pub is_leaf : ℕ → Bool
  pub left : ℕ → ℕ
  pub right : ℕ → ℕ
  pub update : ℕ → UpdateRecord
  pub parent : ℕ → ℕ
  pub leaf : ℕ → ℕ
  pub subtree : ℕ → ℕ
  pub next : ℕ

abbrev pub root : ℕ
root = 3

abbrev pub clean_null : UpdateRecord
clean_null = record { is_dirty = false; info = 0 }

-- The constructor of `treeNode`, at the address `a`.
abbrev pub tree_node : ℕ → ℕ → Bool → ℕ → ℕ → Heap → Heap
tree_node a d b l r h = record h {
  key = λ x. if x == a then d else h.key x;
  is_leaf = λ x. if x == a then b else h.is_leaf x;
  left = λ x. if x == a then l else h.left x;
  right = λ x. if x == a then r else h.right x;
  update = λ x. if x == a then clean_null else h.update x;
  next = a + 1;
}

-- The constructor of `infoRecord`.
abbrev pub info_record : ℕ → ℕ → ℕ → ℕ → Heap → Heap
info_record a p l s h = record h {
  parent = λ x. if x == a then p else h.parent x;
  leaf = λ x. if x == a then l else h.leaf x;
  subtree = λ x. if x == a then s else h.subtree x;
  next = a + 1;
}

abbrev pub no_objects : Heap
no_objects = record {
  key = λ x. 0;
  is_leaf = λ x. true;
  left = λ x. 0;
  right = λ x. 0;
  update = λ x. clean_null;
  parent = λ x. 0;
  leaf = λ x. 0;
  subtree = λ x. 0;
  next = 1;
}

-- The constructor of `BST`.
abbrev pub new_bst : Heap
new_bst =
    tree_node root inf2 false 1 2 (tree_node 2 inf2 true 0 0 (tree_node 1 inf1 true 0 0 no_objects))

-- The child of a node to which a key leads.
abbrev pub child : Heap → ℕ → ℕ → ℕ
child h p k = if ltb k (h.key p) then h.left p else h.right p

abbrev pub dirty : ℕ → UpdateRecord
dirty op = record { is_dirty = true; info = op }

abbrev pub clean : ℕ → UpdateRecord
clean op = record { is_dirty = false; info = op }

abbrev pub same_update : UpdateRecord → UpdateRecord → Bool
same_update u v = (if u.is_dirty then v.is_dirty else not v.is_dirty) && u.info == v.info

-- What `compare_exchange_strong` on `update` leaves. It compares the two fields; the padding of the
-- struct is left out.
abbrev pub cas_update : ℕ → UpdateRecord → UpdateRecord → Heap → Heap
cas_update p expected desired h = record h {
  update = λ x. if x == p && same_update (h.update p) expected then desired else h.update x;
}

-- `CASChild`
abbrev pub cas_child : ℕ → ℕ → ℕ → Heap → Heap
cas_child parent old_node new_node h =
    let before = ltb (h.key new_node) (h.key parent) in
    record h {
      left =
          λ x. if before && (x == parent && h.left parent == old_node) then new_node else h.left x;
      right = λ x.
          if not before && (x == parent && h.right parent == old_node) then new_node else h.right x;
    }

-- `helpInsert`: its two exchanges.
abbrev pub help_child : ℕ → Heap → Heap
help_child op h = cas_child (h.parent op) (h.leaf op) (h.subtree op) h

abbrev pub help_clean : ℕ → Heap → Heap
help_clean op h = cas_update (h.parent op) (dirty op) (clean op) h

-- What `insert` creates for the leaf `l` below `p`: `newSibling`, `newInternal` and `op`, at the next
-- three addresses.
abbrev pub prepare : ℕ → ℕ → ℕ → ℕ → Heap → Heap
prepare k new_node p l h =
    let sibling = h.next in
    let internal = h.next + 1 in
    let h1 = tree_node sibling (h.key l) true 0 0 h in
    let before = ltb k (h.key l) in
    let h2 =
      tree_node internal (max k (h.key l)) false (if before then new_node else sibling)
        (if before then sibling else new_node) h1 in
    info_record (h.next + 2) p l internal h2

-- Where a thread stands in `insert`, with its key and its `newNode`: before the call; in `search`
-- before it loads `update` of the node `l`, or a child of `p`; after `search`; in `helpInsert` before
-- its exchanges, `own` for its own operation; after the call, with what it returned.
pub data Thread : Type 0 where
  outside : Thread
  at_node : ℕ → ℕ → ℕ → Thread
  at_child : ℕ → ℕ → ℕ → UpdateRecord → Thread
  found : ℕ → ℕ → ℕ → UpdateRecord → ℕ → Thread
  helping : ℕ → ℕ → Bool → ℕ → Thread
  cleaning : ℕ → ℕ → Bool → ℕ → Thread
  returned : ℕ → Bool → ℕ → Thread

-- The attempt to make `p` dirty. When it fails, `pupdate` has the current value.
abbrev pub flag : ℕ → ℕ → ℕ → UpdateRecord → ℕ → Heap → Heap × Thread
flag k new_node p pupdate l h =
    let op = h.next + 2 in
    let h1 = prepare k new_node p l h in
    let iflag = same_update (h1.update p) pupdate in
    (
      cas_update p pupdate (dirty op) h1,
      if iflag then helping k new_node true op else helping k new_node false (h1.update p).info,
    )

-- The next step of a thread.
unfoldable pub advance : Thread → Heap → Heap × Thread
advance outside h = (h, outside)
advance (at_node k n l) h = (h, at_child k n l (h.update l))
advance (at_child k n p u) h =
    let l = child h p k in (h, if h.is_leaf l then found k n p u l else at_node k n l)
advance (found k n p u l) h =
    if h.key l == k
    then (h, returned k false l)
    else if u.is_dirty
    then (h, helping k n false u.info)
    else flag k n p u l h
advance (helping k n own op) h = (help_child op h, cleaning k n own op)
advance (cleaning k n own op) h =
    (help_clean op h, if own then returned k true op else at_node k n root)
advance (returned k b x) h = (h, returned k b x)

pub record System : Type 0 where
  pub heap : Heap
  pub threads : ℕ → Thread

-- The call of `insert` with a key: `newNode`, and the root for `search`.
abbrev pub call : ℕ → ℕ → System → System
call i k s = record {
  heap = tree_node s.heap.next k true 0 0 s.heap;
  threads = λ j. if j == i then at_node k s.heap.next root else s.threads j;
}

abbrev pub run : ℕ → System → System
run i s =
    let (h, t) = advance (s.threads i) s.heap in
    record { heap = h; threads = λ j. if j == i then t else s.threads j }

-- A thread calls `insert` or takes a step.
pub data Step (s : System) : System → Type 0 where
  calls : (i k : ℕ) → s.threads i ≡ outside → k ≤ inf2 → Step s (call i k s)
  runs : (i : ℕ) → Step s (run i s)

abbrev pub start : System
start = record { heap = new_bst; threads = λ i. outside }

pub data Reach : System → Type 0 where
  here : Reach start
  next_step : {s t : System} → Reach s → Step s t → Reach t
