-- ===== src/Bst/NonBlocking/Results.antt =====
-- BST/NonBlockingBST.cpp: what holds of the tree in every system that the threads can reach.
use zwq_repos.Prelude.{
  ℕ, ◌≤◌, ◌<◌, ◌≡◌, inl, inr, refl, sym, subst, ap, ◌∙◌, Bool, true, false, ltb, if◌then◌else◌,
  arith, Bool-cases,
}
use zwq_repos.Bst.NonBlocking.{Heap, root, child, dirty, returned, System, Step, Reach}
use zwq_repos.Bst.NonBlocking.Route.{Route, arrived, down, Contains}
use zwq_repos.Bst.NonBlocking.Invariant.{History, IsHeap, IsThread, IsBusy}
use zwq_repos.Bst.NonBlocking.Extends.{Route-linked, child_linked}
use zwq_repos.Bst.NonBlocking.Reached.{Changes, IsSound-Step, Reach-IsSound}

-- A step of a reachable system, of any thread, keeps every key of the tree, and adds at most one key,
-- which was not in it.
pub Step-Changes : {s t : System} → Reach s → Step s t → Changes s.heap t.heap
Step-Changes r x =
    let (g, sound) = Reach-IsSound r in let (_, _, (_, changes)) = IsSound-Step g sound x in changes

insert_returned :
    (g : History) (h : Heap) (i k : ℕ) (b : Bool) (x : ℕ)
    → IsHeap g h
    → IsThread g h i (returned k b x)
    → Contains h k
insert_returned g h i k true x inv (done, _, e) = subst (Contains h) e (inv.ends x done).present
insert_returned g h i k false x inv c = c

-- In a reachable system where a call of `insert` has returned, with either result, its key is in the
-- tree.
pub returned-Contains :
    {s : System} (i k : ℕ) (b : Bool) (x : ℕ)
    → Reach s
    → s.threads i ≡ returned k b x
    → Contains s.heap k
returned-Contains {s} i k b x r e =
    let (g, sound) = Reach-IsSound r in
    insert_returned g s.heap i k b x sound.heap (subst (IsThread g s.heap i) e (sound.threads i))

-- Of the calls of `insert` with the same key at most one returns true: in a reachable system two threads
-- that have done so are the same.
pub one_inserts :
    {s : System} (i j k x y : ℕ)
    → Reach s
    → s.threads i ≡ returned k true x
    → s.threads j ≡ returned k true y
    → i ≡ j
one_inserts {s} i j k x y r ei ej =
    let (g, sound) = Reach-IsSound r in
    let (done_x, caller_x, key_x) : IsThread g s.heap i (returned k true x) =
      subst (IsThread g s.heap i) ei (sound.threads i) in
    let (done_y, caller_y, key_y) : IsThread g s.heap j (returned k true y) =
      subst (IsThread g s.heap j) ej (sound.threads j) in
    let same = sound.heap.once x y done_x done_y (key_x ∙ sym key_y) in
    sym caller_x ∙ ap g.caller same ∙ caller_y

-- In a reachable system, when a node that a key can lead to is dirty, some thread is still in the
-- `helpInsert` of its own operation, which is the one the node is dirty with.
pub dirty-IsBusy :
    {s : System} (k p : ℕ)
    → Reach s
    → Route s.heap k root p
    → (s.heap.update p).is_dirty ≡ true
    → (i : ℕ) × IsBusy (s.heap.update p).info (s.threads i)
dirty-IsBusy {s} k p r q d =
    let (g, sound) = Reach-IsSound r in
    let is : s.heap.update p ≡ dirty (s.heap.update p).info =
      λ j. record { is_dirty = d j; info = (s.heap.update p).info } in
    (
      g.caller (s.heap.update p).info,
      sound.busy p (s.heap.update p).info (Route-linked g sound.heap q) is,
    )

module _ (g : History) (h : Heap) (inv : IsHeap g h) where
  -- The range of a leaf lies in those of the nodes above it, and its keys lead to it.
  range_leads :
      (k : ℕ) {a l : ℕ} (j : ℕ)
      → g.linked a ≡ true
      → Route h k a l
      → g.lo l ≤ j
      → j < g.hi l
      → (g.lo a ≤ j) × ((j < g.hi a) × Route h j a l)
  range_leads k j l (arrived a) low high = (low, (high, arrived a))
  range_leads k j l (down a {b} inner r) low high =
      let x = inv.inner a l inner in
      let n = inv.node a l in
      let (low', (high', r')) = range_leads k j (child_linked g a k x) r low high in
      elim (Bool-cases (ltb k (h.key a))) [
        | inl e ↦
            let low_left = subst (λ t. g.lo (if t then h.left a else h.right a) ≤ j) e low' in
            let high_left = subst (λ t. j < g.hi (if t then h.left a else h.right a)) e high' in
            let side : ltb j (h.key a) ≡ ltb k (h.key a) = ground (arith, high_left, x.left_hi) in
            (
              omega (arith, low_left, x.left_lo),
              (omega (arith, high_left, x.left_hi, n.high), down a inner (along a j k side r')),
            )
        | inr e ↦
            let low_right = subst (λ t. g.lo (if t then h.left a else h.right a) ≤ j) e low' in
            let high_right = subst (λ t. j < g.hi (if t then h.left a else h.right a)) e high' in
            let side : ltb j (h.key a) ≡ ltb k (h.key a) = ground (arith, low_right, x.right_lo) in
            (
              omega (arith, low_right, x.right_lo, n.low),
              (omega (arith, high_right, x.right_hi), down a inner (along a j k side r')),
            )
      ]
    where
      along :
          (a j k : ℕ) {b : ℕ}
          → ltb j (h.key a) ≡ ltb k (h.key a)
          → Route h j (child h a k) b
          → Route h j (child h a j) b
      along a j k {b} side q =
          subst (λ (t : Bool). Route h j (if t then h.left a else h.right a) b) (sym side) q

-- In a reachable system the tree is a search tree: the key of a leaf that some key leads to leads to the
-- same leaf, so the tree contains it.
leaf-Contains :
    {s : System} (k l : ℕ)
    → Reach s
    → Route s.heap k root l
    → s.heap.is_leaf l ≡ true
    → Route s.heap (s.heap.key l) root l × Contains s.heap (s.heap.key l)
leaf-Contains {s} k l r q e =
    let (g, sound) = Reach-IsSound r in
    let n = sound.heap.node l (Route-linked g sound.heap q) in
    let (_, (_, way)) =
      range_leads g s.heap sound.heap k (s.heap.key l) sound.heap.root_linked q n.low n.high in
    (way, (l, way, e, refl))
