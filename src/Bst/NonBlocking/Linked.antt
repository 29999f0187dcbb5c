-- ===== src/Bst/NonBlocking/Linked.antt =====
-- BST/NonBlockingBST.cpp: the tree once `CASChild` of an operation has succeeded.
use zwq_repos.Prelude.{
  ==-differ, ℕ, ◌≡◌, ◌≢◌, ◌⊎◌, inl, inr, sym, ap, Bool, true, false, ◌||◌, ◌==◌, if◌then◌else◌,
  arith,
}
use zwq_repos.Bst.NonBlocking.{Heap, help_child}
use zwq_repos.Bst.NonBlocking.Invariant.{History, pending, finished, IsOp, IsPending, IsHeap}
use zwq_repos.Bst.NonBlocking.Link.{Fresh, fresh_nodes, left_cases, right_cases}

module _ (g : History) (h : Heap) (o : ℕ) where
  abbrev pub is_fresh : ℕ → Bool
  is_fresh a = a == h.subtree o || (a == h.left (h.subtree o) || a == h.right (h.subtree o))

  abbrev pub linking : History
  linking = record g {
    lo = λ a.
        if a == h.subtree o || a == h.left (h.subtree o)
        then g.lo (h.leaf o)
        else if a == h.right (h.subtree o)
        then h.key (h.subtree o)
        else g.lo a;
    hi = λ a.
        if a == h.subtree o || a == h.right (h.subtree o)
        then g.hi (h.leaf o)
        else if a == h.left (h.subtree o)
        then h.key (h.subtree o)
        else g.hi a;
    linked = λ a. is_fresh a || g.linked a;
    stage = λ x. if x == o then finished else g.stage x;
  }

  -- What holds of a node that was in the tree already.
  pub record Keeps (a : ℕ) : Type 0 where
    pub linked : linking.linked a ≡ true
    pub lo : linking.lo a ≡ g.lo a
    pub hi : linking.hi a ≡ g.hi a
    pub other : a ≢ h.subtree o

  -- The ranges of the new nodes.
  pub record News : Type 0 where
    pub lo : linking.lo (h.subtree o) ≡ g.lo (h.leaf o)
    pub hi : linking.hi (h.subtree o) ≡ g.hi (h.leaf o)
    pub left_lo : linking.lo (h.left (h.subtree o)) ≡ g.lo (h.leaf o)
    pub left_hi : linking.hi (h.left (h.subtree o)) ≡ h.key (h.subtree o)
    pub right_lo : linking.lo (h.right (h.subtree o)) ≡ h.key (h.subtree o)
    pub right_hi : linking.hi (h.right (h.subtree o)) ≡ g.hi (h.leaf o)

  module _ (f : Fresh g h o) where
    pub keeps : (a : ℕ) → g.linked a ≡ true → Keeps a
    keeps a l =
        let away : (x : ℕ) → g.linked x ≡ false → (a == x) ≡ false =
          λ x un. ==-differ g.linked a x (λ e. ground (arith, e, l, un)) in
        let es = away (h.subtree o) f.subtree.unlinked in
        let el = away (h.left (h.subtree o)) f.left.unlinked in
        let er = away (h.right (h.subtree o)) f.right.unlinked in
        record {
          linked = ground (arith, l);
          lo = ground (arith, es, el, er);
          hi = ground (arith, es, el, er);
          other = ground (arith, es);
        }

    pub news : h.key (h.leaf o) ≢ g.op_key o → News
    news ne =
        let s = h.subtree o in
        let l = h.left (h.subtree o) in
        let r = h.right (h.subtree o) in
        let sl : s ≢ l = λ e. ground (arith, ap h.is_leaf e, f.subtree.is_leaf, f.left.is_leaf) in
        let sr : s ≢ r = λ e. ground (arith, ap h.is_leaf e, f.subtree.is_leaf, f.right.is_leaf) in
        let lr : l ≢ r = λ e. ground (arith, ap h.key e, f.left.keyed, f.right.keyed, ne) in
        record {
          lo = ground arith;
          hi = ground arith;
          left_lo = ground arith;
          left_hi = ground (arith, sl, lr);
          right_lo = ground (arith, sr, lr);
          right_hi = ground arith;
        }

module _ (g : History) (h : Heap) (o : ℕ) (inv : IsHeap g h) (waits : g.stage o ≡ pending) where
  pub is_op : IsOp g h o
  is_op = inv.op o (ground arith)

  pub wait : IsPending g h o
  wait = inv.waits o waits

  pub fresh : Fresh g h o
  fresh = fresh_nodes g h o inv is_op wait

  pub keep : (a : ℕ) → g.linked a ≡ true → Keeps g h o a
  keep = keeps g h o fresh

  pub new : News g h o
  new = news g h o fresh (λ e. is_op.key_new (sym e))

  pub subtree_not_parent : h.subtree o ≢ h.parent o
  subtree_not_parent e = (keep _ is_op.parent_linked).other (sym e)

  -- The children of the new internal node.
  pub new_left : (help_child o h).left (h.subtree o) ≡ h.left (h.subtree o)
  new_left = elim (left_cases g h o inv is_op wait (h.subtree o)) [
    | inl e ↦ e
    | inr (here, _, _) ↦ absurd (subtree_not_parent here)
  ]

  pub new_right : (help_child o h).right (h.subtree o) ≡ h.right (h.subtree o)
  new_right = elim (right_cases g h o inv is_op wait (h.subtree o)) [
    | inl e ↦ e
    | inr (here, _, _) ↦ absurd (subtree_not_parent here)
  ]

  -- A node of the new tree was in the tree, or is one of the new nodes.
  pub linked_cases :
      (a : ℕ)
      → (linking g h o).linked a ≡ true
      → (g.linked a ≡ true)
        ⊎ ((a ≡ h.subtree o) ⊎ ((a ≡ h.left (h.subtree o)) ⊎ (a ≡ h.right (h.subtree o))))
  linked_cases a e = ground (arith, e)
