-- ===== src/Bst/NonBlocking/Kept.antt =====
-- BST/NonBlockingBST.cpp: the heap is sound once `CASChild` has succeeded.
use zwq_repos.Prelude.{
  ==-differ, ℕ, ◌≡◌, ◌≢◌, inl, inr, sym, subst, ap, ◌∙◌, true, false, ◌==◌, if◌then◌else◌, arith,
  Bool-cases, ==_refl,
}
use zwq_repos.Bst.NonBlocking.{Heap, help_child}
use zwq_repos.Bst.NonBlocking.Invariant.{
  History, Owner, operation, unknown, pending, IsNode, IsInner, IsOp, IsHeap,
}
use zwq_repos.Bst.NonBlocking.Link.{left_cases, right_cases}
use zwq_repos.Bst.NonBlocking.Linked.{
  linking, is_op, wait, fresh, keep, new, new_left, new_right, linked_cases,
}

module _ (g : History) (h : Heap) (o : ℕ) (inv : IsHeap g h) (waits : g.stage o ≡ pending) where
  abbrev later : History
  later = linking g h o

  abbrev after : Heap
  after = help_child o h

  pub IsNode-link : (a : ℕ) → later.linked a ≡ true → IsNode later after a
  IsNode-link a la =
      let b = is_op g h o inv waits in
      let f = fresh g h o inv waits in
      let n = new g h o inv waits in
      let range = inv.node (h.leaf o) b.leaf_linked in
      elim (linked_cases g h o inv waits a la) [
        | inl l ↦
            let k = keep g h o inv waits a l in
            let x = inv.node a l in
            record { old = x.old; low = rw k.lo x.low; high = rw k.hi x.high }
        | inr (inl e) ↦ subst (IsNode later after) (sym e) (record {
          old = f.subtree.old;
          low = rw n.lo (ground (arith, f.subtree.keyed, b.key_low, range.low));
          high = rw n.hi (ground (arith, f.subtree.keyed, b.key_high, range.high));
        })
        | inr (inr (inl e)) ↦ subst (IsNode later after) (sym e) (record {
          old = f.left.old;
          low = rw n.left_lo (ground (arith, f.left.keyed, b.key_low, range.low));
          high = rw n.left_hi (ground (arith, f.left.keyed, f.subtree.keyed, b.key_new));
        })
        | inr (inr (inr e)) ↦ subst (IsNode later after) (sym e) (record {
          old = f.right.old;
          low = rw n.right_lo (ground (arith, f.right.keyed, f.subtree.keyed));
          high = rw n.right_hi (ground (arith, f.right.keyed, b.key_high, range.high));
        })
      ]

  IsInner-subtree : IsInner later after (h.subtree o)
  IsInner-subtree =
      let b = is_op g h o inv waits in
      let f = fresh g h o inv waits in
      let range = inv.node (h.leaf o) b.leaf_linked in
      let n = new g h o inv waits in
      let el = new_left g h o inv waits in
      let er = new_right g h o inv waits in
      record {
        left_linked = rw el (ground (arith, ==_refl (h.left (h.subtree o))));
        left_lo = rw el (n.left_lo ∙ sym n.lo);
        left_hi = rw el n.left_hi;
        right_linked = rw er (ground (arith, ==_refl (h.right (h.subtree o))));
        right_lo = rw er n.right_lo;
        right_hi = rw er (n.right_hi ∙ sym n.hi);
        above = rw n.lo (ground (arith, f.subtree.keyed, b.key_low, range.low, b.key_new));
      }

  record IsSide (c low high : ℕ) : Type 0 where
    side_linked : later.linked c ≡ true
    side_lo : later.lo c ≡ low
    side_hi : later.hi c ≡ high

  left-IsSide :
      (a : ℕ)
      → g.linked a ≡ true
      → h.is_leaf a ≡ false
      → IsSide (after.left a) (later.lo a) (h.key a)
  left-IsSide a l inner =
      let b = is_op g h o inv waits in
      let n = new g h o inv waits in
      let ka = keep g h o inv waits a l in
      let x = inv.inner a l inner in
      elim (left_cases g h o inv b (wait g h o inv waits) a) [
        | inl e ↦
            let k = keep g h o inv waits (h.left a) x.left_linked in
            rw e (record {
              side_linked = k.linked;
              side_lo = k.lo ∙ x.left_lo ∙ sym ka.lo;
              side_hi = k.hi ∙ x.left_hi;
            })
        | inr (here, side, e) ↦ rw e (record {
          side_linked = ground (arith, ==_refl (h.subtree o));
          side_lo = n.lo ∙ b.leaf_lo ∙ rw (side, if◌then◌else◌) (sym (ap g.lo here)) ∙ sym ka.lo;
          side_hi = n.hi ∙ b.leaf_hi ∙ rw (side, if◌then◌else◌) (sym (ap h.key here));
        })
      ]

  right-IsSide :
      (a : ℕ)
      → g.linked a ≡ true
      → h.is_leaf a ≡ false
      → IsSide (after.right a) (h.key a) (later.hi a)
  right-IsSide a l inner =
      let b = is_op g h o inv waits in
      let n = new g h o inv waits in
      let ka = keep g h o inv waits a l in
      let x = inv.inner a l inner in
      elim (right_cases g h o inv b (wait g h o inv waits) a) [
        | inl e ↦
            let k = keep g h o inv waits (h.right a) x.right_linked in
            rw e (record {
              side_linked = k.linked;
              side_lo = k.lo ∙ x.right_lo;
              side_hi = k.hi ∙ x.right_hi ∙ sym ka.hi;
            })
        | inr (here, side, e) ↦ rw e (record {
          side_linked = ground (arith, ==_refl (h.subtree o));
          side_lo = n.lo ∙ b.leaf_lo ∙ rw (side, if◌then◌else◌) (sym (ap h.key here));
          side_hi = n.hi ∙ b.leaf_hi ∙ rw (side, if◌then◌else◌) (sym (ap g.hi here)) ∙ sym ka.hi;
        })
      ]

  pub IsInner-link : (a : ℕ) → later.linked a ≡ true → h.is_leaf a ≡ false → IsInner later after a
  IsInner-link a la inner =
      let f = fresh g h o inv waits in
      elim (linked_cases g h o inv waits a la) [
        | inl l ↦
            let x = left-IsSide a l inner in
            let y = right-IsSide a l inner in
            record {
              left_linked = x.side_linked;
              left_lo = x.side_lo;
              left_hi = x.side_hi;
              right_linked = y.side_linked;
              right_lo = y.side_lo;
              right_hi = y.side_hi;
              above = rw (keep g h o inv waits a l).lo (inv.inner a l inner).above;
            }
        | inr (inl e) ↦ subst (IsInner later after) (sym e) IsInner-subtree
        | inr (inr (inl e)) ↦ absurd (ground (arith, ap h.is_leaf e, f.left.is_leaf))
        | inr (inr (inr e)) ↦ absurd (ground (arith, ap h.is_leaf e, f.right.is_leaf))
      ]

  pub known_was : (x : ℕ) → later.stage x ≢ unknown → g.stage x ≢ unknown
  known_was x kn u = elim (Bool-cases (x == o)) [
    | inl e ↦ let same : x ≡ o = ground arith in ground (arith, ap g.stage same, waits)
    | inr e ↦ kn (rw (e, if◌then◌else◌) u)
  ]

  pub known_link : (x : ℕ) → g.stage x ≢ unknown → later.stage x ≢ unknown
  known_link x kn u = ground arith

  pub IsOp-link : (x : ℕ) → g.stage x ≢ unknown → IsOp later after x
  IsOp-link x kn =
      let b = inv.op x kn in
      let kp = keep g h o inv waits (h.parent x) b.parent_linked in
      let kl = keep g h o inv waits (h.leaf x) b.leaf_linked in
      record {
        positive = b.positive;
        old = b.old;
        parent_linked = kp.linked;
        parent_inner = b.parent_inner;
        leaf_linked = kl.linked;
        leaf_leaf = b.leaf_leaf;
        leaf_lo = rw (kl.lo, kp.lo) b.leaf_lo;
        leaf_hi = rw (kl.hi, kp.hi) b.leaf_hi;
        key_low = rw kl.lo b.key_low;
        key_high = rw kl.hi b.key_high;
        key_new = b.key_new;
        subtree_old = b.subtree_old;
        subtree_inner = b.subtree_inner;
        subtree_key = b.subtree_key;
      }

  -- A node of another owner is none of the new nodes.
  pub not_fresh :
      (w : Owner) (a : ℕ)
      → w ≢ operation o
      → g.owner a ≡ w
      → g.linked a ≡ false
      → later.linked a ≡ false
  not_fresh w a ne e un =
      let f = fresh g h o inv waits in
      let away : (z : ℕ) → g.owner z ≡ operation o → (a == z) ≡ false =
        λ z ez. ==-differ g.owner a z (λ t. ne (sym e ∙ t ∙ ez)) in
      let es = away (h.subtree o) f.subtree.owned in
      let el = away (h.left (h.subtree o)) f.left.owned in
      let er = away (h.right (h.subtree o)) f.right.owned in ground (arith, es, el, er, un)
