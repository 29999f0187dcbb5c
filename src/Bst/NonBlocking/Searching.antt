-- ===== src/Bst/NonBlocking/Searching.antt =====
-- BST/BSTclass.cpp: the steps of `search`.
use zwq_repos.Prelude.{
  false, ◌<◌, ◌+◌, ℕ, ◌≡◌, inl, inr, refl, ap, true, ltb, if◌then◌else◌, arith, Bool-cases,
}
use zwq_repos.Bst.NonBlocking.{UpdateRecord, Heap, child, at_node, at_child, found}
use zwq_repos.Bst.NonBlocking.Route.{Route-child}
use zwq_repos.Bst.NonBlocking.Invariant.{
  Leads, History, IsHeap, IsInner, Seen, IsThread, child_lo, child_hi,
}
use zwq_repos.Bst.NonBlocking.Moves.{Moves, stays}

module _ (i : ℕ) (g : History) (h : Heap) (inv : IsHeap g h) where
  pub Seen-now : (p : ℕ) → g.linked p ≡ true → Seen g h p (h.update p)
  Seen-now p l =
      let u = inv.update p l in
      record {
        small = u.small;
        past = λ c e. let d = ap (λ (v : UpdateRecord). v.is_dirty) e in ground arith;
        moved = inl refl;
        known = λ d. (u.dirty_info d).0;
      }

  pub at_node-Moves :
      (k n l : ℕ)
      → IsThread g h i (at_node k n l)
      → Moves i g h (at_node k n l) (h, at_child k n l (h.update l))
  at_node-Moves k n l (m, q) =
      stays i g h (at_node k n l) (at_child k n l (h.update l)) inv (m, q, Seen-now l q.linked)
        (λ o b. b) (λ ne e. ground arith)

  record IsBelow (k p : ℕ) : Type 0 where
    is_linked : g.linked (child h p k) ≡ true
    low : g.lo (child h p k) ≡ child_lo g h p k
    high : g.hi (child h p k) ≡ child_hi g h p k

  below : (k p : ℕ) → IsInner g h p → IsBelow k p
  below k p x = elim (Bool-cases (ltb k (h.key p))) [
    | inl e ↦ record {
      is_linked = rw (e, if◌then◌else◌) x.left_linked;
      low = rw (e, if◌then◌else◌) x.left_lo;
      high = rw (e, if◌then◌else◌) x.left_hi;
    }
    | inr e ↦ record {
      is_linked = rw (e, if◌then◌else◌) x.right_linked;
      low = rw (e, if◌then◌else◌) x.right_lo;
      high = rw (e, if◌then◌else◌) x.right_hi;
    }
  ]

  -- The range of keys becomes smaller on the way down.
  pub range_shrinks :
      (k p : ℕ) → Leads g h k p → g.hi (child h p k) + g.lo p < g.hi p + g.lo (child h p k)
  range_shrinks k p q =
      let x = inv.inner p q.linked q.inner in
      let b = below k p x in
      let n = inv.node p q.linked in ground (arith, b.low, b.high, x.above, n.high)

  -- What the thread knows below `p`.
  pub leaf_below :
      (k n p : ℕ) (u : UpdateRecord)
      → h.is_leaf (child h p k) ≡ true
      → IsThread g h i (at_child k n p u)
      → IsThread g h i (found k n p u (child h p k))
  leaf_below k n p u e (m, q, s) =
      let b = below k p (inv.inner p q.linked q.inner) in
      (
        m,
        q,
        s,
        record {
          linked = b.is_linked;
          is_leaf = e;
          low = b.low;
          high = b.high;
          present = λ same. (child h p k, Route-child (inv.route k p q) q.inner, e, same);
          still = λ c same. refl;
        },
      )

  pub node_below :
      (k n p : ℕ) (u : UpdateRecord)
      → h.is_leaf (child h p k) ≡ false
      → IsThread g h i (at_child k n p u)
      → IsThread g h i (at_node k n (child h p k))
  node_below k n p u e (m, q, s) =
      let b = below k p (inv.inner p q.linked q.inner) in
      (
        m,
        record {
          linked = b.is_linked;
          inner = e;
          low = ground (arith, b.low, q.low);
          high = ground (arith, b.high, q.high);
        },
      )

  pub at_child-Moves :
      (k n p : ℕ) (u : UpdateRecord)
      → IsThread g h i (at_child k n p u)
      → Moves i g h (at_child k n p u) (
        h,
        if h.is_leaf (child h p k) then found k n p u (child h p k) else at_node k n (child h p k),
      )
  at_child-Moves k n p u x = elim (Bool-cases (h.is_leaf (child h p k))) [
    | inl e ↦
        rw (e, if◌then◌else◌)
          (stays i g h (at_child k n p u) (found k n p u (child h p k)) inv (leaf_below k n p u e x)
            (λ o b. b) (λ ne e. ground arith))
    | inr e ↦
        rw (e, if◌then◌else◌)
          (stays i g h (at_child k n p u) (at_node k n (child h p k)) inv (node_below k n p u e x)
            (λ o b. b) (λ ne e. ground arith))
  ]
