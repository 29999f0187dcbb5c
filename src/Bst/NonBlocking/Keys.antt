-- ===== src/Bst/NonBlocking/Keys.antt =====
-- BST/NonBlockingBST.cpp: the keys of the tree around `CASChild`.
use zwq_repos.Prelude.{
  ℕ, ◌≤◌, ◌<◌, ◌≡◌, ◌⊎◌, inl, inr, refl, sym, subst, ap, ◌∙◌, Bool, true, false, ltb, if◌then◌else◌,
  arith, Bool-cases,
}
use zwq_repos.Bst.NonBlocking.{Heap, root, child, help_child}
use zwq_repos.Bst.NonBlocking.Route.{
  Route, Contains, arrived, down, Route-lasts, Route-unique, Route-child, Route-rest,
}
use zwq_repos.Bst.NonBlocking.Invariant.{History, pending, IsHeap}
use zwq_repos.Bst.NonBlocking.Extends.{child_linked}
use zwq_repos.Bst.NonBlocking.Link.{Leads-parent, child_new, child_cases}
use zwq_repos.Bst.NonBlocking.Linked.{is_op, wait, fresh, new_left, new_right}

module _ (g : History) (h : Heap) (o : ℕ) (inv : IsHeap g h) (waits : g.stage o ≡ pending) where
  -- Ways to internal nodes last.
  pub Route-inner :
      {j a : ℕ}
      → g.linked a ≡ true
      → h.is_leaf a ≡ false
      → Route h j root a
      → Route (help_child o h) j root a
  Route-inner {j} l inner r =
      Route-lasts (help_child o h) g.linked
        (λ x lx ix. (
          ix,
          child_linked g x j (inv.inner x lx ix),
          elim (child_cases g h o inv (is_op g h o inv waits) (wait g h o inv waits) x j) [
            | inl e ↦ inl e
            | inr (here, now, was, side) ↦
                inr (ap h.is_leaf was ∙ (is_op g h o inv waits).leaf_leaf)
          ],
        ))
        inv.root_linked r inner

  -- The keys of the leaf lead to the new internal node.
  pub Route-subtree :
      (j : ℕ)
      → g.lo (h.leaf o) ≤ j
      → j < g.hi (h.leaf o)
      → Route (help_child o h) j root (h.subtree o)
  Route-subtree j low high =
      let b = is_op g h o inv waits in
      let (q, side) = Leads-parent g h o inv b j low high in
      let r = Route-inner q.linked q.inner (inv.route j (h.parent o) q) in
      subst (Route (help_child o h) j root) (child_new g h o inv b (wait g h o inv waits) j side)
        (Route-child r q.inner)

  -- Two keys are in the new subtree: that of the operation and that of the leaf.
  new_key :
      (j : ℕ)
      → (j ≡ g.op_key o) ⊎ (j ≡ h.key (h.leaf o))
      → g.lo (h.leaf o) ≤ j
      → j < g.hi (h.leaf o)
      → Contains (help_child o h) j
  new_key j is low high =
      let f = fresh g h o inv waits in
      let b = is_op g h o inv waits in
      let r = Route-child (Route-subtree j low high) f.subtree.is_leaf in
      elim (Bool-cases (ltb j (h.key (h.subtree o)))) [
        | inl e ↦
            let eq : child (help_child o h) (h.subtree o) j ≡ h.left (h.subtree o) =
              rw (e, if◌then◌else◌) (new_left g h o inv waits) in
            (
              h.left (h.subtree o),
              subst (Route (help_child o h) j root) eq r,
              f.left.is_leaf,
              ground (arith, f.left.keyed, f.subtree.keyed, is, e, b.key_new),
            )
        | inr e ↦
            let eq : child (help_child o h) (h.subtree o) j ≡ h.right (h.subtree o) =
              rw (e, if◌then◌else◌) (new_right g h o inv waits) in
            (
              h.right (h.subtree o),
              subst (Route (help_child o h) j root) eq r,
              f.right.is_leaf,
              ground (arith, f.right.keyed, f.subtree.keyed, is, e, b.key_new),
            )
      ]

  pub op_key_in : Contains (help_child o h) (g.op_key o)
  op_key_in = let b = is_op g h o inv waits in new_key (g.op_key o) (inl refl) b.key_low b.key_high

  leaf_key_in : Contains (help_child o h) (h.key (h.leaf o))
  leaf_key_in =
      let n = inv.node (h.leaf o) (is_op g h o inv waits).leaf_linked in
      new_key (h.key (h.leaf o)) (inr refl) n.low n.high

  -- The way of a leaf's key to the leaf.
  Route-leaf : (j : ℕ) → g.lo (h.leaf o) ≤ j → j < g.hi (h.leaf o) → Route h j root (h.leaf o)
  Route-leaf j low high =
      let b = is_op g h o inv waits in
      let (q, side) = Leads-parent g h o inv b j low high in
      let same : child h (h.parent o) j ≡ h.leaf o =
        ap (λ (t : Bool). if t then h.left (h.parent o) else h.right (h.parent o)) side
        ∙ (wait g h o inv waits).place in
      subst (Route h j root) same (Route-child (inv.route j (h.parent o) q) q.inner)

  leaf_key_was : Contains h (h.key (h.leaf o))
  leaf_key_was =
      let b = is_op g h o inv waits in
      let n = inv.node (h.leaf o) b.leaf_linked in
      (h.leaf o, Route-leaf (h.key (h.leaf o)) n.low n.high, b.leaf_leaf, refl)

  -- The operation's key was not in the tree.
  pub op_key_out : ¬ Contains h (g.op_key o)
  op_key_out (m, r, e, q) =
      let b = is_op g h o inv waits in
      let same = Route-unique r (Route-leaf (g.op_key o) b.key_low b.key_high) e b.leaf_leaf in
      b.key_new (sym q ∙ ap h.key same)

  -- A way to a leaf lasts, or the leaf is the one that goes.
  leaf_lasts :
      (j : ℕ) {a m : ℕ}
      → g.linked a ≡ true
      → Route h j a m
      → h.is_leaf m ≡ true
      → Route (help_child o h) j a m ⊎ (m ≡ h.leaf o)
  leaf_lasts j l (arrived a) e = inl (arrived a)
  leaf_lasts j l (down a {b = m} inner r) e =
      elim (child_cases g h o inv (is_op g h o inv waits) (wait g h o inv waits) a j) [
        | inl same ↦ elim (leaf_lasts j (child_linked g a j (inv.inner a l inner)) r e) [
          | inl r' ↦ inl (down a inner (subst (λ c. Route (help_child o h) j c m) (sym same) r'))
          | inr is ↦ inr is
        ]
        | inr (here, now, was, side) ↦
            let leaf : h.is_leaf (child h a j) ≡ true =
              ap h.is_leaf was ∙ (is_op g h o inv waits).leaf_leaf in
            inr (Route-unique r (arrived (child h a j)) e leaf ∙ was)
      ]

  -- Every key stays.
  pub Contains-link : (j : ℕ) → Contains h j → Contains (help_child o h) j
  Contains-link j (m, r, e, q) = elim (leaf_lasts j inv.root_linked r e) [
    | inl r' ↦ (m, r', e, q)
    | inr is ↦ subst (Contains (help_child o h)) (sym (ap h.key is) ∙ q) leaf_key_in
  ]

  -- A leaf of the new tree was reached before, or it has one of the two keys.
  leaf_back :
      (j : ℕ) {a m : ℕ}
      → g.linked a ≡ true
      → Route (help_child o h) j a m
      → h.is_leaf m ≡ true
      → Route h j a m ⊎ ((h.key m ≡ g.op_key o) ⊎ (h.key m ≡ h.key (h.leaf o)))
  leaf_back j l (arrived a) e = inl (arrived a)
  leaf_back j l (down a {b = m} inner r) e =
      elim (child_cases g h o inv (is_op g h o inv waits) (wait g h o inv waits) a j) [
        | inl same ↦
            let lc : g.linked (child (help_child o h) a j) ≡ true =
              ap g.linked same ∙ child_linked g a j (inv.inner a l inner) in
            elim (leaf_back j lc r e) [
              | inl r' ↦ inl (down a inner (subst (λ c. Route h j c m) same r'))
              | inr is ↦ inr is
            ]
        | inr (here, now, was, side) ↦
            inr (in_subtree (subst (λ c. Route (help_child o h) j c m) now r))
      ]
    where
      in_subtree :
          Route (help_child o h) j (h.subtree o) m
          → (h.key m ≡ g.op_key o) ⊎ (h.key m ≡ h.key (h.leaf o))
      in_subtree q =
          let r' = Route-rest q (fresh g h o inv waits).subtree.is_leaf e in
          let f = fresh g h o inv waits in
          elim (Bool-cases (ltb j (h.key (h.subtree o)))) [
            | inl t ↦
                let eq : child (help_child o h) (h.subtree o) j ≡ h.left (h.subtree o) =
                  rw (t, if◌then◌else◌) (new_left g h o inv waits) in
                let is = Route-unique r' (arrived _) e (ap h.is_leaf eq ∙ f.left.is_leaf) in
                ground (arith, ap h.key (is ∙ eq), f.left.keyed)
            | inr t ↦
                let eq : child (help_child o h) (h.subtree o) j ≡ h.right (h.subtree o) =
                  rw (t, if◌then◌else◌) (new_right g h o inv waits) in
                let is = Route-unique r' (arrived _) e (ap h.is_leaf eq ∙ f.right.is_leaf) in
                ground (arith, ap h.key (is ∙ eq), f.right.keyed)
          ]

  -- The only new key is that of the operation.
  pub Contains-back : (j : ℕ) → Contains (help_child o h) j → Contains h j ⊎ (j ≡ g.op_key o)
  Contains-back j (m, r, e, q) = elim (leaf_back j inv.root_linked r e) [
    | inl r' ↦ inl (m, r', e, q)
    | inr (inl is) ↦ inr (sym q ∙ is)
    | inr (inr is) ↦ inl (subst (Contains h) (sym is ∙ q) leaf_key_was)
  ]
