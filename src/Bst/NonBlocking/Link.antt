-- ===== src/Bst/NonBlocking/Link.antt =====
-- BST/NonBlockingBST.cpp: `CASChild` of an operation, which puts its new nodes in the place of a leaf.
use zwq_repos.Prelude.{
  ℕ, ◌≤◌, ◌<◌, ◌≡◌, ◌⊎◌, inl, inr, refl, sym, subst, ap, ◌∙◌, fun_ext, Bool, true, false, not, ◌&&◌,
  ◌==◌, ltb, if◌then◌else◌, arith, Bool-cases,
}
use zwq_repos.Bst.Tree.{max}
use zwq_repos.Bst.NonBlocking.{Heap, child, help_child}
use zwq_repos.Bst.NonBlocking.Invariant.{
  History, Leads, IsOp, IsUnlinked, IsPending, IsFinished, IsHeap,
}

abbrev pub min : ℕ → ℕ → ℕ
min a b = if ltb a b then a else b

module _ (g : History) (h : Heap) (o : ℕ) where
  -- The side of the new subtree is that of the operation's key.
  pub side_key :
      IsHeap g h
      → IsOp g h o
      → ltb (h.key (h.subtree o)) (h.key (h.parent o)) ≡ ltb (g.op_key o) (h.key (h.parent o))
  side_key inv b =
      let n = inv.node (h.leaf o) b.leaf_linked in
      rw b.subtree_key (ground (arith, n.low, n.high, b.leaf_lo, b.leaf_hi, b.key_low, b.key_high))

  -- The keys that lead to the leaf lead to the parent, on the side of the operation's key.
  pub Leads-parent :
      IsHeap g h
      → IsOp g h o
      → (j : ℕ) → g.lo (h.leaf o) ≤ j
      → j < g.hi (h.leaf o)
      → Leads g h j (h.parent o)
        × (ltb j (h.key (h.parent o)) ≡ ltb (g.op_key o) (h.key (h.parent o)))
  Leads-parent inv b j low high =
      let n = inv.node (h.parent o) b.parent_linked in
      (
        record {
          linked = b.parent_linked;
          inner = b.parent_inner;
          low = ground (arith, n.low, n.high, b.leaf_lo, b.leaf_hi, b.key_low, b.key_high);
          high = ground (arith, n.low, n.high, b.leaf_lo, b.leaf_hi, b.key_low, b.key_high);
        },
        ground (arith, n.low, n.high, b.leaf_lo, b.leaf_hi, b.key_low, b.key_high),
      )

  -- Once the leaf is gone, the exchange fails.
  pub help_child_finished : IsHeap g h → IsOp g h o → IsFinished g h o → help_child o h ≡ h
  help_child_finished inv b f =
      let p = h.parent o in
      let l = h.leaf o in
      let s = h.subtree o in
      let side = side_key inv b in
      let no_left : (ltb (h.key s) (h.key p) && h.left p == l) ≡ false =
        elim (Bool-cases (ltb (h.key s) (h.key p) && h.left p == l)) [
          | inr t ↦ t
          | inl t ↦
              let before : ltb (g.op_key o) (h.key p) ≡ true = ground (arith, side, t) in
              let at_leaf : h.left p ≡ l = ground (arith, t) in
              absurd (f.gone (rw (before, if◌then◌else◌) at_leaf))
        ] in
      let no_right : (not (ltb (h.key s) (h.key p)) && h.right p == l) ≡ false =
        elim (Bool-cases (not (ltb (h.key s) (h.key p)) && h.right p == l)) [
          | inr t ↦ t
          | inl t ↦
              let behind : ltb (g.op_key o) (h.key p) ≡ false = ground (arith, side, t) in
              let at_leaf : h.right p ≡ l = ground (arith, t) in
              absurd (f.gone (rw (behind, if◌then◌else◌) at_leaf))
        ] in
      let same_left : (λ x.
        if ltb (h.key s) (h.key p) && (x == p && h.left p == l) then s else h.left x)
          ≡ h.left =
        fun_ext λ x. ground (arith, no_left) in
      let same_right : (λ x.
        if not (ltb (h.key s) (h.key p)) && (x == p && h.right p == l) then s else h.right x)
          ≡ h.right =
        fun_ext λ x. ground (arith, no_right) in
      λ j. record h { left = same_left j; right = same_right j }

-- The nodes that a pending operation is about to link.
pub record Fresh (g : History) (h : Heap) (o : ℕ) : Type 0 where
  pub subtree : IsUnlinked g h o (h.subtree o) (max (g.op_key o) (h.key (h.leaf o))) false
  pub left : IsUnlinked g h o (h.left (h.subtree o)) (min (g.op_key o) (h.key (h.leaf o))) true
  pub right : IsUnlinked g h o (h.right (h.subtree o)) (max (g.op_key o) (h.key (h.leaf o))) true

module _ (g : History) (h : Heap) (o : ℕ) (inv : IsHeap g h) (b : IsOp g h o)
    (w : IsPending g h o) where
  pub fresh_nodes : Fresh g h o
  fresh_nodes = elim (Bool-cases (ltb (g.op_key o) (h.key (h.leaf o)))) [
    | inl e ↦ record {
      subtree = w.subtree_unlinked;
      left = rw (w.left_child, e, if◌then◌else◌) w.new_unlinked;
      right = rw (w.right_child, e, if◌then◌else◌) w.sibling_unlinked;
    }
    | inr e ↦ record {
      subtree = w.subtree_unlinked;
      left = rw (w.left_child, e, if◌then◌else◌) w.sibling_unlinked;
      right = rw (w.right_child, e, if◌then◌else◌) w.new_unlinked;
    }
  ]

  abbrev after : Heap
  after = help_child o h

  -- The exchange succeeds on the side of the operation's key.
  pub left_cases :
      (a : ℕ)
      → (after.left a ≡ h.left a)
        ⊎ ((a ≡ h.parent o)
            × (ltb (g.op_key o) (h.key (h.parent o)) ≡ true)
            × (after.left a ≡ h.subtree o))
  left_cases a =
      let side = side_key g h o inv b in
      elim (Bool-cases (
        ltb (h.key (h.subtree o)) (h.key (h.parent o))
        && (a == h.parent o && h.left (h.parent o) == h.leaf o))) [
          | inl t ↦ inr (ground arith, ground (arith, side), rw (t, if◌then◌else◌) refl)
          | inr t ↦ inl (rw (t, if◌then◌else◌) refl)
        ]

  pub right_cases :
      (a : ℕ)
      → (after.right a ≡ h.right a)
        ⊎ ((a ≡ h.parent o)
            × (ltb (g.op_key o) (h.key (h.parent o)) ≡ false)
            × (after.right a ≡ h.subtree o))
  right_cases a =
      let side = side_key g h o inv b in
      elim (Bool-cases (
        not (ltb (h.key (h.subtree o)) (h.key (h.parent o)))
        && (a == h.parent o && h.right (h.parent o) == h.leaf o))) [
          | inl t ↦ inr (ground arith, ground (arith, side), rw (t, if◌then◌else◌) refl)
          | inr t ↦ inl (rw (t, if◌then◌else◌) refl)
        ]

  -- The parent's child on the side of the operation's key is the new subtree.
  pub child_new :
      (j : ℕ)
      → ltb j (h.key (h.parent o)) ≡ ltb (g.op_key o) (h.key (h.parent o))
      → child after (h.parent o) j ≡ h.subtree o
  child_new j same =
      let side = side_key g h o inv b in
      elim (Bool-cases (ltb (g.op_key o) (h.key (h.parent o)))) [
        | inl e ↦
            let before = same ∙ e in
            let place : h.left (h.parent o) ≡ h.leaf o =
              subst (λ t. (if t then h.left (h.parent o) else h.right (h.parent o)) ≡ h.leaf o) e
                w.place in
            let test : (ltb (h.key (h.subtree o)) (h.key (h.parent o))
                  && (h.parent o == h.parent o && h.left (h.parent o) == h.leaf o))
                ≡ true =
              ground (arith, side, e, place) in
            rw (before, test, if◌then◌else◌) refl
        | inr e ↦
            let behind = same ∙ e in
            let place : h.right (h.parent o) ≡ h.leaf o =
              subst (λ t. (if t then h.left (h.parent o) else h.right (h.parent o)) ≡ h.leaf o) e
                w.place in
            let test : (not (ltb (h.key (h.subtree o)) (h.key (h.parent o)))
                  && (h.parent o == h.parent o && h.right (h.parent o) == h.leaf o))
                ≡ true =
              ground (arith, side, e, place) in
            rw (behind, test, if◌then◌else◌) refl
      ]

  -- The child of a node to which a key leads stays, or it was the leaf.
  pub child_cases :
      (a j : ℕ)
      → (child after a j ≡ child h a j)
        ⊎ ((a ≡ h.parent o)
            × (child after a j ≡ h.subtree o)
            × (child h a j ≡ h.leaf o)
            × (ltb j (h.key (h.parent o)) ≡ ltb (g.op_key o) (h.key (h.parent o))))
  child_cases a j = elim (Bool-cases (ltb j (h.key a))) [
    | inl e ↦ elim (left_cases a) [
      | inl same ↦ inl (rw (e, if◌then◌else◌) same)
      | inr (here, side, now) ↦
          let e' : ltb j (h.key (h.parent o)) ≡ true = sym (ap (λ x. ltb j (h.key x)) here) ∙ e in
          inr (here, rw (e, if◌then◌else◌) now, old_place here (e' ∙ sym side), e' ∙ sym side)
    ]
    | inr e ↦ elim (right_cases a) [
      | inl same ↦ inl (rw (e, if◌then◌else◌) same)
      | inr (here, side, now) ↦
          let e' : ltb j (h.key (h.parent o)) ≡ false = sym (ap (λ x. ltb j (h.key x)) here) ∙ e in
          inr (here, rw (e, if◌then◌else◌) now, old_place here (e' ∙ sym side), e' ∙ sym side)
    ]
  ]
    where
      old_place :
          a ≡ h.parent o
          → ltb j (h.key (h.parent o)) ≡ ltb (g.op_key o) (h.key (h.parent o))
          → child h a j ≡ h.leaf o
      old_place here side =
          ap (λ x. child h x j) here
          ∙ ap (λ (t : Bool). if t then h.left (h.parent o) else h.right (h.parent o)) side
          ∙ w.place
