-- ===== src/Bst/NonBlocking/Owning.antt =====
-- BST/NonBlockingBST.cpp: a call of `insert`, which creates the thread's `newNode`.
use zwq_repos.Prelude.{
  ==-differ, ℕ, ◌≤◌, ◌<◌, ◌≡◌, inl, refl, sym, ◌∙◌, Bool, true, false, ◌==◌, if◌then◌else◌, arith,
  ==_refl,
}
use zwq_repos.Bst.Tree.{inf2}
use zwq_repos.Bst.NonBlocking.{Heap, root, outside, at_node, tree_node}
use zwq_repos.Bst.NonBlocking.Route.{Contains, Route-same}
use zwq_repos.Bst.NonBlocking.Invariant.{History, nobody, thread, IsOp, IsUnlinked, IsHeap}
use zwq_repos.Bst.NonBlocking.Extends.{
  unlinked_above, Extends, IsHeap-Extends, Evolves-Extends, child-Extends, child_linked,
}
use zwq_repos.Bst.NonBlocking.Helping.{root-Leads}
use zwq_repos.Bst.NonBlocking.Moves.{Adds, same_keys, Moves}

module _ (g : History) (h h' : Heap) (inv : IsHeap g h) (x : Extends h h') where
  pub Extends-shrinks : (k : ℕ) → Contains h' k → Contains h k
  Extends-shrinks k (l, r, e, q) =
      let inv' = IsHeap-Extends x g inv in
      let (linked, r') =
        Route-same h g.linked
          (λ a la ia.
            let old = (inv.node a la).old in
            (
              sym (x.is_leaf a old) ∙ ia,
              child_linked g a k (inv'.inner a la ia),
              sym (child-Extends x a k old),
            ))
          inv.root_linked r in
      let old = (inv.node l linked).old in (l, r', sym (x.is_leaf l old) ∙ e, sym (x.key l old) ∙ q)

  -- New objects add no key.
  pub Extends-Adds : Adds h h'
  Extends-Adds = same_keys Extends-shrinks

abbrev pub owning : ℕ → ℕ → History → History
owning a i g = record g { owner = λ x. if x == a then thread i else g.owner x }

module _ (g : History) (h : Heap) (inv : IsHeap g h) (i a : ℕ) (old : a < h.next)
    (free : g.owner a ≡ nobody) where
  IsUnlinked-owning :
      (o x d : ℕ) (b : Bool) → IsUnlinked g h o x d b → IsUnlinked (owning a i g) h o x d b
  IsUnlinked-owning o x d b u = record {
    old = u.old;
    owned =
        let away = ==-differ g.owner x a (λ t. ground (arith, t, free, u.owned)) in
        rw (away, if◌then◌else◌) u.owned;
    unlinked = u.unlinked;
    is_leaf = u.is_leaf;
    keyed = u.keyed;
    fresh = u.fresh;
  }

  IsOp-owning : (o : ℕ) → IsOp g h o → IsOp (owning a i g) h o
  IsOp-owning o p = record {
    positive = p.positive;
    old = p.old;
    parent_linked = p.parent_linked;
    parent_inner = p.parent_inner;
    leaf_linked = p.leaf_linked;
    leaf_leaf = p.leaf_leaf;
    leaf_lo = p.leaf_lo;
    leaf_hi = p.leaf_hi;
    key_low = p.key_low;
    key_high = p.key_high;
    key_new = p.key_new;
    subtree_old = p.subtree_old;
    subtree_inner = p.subtree_inner;
    subtree_key = p.subtree_key;
  }

  pub IsHeap-owning : IsHeap (owning a i g) h
  IsHeap-owning = record {
    root_linked = inv.root_linked;
    root_inner = inv.root_inner;
    root_lo = inv.root_lo;
    root_hi = inv.root_hi;
    null_unknown = inv.null_unknown;
    positive = inv.positive;
    unowned = λ x le.
        let away : (x == a) ≡ false = ground arith in rw (away, if◌then◌else◌) (inv.unowned x le);
    node = λ x l. let n = inv.node x l in record { old = n.old; low = n.low; high = n.high };
    inner = λ x l e.
        let n = inv.inner x l e in
        record {
          left_linked = n.left_linked;
          left_lo = n.left_lo;
          left_hi = n.left_hi;
          right_linked = n.right_linked;
          right_lo = n.right_lo;
          right_hi = n.right_hi;
          above = n.above;
        };
    route = λ k x q.
        inv.route k x (record { linked = q.linked; inner = q.inner; low = q.low; high = q.high });
    update = λ p l.
        let u = inv.update p l in
        record { small = u.small; known = u.known; dirty_info = u.dirty_info };
    op = λ o kn. IsOp-owning o (inv.op o kn);
    waits = λ o e.
        let w = inv.waits o e in
        record {
          is_dirty = w.is_dirty;
          place = w.place;
          subtree_unlinked = IsUnlinked-owning o _ _ _ w.subtree_unlinked;
          new_unlinked = IsUnlinked-owning o _ _ _ w.new_unlinked;
          sibling_unlinked = IsUnlinked-owning o _ _ _ w.sibling_unlinked;
          left_child = w.left_child;
          right_child = w.right_child;
        };
    ends = λ o e. let w = inv.ends o e in record { gone = w.gone; present = w.present };
    once = inv.once;
  }

-- The constructor of `treeNode` with a new address.
pub tree_node-Extends :
    (a d : ℕ) (b : Bool) (l r : ℕ) (h : Heap) → a ≡ h.next → Extends h (tree_node a d b l r h)
tree_node-Extends a d b l r h e = record {
  next = omega arith;
  key = λ x lt. ground arith;
  is_leaf = λ x lt. ground arith;
  left = λ x lt. ground arith;
  right = λ x lt. ground arith;
  update = λ x lt. let away : (x == a) ≡ false = ground arith in rw (away, if◌then◌else◌) refl;
  parent = λ x lt. refl;
  leaf = λ x lt. refl;
  subtree = λ x lt. refl;
}

module _ (i : ℕ) (g : History) (h : Heap) (inv : IsHeap g h) (k : ℕ) (le : k ≤ inf2) where
  abbrev called : Heap
  called = tree_node h.next k true 0 0 h

  call-Extends : Extends h called
  call-Extends = tree_node-Extends h.next k true 0 0 h refl

  call_inv : IsHeap (owning h.next i g) called
  call_inv =
      IsHeap-owning g called (IsHeap-Extends call-Extends g inv) i h.next (omega arith)
        (inv.unowned h.next (omega arith))

  pub call-Moves : Moves i g h outside (called, at_node k h.next root)
  call-Moves =
      let me : (h.next == h.next) ≡ true = ==_refl h.next in
      let ev = Evolves-Extends call-Extends g inv i in
      (
        owning h.next i g,
        record {
          heap = call_inv;
          evolves = record {
            next = ev.next;
            key = ev.key;
            is_leaf = ev.is_leaf;
            linked = ev.linked;
            lo = ev.lo;
            hi = ev.hi;
            known = ev.known;
            op_key = ev.op_key;
            caller = ev.caller;
            ends = ev.ends;
            present = ev.present;
            update = ev.update;
            dirt = ev.dirt;
            back = ev.back;
            still = ev.still;
            owned = λ j a ne e.
                let old = inv.unowned h.next (omega arith) in
                let away = ==-differ g.owner a h.next (λ t. ground (arith, t, e, old)) in
                rw (away, if◌then◌else◌) e;
            fresh = ev.fresh;
            unlinked = ev.unlinked;
          };
          me = (
            record {
              old = omega arith;
              owned = rw (me, if◌then◌else◌) refl;
              unlinked = unlinked_above g inv h.next (omega arith);
              is_leaf = rw (me, if◌then◌else◌) refl;
              keyed = rw (me, if◌then◌else◌) refl;
              fresh = rw (me, if◌then◌else◌) refl;
              in_range = le;
            },
            root-Leads (owning h.next i g) called k call_inv le,
          );
          adds = Extends-Adds g h called inv call-Extends;
          active = λ ne e. ground arith;
          begins = λ o kn. inl (kn, refl);
          ended = λ o e. inl e;
          dirt = λ p o l d.
              inl (l, sym (call-Extends.update p (inv.node p l).old) ∙ d, refl, λ b. absurd b);
        },
      )
