-- ===== src/Bst/NonBlocking/Extends.antt =====
-- BST/NonBlockingBST.cpp: new objects leave the others as they are.
use zwq_repos.Prelude.{
  false, ℕ, ◌≤◌, ◌<◌, ◌≡◌, inl, inr, refl, sym, ap, ◌∙◌, Bool, true, ltb, if◌then◌else◌, arith,
  Bool-cases,
}
use zwq_repos.Bst.NonBlocking.{Heap, root, child}
use zwq_repos.Bst.NonBlocking.Route.{Route, Contains, Route-same}
use zwq_repos.Bst.NonBlocking.Invariant.{
  History, IsInner, IsOp, IsUnlinked, IsPending, IsFinished, IsUpdate, IsHeap,
}
use zwq_repos.Bst.NonBlocking.Evolves.{Evolves}

pub record Extends (h h' : Heap) : Type 0 where
  pub next : h.next ≤ h'.next
  pub key : (a : ℕ) → a < h.next → h'.key a ≡ h.key a
  pub is_leaf : (a : ℕ) → a < h.next → h'.is_leaf a ≡ h.is_leaf a
  pub left : (a : ℕ) → a < h.next → h'.left a ≡ h.left a
  pub right : (a : ℕ) → a < h.next → h'.right a ≡ h.right a
  pub update : (a : ℕ) → a < h.next → h'.update a ≡ h.update a
  pub parent : (a : ℕ) → a < h.next → h'.parent a ≡ h.parent a
  pub leaf : (a : ℕ) → a < h.next → h'.leaf a ≡ h.leaf a
  pub subtree : (a : ℕ) → a < h.next → h'.subtree a ≡ h.subtree a

module _ (g : History) {h : Heap} where
  pub child_linked : (a k : ℕ) → IsInner g h a → g.linked (child h a k) ≡ true
  child_linked a k i = elim (Bool-cases (ltb k (h.key a))) [
    | inl e ↦ rw (e, if◌then◌else◌) i.left_linked
    | inr e ↦ rw (e, if◌then◌else◌) i.right_linked
  ]

module _ (g : History) {h : Heap} (inv : IsHeap g h) where
  -- The node at the end of a way is one of the tree.
  pub Route-linked : {k a : ℕ} → Route h k root a → g.linked a ≡ true
  Route-linked {k} r =
      (Route-same h g.linked (λ a l inner. (inner, child_linked g a k (inv.inner a l inner), refl))
        inv.root_linked r).0

  -- A node of the tree is an object that exists.
  pub unlinked_above : (a : ℕ) → h.next ≤ a → g.linked a ≡ false
  unlinked_above a le = elim (Bool-cases (g.linked a)) [
    | inl e ↦ absurd (omega (arith, (inv.node a e).old))
    | inr e ↦ e
  ]

module _ {h h' : Heap} (x : Extends h h') where
  pub child-Extends : (a k : ℕ) → a < h.next → child h' a k ≡ child h a k
  child-Extends a k lt = rw (x.key a lt, x.left a lt, x.right a lt) refl

  module _ (g : History) (inv : IsHeap g h) where
    Route-Extends : {k a : ℕ} → Route h k root a → Route h' k root a
    Route-Extends {k} r =
        (Route-same h' g.linked
          (λ a l inner.
            let old = (inv.node a l).old in
            (
              x.is_leaf a old ∙ inner,
              child_linked g a k (inv.inner a l inner),
              child-Extends a k old,
            ))
          inv.root_linked r).1

    pub Contains-Extends : (k : ℕ) → Contains h k → Contains h' k
    Contains-Extends k (l, r, e, q) =
        let old = (inv.node l (Route-linked g inv r)).old in
        (l, Route-Extends r, x.is_leaf l old ∙ e, x.key l old ∙ q)

    IsInner-Extends : (a : ℕ) → a < h.next → IsInner g h a → IsInner g h' a
    IsInner-Extends a lt i =
        let el = x.left a lt in
        let er = x.right a lt in
        let ek = x.key a lt in
        record {
          left_linked = rw el i.left_linked;
          left_lo = rw el i.left_lo;
          left_hi = rw (el, ek) i.left_hi;
          right_linked = rw er i.right_linked;
          right_lo = rw (er, ek) i.right_lo;
          right_hi = rw er i.right_hi;
          above = rw ek i.above;
        }

    IsOp-Extends : (o : ℕ) → IsOp g h o → IsOp g h' o
    IsOp-Extends o p =
        let ep = x.parent o p.old in
        let el = x.leaf o p.old in
        let es = x.subtree o p.old in
        let kp = x.key (h.parent o) (inv.node _ p.parent_linked).old in
        let kl = x.key (h.leaf o) (inv.node _ p.leaf_linked).old in
        let ks = x.key (h.subtree o) p.subtree_old in
        let fp = x.is_leaf (h.parent o) (inv.node _ p.parent_linked).old in
        let fl = x.is_leaf (h.leaf o) (inv.node _ p.leaf_linked).old in
        let fs = x.is_leaf (h.subtree o) p.subtree_old in
        record {
          positive = p.positive;
          old = omega (arith, p.old, x.next);
          parent_linked = rw ep p.parent_linked;
          parent_inner = rw (ep, fp) p.parent_inner;
          leaf_linked = rw el p.leaf_linked;
          leaf_leaf = rw (el, fl) p.leaf_leaf;
          leaf_lo = rw (el, ep, kp) p.leaf_lo;
          leaf_hi = rw (el, ep, kp) p.leaf_hi;
          key_low = rw el p.key_low;
          key_high = rw el p.key_high;
          key_new = rw (el, kl) p.key_new;
          subtree_old = rw es (omega (arith, p.subtree_old, x.next));
          subtree_inner = rw (es, fs) p.subtree_inner;
          subtree_key = rw (es, ks, el, kl) p.subtree_key;
        }

    IsUnlinked-Extends : (o a d : ℕ) (b : Bool) → IsUnlinked g h o a d b → IsUnlinked g h' o a d b
    IsUnlinked-Extends o a d b u = record {
      old = omega (arith, u.old, x.next);
      owned = u.owned;
      unlinked = u.unlinked;
      is_leaf = x.is_leaf a u.old ∙ u.is_leaf;
      keyed = x.key a u.old ∙ u.keyed;
      fresh = x.update a u.old ∙ u.fresh;
    }

    IsPending-Extends : (o : ℕ) → IsOp g h o → IsPending g h o → IsPending g h' o
    IsPending-Extends o p w =
        let ep = x.parent o p.old in
        let el = x.leaf o p.old in
        let es = x.subtree o p.old in
        let old_p = (inv.node _ p.parent_linked).old in
        let kl = x.key (h.leaf o) (inv.node _ p.leaf_linked).old in
        let up = x.update (h.parent o) old_p in
        let cp = child-Extends (h.parent o) (g.op_key o) old_p in
        let ls = x.left (h.subtree o) p.subtree_old in
        let rs = x.right (h.subtree o) p.subtree_old in
        record {
          is_dirty = rw (ep, up) w.is_dirty;
          place = ap (λ a. child h' a (g.op_key o)) ep ∙ cp ∙ w.place ∙ sym el;
          subtree_unlinked = rw (es, el, kl) (IsUnlinked-Extends o _ _ _ w.subtree_unlinked);
          new_unlinked = IsUnlinked-Extends o _ _ _ w.new_unlinked;
          sibling_unlinked = rw (el, kl) (IsUnlinked-Extends o _ _ _ w.sibling_unlinked);
          left_child = rw (es, ls, el, kl) w.left_child;
          right_child = rw (es, rs, el, kl) w.right_child;
        }

    IsFinished-Extends : (o : ℕ) → IsOp g h o → IsFinished g h o → IsFinished g h' o
    IsFinished-Extends o p w =
        let ep = x.parent o p.old in
        let el = x.leaf o p.old in
        let cp = child-Extends (h.parent o) (g.op_key o) (inv.node _ p.parent_linked).old in
        record {
          gone = λ e. w.gone (sym (ap (λ a. child h' a (g.op_key o)) ep ∙ cp) ∙ e ∙ el);
          present = Contains-Extends (g.op_key o) w.present;
        }

    IsUpdate-Extends :
        (p : ℕ) → p < h.next → IsUpdate g h p (h.update p) → IsUpdate g h' p (h'.update p)
    IsUpdate-Extends p lt u = rw (x.update p lt) record {
      small = omega (arith, u.small, x.next);
      known = u.known;
      dirty_info =
          λ d. let (known, e) = u.dirty_info d in (known, x.parent (h.update p).info u.small ∙ e);
    }

    -- The heap stays sound.
    pub IsHeap-Extends : IsHeap g h'
    IsHeap-Extends = record {
      root_linked = inv.root_linked;
      root_inner = x.is_leaf root (inv.node root inv.root_linked).old ∙ inv.root_inner;
      root_lo = inv.root_lo;
      root_hi = inv.root_hi;
      null_unknown = inv.null_unknown;
      positive = omega (arith, inv.positive, x.next);
      unowned = λ a le. inv.unowned a (omega (arith, x.next));
      node = λ a l.
          let n = inv.node a l in
          let ek = x.key a n.old in
          record { old = omega (arith, n.old, x.next); low = rw ek n.low; high = rw ek n.high };
      inner = λ a l inner.
          let old = (inv.node a l).old in
          IsInner-Extends a old (inv.inner a l (sym (x.is_leaf a old) ∙ inner));
      route = λ k a l.
          let old = (inv.node a l.linked).old in
          Route-Extends (
            inv.route k a (record {
              linked = l.linked;
              inner = sym (x.is_leaf a old) ∙ l.inner;
              low = l.low;
              high = l.high;
            }));
      update = λ p l. IsUpdate-Extends p (inv.node p l).old (inv.update p l);
      op = λ o kn. IsOp-Extends o (inv.op o kn);
      waits = λ o e. IsPending-Extends o (inv.op o (ground arith)) (inv.waits o e);
      ends = λ o e. IsFinished-Extends o (inv.op o (ground arith)) (inv.ends o e);
      once = inv.once;
    }

    pub Evolves-Extends : (i : ℕ) → Evolves i g h g h'
    Evolves-Extends i = record {
      next = x.next;
      key = x.key;
      is_leaf = x.is_leaf;
      linked = λ a l. l;
      lo = λ a l. refl;
      hi = λ a l. refl;
      known = λ o kn. kn;
      op_key = λ o kn. refl;
      caller = λ o kn. refl;
      ends = λ o e. e;
      present = Contains-Extends;
      update = λ p l. inl (x.update p (inv.node p l).old);
      dirt = λ p y l lt e. sym (x.update p (inv.node p l).old) ∙ e;
      back = λ p u l c lt e. inl (sym (x.update p (inv.node p l).old) ∙ e);
      still = λ p k l c e. child-Extends p k (inv.node p l).old;
      owned = λ j a ne e. e;
      fresh = λ j a ne e e' lt. x.update a lt;
      unlinked = λ j a ne e e'. e';
    }
