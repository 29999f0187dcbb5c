-- ===== src/Bst/NonBlocking/Lasting.antt =====
-- BST/NonBlockingBST.cpp: the operations after `CASChild`, and what it leaves to the threads.
use zwq_repos.Prelude.{
  ℕ, ◌≤◌, ◌<◌, ◌≡◌, ◌≢◌, ◌⊎◌, inl, inr, refl, sym, subst, ap, ◌∙◌, Bool, true, false, ◌==◌,
  if◌then◌else◌, arith,
}
use zwq_repos.Bst.NonBlocking.{UpdateRecord, Heap, root, clean_null, help_child}
use zwq_repos.Bst.NonBlocking.Route.{Route, Contains}
use zwq_repos.Bst.NonBlocking.Invariant.{
  History, thread, operation, pending, finished, Leads, IsUnlinked, IsPending, IsFinished, IsUpdate,
  IsHeap,
}
use zwq_repos.Bst.NonBlocking.Link.{left_cases, right_cases, child_new, child_cases}
use zwq_repos.Bst.NonBlocking.Linked.{linking, is_op, wait, fresh, keep, new, linked_cases}
use zwq_repos.Bst.NonBlocking.Keys.{
  Route-inner, Route-subtree, op_key_in, op_key_out, Contains-link,
}
use zwq_repos.Bst.NonBlocking.Kept.{
  IsNode-link, IsInner-link, known_was, known_link, IsOp-link, not_fresh,
}
use zwq_repos.Bst.NonBlocking.Evolves.{Evolves}

module _ (g : History) (h : Heap) (o : ℕ) (inv : IsHeap g h) (waits : g.stage o ≡ pending) where
  abbrev later : History
  later = linking g h o

  abbrev after : Heap
  after = help_child o h

  Route-link : (k a : ℕ) → Leads later after k a → Route after k root a
  Route-link k a q =
      let f = fresh g h o inv waits in
      let n = new g h o inv waits in
      elim (linked_cases g h o inv waits a q.linked) [
        | inl l ↦
            let x = keep g h o inv waits a l in
            Route-inner g h o inv waits l q.inner (
              inv.route k a (record {
                linked = l;
                inner = q.inner;
                low = rw⁻¹ x.lo q.low;
                high = rw⁻¹ x.hi q.high;
              }))
        | inr (inl e) ↦
            let low = subst (λ b. later.lo b ≤ k) e q.low in
            let high = subst (λ b. k < later.hi b) e q.high in
            subst (Route after k root) (sym e) (
              Route-subtree g h o inv waits k (omega (arith, low, n.lo))
                (omega (arith, high, n.hi)))
        | inr (inr (inl e)) ↦ absurd (ground (arith, q.inner, ap h.is_leaf e, f.left.is_leaf))
        | inr (inr (inr e)) ↦ absurd (ground (arith, q.inner, ap h.is_leaf e, f.right.is_leaf))
      ]

  IsUpdate-link : (p : ℕ) → later.linked p ≡ true → IsUpdate later after p (h.update p)
  IsUpdate-link p lp =
      let f = fresh g h o inv waits in
      let of_null : h.update p ≡ clean_null → IsUpdate later after p (h.update p) = λ e.
        rw e (record {
          small = inv.positive;
          known = λ nz. absurd (nz refl);
          dirty_info = λ d. absurd (ground arith);
        }) in
      elim (linked_cases g h o inv waits p lp) [
        | inl l ↦
            let u = inv.update p l in
            record {
              small = u.small;
              known = λ nz. known_link g h o inv waits _ (u.known nz);
              dirty_info =
                  λ d. let (kn, e) = u.dirty_info d in (known_link g h o inv waits _ kn, e);
            }
        | inr (inl e) ↦ of_null (ap h.update e ∙ f.subtree.fresh)
        | inr (inr (inl e)) ↦ of_null (ap h.update e ∙ f.left.fresh)
        | inr (inr (inr e)) ↦ of_null (ap h.update e ∙ f.right.fresh)
      ]

  IsUnlinked-link :
      (x a d : ℕ) (b : Bool) → x ≢ o → IsUnlinked g h x a d b → IsUnlinked later after x a d b
  IsUnlinked-link x a d b ne u = record {
    old = u.old;
    owned = u.owned;
    unlinked = not_fresh g h o inv waits (operation x) a (λ e. ground arith) u.owned u.unlinked;
    is_leaf = u.is_leaf;
    keyed = u.keyed;
    fresh = u.fresh;
  }

  was_pending : (x : ℕ) → later.stage x ≡ pending → (x ≢ o) × (g.stage x ≡ pending)
  was_pending x e = ground (arith, e)

  IsPending-link : (x : ℕ) → x ≢ o → g.stage x ≡ pending → IsPending later after x
  IsPending-link x ne e =
      let w = inv.waits x e in
      let b = is_op g h o inv waits in
      let me = wait g h o inv waits in
      let apart : h.parent x ≢ h.parent o = λ same.
        ne (ap (λ (v : UpdateRecord). v.info) (sym w.is_dirty ∙ ap h.update same ∙ me.is_dirty)) in
      let s_apart : h.subtree x ≢ h.parent o =
        λ same. ground (arith, ap g.linked same, w.subtree_unlinked.unlinked, b.parent_linked) in
      let same_left : after.left (h.subtree x) ≡ h.left (h.subtree x) =
        elim (left_cases g h o inv b me (h.subtree x)) [
          | inl same ↦ same
          | inr (here, _, _) ↦ absurd (s_apart here)
        ] in
      let same_right : after.right (h.subtree x) ≡ h.right (h.subtree x) =
        elim (right_cases g h o inv b me (h.subtree x)) [
          | inl same ↦ same
          | inr (here, _, _) ↦ absurd (s_apart here)
        ] in
      record {
        is_dirty = w.is_dirty;
        place = elim (child_cases g h o inv b me (h.parent x) (g.op_key x)) [
          | inl same ↦ same ∙ w.place
          | inr (here, _, _, _) ↦ absurd (apart here)
        ];
        subtree_unlinked = IsUnlinked-link x _ _ _ ne w.subtree_unlinked;
        new_unlinked = IsUnlinked-link x _ _ _ ne w.new_unlinked;
        sibling_unlinked = IsUnlinked-link x _ _ _ ne w.sibling_unlinked;
        left_child = same_left ∙ w.left_child;
        right_child = same_right ∙ w.right_child;
      }

  IsFinished-me : IsFinished later after o
  IsFinished-me = record {
    gone = λ e.
        let now =
          child_new g h o inv (is_op g h o inv waits) (wait g h o inv waits) (g.op_key o) refl in
        let same : h.subtree o ≡ h.leaf o = sym now ∙ e in
        ground (
          arith,
          ap h.is_leaf same,
          (fresh g h o inv waits).subtree.is_leaf,
          (is_op g h o inv waits).leaf_leaf,
        );
    present = op_key_in g h o inv waits;
  }

  IsFinished-link : (x : ℕ) → g.stage x ≡ finished → IsFinished later after x
  IsFinished-link x e =
      let w = inv.ends x e in
      let bx = inv.op x (ground arith) in
      record {
        gone = λ t.
            elim (child_cases g h o inv (is_op g h o inv waits) (wait g h o inv waits) (h.parent x)
              (g.op_key x)) [
                | inl same ↦ w.gone (sym same ∙ t)
                | inr (here, now, _, _) ↦
                    let same : h.subtree o ≡ h.leaf x = sym now ∙ t in
                    ground (
                      arith,
                      ap h.is_leaf same,
                      (fresh g h o inv waits).subtree.is_leaf,
                      bx.leaf_leaf,
                    )
              ];
        present = Contains-link g h o inv waits (g.op_key x) w.present;
      }

  pub finished_cases : (x : ℕ) → later.stage x ≡ finished → (x ≡ o) ⊎ (g.stage x ≡ finished)
  finished_cases x e = ground (arith, e)

  -- No operation with the same key was finished.
  not_twice : (x : ℕ) → g.stage x ≡ finished → g.op_key x ≢ g.op_key o
  not_twice x e same = op_key_out g h o inv waits (subst (Contains h) same (inv.ends x e).present)

  pub IsHeap-link : IsHeap later after
  IsHeap-link =
      let r = keep g h o inv waits root inv.root_linked in
      record {
        root_linked = r.linked;
        root_inner = inv.root_inner;
        root_lo = r.lo ∙ inv.root_lo;
        root_hi = r.hi ∙ inv.root_hi;
        null_unknown =
            let not_null : (0 == o) ≡ false = ground (arith, (is_op g h o inv waits).positive) in
            rw (not_null, if◌then◌else◌) inv.null_unknown;
        positive = inv.positive;
        unowned = inv.unowned;
        node = IsNode-link g h o inv waits;
        inner = IsInner-link g h o inv waits;
        route = Route-link;
        update = IsUpdate-link;
        op = λ x kn. IsOp-link g h o inv waits x (known_was g h o inv waits x kn);
        waits = λ x e. let (ne, was) = was_pending x e in IsPending-link x ne was;
        ends = λ x e. elim (finished_cases x e) [
          | inl same ↦ subst (IsFinished later after) (sym same) IsFinished-me
          | inr was ↦ IsFinished-link x was
        ];
        once = λ x y ex ey same. elim (finished_cases x ex) [
          | inl is_x ↦ elim (finished_cases y ey) [
            | inl is_y ↦ is_x ∙ sym is_y
            | inr was_y ↦ absurd (not_twice y was_y (sym same ∙ ap g.op_key is_x))
          ]
          | inr was_x ↦ elim (finished_cases y ey) [
            | inl is_y ↦ absurd (not_twice x was_x (same ∙ ap g.op_key is_y))
            | inr was_y ↦ inv.once x y was_x was_y same
          ]
        ];
      }

  pub Evolves-link : (i : ℕ) → Evolves i g h later after
  Evolves-link i = record {
    next = omega arith;
    key = λ a lt. refl;
    is_leaf = λ a lt. refl;
    linked = λ a l. (keep g h o inv waits a l).linked;
    lo = λ a l. (keep g h o inv waits a l).lo;
    hi = λ a l. (keep g h o inv waits a l).hi;
    known = known_link g h o inv waits;
    op_key = λ x kn. refl;
    caller = λ x kn. refl;
    ends = λ x e. ground arith;
    present = Contains-link g h o inv waits;
    update = λ p l. inl refl;
    dirt = λ p x l lt e. e;
    back = λ p u l cl lt e. inl e;
    still = λ p k l cl e.
        elim (child_cases g h o inv (is_op g h o inv waits) (wait g h o inv waits) p k) [
          | inl same ↦ same
          | inr (here, _, _, _) ↦
              let d =
                ap (λ (v : UpdateRecord). v.is_dirty)
                  (ap h.update here ∙ (wait g h o inv waits).is_dirty) in
              absurd (ground arith)
        ];
    owned = λ j a ne e. e;
    fresh = λ j a ne e un lt. refl;
    unlinked = λ j a ne e un. not_fresh g h o inv waits (thread j) a (λ t. ground arith) e un;
  }
