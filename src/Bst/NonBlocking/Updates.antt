-- ===== src/Bst/NonBlocking/Updates.antt =====
-- BST/NonBlockingBST.cpp: a change of `update` of one node.
use zwq_repos.Prelude.{
  ℕ, ◌≡◌, ◌≢◌, ◌⊎◌, inl, inr, refl, sym, subst, ap, ◌∙◌, fun_ext, Bool, true, false, ◌&&◌, ◌==◌,
  if◌then◌else◌, arith, Bool-cases, ==_refl,
}
use zwq_repos.Bst.NonBlocking.{
  UpdateRecord, Heap, dirty, clean, same_update, cas_update, help_clean,
}
use zwq_repos.Bst.NonBlocking.Route.{Route, Contains, arrived, down}
use zwq_repos.Bst.NonBlocking.Invariant.{
  History, unknown, pending, finished, IsOp, IsUnlinked, IsUpdate, IsHeap,
}
use zwq_repos.Bst.NonBlocking.Evolves.{Evolves}

-- The comparison of two values of `update`.
pub same-eq : (u v : UpdateRecord) → same_update u v ≡ true → u ≡ v
same-eq u v e =
    let d : u.is_dirty ≡ v.is_dirty = ground arith in
    let i : u.info ≡ v.info = ground arith in λ j. record { is_dirty = d j; info = i j }

pub same-ne : (u v : UpdateRecord) → same_update u v ≡ false → u ≢ v
same-ne u v e q =
    let d = ap (λ (w : UpdateRecord). w.is_dirty) q in
    let i = ap (λ (w : UpdateRecord). w.info) q in ground arith

-- An exchange that fails changes nothing.
pub cas_update_fails :
    (p : ℕ) (u v : UpdateRecord) (h : Heap)
    → same_update (h.update p) u ≡ false
    → cas_update p u v h ≡ h
cas_update_fails p u v h e =
    let same : (λ x. if x == p && same_update (h.update p) u then v else h.update x) ≡ h.update =
      fun_ext λ x. ground (arith, e) in
    ap (λ (f : ℕ → UpdateRecord). record h { update = f }) same

module _ (g : History) (h : Heap) (f : ℕ → UpdateRecord) where
  abbrev pub updated : Heap
  updated = record h { update = f }

  pub Route-updated : {k a b : ℕ} → Route h k a b → Route updated k a b
  Route-updated (arrived a) = arrived a
  Route-updated (down a e r) = down a e (Route-updated r)

  pub Contains-updated : (k : ℕ) → Contains h k → Contains updated k
  Contains-updated k (l, r, e, q) = (l, Route-updated r, e, q)

  module _ (inv : IsHeap g h) (values : (p : ℕ) → g.linked p ≡ true → IsUpdate g h p (f p))
      (dirts : (o : ℕ) → g.stage o ≡ pending → f (h.parent o) ≡ dirty o)
      (unlinked : (a : ℕ) → g.linked a ≡ false → f a ≡ h.update a) where
    IsUnlinked-updated :
        (o a d : ℕ) (b : Bool) → IsUnlinked g h o a d b → IsUnlinked g updated o a d b
    IsUnlinked-updated o a d b u = record {
      old = u.old;
      owned = u.owned;
      unlinked = u.unlinked;
      is_leaf = u.is_leaf;
      keyed = u.keyed;
      fresh = unlinked a u.unlinked ∙ u.fresh;
    }

    IsOp-updated : (o : ℕ) → IsOp g h o → IsOp g updated o
    IsOp-updated o p = record {
      positive = p.positive;
      old = p.old;
      parent_linked = p.parent_linked;
      parent_inner = p.parent_inner;
      leaf_linked = p.leaf_linked;
      leaf_leaf = p.leaf_leaf;
      leaf_lo = p.leaf_lo;
      leaf_hi = p.leaf_hi;
      key_low = p.key_low;
      key_high = p.key_high;
      key_new = p.key_new;
      subtree_old = p.subtree_old;
      subtree_inner = p.subtree_inner;
      subtree_key = p.subtree_key;
    }

    pub IsHeap-updated : IsHeap g updated
    IsHeap-updated = record {
      root_linked = inv.root_linked;
      root_inner = inv.root_inner;
      root_lo = inv.root_lo;
      root_hi = inv.root_hi;
      null_unknown = inv.null_unknown;
      positive = inv.positive;
      unowned = inv.unowned;
      node = λ a l. let n = inv.node a l in record { old = n.old; low = n.low; high = n.high };
      inner = λ a l e.
          let n = inv.inner a l e in
          record {
            left_linked = n.left_linked;
            left_lo = n.left_lo;
            left_hi = n.left_hi;
            right_linked = n.right_linked;
            right_lo = n.right_lo;
            right_hi = n.right_hi;
            above = n.above;
          };
      route = λ k a l. Route-updated (
          inv.route k a
            (record { linked = l.linked; inner = l.inner; low = l.low; high = l.high }));
      update = λ p l.
          let v = values p l in
          record { small = v.small; known = v.known; dirty_info = v.dirty_info };
      op = λ o kn. IsOp-updated o (inv.op o kn);
      waits = λ o e.
          let w = inv.waits o e in
          record {
            is_dirty = dirts o e;
            place = w.place;
            subtree_unlinked = IsUnlinked-updated o _ _ _ w.subtree_unlinked;
            new_unlinked = IsUnlinked-updated o _ _ _ w.new_unlinked;
            sibling_unlinked = IsUnlinked-updated o _ _ _ w.sibling_unlinked;
            left_child = w.left_child;
            right_child = w.right_child;
          };
      ends = λ o e.
          let w = inv.ends o e in
          record { gone = w.gone; present = Contains-updated (g.op_key o) w.present };
      once = inv.once;
    }

-- `helpInsert` makes the parent of a finished operation clean.
module _ (g : History) (h : Heap) (inv : IsHeap g h) (op : ℕ) (done : g.stage op ≡ finished) where
  known_op : g.stage op ≢ unknown
  known_op = ground arith

  abbrev cleaned : ℕ → UpdateRecord
  cleaned = λ x.
      if x == h.parent op && same_update (h.update (h.parent op)) (dirty op)
      then clean op
      else h.update x

  -- A node keeps its value, or it had that of the operation and is clean.
  cleaned_cases :
      (p : ℕ)
      → (cleaned p ≡ h.update p)
        ⊎ ((p ≡ h.parent op) × (h.update p ≡ dirty op) × (cleaned p ≡ clean op))
  cleaned_cases p =
      elim (Bool-cases (p == h.parent op && same_update (h.update (h.parent op)) (dirty op))) [
        | inl e ↦
            let here : p ≡ h.parent op = ground arith in
            let hit : same_update (h.update (h.parent op)) (dirty op) ≡ true = ground arith in
            inr (here, ap h.update here ∙ same-eq _ _ hit, rw (e, if◌then◌else◌) refl)
        | inr e ↦ inl (rw (e, if◌then◌else◌) refl)
      ]

  pub IsHeap-clean : IsHeap g (help_clean op h)
  IsHeap-clean =
      IsHeap-updated g h cleaned inv
        (λ p l. elim (cleaned_cases p) [
          | inl e ↦ rw e (inv.update p l)
          | inr (here, e, e') ↦ rw e' (record {
            small = (inv.op op known_op).old;
            known = λ nz. known_op;
            dirty_info = λ d. absurd (ground arith);
          })
        ])
        (λ o e. elim (cleaned_cases (h.parent o)) [
          | inl same ↦ same ∙ (inv.waits o e).is_dirty
          | inr (here, was, now) ↦
              let twice : dirty o ≡ dirty op = sym (inv.waits o e).is_dirty ∙ was in
              let same : o ≡ op = ap (λ (v : UpdateRecord). v.info) twice in
              absurd (ground (arith, same, e, done, ap g.stage same))
        ])
        (λ a e. elim (cleaned_cases a) [
          | inl same ↦ same
          | inr (here, was, now) ↦
              let l : g.linked a ≡ true = ap g.linked here ∙ (inv.op op known_op).parent_linked in
              absurd (ground arith)
        ])

  pub Evolves-clean : (i : ℕ) → Evolves i g h g (help_clean op h)
  Evolves-clean i = record {
    next = omega arith;
    key = λ a lt. refl;
    is_leaf = λ a lt. refl;
    linked = λ a l. l;
    lo = λ a l. refl;
    hi = λ a l. refl;
    known = λ o kn. kn;
    op_key = λ o kn. refl;
    caller = λ o kn. refl;
    ends = λ o e. e;
    present = Contains-updated g h cleaned;
    update = λ p l. elim (cleaned_cases p) [
      | inl same ↦ inl same
      | inr (here, was, now) ↦ inr (λ z.
          let zero_op : op ≡ 0 = sym (ap (λ (v : UpdateRecord). v.info) now) ∙ z in
          absurd (omega (arith, (inv.op op known_op).positive)))
    ];
    dirt = λ p x l lt e. elim (cleaned_cases p) [
      | inl same ↦ sym same ∙ e
      | inr (here, was, now) ↦
          let bad : clean op ≡ dirty x = sym now ∙ e in
          absurd (ground (arith, ap (λ (v : UpdateRecord). v.is_dirty) bad))
    ];
    back = λ p u l c lt e. elim (cleaned_cases p) [
      | inl same ↦ inl (sym same ∙ e)
      | inr (here, was, now) ↦ inr (was ∙ ap (λ (v : UpdateRecord). dirty v.info) (sym now ∙ e))
    ];
    still = λ p k l c e. refl;
    owned = λ j a ne e. e;
    fresh = λ j a ne e e' lt. elim (cleaned_cases a) [
      | inl same ↦ same
      | inr (here, was, now) ↦
          let l : g.linked a ≡ true = ap g.linked here ∙ (inv.op op known_op).parent_linked in
          absurd (ground arith)
    ];
    unlinked = λ j a ne e e'. e';
  }

  -- Afterwards no node of the tree is dirty with it.
  pub clean_done : (p : ℕ) → g.linked p ≡ true → (help_clean op h).update p ≢ dirty op
  clean_done p l e = elim (cleaned_cases p) [
    | inr (here, was, now) ↦
        let bad : clean op ≡ dirty op = sym now ∙ e in
        absurd (ground (arith, ap (λ (v : UpdateRecord). v.is_dirty) bad))
    | inl same ↦
        let was : h.update p ≡ dirty op = sym same ∙ e in
        let v : IsUpdate g h p (dirty op) = rw⁻¹ was (inv.update p l) in
        let here : h.parent op ≡ p = (v.dirty_info refl).1 in
        let hit : same_update (h.update (h.parent op)) (dirty op) ≡ true =
          subst (λ (w : UpdateRecord). same_update w (dirty op) ≡ true)
            (sym (ap h.update here ∙ was)) (==_refl op) in
        let test : (p == h.parent op && same_update (h.update (h.parent op)) (dirty op)) ≡ true =
          ground (arith, hit, here) in
        let now : cleaned p ≡ clean op = rw (test, if◌then◌else◌) refl in
        let bad : clean op ≡ dirty op = sym now ∙ e in
        absurd (ground (arith, ap (λ (v : UpdateRecord). v.is_dirty) bad))
  ]
