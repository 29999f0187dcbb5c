-- ===== src/Bst/NonBlocking/Preparing.antt =====
-- BST/NonBlockingBST.cpp: the new objects of an attempt of `insert`.
use zwq_repos.Prelude.{
  ℕ, suc, ◌+◌, ◌≤◌, ◌<◌, ◌≡◌, ◌≢◌, ◌⊎◌, inl, inr, refl, sym, ap, ◌∙◌, true, false, ◌==◌, ltb,
  if◌then◌else◌, arith, ==_refl,
}
use zwq_repos.Bst.Tree.{max}
use zwq_repos.Bst.NonBlocking.{UpdateRecord, Heap, prepare}
use zwq_repos.Bst.NonBlocking.Invariant.{History, Stage, unknown, Leads, IsHeap, Mine, Found}
use zwq_repos.Bst.NonBlocking.Evolves.{Mine-evolves, Leads-evolves}
use zwq_repos.Bst.NonBlocking.Extends.{unlinked_above, Extends, Evolves-Extends, child-Extends}
use zwq_repos.Bst.NonBlocking.Flag.{IsNew, Attempt}

module _ (k n p l : ℕ) (h : Heap) where
  pub prepare-Extends : Extends h (prepare k n p l h)
  prepare-Extends = record {
    next = omega arith;
    key = λ x lt. ground arith;
    is_leaf = λ x lt. ground arith;
    left = λ x lt. ground arith;
    right = λ x lt. ground arith;
    update = λ x lt.
        let a1 : (x == h.next) ≡ false = ground arith in
        let a2 : (x == h.next + 1) ≡ false = ground arith in rw (a2, a1, if◌then◌else◌) refl;
    parent = λ x lt. ground arith;
    leaf = λ x lt. ground arith;
    subtree = λ x lt. ground arith;
  }

-- A stage is unknown, or an operation has begun.
Stage-cases : (x : Stage) → (x ≡ unknown) ⊎ (x ≢ unknown)
Stage-cases unknown = inl refl
Stage-cases x = inr (λ e. ground arith)

module _ (i : ℕ) (g : History) (h : Heap) (inv : IsHeap g h) (k n p l : ℕ) where
  unused : (o : ℕ) → h.next ≤ o → g.stage o ≡ unknown
  unused o le = elim (Stage-cases (g.stage o)) [
    | inl e ↦ e
    | inr kn ↦ absurd (omega (arith, (inv.op o kn).old))
  ]

  sibling-IsNew : l < h.next → IsNew g (prepare k n p l h) h.next ((prepare k n p l h).key l) true
  sibling-IsNew old =
      let a1 : (h.next == h.next + 1) ≡ false = ground arith in
      let me : (h.next == h.next) ≡ true = ==_refl h.next in
      record {
        old = omega arith;
        owned = inv.unowned h.next (omega arith);
        unlinked = unlinked_above g inv h.next (omega arith);
        is_leaf = rw (a1, me, if◌then◌else◌) refl;
        keyed = rw (a1, me, if◌then◌else◌) (sym ((prepare-Extends k n p l h).key l old));
        fresh = rw (a1, me, if◌then◌else◌) refl;
      }

  subtree-IsNew :
      l < h.next
      → IsNew g (prepare k n p l h) (h.next + 1) (max k ((prepare k n p l h).key l)) false
  subtree-IsNew old =
      let me : (h.next + 1 == h.next + 1) ≡ true = ==_refl (h.next + 1) in
      let same = (prepare-Extends k n p l h).key l old in
      record {
        old = omega arith;
        owned = inv.unowned (h.next + 1) (omega arith);
        unlinked = unlinked_above g inv (h.next + 1) (omega arith);
        is_leaf = rw (me, if◌then◌else◌) refl;
        keyed = rw (me, if◌then◌else◌) (ap (max k) (sym same));
        fresh = rw (me, if◌then◌else◌) refl;
      }

  pub Attempt-prepare :
      (u : UpdateRecord)
      → Mine g h i k n
      → Leads g h k p
      → Found g h k p u l
      → u.is_dirty ≡ false
      → h.update p ≡ u
      → k ≢ h.key l
      → Attempt g (prepare k n p l h) i k n p l (h.next + 2) (h.next + 1) h.next
  Attempt-prepare u m q f clean now ne =
      let x = prepare-Extends k n p l h in
      let old_p = (inv.node p q.linked).old in
      let old_l = (inv.node l f.linked).old in
      let kp = x.key p old_p in
      let kl = x.key l old_l in
      let ev = Evolves-Extends x g inv (suc i) in
      let op : (h.next + 2 == h.next + 2) ≡ true = ==_refl (h.next + 2) in
      let s : (h.next + 1 == h.next + 1) ≡ true = ==_refl (h.next + 1) in
      record {
        positive = omega arith;
        old = omega arith;
        unused = unused (h.next + 2) (omega arith);
        parent = rw (op, if◌then◌else◌) refl;
        leaf = rw (op, if◌then◌else◌) refl;
        subtree = rw (op, if◌then◌else◌) refl;
        leads = Leads-evolves ev inv k p q;
        mine = Mine-evolves ev inv i k n (ground arith) m;
        sibling_new = sibling-IsNew old_l;
        subtree_new = subtree-IsNew old_l;
        left_child = rw (s, if◌then◌else◌) (ap (λ d. if ltb k d then n else h.next) (sym kl));
        right_child = rw (s, if◌then◌else◌) (ap (λ d. if ltb k d then h.next else n) (sym kl));
        leaf_linked = f.linked;
        leaf_leaf = x.is_leaf l old_l ∙ f.is_leaf;
        leaf_lo = f.low ∙ ap (λ d. if ltb k d then g.lo p else d) (sym kp);
        leaf_hi = f.high ∙ ap (λ d. if ltb k d then d else g.hi p) (sym kp);
        key_new = λ e. ne (e ∙ kl);
        place = child-Extends x p k old_p ∙ f.still clean now;
        was_clean = ap (λ (v : UpdateRecord). v.is_dirty) (x.update p old_p ∙ now) ∙ clean;
      }
