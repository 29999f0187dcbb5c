-- ===== src/Bst/NonBlocking/Flagged.antt =====
-- BST/NonBlockingBST.cpp: the heap once a parent is dirty, and what that leaves to other threads.
use zwq_repos.Prelude.{
  ==-differ, ℕ, ◌≤◌, ◌≡◌, ◌≢◌, ◌⊎◌, inl, inr, refl, sym, subst, ap, ◌∙◌, true, false, ◌||◌, ◌==◌,
  if◌then◌else◌, arith, Bool-cases, ==_refl,
}
use zwq_repos.Bst.NonBlocking.{UpdateRecord, Heap}
use zwq_repos.Bst.NonBlocking.Invariant.{
  History, nobody, thread, unknown, pending, finished, IsOp, IsPending, IsFinished, IsUpdate,
  IsHeap,
}
use zwq_repos.Bst.NonBlocking.Updates.{updated, Route-updated, Contains-updated}
use zwq_repos.Bst.NonBlocking.Evolves.{Evolves}
use zwq_repos.Bst.NonBlocking.Extends.{Extends, Evolves-Extends}
use zwq_repos.Bst.NonBlocking.Flag.{
  Attempt, flagged, dirtied, other, dirtied_cases, IsOp-flag, IsOp-keep, IsPending-flag,
  IsPending-keep,
}

module _ (g : History) (h : Heap) (i k n p l o s c : ℕ) (inv : IsHeap g h)
    (a : Attempt g h i k n p l o s c) where
  abbrev after : Heap
  after = updated g h (dirtied g h i k n p l o s c)

  abbrev later : History
  later = flagged g h i k n p l o s c

  me : (o == o) ≡ true
  me = ==_refl o

  -- An operation of the new history is this one, or was known.
  pub known_cases : (x : ℕ) → later.stage x ≢ unknown → (x ≡ o) ⊎ (g.stage x ≢ unknown)
  known_cases x kn = elim (Bool-cases (x == o)) [
    | inl e ↦ inl (ground arith)
    | inr e ↦ inr (λ u. kn (rw (e, if◌then◌else◌) u))
  ]

  IsFinished-keep : (x : ℕ) → g.stage x ≡ finished → IsFinished later after x
  IsFinished-keep x e =
      let w = inv.ends x e in
      let not_me = other g h i k n p l o s c inv a x (ground arith) in
      record {
        gone = rw (not_me, if◌then◌else◌) w.gone;
        present =
            rw (not_me, if◌then◌else◌)
              (Contains-updated g h (dirtied g h i k n p l o s c) (g.op_key x) w.present);
      }

  stage_keep : (x : ℕ) → g.stage x ≢ unknown → later.stage x ≡ g.stage x
  stage_keep x kn = rw (other g h i k n p l o s c inv a x kn, if◌then◌else◌) refl

  IsUpdate-flag : (q : ℕ) → g.linked q ≡ true → IsUpdate later after q (after.update q)
  IsUpdate-flag q lq = elim (dirtied_cases g h i k n p l o s c inv a q) [
    | inl (here, now) ↦ rw now (record {
      small = a.old;
      known = λ nz. rw (me, if◌then◌else◌) (λ e. ground arith);
      dirty_info = λ d. (rw (me, if◌then◌else◌) (λ e. ground arith), a.parent ∙ sym here);
    })
    | inr (away, same) ↦
        let u = inv.update q lq in
        rw same (record {
          small = u.small;
          known = λ nz e. u.known nz (sym (stage_keep (h.update q).info (u.known nz)) ∙ e);
          dirty_info = λ d.
              let (kn, e) = u.dirty_info d in
              ((λ z. kn (sym (stage_keep (h.update q).info kn) ∙ z)), e);
        })
  ]

  pub was_finished : (x : ℕ) → later.stage x ≡ finished → g.stage x ≡ finished
  was_finished x e = elim (Bool-cases (x == o)) [
    | inl same ↦ absurd (ground (arith, same, e))
    | inr not_me ↦ ground (arith, not_me, e)
  ]

  was_pending : (x : ℕ) → later.stage x ≡ pending → (x ≡ o) ⊎ (g.stage x ≡ pending)
  was_pending x e = elim (Bool-cases (x == o)) [
    | inl same ↦ inl (ground arith)
    | inr not_me ↦ inr (ground (arith, not_me, e))
  ]

  unowned_flag : (y : ℕ) → h.next ≤ y → later.owner y ≡ nobody
  unowned_flag y le =
      let old = inv.unowned y le in
      let test : (y == n || (y == c || y == s)) ≡ false =
        ground (arith, a.mine.old, a.sibling_new.old, a.subtree_new.old) in
      rw (test, if◌then◌else◌) old

  pub IsHeap-flag : IsHeap later after
  IsHeap-flag = record {
    root_linked = inv.root_linked;
    root_inner = inv.root_inner;
    root_lo = inv.root_lo;
    root_hi = inv.root_hi;
    null_unknown =
        let not_null : (0 == o) ≡ false = ground (arith, a.positive) in
        rw (not_null, if◌then◌else◌) inv.null_unknown;
    positive = inv.positive;
    unowned = unowned_flag;
    node = λ y ly. let x = inv.node y ly in record { old = x.old; low = x.low; high = x.high };
    inner = λ y ly e.
        let x = inv.inner y ly e in
        record {
          left_linked = x.left_linked;
          left_lo = x.left_lo;
          left_hi = x.left_hi;
          right_linked = x.right_linked;
          right_lo = x.right_lo;
          right_hi = x.right_hi;
          above = x.above;
        };
    route = λ j y ly. Route-updated g h (dirtied g h i k n p l o s c) (
        inv.route j y
          (record { linked = ly.linked; inner = ly.inner; low = ly.low; high = ly.high }));
    update = IsUpdate-flag;
    op = λ x kn. elim (known_cases x kn) [
      | inl e ↦ subst (IsOp later after) (sym e) (IsOp-flag g h i k n p l o s c inv a)
      | inr kn' ↦ IsOp-keep g h i k n p l o s c inv a x kn'
    ];
    waits = λ x e. elim (was_pending x e) [
      | inl same ↦
          subst (IsPending later after) (sym same) (IsPending-flag g h i k n p l o s c inv a)
      | inr was ↦ IsPending-keep g h i k n p l o s c inv a x was
    ];
    ends = λ x e. IsFinished-keep x (was_finished x e);
    once = λ x y ex ey same.
        let fx = was_finished x ex in
        let fy = was_finished y ey in
        let nx = other g h i k n p l o s c inv a x (ground arith) in
        let ny = other g h i k n p l o s c inv a y (ground arith) in
        inv.once x y fx fy (ground (arith, nx, ny, same));
  }

  -- From the heap before the attempt, whose objects end at or below `o`.
  pub Evolves-flag :
      (h0 : Heap) → Extends h0 h → IsHeap g h0 → h0.next ≤ o → Evolves i g h0 later after
  Evolves-flag h0 x inv0 new =
      let ev = Evolves-Extends x g inv0 i in
      let node_old = λ (q : ℕ) (lq : g.linked q ≡ true). (inv0.node q lq).old in
      record {
        next = x.next;
        key = ev.key;
        is_leaf = ev.is_leaf;
        linked = λ y ly. ly;
        lo = λ y ly. refl;
        hi = λ y ly. refl;
        known = λ y kn e. kn (sym (stage_keep y kn) ∙ e);
        op_key = λ y kn. rw (other g h i k n p l o s c inv a y kn, if◌then◌else◌) refl;
        caller = λ y kn. rw (other g h i k n p l o s c inv a y kn, if◌then◌else◌) refl;
        ends = λ y e. stage_keep y (ground arith) ∙ e;
        present = λ j q. Contains-updated g h (dirtied g h i k n p l o s c) j (ev.present j q);
        update = λ q lq. elim (dirtied_cases g h i k n p l o s c inv a q) [
          | inl (here, now) ↦ inr (λ z.
              let zero_o : o ≡ 0 = sym (ap (λ (v : UpdateRecord). v.info) now) ∙ z in
              absurd (omega (arith, a.positive)))
          | inr (away, same) ↦ inl (same ∙ x.update q (node_old q lq))
        ];
        dirt = λ q y lq lt e. elim (dirtied_cases g h i k n p l o s c inv a q) [
          | inl (here, now) ↦
              let same : o ≡ y = ap (λ (v : UpdateRecord). v.info) (sym now ∙ e) in
              absurd (omega arith)
          | inr (away, same) ↦ ev.dirt q y lq lt (sym same ∙ e)
        ];
        back = λ q u lq cl lt e. elim (dirtied_cases g h i k n p l o s c inv a q) [
          | inl (here, now) ↦
              let bad = ap (λ (v : UpdateRecord). v.is_dirty) (sym now ∙ e) in absurd (ground arith)
          | inr (away, same) ↦ ev.back q u lq cl lt (sym same ∙ e)
        ];
        still = λ q j lq cl e. ev.still q j lq cl (x.update q (node_old q lq));
        owned = λ j y ne e.
            let test : (y == n || (y == c || y == s)) ≡ false = not_new j y ne e in
            rw (test, if◌then◌else◌) e;
        fresh = λ j y ne e un lt. elim (dirtied_cases g h i k n p l o s c inv a y) [
          | inl (here, now) ↦
              let ly : g.linked y ≡ true = ap g.linked here ∙ a.leads.linked in
              absurd (ground arith)
          | inr (away, same) ↦ same ∙ x.update y lt
        ];
        unlinked = λ j y ne e un. un;
      }
    where
      not_new : (j y : ℕ) → j ≢ i → g.owner y ≡ thread j → (y == n || (y == c || y == s)) ≡ false
      not_new j y ne e =
          let away_n = ==-differ g.owner y n (λ t. ground (arith, ne, t, e, a.mine.owned)) in
          let away_c = ==-differ g.owner y c (λ t. ground (arith, t, e, a.sibling_new.owned)) in
          let away_s = ==-differ g.owner y s (λ t. ground (arith, t, e, a.subtree_new.owned)) in
          ground (arith, away_n, away_c, away_s)
