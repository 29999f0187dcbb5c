-- ===== src/Bst/NonBlocking/Flag.antt =====
-- BST/NonBlockingBST.cpp: an `insert` makes the parent dirty with its operation.
use zwq_repos.Prelude.{
  ==-differ, ℕ, ◌≤◌, ◌<◌, ◌≡◌, ◌≢◌, ◌⊎◌, inl, inr, refl, sym, ap, ◌∙◌, Bool, true, false, ◌||◌,
  ◌==◌, ltb, if◌then◌else◌, arith, Bool-cases, ==_refl,
}
use zwq_repos.Bst.Tree.{max}
use zwq_repos.Bst.NonBlocking.{UpdateRecord, Heap, child, dirty, clean_null}
use zwq_repos.Bst.NonBlocking.Invariant.{
  History, nobody, operation, unknown, pending, child_lo, child_hi, Leads, IsOp, IsUnlinked,
  IsPending, IsHeap, Mine,
}
use zwq_repos.Bst.NonBlocking.Updates.{updated}

-- An object that has just been created for an operation.
pub record IsNew (g : History) (h : Heap) (a d : ℕ) (leaf : Bool) : Type 0 where
  pub old : a < h.next
  pub owned : g.owner a ≡ nobody
  pub unlinked : g.linked a ≡ false
  pub is_leaf : h.is_leaf a ≡ leaf
  pub keyed : h.key a ≡ d
  pub fresh : h.update a ≡ clean_null

-- What an attempt of the thread `i` has found and created before its exchange succeeds.
pub record Attempt (g : History) (h : Heap) (i k n p l o s c : ℕ) : Type 0 where
  pub positive : 0 < o
  pub old : o < h.next
  pub unused : g.stage o ≡ unknown
  pub parent : h.parent o ≡ p
  pub leaf : h.leaf o ≡ l
  pub subtree : h.subtree o ≡ s
  pub leads : Leads g h k p
  pub mine : Mine g h i k n
  pub sibling_new : IsNew g h c (h.key l) true
  pub subtree_new : IsNew g h s (max k (h.key l)) false
  pub left_child : h.left s ≡ (if ltb k (h.key l) then n else c)
  pub right_child : h.right s ≡ (if ltb k (h.key l) then c else n)
  pub leaf_linked : g.linked l ≡ true
  pub leaf_leaf : h.is_leaf l ≡ true
  pub leaf_lo : g.lo l ≡ child_lo g h p k
  pub leaf_hi : g.hi l ≡ child_hi g h p k
  pub key_new : k ≢ h.key l
  pub place : child h p k ≡ l
  pub was_clean : (h.update p).is_dirty ≡ false

module _ (g : History) (h : Heap) (i k n p l o s c : ℕ) where
  abbrev pub flagged : History
  flagged = record g {
    owner = λ a. if a == n || (a == c || a == s) then operation o else g.owner a;
    stage = λ x. if x == o then pending else g.stage x;
    op_key = λ x. if x == o then k else g.op_key x;
    new_node = λ x. if x == o then n else g.new_node x;
    sibling = λ x. if x == o then c else g.sibling x;
    caller = λ x. if x == o then i else g.caller x;
  }

  abbrev pub dirtied : ℕ → UpdateRecord
  dirtied = λ x. if x == p then dirty o else h.update x

  module _ (inv : IsHeap g h) (a : Attempt g h i k n p l o s c) where
    pub other : (x : ℕ) → g.stage x ≢ unknown → (x == o) ≡ false
    other x kn = ==-differ g.stage x o (λ e. kn (e ∙ a.unused))

    pub dirtied_cases :
        (q : ℕ) → ((q ≡ p) × (dirtied q ≡ dirty o)) ⊎ ((q ≢ p) × (dirtied q ≡ h.update q))
    dirtied_cases q = elim (Bool-cases (q == p)) [
      | inl e ↦ inl (ground arith, rw (e, if◌then◌else◌) refl)
      | inr e ↦ inr (ground arith, rw (e, if◌then◌else◌) refl)
    ]

    pub key_range : (g.lo l ≤ k) × (k < g.hi l)
    key_range = ground (arith, a.leaf_lo, a.leaf_hi, a.leads.low, a.leads.high)

    -- The new operation.
    pub IsOp-flag : IsOp flagged (updated g h dirtied) o
    IsOp-flag =
        let me : (o == o) ≡ true = ==_refl o in
        record {
          positive = a.positive;
          old = a.old;
          parent_linked = rw a.parent a.leads.linked;
          parent_inner = rw a.parent a.leads.inner;
          leaf_linked = rw a.leaf a.leaf_linked;
          leaf_leaf = rw a.leaf a.leaf_leaf;
          leaf_lo = rw (me, a.leaf, a.parent, if◌then◌else◌) a.leaf_lo;
          leaf_hi = rw (me, a.leaf, a.parent, if◌then◌else◌) a.leaf_hi;
          key_low = rw (me, a.leaf, if◌then◌else◌) key_range.0;
          key_high = rw (me, a.leaf, if◌then◌else◌) key_range.1;
          key_new = rw (me, a.leaf, if◌then◌else◌) a.key_new;
          subtree_old = rw a.subtree a.subtree_new.old;
          subtree_inner = rw a.subtree a.subtree_new.is_leaf;
          subtree_key = rw (me, a.subtree, a.leaf, if◌then◌else◌) a.subtree_new.keyed;
        }

    -- The operations from before.
    pub IsOp-keep : (x : ℕ) → g.stage x ≢ unknown → IsOp flagged (updated g h dirtied) x
    IsOp-keep x kn =
        let b = inv.op x kn in
        let not_me = other x kn in
        record {
          positive = b.positive;
          old = b.old;
          parent_linked = b.parent_linked;
          parent_inner = b.parent_inner;
          leaf_linked = b.leaf_linked;
          leaf_leaf = b.leaf_leaf;
          leaf_lo = rw (not_me, if◌then◌else◌) b.leaf_lo;
          leaf_hi = rw (not_me, if◌then◌else◌) b.leaf_hi;
          key_low = rw (not_me, if◌then◌else◌) b.key_low;
          key_high = rw (not_me, if◌then◌else◌) b.key_high;
          key_new = rw (not_me, if◌then◌else◌) b.key_new;
          subtree_old = b.subtree_old;
          subtree_inner = b.subtree_inner;
          subtree_key = rw (not_me, if◌then◌else◌) b.subtree_key;
        }

    unlinked_update : (x : ℕ) → g.linked x ≡ false → dirtied x ≡ h.update x
    unlinked_update x e = elim (dirtied_cases x) [
      | inl (here, now) ↦
          let l : g.linked x ≡ true = ap g.linked here ∙ a.leads.linked in absurd (ground arith)
      | inr (away, same) ↦ same
    ]

    -- Nodes of other operations, and of this one.
    IsUnlinked-keep :
        (x y d : ℕ) (b : Bool)
        → IsUnlinked g h x y d b
        → IsUnlinked flagged (updated g h dirtied) x y d b
    IsUnlinked-keep x y d b u = record {
      old = u.old;
      owned = rw (test, if◌then◌else◌) u.owned;
      unlinked = u.unlinked;
      is_leaf = u.is_leaf;
      keyed = u.keyed;
      fresh = unlinked_update y u.unlinked ∙ u.fresh;
    }
      where
        away : (z : ℕ) → g.owner z ≢ operation x → (y == z) ≡ false
        away z ne = ==-differ g.owner y z (λ e. ne (sym e ∙ u.owned))

        test : (y == n || (y == c || y == s)) ≡ false
        test =
            let en = away n (λ e. ground (arith, a.mine.owned, e)) in
            let ec = away c (λ e. ground (arith, a.sibling_new.owned, e)) in
            let es = away s (λ e. ground (arith, a.subtree_new.owned, e)) in
            ground (arith, en, ec, es)

    IsUnlinked-new :
        (y d : ℕ) (b : Bool)
        → (y == n || (y == c || y == s)) ≡ true
        → y < h.next
        → g.linked y ≡ false
        → h.is_leaf y ≡ b
        → h.key y ≡ d
        → h.update y ≡ clean_null
        → IsUnlinked flagged (updated g h dirtied) o y d b
    IsUnlinked-new y d b test old unlinked is_leaf keyed fresh = record {
      old = old;
      owned = rw (test, if◌then◌else◌) refl;
      unlinked = unlinked;
      is_leaf = is_leaf;
      keyed = keyed;
      fresh = unlinked_update y unlinked ∙ fresh;
    }

    pub IsPending-flag : IsPending flagged (updated g h dirtied) o
    IsPending-flag =
        let me : (o == o) ≡ true = ==_refl o in
        let sn = a.subtree_new in
        let cn = a.sibling_new in
        let m = a.mine in
        record {
          is_dirty = rw (a.parent, ==_refl p, if◌then◌else◌) refl;
          place = rw (me, a.parent, a.leaf, if◌then◌else◌) a.place;
          subtree_unlinked =
              rw (me, a.subtree, a.leaf, if◌then◌else◌)
                (IsUnlinked-new s _ _ (ground (arith, ==_refl s)) sn.old sn.unlinked sn.is_leaf
                  sn.keyed sn.fresh);
          new_unlinked =
              rw (me, if◌then◌else◌)
                (IsUnlinked-new n _ _ (ground (arith, ==_refl n)) m.old m.unlinked m.is_leaf m.keyed
                  m.fresh);
          sibling_unlinked =
              rw (me, a.leaf, if◌then◌else◌)
                (IsUnlinked-new c _ _ (ground (arith, ==_refl c)) cn.old cn.unlinked cn.is_leaf
                  cn.keyed cn.fresh);
          left_child = rw (me, a.subtree, a.leaf, if◌then◌else◌) a.left_child;
          right_child = rw (me, a.subtree, a.leaf, if◌then◌else◌) a.right_child;
        }

    pub IsPending-keep : (x : ℕ) → g.stage x ≡ pending → IsPending flagged (updated g h dirtied) x
    IsPending-keep x e =
        let w = inv.waits x e in
        let not_me = other x (ground arith) in
        record {
          is_dirty = elim (dirtied_cases (h.parent x)) [
            | inr (away, same) ↦ same ∙ w.is_dirty
            | inl (here, now) ↦
                let d =
                  ap (λ (v : UpdateRecord). v.is_dirty) (sym (ap h.update here) ∙ w.is_dirty) in
                absurd (ground (arith, d, a.was_clean))
          ];
          place = rw (not_me, if◌then◌else◌) w.place;
          subtree_unlinked =
              rw (not_me, if◌then◌else◌) (IsUnlinked-keep x _ _ _ w.subtree_unlinked);
          new_unlinked = rw (not_me, if◌then◌else◌) (IsUnlinked-keep x _ _ _ w.new_unlinked);
          sibling_unlinked =
              rw (not_me, if◌then◌else◌) (IsUnlinked-keep x _ _ _ w.sibling_unlinked);
          left_child = rw (not_me, if◌then◌else◌) w.left_child;
          right_child = rw (not_me, if◌then◌else◌) w.right_child;
        }
