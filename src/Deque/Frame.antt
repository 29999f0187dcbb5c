-- ===== src/Deque/Frame.antt =====
-- detail-dev/deque.hpp, `alloc_node`, and the first round of a call on an unstable deque.
use zwq_repos.Prelude.{
  ℕ, ◌≡◌, ◌≢◌, refl, ap, ◌∙◌, Bool, true, false, ◌||◌, none, List, [], ◌∷◌, reverse, arith, has,
  ◌==◌,
}
use zwq_repos.Deque.{Status, stable, lpush, rpush, Node, Anchor, Pool, Deque, is_stable}
use zwq_repos.Deque.Calls.{push_left_round, pop_left_round}
use zwq_repos.Deque.Mirror.{mirror_node, settled}
use zwq_repos.Deque.Rounds.{push_left_round_lem, pop_left_round_lem}
use zwq_repos.Deque.Settle.{has-last}
use zwq_repos.Deque.State.{
  right_of, left_of, Chain-frame, BackChain-frame, values-frame, Layout, Stable, Pending, Sound,
  is_settled, left_pending, right_pending,
}

not_stable : (t : Status) → t ≢ stable → is_stable t ≡ false
not_stable stable ne = absurd (ne refl)
not_stable rpush ne = refl
not_stable lpush ne = refl

module _ {P T : Type 0} (in_use : P → ℕ → Bool) where
  -- Writing nodes that are not in use, and giving out those of `loose`, keeps a deque sound.
  module _ (loose : List ℕ) (p p' : P) (owned : (j : ℕ) → in_use p' j ≡ (has j loose || in_use p j))
      (apart : (j : ℕ) → has j loose ≡ true → in_use p j ≡ false) where
    Layout-frame :
        (a : Anchor) (nodes nodes' : ℕ → Node T) (xs : List ℕ) (vs : List T)
        → ((j : ℕ) → in_use p j ≡ true → nodes' j ≡ nodes j)
        → Layout in_use [] (record { anchor = a; nodes = nodes; pool = p }) xs vs
        → Layout in_use loose (record { anchor = a; nodes = nodes'; pool = p' }) xs vs
    Layout-frame a nodes nodes' xs vs same h = record {
      nonnull = h.nonnull;
      distinct = h.distinct;
      apart = λ j m. ground (arith, h.owned j, apart j);
      owned = λ j. ground (arith, h.owned j, owned j);
      leftmost = h.leftmost;
      rightmost = h.rightmost;
      holds =
          values-frame nodes nodes' xs
            (λ j m. ap (λ (c : Node T). c.data_) (same j (ground (arith, h.owned j))))
          ∙ h.holds;
    }

    Stable-frame :
        (a : Anchor) (nodes nodes' : ℕ → Node T) (xs : List ℕ) (vs : List T)
        → ((j : ℕ) → in_use p j ≡ true → nodes' j ≡ nodes j)
        → Stable in_use [] (record { anchor = a; nodes = nodes; pool = p }) xs vs
        → Stable in_use loose (record { anchor = a; nodes = nodes'; pool = p' }) xs vs
    Stable-frame a nodes nodes' xs vs same h =
        let kept : (j : ℕ) → has j xs ≡ true → nodes' j ≡ nodes j =
          λ j m. same j (ground (arith, h.layout.owned j)) in
        record {
          layout = Layout-frame a nodes nodes' xs vs same h.layout;
          status = h.status;
          rights =
              Chain-frame (right_of nodes) (right_of nodes') xs h.rights
                (λ j m. ap (λ (c : Node T). c.right.ptr) (kept j m));
          lefts =
              BackChain-frame (left_of nodes) (left_of nodes') xs h.lefts
                (λ j m. ap (λ (c : Node T). c.left.ptr) (kept j m));
        }

    Pending-frame :
        (a : Anchor) (nodes nodes' : ℕ → Node T) (x y : ℕ) (r : List ℕ) (vs : List T)
        → ((j : ℕ) → in_use p j ≡ true → nodes' j ≡ nodes j)
        → Pending in_use [] (record { anchor = a; nodes = nodes; pool = p }) x y r vs
        → Pending in_use loose (record { anchor = a; nodes = nodes'; pool = p' }) x y r vs
    Pending-frame a nodes nodes' x y r vs same h =
        let kept : (j : ℕ) → has j (x ∷ y ∷ r) ≡ true → nodes' j ≡ nodes j =
          λ j m. same j (ground (arith, h.layout.owned j)) in
        record {
          layout = Layout-frame a nodes nodes' (x ∷ y ∷ r) vs same h.layout;
          rights =
              Chain-frame (right_of nodes) (right_of nodes') (x ∷ y ∷ r) h.rights
                (λ j m. ap (λ (c : Node T). c.right.ptr) (kept j m));
          lefts =
              BackChain-frame (left_of nodes) (left_of nodes') (y ∷ r) h.lefts
                (λ j m. ap (λ (c : Node T). c.left.ptr) (kept j (ground arith)));
        }

    pub Sound-frame :
        (a : Anchor) (nodes nodes' : ℕ → Node T) (vs : List T)
        → ((j : ℕ) → in_use p j ≡ true → nodes' j ≡ nodes j)
        → Sound in_use [] (record { anchor = a; nodes = nodes; pool = p }) vs
        → Sound in_use loose (record { anchor = a; nodes = nodes'; pool = p' }) vs
    Sound-frame a nodes nodes' vs same (is_settled xs h) =
        is_settled xs (Stable-frame a nodes nodes' xs vs same h)
    Sound-frame a nodes nodes' vs same (left_pending x y r e h) =
        left_pending x y r e (Pending-frame a nodes nodes' x y r vs same h)
    Sound-frame a nodes nodes' vs same (right_pending x y r e h) = right_pending x y r e (
        Pending-frame _ (λ j. mirror_node (nodes j)) (λ j. mirror_node (nodes' j)) x y r
          (reverse vs) (λ j m. ap mirror_node (same j m)) h)

  -- Null is never in use.
  pub in_use-null : (s : Deque P T) (vs : List T) → Sound in_use [] s vs → in_use s.pool 0 ≡ false
  in_use-null s vs (is_settled xs h) = h.layout.owned 0 ∙ h.layout.nonnull
  in_use-null s vs (left_pending x y r e h) = h.layout.owned 0 ∙ h.layout.nonnull
  in_use-null s vs (right_pending x y r e h) = h.layout.owned 0 ∙ h.layout.nonnull

  -- An unstable deque has two ends.
  unstable-ends :
      (loose : List ℕ) (s : Deque P T) (vs : List T)
      → Sound in_use loose s vs
      → s.anchor.status ≢ stable
      → (s.anchor.left ≢ 0) × (s.anchor.left ≢ s.anchor.right)
  unstable-ends loose s vs (is_settled xs h) ne = absurd (ne h.status)
  unstable-ends loose s vs (left_pending x y r e h) ne =
      let l = has-last y r in
      (
        ground (arith, h.layout.leftmost, h.layout.nonnull),
        ground (arith, h.layout.leftmost, h.layout.rightmost, h.layout.distinct.0, l),
      )
  unstable-ends loose s vs (right_pending x y r e h) ne =
      let l = has-last y r in
      (
        ground (arith, h.layout.rightmost, h.layout.nonnull, l),
        ground (arith, h.layout.leftmost, h.layout.rightmost, h.layout.distinct.0, l),
      )

  -- On an unstable deque the first round only stabilizes.
  pub unstable_rounds :
      (m : Pool P) (junk : ℕ → Node T) (loose : List ℕ) (n : ℕ) (s : Deque P T) (vs : List T)
      → Sound in_use loose s vs
      → s.anchor.status ≢ stable
      → (push_left_round n s ≡ (none, settled s.anchor.status s))
        × (pop_left_round m junk s ≡ (none, settled s.anchor.status s))
  unstable_rounds m junk loose n s vs h ne =
      let (nz, two) = unstable-ends loose s vs h ne in
      let e1 : (s.anchor.left == 0) ≡ false = ground arith in
      let e2 : (s.anchor.left == s.anchor.right) ≡ false = ground arith in
      let e3 = not_stable s.anchor.status ne in
      (
        push_left_round_lem n s ∙ rw (e1, e3) refl,
        pop_left_round_lem m junk s ∙ rw (e1, e2, e3) refl,
      )
