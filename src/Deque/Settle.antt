-- ===== src/Deque/Settle.antt =====
-- detail-dev/deque.hpp, `stabilize`, `push_left` and `pop_left`: each round leads from one sound state
-- to another.
use zwq_repos.Prelude.{
  ℕ, ◌≡◌, ◌≢◌, refl, ==_refl, ap, sym, subst, ◌∙◌, Bool, true, false, some, List, [], ◌∷◌, reverse,
  arith, has, ◌==◌,
}
use mathlib.Core.List.{reverse-reverse}
use zwq_repos.Deque.{
  stable, lpush, NodePointer, Node, Anchor, Pool, IsPool, Deque, install, set_node, both_ends,
  next_tag,
}
use zwq_repos.Deque.Calls.{push_left_round, pop_left_round, dealloc_node}
use zwq_repos.Deque.Links.{first_or, last_or}
use zwq_repos.Deque.Mirror.{mirror, settled_left, settled}
use zwq_repos.Deque.Rounds.{push_left_round_lem, pop_left_round_lem}
use zwq_repos.Deque.State.{
  right_of, left_of, values, Follows-frame, Followed-frame, values-frame, Stable, Pending, Sound,
  is_settled, left_pending, right_pending, Stable-mirror, settled_left_nodes,
}

cons_injective : {T : Type 0} {x y : T} {xs ys : List T} → (x ∷ xs) ≡ (y ∷ ys) → (x ≡ y) × (xs ≡ ys)
cons_injective {x = x} {y = y} {xs = xs} {ys = ys} e =
    (ap (λ l. first_or x l) e, ap (λ l. rest_of l) e)
  where
    rest_of : {T : Type 0} → List T → List T
    rest_of [] = []
    rest_of (z ∷ zs) = zs

pub has-last : (x : ℕ) (xs : List ℕ) → has (last_or x xs) (x ∷ xs) ≡ true
has-last x [] = ground arith
has-last x (y ∷ r) = ground (arith, has-last y r)

module _ {P T : Type 0} (in_use : P → ℕ → Bool) where
  pub settled_left-Stable :
      (loose : List ℕ) (s : Deque P T) (x y : ℕ) (r : List ℕ) (vs : List T)
      → Pending in_use loose s x y r vs
      → Stable in_use loose (settled_left s) (x ∷ y ∷ r) vs
  settled_left-Stable loose s x y r vs h =
      let (back, same, rights, data_) = settled_left_nodes s x y h.layout.leftmost h.rights.0 in
      let out = h.layout.distinct.1.0 in
      let s' = settled_left s in
      let pool' : s'.pool ≡ s.pool = ground arith in
      record {
        layout = record {
          nonnull = h.layout.nonnull;
          distinct = h.layout.distinct;
          apart = h.layout.apart;
          owned = λ j. rw pool' (h.layout.owned j);
          leftmost = h.layout.leftmost;
          rightmost = h.layout.rightmost;
          holds = values-frame s.nodes s'.nodes (x ∷ y ∷ r) (λ j m. data_ j) ∙ h.layout.holds;
        };
        status = refl;
        rights =
            Follows-frame (right_of s.nodes) (right_of s'.nodes) x (y ∷ r) h.rights
              (λ j m. rights j);
        lefts = (
          back,
          Followed-frame (left_of s.nodes) (left_of s'.nodes) y r h.lefts
              (λ j m. ap (λ (c : Node T). c.left.ptr) (same j (ground arith))),
        );
      }

  Stable-unmirror :
      (loose : List ℕ) (s : Deque P T) (xs : List ℕ) (vs : List T)
      → Stable in_use loose s xs (reverse vs)
      → Stable in_use loose (mirror s) (reverse xs) vs
  Stable-unmirror loose s xs vs h =
      rw (reverse-reverse vs) at (Stable-mirror in_use loose s xs (reverse vs) h)

  -- Stabilizing an unstable deque puts every link in place and changes no value.
  pub settled-Stable :
      (loose : List ℕ) (s : Deque P T) (vs : List T)
      → Sound in_use loose s vs
      → s.anchor.status ≢ stable
      → (xs : List ℕ) × Stable in_use loose (settled s.anchor.status s) xs vs
  settled-Stable loose s vs (is_settled xs h) ne = absurd (ne h.status)
  settled-Stable loose s vs (left_pending x y r e h) ne =
      subst (λ t. (xs : List ℕ) × Stable in_use loose (settled t s) xs vs) (sym e)
        (x ∷ y ∷ r, settled_left-Stable loose s x y r vs h)
  settled-Stable loose s vs (right_pending x y r e h) ne =
      subst (λ t. (xs : List ℕ) × Stable in_use loose (settled t s) xs vs) (sym e)
        (
          reverse (x ∷ y ∷ r),
          Stable-unmirror loose (settled_left (mirror s)) (x ∷ y ∷ r) vs
              (settled_left-Stable loose (mirror s) x y r (reverse vs) h),
        )

  -- A round of `push_left` on a stable deque links the new node.
  pub push-Stable :
      (s : Deque P T) (n : ℕ) (v : T) (xs : List ℕ) (vs : List T)
      → n ≢ 0
      → (s.nodes n).data_ ≡ v
      → Stable in_use (n ∷ []) s xs vs
      → (t : Deque P T) × (push_left_round n s ≡ (some true, t))
        × Stable in_use [] t (n ∷ xs) (v ∷ vs)
  push-Stable s n v [] vs nz ev h =
      let t = install (both_ends n s.anchor) s in
      let e = push_left_round_lem n s in
      (
        t,
        rw e (ground (arith, h.layout.leftmost)),
        record {
          layout = record {
            nonnull = ground arith;
            distinct = (refl, tt);
            apart = λ j m. absurd (ground arith);
            owned = λ j. ground (arith, h.layout.owned j);
            leftmost = refl;
            rightmost = refl;
            holds = rw (ev, sym h.layout.holds) refl;
          };
          status = h.status;
          rights = tt;
          lefts = tt;
        },
      )
  push-Stable s n v (x ∷ r) vs nz ev h =
      let link : NodePointer = record { ptr = s.anchor.left; tag = 0 } in
      let linked = set_node n (record (s.nodes n) { right = link }) s in
      let new_anchor : Anchor = record s.anchor {
        left = n;
        status = lpush;
        tag = next_tag s.anchor.tag;
      } in
      let t = install new_anchor linked in
      let e = push_left_round_lem n s in
      let out = h.layout.apart n (ground arith) in
      let others : (j : ℕ) → has j (x ∷ r) ≡ true → t.nodes j ≡ s.nodes j = λ j m. ground arith in
      let value : (t.nodes n).data_ ≡ v = rw (==_refl n) ev in
      let kept : values t.nodes (x ∷ r) ≡ values s.nodes (x ∷ r) =
        values-frame s.nodes t.nodes (x ∷ r) (λ j m. ap (λ (c : Node T). c.data_) (others j m)) in
      (
        settled_left t,
        rw e (ground (arith, h.layout.leftmost, h.layout.nonnull, h.status)),
        settled_left-Stable [] t n x r (v ∷ vs) (record {
          layout = record {
            nonnull = ground (arith, h.layout.nonnull);
            distinct = (out, h.layout.distinct);
            apart = λ j m. absurd (ground arith);
            owned = λ j. ground (arith, h.layout.owned j);
            leftmost = refl;
            rightmost = h.layout.rightmost;
            holds =
                ap (λ u. u ∷ values t.nodes (x ∷ r)) value
                ∙ ap (λ l. v ∷ l) (kept ∙ h.layout.holds);
          };
          rights = (
            ground (arith, h.layout.leftmost),
            Follows-frame (right_of s.nodes) (right_of t.nodes) x r h.rights
                (λ j m. ap (λ (c : Node T). c.right.ptr) (others j m)),
          );
          lefts =
              Followed-frame (left_of s.nodes) (left_of t.nodes) x r h.lefts
                (λ j m. ap (λ (c : Node T). c.left.ptr) (others j (ground arith)));
        }),
      )

module _ {P T : Type 0} (m : Pool P) (in_use : P → ℕ → Bool) (junk : ℕ → Node T) where
  -- A round of `pop_left` on a stable deque takes the leftmost value and gives its node back.
  pub pop-Stable :
      IsPool P m in_use
      → (s : Deque P T) (v : T) (xs : List ℕ) (vs : List T) → Stable in_use [] s xs (v ∷ vs)
      → (t : Deque P T) × (ys : List ℕ) × (pop_left_round m junk s ≡ (some (some v), t))
        × Stable in_use [] t ys vs
  unfolding dealloc_node
  pop-Stable laws s v [] vs h = absurd (ground (arith, h.layout.holds))
  pop-Stable laws s v (x ∷ []) vs h =
      let t = dealloc_node m junk s.anchor.left (install (both_ends 0 s.anchor) s) in
      let e = pop_left_round_lem m junk s in
      let ex = h.layout.leftmost in
      let (value, none_left) = cons_injective (h.layout.holds) in
      let mine : in_use s.pool s.anchor.left ≡ true =
        ground (arith, h.layout.owned s.anchor.left) in
      let freed = laws.deallocated s.pool s.anchor.left in
      (
        t,
        [],
        rw e (ground (arith, ex, h.layout.rightmost, h.layout.nonnull, value)),
        record {
          layout = record {
            nonnull = refl;
            distinct = tt;
            apart = λ j m'. refl;
            owned = λ j. ground (arith, freed j mine, h.layout.owned j, ex);
            leftmost = refl;
            rightmost = refl;
            holds = none_left;
          };
          status = h.status;
          rights = tt;
          lefts = tt;
        },
      )
  pop-Stable laws s v (x ∷ y ∷ r) vs h =
      let prev = (s.nodes s.anchor.left).right in
      let moved : Anchor = record s.anchor { left = prev.ptr; tag = next_tag s.anchor.tag } in
      let t = dealloc_node m junk s.anchor.left (install moved s) in
      let e = pop_left_round_lem m junk s in
      let ex = h.layout.leftmost in
      let (value, rest) = cons_injective (h.layout.holds) in
      let mine : in_use s.pool s.anchor.left ≡ true =
        ground (arith, h.layout.owned s.anchor.left) in
      let freed = laws.deallocated s.pool s.anchor.left in
      let out = h.layout.distinct.0 in
      let ends : (s.anchor.left == s.anchor.right) ≡ false =
        ground (arith, ex, h.layout.rightmost, has-last y r, out) in
      let others : (j : ℕ) → has j (y ∷ r) ≡ true → t.nodes j ≡ s.nodes j =
        λ j m'. ground (arith, ex, out) in
      (
        t,
        y ∷ r,
        rw e (ground (arith, ex, ends, h.layout.nonnull, h.status, value)),
        record {
          layout = record {
            nonnull = ground (arith, h.layout.nonnull);
            distinct = h.layout.distinct.1;
            apart = λ j m'. absurd (ground arith);
            owned = λ j. ground (arith, freed j mine, h.layout.owned j, ex, out);
            leftmost = rw ex h.rights.0;
            rightmost = h.layout.rightmost;
            holds =
                values-frame s.nodes t.nodes (y ∷ r)
                  (λ j m'. ap (λ (c : Node T). c.data_) (others j m'))
                ∙ rest;
          };
          status = h.status;
          rights =
              Follows-frame (right_of s.nodes) (right_of t.nodes) y r h.rights.1
                (λ j m'. ap (λ (c : Node T). c.right.ptr) (others j m'));
          lefts =
              Followed-frame (left_of s.nodes) (left_of t.nodes) y r h.lefts.1
                (λ j m'. ap (λ (c : Node T). c.left.ptr) (others j (ground arith)));
        },
      )
