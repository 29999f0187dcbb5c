-- ===== src/Deque/Ends.antt =====
-- detail-dev/deque.hpp: the loops on sound deques, and loops whose rounds mirror one another.
use zwq_repos.Prelude.{
  ℕ, zero, suc, ◌≡◌, ◌≢◌, ◌⊎◌, refl, ap, subst, ◌∙◌, Bool, true, Option, none, some, List, [], ◌∷◌,
  reverse, arith, inl, inr,
}
use mathlib.Core.List.{reverse-reverse}
use zwq_repos.Deque.{Status, stable, lpush, rpush, Node, Pool, IsPool, Deque, run}
use zwq_repos.Deque.Calls.{alloc_node, push_left_round, pop_left_round, pop_left}
use zwq_repos.Deque.Mirror.{mirror, mirror-mirror, settled}
use zwq_repos.Deque.Rounds.{mirrored}
use zwq_repos.Deque.State.{Stable, Sound, is_settled, left_pending, right_pending, Stable-mirror}
use zwq_repos.Deque.Settle.{settled-Stable, push-Stable, pop-Stable}
use zwq_repos.Deque.Frame.{Sound-frame, in_use-null, unstable_rounds}

Status-cases : (t : Status) → (t ≡ stable) ⊎ (t ≢ stable)
Status-cases stable = inl refl
Status-cases rpush = inr (λ e. ground arith)
Status-cases lpush = inr (λ e. ground arith)

settled_data :
    {P T : Type 0} (t : Status) (s : Deque P T) (j : ℕ)
    → ((settled t s).nodes j).data_ ≡ (s.nodes j).data_
settled_data stable s j = ground arith
settled_data rpush s j = ground arith
settled_data lpush s j = ground arith

module _ {P T R : Type 0} where
  pub run_done :
      (round : Deque P T → Option R × Deque P T) (k : ℕ) (s : Deque P T) (r : R) (t : Deque P T)
      → round s ≡ (some r, t)
      → run round (suc k) s ≡ some (r, t)
  run_done round k s r t e =
      ap (λ p. elim p.0 [ none ↦ run round k p.1 | some x ↦ some (x, p.1) ]) e

  run_next :
      (round : Deque P T → Option R × Deque P T) (k : ℕ) (s u : Deque P T)
      → round s ≡ (none, u)
      → run round (suc k) s ≡ run round k u
  run_next round k s u e = ap (λ p. elim p.0 [ none ↦ run round k p.1 | some x ↦ some (x, p.1) ]) e

  abbrev pub turned : Option (R × Deque P T) → Option (R × Deque P T)
  turned none = none
  turned (some r) = some (mirrored r)

  -- Loops whose rounds mirror one another mirror one another.
  pub run-mirror :
      (f g : Deque P T → Option R × Deque P T)
      → ((s : Deque P T) → g s ≡ mirrored (f (mirror s)))
      → (k : ℕ) (s : Deque P T) → run g k s ≡ turned (run f k (mirror s))
  run-mirror f g same zero s = refl
  run-mirror f g same (suc k) s =
      ap (λ p. elim p.0 [ none ↦ run g k p.1 | some x ↦ some (x, p.1) ]) (same s)
      ∙ turn (λ u. run-mirror f g same k u) (f (mirror s))
    where
      turn :
          ((u : Deque P T) → run g k u ≡ turned (run f k (mirror u)))
          → (p : Option R × Deque P T)
          → (elim p.0 [ none ↦ run g k (mirror p.1) | some x ↦ some (x, mirror p.1) ])
            ≡ turned (elim p.0 [ none ↦ run f k p.1 | some x ↦ some (x, p.1) ])
      turn ih (none, u) = ih (mirror u) ∙ ap (λ w. turned (run f k w)) (mirror-mirror u)
      turn ih (some r, u) = refl

module _ {P T : Type 0} (in_use : P → ℕ → Bool) where
  stable_Sound :
      (loose : List ℕ) (s : Deque P T) (vs : List T)
      → Sound in_use loose s vs
      → s.anchor.status ≡ stable
      → (xs : List ℕ) × Stable in_use loose s xs vs
  stable_Sound loose s vs (is_settled xs h) e = (xs, h)
  stable_Sound loose s vs (left_pending x y r e' h) e = absurd (ground arith)
  stable_Sound loose s vs (right_pending x y r e' h) e = absurd (ground arith)

  pub run-push :
      (m : Pool P) (k n : ℕ) (s : Deque P T) (vs : List T)
      → Sound in_use (n ∷ []) s vs
      → n ≢ 0
      → (t : Deque P T) × (run (push_left_round n) (suc (suc k)) s ≡ some (true, t))
        × Sound in_use [] t ((s.nodes n).data_ ∷ vs)
  run-push m k n s vs h nz = elim (Status-cases s.anchor.status) [
    | inl e ↦
        let (xs, st) = stable_Sound (n ∷ []) s vs h e in
        let (t, eq, st') = push-Stable in_use s n (s.nodes n).data_ xs vs nz refl st in
        (t, run_done (push_left_round n) (suc k) s true t eq, is_settled (n ∷ xs) st')
    | inr ne ↦
        let eq1 = (unstable_rounds in_use m (λ j. s.nodes j) (n ∷ []) n s vs h ne).0 in
        let (xs, st) = settled-Stable in_use (n ∷ []) s vs h ne in
        let u = settled s.anchor.status s in
        let (t, eq2, st') =
          push-Stable in_use u n (s.nodes n).data_ xs vs nz (settled_data s.anchor.status s n) st in
        (
          t,
          run_next (push_left_round n) (suc k) s u eq1
              ∙ run_done (push_left_round n) k u true t eq2,
          is_settled (n ∷ xs) st',
        )
  ]

  pub run-pop :
      (m : Pool P) (junk : ℕ → Node T)
      → IsPool P m in_use
      → (k : ℕ) (s : Deque P T) (v : T) (vs : List T) → Sound in_use [] s (v ∷ vs)
      → (t : Deque P T) × (pop_left m junk (suc (suc k)) s ≡ some (some v, t))
        × Sound in_use [] t vs
  run-pop m junk laws k s v vs h = elim (Status-cases s.anchor.status) [
    | inl e ↦
        let (xs, st) = stable_Sound [] s (v ∷ vs) h e in
        let (t, ys, eq, st') = pop-Stable m in_use junk laws s v xs vs st in
        (t, run_done (pop_left_round m junk) (suc k) s (some v) t eq, is_settled ys st')
    | inr ne ↦
        let eq1 = (unstable_rounds in_use m junk [] 0 s (v ∷ vs) h ne).1 in
        let (xs, st) = settled-Stable in_use [] s (v ∷ vs) h ne in
        let u = settled s.anchor.status s in
        let (t, ys, eq2, st') = pop-Stable m in_use junk laws u v xs vs st in
        (
          t,
          run_next (pop_left_round m junk) (suc k) s u eq1
              ∙ run_done (pop_left_round m junk) k u (some v) t eq2,
          is_settled ys st',
        )
  ]

  -- A deque turned around holds the reversed sequence.
  pub Sound-mirror :
      (loose : List ℕ) (s : Deque P T) (vs : List T)
      → Sound in_use loose s vs
      → Sound in_use loose (mirror s) (reverse vs)
  Sound-mirror loose s vs (is_settled xs h) =
      is_settled (reverse xs) (Stable-mirror in_use loose s xs vs h)
  Sound-mirror loose s vs (left_pending x y r e h) =
      right_pending x y r (rw e refl) (rw (mirror-mirror s, reverse-reverse vs) h)
  Sound-mirror loose s vs (right_pending x y r e h) = left_pending x y r (rw e refl) h

  pub Sound-unmirror :
      (loose : List ℕ) (s : Deque P T) (vs : List T)
      → Sound in_use loose s (reverse vs)
      → Sound in_use loose (mirror s) vs
  Sound-unmirror loose s vs h =
      subst (λ ws. Sound in_use loose (mirror s) ws) (reverse-reverse vs)
        (Sound-mirror loose s (reverse vs) h)

  -- After `alloc_node` the new node is loose, or none was given.
  pub alloc-Sound :
      (m : Pool P) (junk : ℕ → Node T)
      → IsPool P m in_use
      → (v : T) (s : Deque P T) (vs : List T) → Sound in_use [] s vs
      → ((m.allocate s.pool).0 ≢ 0
          → Sound in_use ((m.allocate s.pool).0 ∷ []) (alloc_node m junk v s).1 vs)
        × ((m.allocate s.pool).0 ≡ 0 → Sound in_use [] (alloc_node m junk v s).1 vs)
  unfolding alloc_node
  alloc-Sound m junk laws v s vs h =
      let p = s.pool in
      let n = (m.allocate p).0 in
      let s' = (alloc_node m junk v s).1 in
      let null = in_use-null in_use s vs h in
      (
        λ ne.
            let fresh = laws.fresh p ne in
            Sound-frame in_use (n ∷ []) p (m.allocate p).1
              (λ j. ground (arith, laws.allocated p j ne)) (λ j k. ground arith) s.anchor s.nodes
              s'.nodes vs (λ j k. ground arith) h,
        λ e.
            Sound-frame in_use [] p (m.allocate p).1 (λ j. laws.refused p j e)
              (λ j k. absurd (ground arith)) s.anchor s.nodes s'.nodes vs (λ j k. ground arith) h,
      )
