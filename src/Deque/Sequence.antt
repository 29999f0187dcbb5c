-- ===== src/Deque/Sequence.antt =====
-- detail-dev/deque.hpp: each call on a sound deque ends after two rounds at most and does to the
-- sequence of values what a deque does, also where another thread has stopped in the middle of a push.
use zwq_repos.Prelude.{
  ℕ, suc, ◌≡◌, ◌≢◌, refl, ap, sym, subst, ◌∙◌, Bool, true, false, Option, none, some, List, [], ◌∷◌,
  ◌++◌, reverse, length, arith,
}
use mathlib.Core.List.{reverse-append}
use zwq_repos.Deque.{Node, Pool, IsPool, Deque}
use zwq_repos.Deque.Calls.{pop_left_round, pop_right_round, pop_left, pop_right, release}
use zwq_repos.Deque.Mirror.{mirror, mirror_node}
use zwq_repos.Deque.Rounds.{mirrored, pop_left_round_lem, pop_right_round_lem}
use zwq_repos.Deque.State.{Sound, is_settled, left_pending, right_pending}
use zwq_repos.Deque.Ends.{run_done, turned, run-mirror, run-pop, Sound-mirror, Sound-unmirror}

module _ {P T : Type 0} (m : Pool P) (in_use : P → ℕ → Bool) where
  -- A push returned true with the values `ws`, or the pool had no node, it returned false and the
  -- values are still `vs`.
  pub data Pushed (s : Deque P T) (ws vs : List T) : Option (Bool × Deque P T) → Type 0 where
    pushes :
        (t : Deque P T)
        → (m.allocate s.pool).0 ≢ 0
        → Sound in_use [] t ws
        → Pushed s ws vs (some (true, t))
    refuses :
        (t : Deque P T)
        → (m.allocate s.pool).0 ≡ 0
        → Sound in_use [] t vs
        → Pushed s ws vs (some (false, t))

module _ {P T : Type 0} (m : Pool P) (in_use : P → ℕ → Bool) (junk : ℕ → Node T) where
  -- From a sound state with values, in which one push may have stopped in the middle, and with a
  -- pool that keeps the other nodes when one is given back, pop_left ends after at most two rounds,
  -- returns the first value and leaves the others.
  pub pop_left-Sound :
      IsPool P m in_use
      → (k : ℕ) (v : T) (s : Deque P T) (vs : List T) → Sound in_use [] s (v ∷ vs)
      → (t : Deque P T) × (pop_left m junk (suc (suc k)) s ≡ some (some v, t))
        × Sound in_use [] t vs
  pop_left-Sound laws k v s vs h = run-pop in_use m junk laws k s v vs h

  -- From a sound state with values, in which one push may have stopped in the middle, and with a
  -- pool that keeps the other nodes when one is given back, pop_right ends after at most two rounds,
  -- returns the last value and leaves the others.
  pub pop_right-Sound :
      IsPool P m in_use
      → (k : ℕ) (v : T) (s : Deque P T) (vs : List T) → Sound in_use [] s (vs ++ v ∷ [])
      → (t : Deque P T) × (pop_right m junk (suc (suc k)) s ≡ some (some v, t))
        × Sound in_use [] t vs
  pop_right-Sound laws k v s vs h =
      let junk' = λ (j : ℕ). mirror_node (junk j) in
      let same = λ (u : Deque P T).
        pop_right_round_lem m junk u ∙ ap mirrored (sym (pop_left_round_lem m junk' (mirror u))) in
      let turned_loop =
        run-mirror (pop_left_round m junk') (pop_right_round m junk) same (suc (suc k)) s in
      let order : reverse (vs ++ v ∷ []) ≡ v ∷ reverse vs = reverse-append vs (v ∷ []) in
      let start =
        subst (λ ws. Sound in_use [] (mirror s) ws) order (Sound-mirror in_use [] s _ h) in
      let (t, eq, st) = run-pop in_use m junk' laws k (mirror s) v (reverse vs) start in
      (mirror t, turned_loop ∙ ap turned eq, Sound-unmirror in_use [] t vs st)

  -- Both pops on a sound deque without values return false at once and change nothing.
  pub pop_left-pop_right_empty :
      (k : ℕ) (s : Deque P T)
      → Sound in_use [] s []
      → (pop_left m junk (suc k) s ≡ some (none, s)) × (pop_right m junk (suc k) s ≡ some (none, s))
  unfolding pop_left_round pop_right_round
  pop_left-pop_right_empty k s h =
      let (l, r) = ends_null s h in
      (
        run_done (pop_left_round m junk) k s none s (rw l refl),
        run_done (pop_right_round m junk) k s none s (rw r refl),
      )
    where
      ends_null :
          (s : Deque P T) → Sound in_use [] s [] → (s.anchor.left ≡ 0) × (s.anchor.right ≡ 0)
      ends_null s (is_settled [] h) = (h.layout.leftmost, h.layout.rightmost)
      ends_null s (is_settled (x ∷ xs) h) = absurd (ground (arith, h.layout.holds))
      ends_null s (left_pending x y r e h) = absurd (ground (arith, h.layout.holds))
      ends_null s (right_pending x y r e h) = absurd (ground (arith, h.layout.holds))

  -- From a sound state, and with a pool that keeps the other nodes when one is given back, the
  -- destructor ends after one call of pop_left more than there are values, and leaves the deque sound
  -- and without values, so that every node is back in the pool.
  pub release-Sound :
      IsPool P m in_use
      → (s : Deque P T) (vs : List T) → Sound in_use [] s vs
      → (t : Deque P T) × (release m junk (suc (length vs)) s ≡ some t) × Sound in_use [] t []
  unfolding release
  release-Sound laws s [] h =
      let e = (pop_left-pop_right_empty 1 s h).0 in
      (
        s,
        ap (λ p. elim p [ none ↦ none | some r ↦ elim r.0 [ none ↦ some r.1 | some _ ↦ none ] ]) e,
        h,
      )
  release-Sound laws s (v ∷ vs) h =
      let (u, e, h') = pop_left-Sound laws 0 v s vs h in
      let (t, e', h'') = release-Sound laws u vs h' in
      (
        t,
        ap
              (λ p. elim p [
                | none ↦ none
                | some r ↦ elim r.0 [
                  | none ↦ some r.1
                  | some _ ↦ release m junk (suc (length vs)) r.1
                ]
              ])
              e
            ∙ e',
        h'',
      )
