-- ===== src/Matrix/Loops.antt =====
-- math/Matrix.hpp: loops and their invariants.
use zwq_repos.Prelude.{
  ℕ, zero, suc, ◌+◌, ◌<◌, ◌≤◌, ◌≡◌, refl, subst, Option, none, some, ◌==◌, arith, Bool-cases,
  Option-cases, inl, inr,
}
use zwq_repos.Matrix.{for_loop, ◌>>=◌}

module _ {S : Type 0} where
  -- An invariant that each round keeps.
  pub for_loop_keeps :
      (n i : ℕ) (body : ℕ → S → Option S) (P : ℕ → S → Type 0) (s : S)
      → ((j : ℕ) (t : S)
          → i ≤ j
          → j < i + n
          → P j t
          → (t' : S) × (body j t ≡ some t') × P (suc j) t')
      → P i s
      → (s' : S) × (for_loop n i body s ≡ some s') × P (i + n) s'
  unfolding for_loop
  for_loop_keeps zero i body P s keeps p = (s, refl, subst (λ j. P j s) (omega arith) p)
  for_loop_keeps (suc n) i body P s keeps p =
      let (t, e, q) = keeps i s (omega arith) (omega arith) p in
      let (s', e', q') =
        for_loop_keeps n (suc i) body P t (λ j u le lt. keeps j u (omega arith) (omega arith)) q in
      (s', rw (e, ◌>>=◌) e', subst (λ j. P j s') (omega arith) q')

  -- A round that always fails makes the loop fail.
  pub for_loop_fails :
      (n i k : ℕ) (body : ℕ → S → Option S) (s : S)
      → i ≤ k
      → k < i + n
      → ((t : S) → body k t ≡ none)
      → for_loop n i body s ≡ none
  unfolding for_loop
  for_loop_fails zero i k body s le lt fails = absurd (omega arith)
  for_loop_fails (suc n) i k body s le lt fails = elim (Option-cases (body i s)) [
    | inl e ↦ rw (e, ◌>>=◌) refl
    | inr (t, e) ↦ elim (Bool-cases (i == k)) [
      | inl same ↦
          let now : body i s ≡ none = subst (λ j. body j s ≡ none) (ground arith) (fails s) in
          rw (now, ◌>>=◌) refl
      | inr other ↦
          let later = for_loop_fails n (suc i) k body t (ground arith) (omega arith) fails in
          rw (e, ◌>>=◌) later
    ]
  ]

-- Two loops of which one does the image of what the other does.
pub for_loop_map :
    {S T : Type 0} (h : S → T) (n i : ℕ) (body : ℕ → S → Option S) (body' : ℕ → T → Option T)
    (s : S)
    → ((j : ℕ) (t : S) → i ≤ j → j < i + n → body' j (h t) ≡ (body j t >>= λ t'. some (h t')))
    → for_loop n i body' (h s) ≡ (for_loop n i body s >>= λ s'. some (h s'))
unfolding for_loop
for_loop_map h zero i body body' s same = refl
for_loop_map h (suc n) i body body' s same = elim (Option-cases (body i s)) [
  | inl e ↦ rw (same i s (omega arith) (omega arith), e, ◌>>=◌) refl
  | inr (t, e) ↦
      let rest =
        for_loop_map h n (suc i) body body' t (λ j u le lt. same j u (omega arith) (omega arith)) in
      rw (same i s (omega arith) (omega arith), e, ◌>>=◌) rest
]
