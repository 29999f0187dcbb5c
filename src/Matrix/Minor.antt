-- ===== src/Matrix/Minor.antt =====
-- math/Matrix.hpp: `subdet` against the minor of a function of two indices.
use zwq_repos.Prelude.{
  ℕ, suc, ◌+◌, ◌-◌, ◌<◌, ◌≤◌, ◌≡◌, refl, subst, some, ltb, arith, inl, if◌then◌else◌,
}
use zwq_repos.Matrix.{◌>>=◌, for_loop, Arithmetic, Matrix, copy, zeros, subdet_row, subdet}
use zwq_repos.Matrix.Loops.{for_loop_keeps}
use zwq_repos.Matrix.Bounds.{IsSquare, cell_inside, Fills, Fills-row, Fills-next}

-- The index of a row or column once `i` is left out.
abbrev pub over : ℕ → ℕ → ℕ
over i a = if ltb a i then a else a + 1

module _ {A : Type 0} where
  abbrev pub minor : (ℕ → ℕ → A) → ℕ → ℕ → ℕ → A
  minor f i a b = f (over i a) (b + 1)

  row-Fills :
      (n i a a' : ℕ) (m t : Matrix A)
      → IsSquare (suc n) m
      → i ≤ n
      → a < n
      → a' ≡ over i a
      → Fills n (minor m.values i) a 0 t
      → (t' : Matrix A) × (subdet_row m a' 0 a t ≡ some t')
        × Fills n (minor m.values i) (suc a) 0 t'
  unfolding subdet_row for_loop
  row-Fills n i a a' m t (e, e') le lt over_eq p =
      let inside : a' < suc n = ground arith in
      let (t', e1, q) =
        Fills-row n (minor m.values i) n a 0 (λ b. copy m a' (b + 1) a b) t lt (omega arith)
          (λ b u le' lt'.
            rw (cell_inside (suc n) m a' (b + 1) (e, e') inside (omega arith), ◌>>=◌, over_eq) refl)
          p in
      let count : m.col - 1 - 0 ≡ n = omega (arith, e') in
      (
        t',
        rw (count) e1,
        Fills-next n (minor m.values i) a t'
            (subst (λ c. Fills n (minor m.values i) a c t') (omega arith) q),
      )

module _ {A : Type 0} (r : Arithmetic A) where
  -- `subdet` of a square matrix.
  pub subdet-minor :
      (n i : ℕ) (m : Matrix A)
      → IsSquare (suc n) m
      → i ≤ n
      → (t : Matrix A) × (subdet r i 0 m ≡ some t)
        × IsSquare n t
        × ((a b : ℕ) → a < n → b < n → t.values a b ≡ minor m.values i a b)
  unfolding subdet for_loop
  subdet-minor n i m (e, e') le =
      let g = minor m.values i in
      let (t, e1, p) =
        for_loop_keeps i 0 (λ a. subdet_row m a 0 a) (λ k. Fills n g k 0)
          (zeros r (m.row - 1) (m.col - 1))
          (λ a u le' lt q. row-Fills n i a a m u (e, e') le (omega arith) (ground arith) q)
          ((omega (arith, e), omega (arith, e')), λ a b lt before. absurd (ground arith)) in
      let p' : Fills n g i 0 t = subst (λ c. Fills n g c 0 t) (omega arith) p in
      let (t', e2, q) =
        for_loop_keeps (n - i) i (λ a. subdet_row m (a + 1) 0 a) (λ k. Fills n g k 0) t
          (λ a u le' lt q. row-Fills n i a (a + 1) m u (e, e') le (omega arith) (ground arith) q)
          p' in
      let count : m.row - 1 - i ≡ n - i = omega (arith, e) in
      (t', rw (e1, ◌>>=◌, count) e2, q.0, λ a b lt lt'. q.1 a b lt' (inl (omega arith)))
