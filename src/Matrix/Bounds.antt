-- ===== src/Matrix/Bounds.antt =====
-- math/Matrix.hpp: what the loops write, and which matrices they stay inside of.
use zwq_repos.Prelude.{
  ℕ, suc, ◌+◌, ◌<◌, ◌≤◌, ◌≡◌, ◌≢◌, ◌↔◌, ◌⊎◌, refl, sym, subst, ◌∙◌, Option, none, some, ◌==◌, ◌&&◌,
  arith, Bool-cases, inl, inr, false, if◌then◌else◌,
}
use zwq_repos.Matrix.{◌>>=◌, for_loop, Arithmetic, Matrix, cell, write, zeros, each, foreach}
use zwq_repos.Matrix.Loops.{for_loop_keeps, for_loop_fails}

-- The entry stands before the entry `k`, `l` in the order of the loops.
abbrev pub Before : ℕ → ℕ → ℕ → ℕ → Type 0
Before a b k l = (a < k) ⊎ ((a ≡ k) × (b < l))

module _ {A : Type 0} (n : ℕ) where
  abbrev pub IsSquare : Matrix A → Type 0
  IsSquare m = (m.row ≡ n) × (m.col ≡ n)

  pub cell_inside :
      (m : Matrix A) (i j : ℕ) → IsSquare m → i < n → j < n → cell m i j ≡ some (m.values i j)
  cell_inside m i j (e, e') lt lt' = ground arith

  module _ (g : ℕ → ℕ → A) where
    -- All entries before `k`, `l` have been written.
    abbrev pub Fills : ℕ → ℕ → Matrix A → Type 0
    Fills k l temp = IsSquare temp × ((a b : ℕ) → b < n → Before a b k l → temp.values a b ≡ g a b)

    Fills-write :
        (k l : ℕ) (temp : Matrix A)
        → k < n
        → l < n
        → Fills k l temp
        → (t : Matrix A) × (write k l (g k l) temp ≡ some t) × Fills k (suc l) t
    Fills-write k l temp lt lt' ((e, e'), h) = (
      record temp { values = λ a b. if a == k && b == l then g k l else temp.values a b },
      ground arith,
      (
        (e, e'),
        λ a b in_row before. elim (Bool-cases (a == k && b == l)) [
          | inl same ↦
              let ea : a ≡ k = ground arith in
              let eb : b ≡ l = ground arith in rw (same, ea, eb, if◌then◌else◌) refl
          | inr other ↦ rw (other, if◌then◌else◌) (h a b in_row (earlier a b other before))
        ],
      ),
    )
      where
        earlier : (a b : ℕ) → (a == k && b == l) ≡ false → Before a b k (suc l) → Before a b k l
        earlier a b other (inl lt) = inl lt
        earlier a b other (inr (e, lt)) = inr (e, ground arith)

    -- A loop over one row.
    pub Fills-row :
        (count k l : ℕ) (body : ℕ → Matrix A → Option (Matrix A)) (temp : Matrix A)
        → k < n
        → l + count ≤ n
        → ((j : ℕ) (t : Matrix A) → l ≤ j → j < l + count → body j t ≡ write k j (g k j) t)
        → Fills k l temp
        → (t : Matrix A) × (for_loop count l body temp ≡ some t) × Fills k (l + count) t
    Fills-row count k l body temp lt le writes h =
        for_loop_keeps count l body (Fills k) temp
          (λ j t le' lt' p.
            let (t', e, q) = Fills-write k j t lt (omega arith) p in
            (t', writes j t le' lt' ∙ e, q))
          h

    pub Fills-next : (k : ℕ) (temp : Matrix A) → Fills k n temp → Fills (suc k) 0 temp
    Fills-next k temp (sq, h) = (sq, λ a b lt before. h a b lt (ground arith))

  -- In a square matrix `foreach` gives a square matrix of the images.
  pub foreach-IsSquare :
      (r : Arithmetic A) (func : A → A) (m : Matrix A)
      → IsSquare m
      → (t : Matrix A) × (foreach r func m ≡ some t)
        × IsSquare t
        × ((i j : ℕ) → i < n → j < n → t.values i j ≡ func (m.values i j))
  unfolding foreach
  foreach-IsSquare r func m (e, e') =
      let g : ℕ → ℕ → A = λ i j. func (m.values i j) in
      let (t, et, (sq, h)) =
        for_loop_keeps n 0 (λ i. for_loop m.col 0 (each func m i)) (λ k. Fills g k 0)
          (zeros r m.row m.col)
          (λ i t le lt p.
            let (t', e2, q) =
              Fills-row g n i 0 (each func m i) t (omega arith) (omega arith)
                (λ j u le' lt'.
                  rw (cell_inside m i j (e, e') (omega arith) (omega arith), ◌>>=◌) refl)
                p in
            (
              t',
              subst (λ c. for_loop c 0 (each func m i) t ≡ some t') (sym e') e2,
              Fills-next g i t' (subst (λ c. Fills g i c t') (omega arith) q),
            ))
          ((e, e'), λ a b lt before. absurd (ground arith)) in
      (
        t,
        subst
            (λ c.
              for_loop c 0 (λ i. for_loop m.col 0 (each func m i)) (zeros r m.row m.col) ≡ some t)
            (sym e) et,
        sq,
        λ i j lt lt'. h i j lt' (inl (omega arith)),
      )

-- For a matrix with at least one row and one column, `foreach` stays inside of the arrays exactly
-- when the matrix is square.
pub foreach_iff :
    {A : Type 0} (r : Arithmetic A) (func : A → A) (m : Matrix A)
    → 0 < m.row
    → 0 < m.col
    → ((t : Matrix A) × (foreach r func m ≡ some t)) ↔ (m.row ≡ m.col)
unfolding foreach
foreach_iff {A = A} r func m lt lt' = (
  λ (t, e). elim (ordered m.row m.col) [
    | inl same ↦ same
    | inr (inl less) ↦ absurd (nothing t (sym e ∙ wide less))
    | inr (inr more) ↦ absurd (nothing t (sym e ∙ tall more))
  ],
  λ same. let (t, e, sq, values) = foreach-IsSquare m.row r func m (refl, sym same) in (t, e),
)
  where
    ordered : (a b : ℕ) → (a ≡ b) ⊎ ((a < b) ⊎ (b < a))
    ordered a b = ground arith

    nothing : (t : Matrix A) → some t ≢ none
    nothing t e = ground arith

    wide : m.row < m.col → foreach r func m ≡ none
    wide less =
        for_loop_fails m.row 0 0 (λ i. for_loop m.col 0 (each func m i)) (zeros r m.row m.col)
          (omega arith) (omega arith)
          (λ t.
            for_loop_fails m.col 0 m.row (each func m 0) t (omega arith) (omega arith)
              (λ u. ground arith))

    tall : m.col < m.row → foreach r func m ≡ none
    tall more =
        for_loop_fails m.row 0 m.col (λ i. for_loop m.col 0 (each func m i)) (zeros r m.row m.col)
          (omega arith) (omega arith)
          (λ t.
            for_loop_fails m.col 0 0 (each func m m.col) t (omega arith) (omega arith)
              (λ u. ground arith))
