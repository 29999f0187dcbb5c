-- ===== src/Matrix/Det.antt =====
-- math/Matrix.hpp: the determinant against its expansion along the first column.
use zwq_repos.Prelude.{
  ℕ, zero, suc, ◌+◌, ◌%◌, ◌<◌, ◌≤◌, ◌≡◌, refl, sym, subst, ap, ◌∙◌, Option, some, ◌==◌, arith,
  Bool-cases, inl, inr, true, false, if◌then◌else◌,
}
use zwq_repos.Matrix.{◌>>=◌, Arithmetic, Matrix, cell, signed, det_round, det_of, det}
use zwq_repos.Matrix.Loops.{for_loop_keeps}
use zwq_repos.Matrix.Bounds.{IsSquare, cell_inside}
use zwq_repos.Matrix.Minor.{over, minor, subdet-minor}

-- What the determinant needs of the arithmetic; every ring has it.
pub record IsSigned {A : Type 0} (r : Arithmetic A) : Type 0 where
  pub neg_zero : r.neg r.zero ≡ r.zero
  pub neg_add : (a b : A) → r.neg (r.add a b) ≡ r.add (r.neg a) (r.neg b)
  pub neg_neg : (a : A) → r.neg (r.neg a) ≡ a
  pub neg_mul : (a b : A) → r.mul (r.neg a) b ≡ r.neg (r.mul a b)
  pub mul_neg : (a b : A) → r.mul a (r.neg b) ≡ r.neg (r.mul a b)

module _ {A : Type 0} (r : Arithmetic A) where
  -- `(-1) ^ k * x`
  abbrev pub alternate : ℕ → A → A
  alternate zero x = x
  alternate (suc k) x = r.neg (alternate k x)

  abbrev pub sum : ℕ → (ℕ → A) → A
  sum zero f = r.zero
  sum (suc k) f = r.add (sum k f) (f k)

  -- The determinant of the `n + 1` by `n + 1` matrix `f`: the expansion along the first column.
  abbrev pub laplace : ℕ → (ℕ → ℕ → A) → A
  laplace zero f = f 0 0
  laplace (suc n) f = sum (suc (suc n)) (λ i. alternate i (r.mul (f i 0) (laplace n (minor f i))))

module _ {A : Type 0} (r : Arithmetic A) where
  sum_ext : (k : ℕ) (f g : ℕ → A) → ((i : ℕ) → i < k → f i ≡ g i) → sum r k f ≡ sum r k g
  sum_ext zero f g same = refl
  sum_ext (suc k) f g same =
      let rest = sum_ext k f g (λ i lt. same i (omega arith)) in
      let goal : r.add (sum r k f) (f k) ≡ r.add (sum r k g) (g k) =
        rw (rest, same k (omega arith)) refl in
      goal

  laplace_ext :
      (n : ℕ) (f g : ℕ → ℕ → A)
      → ((i j : ℕ) → i ≤ n → j ≤ n → f i j ≡ g i j)
      → laplace r n f ≡ laplace r n g
  laplace_ext zero f g same = same 0 0 (omega arith) (omega arith)
  laplace_ext (suc n) f g same = sum_ext (suc (suc n)) _ _ (λ i lt.
      let rest =
        laplace_ext n (minor f i) (minor g i)
          (λ a b le le'. same (over i a) (b + 1) (ground arith) (omega arith)) in
      let first = same i 0 (omega arith) (omega arith) in rw (rest, first) refl)

module _ {A : Type 0} (r : Arithmetic A) (laws : IsSigned r) where
  alternate_zero : (k : ℕ) → alternate r k r.zero ≡ r.zero
  alternate_zero zero = refl
  alternate_zero (suc k) = ap r.neg (alternate_zero k) ∙ laws.neg_zero

  alternate-add :
      (k : ℕ) (a b : A) → alternate r k (r.add a b) ≡ r.add (alternate r k a) (alternate r k b)
  alternate-add zero a b = refl
  alternate-add (suc k) a b =
      ap r.neg (alternate-add k a b) ∙ laws.neg_add (alternate r k a) (alternate r k b)

  alternate-mul_right : (k : ℕ) (a b : A) → r.mul a (alternate r k b) ≡ alternate r k (r.mul a b)
  alternate-mul_right zero a b = refl
  alternate-mul_right (suc k) a b =
      laws.mul_neg a (alternate r k b) ∙ ap r.neg (alternate-mul_right k a b)

  alternate-mul_left : (k : ℕ) (a b : A) → r.mul (alternate r k a) b ≡ alternate r k (r.mul a b)
  alternate-mul_left zero a b = refl
  alternate-mul_left (suc k) a b =
      laws.neg_mul (alternate r k a) b ∙ ap r.neg (alternate-mul_left k a b)

  alternate-neg : (k : ℕ) (a : A) → alternate r k (r.neg a) ≡ r.neg (alternate r k a)
  alternate-neg zero a = refl
  alternate-neg (suc k) a = ap r.neg (alternate-neg k a)

  signed-suc : (i : ℕ) (x : A) → signed r (suc i) x ≡ r.neg (signed r i x)
  signed-suc i x = elim (Bool-cases (i % 2 == 1)) [
    | inl odd ↦
        let even : (suc i % 2 == 1) ≡ false = ground arith in rw (odd, even, if◌then◌else◌) refl
    | inr even ↦
        let odd : (suc i % 2 == 1) ≡ true = ground arith in
        rw (odd, even, if◌then◌else◌) (sym (laws.neg_neg x))
  ]

  signed-alternate : (i : ℕ) (x : A) → signed r i x ≡ alternate r (suc i) x
  signed-alternate zero x = refl
  signed-alternate (suc i) x = signed-suc i x ∙ ap r.neg (signed-alternate i x)

  -- The product that a round of the loop adds.
  round_term :
      (n i : ℕ) (x y : A)
      → r.mul (signed r i x) (alternate r n y) ≡ alternate r (suc n) (alternate r i (r.mul x y))
  round_term n i x y =
      alternate-mul_right n (signed r i x) y
      ∙ ap (alternate r n)
          (ap (λ s. r.mul s y) (signed-alternate i x) ∙ alternate-mul_left (suc i) x y)
      ∙ alternate-neg n (alternate r i (r.mul x y))

  -- The terms of the expansion.
  abbrev term : (n : ℕ) → Matrix A → ℕ → A
  term n m i = alternate r i (r.mul (m.values i 0) (laplace r n (minor m.values i)))

  det_round_keeps :
      (n i : ℕ) (minor_det : Matrix A → Option A) (m : Matrix A) (ret : A)
      → ((t : Matrix A)
          → IsSquare (suc n) t
          → minor_det t ≡ some (alternate r n (laplace r n t.values)))
      → IsSquare (suc (suc n)) m
      → i ≤ suc n
      → ret ≡ alternate r (suc n) (sum r i (term n m))
      → (ret' : A) × (det_round r minor_det m i ret ≡ some ret')
        × (ret' ≡ alternate r (suc n) (sum r (suc i) (term n m)))
  det_round_keeps n i minor_det m ret smaller sq le p =
      let x = m.values i 0 in
      let (t, e, sq', same) = subdet-minor r (suc n) i m sq le in
      let y = laplace r n (minor m.values i) in
      let inside : cell m i 0 ≡ some x =
        cell_inside (suc (suc n)) m i 0 sq (omega arith) (omega arith) in
      let below : minor_det t ≡ some (alternate r n y) =
        smaller t sq'
        ∙ ap (λ d. some (alternate r n d))
            (laplace_ext r n t.values (minor m.values i)
              (λ a b le' le''. same a b (omega arith) (omega arith))) in
      (
        r.add ret (r.mul (signed r i x) (alternate r n y)),
        rw (inside, ◌>>=◌, e, below) refl,
        ap (λ a. r.add a (r.mul (signed r i x) (alternate r n y))) p
            ∙ ap (r.add (alternate r (suc n) (sum r i (term n m)))) (round_term n i x y)
            ∙ sym (alternate-add (suc n) (sum r i (term n m)) (term n m i)),
      )

  det_of_square :
      (n : ℕ) (m : Matrix A)
      → IsSquare (suc n) m
      → det_of r (suc n) m ≡ some (alternate r n (laplace r n m.values))
  unfolding det_of
  det_of_square zero m sq = cell_inside 1 m 0 0 sq (omega arith) (omega arith)
  det_of_square (suc n) m sq =
      let (d, e, h) =
        for_loop_keeps (suc (suc n)) 0 (det_round r (det_of r (suc n)) m)
          (λ k ret. ret ≡ alternate r (suc n) (sum r k (term n m))) r.zero
          (λ i ret le lt p.
            det_round_keeps n i (det_of r (suc n)) m ret (det_of_square n) sq (omega arith) p)
          (sym (alternate_zero (suc n))) in
      let count : 0 + suc (suc n) ≡ suc (suc n) = omega arith in
      e ∙ ap some (subst (λ k. d ≡ alternate r (suc n) (sum r k (term n m))) count h)

  -- With an arithmetic in which signs behave as in a ring, `det` of a square matrix of `n + 1` rows
  -- is defined and is its determinant, by expansion along the first column, times `(-1) ^ n`.
  pub det-laplace :
      (n : ℕ) (m : Matrix A)
      → IsSquare (suc n) m
      → det r m ≡ some (alternate r n (laplace r n m.values))
  det-laplace n m (e, e') =
      subst (λ k. det_of r k m ≡ some (alternate r n (laplace r n m.values))) (sym e)
        (det_of_square n m (e, e'))
