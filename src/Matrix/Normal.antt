-- ===== src/Matrix/Normal.antt =====
-- math/Matrix.hpp: `squariance` and `normalize_one`.
use zwq_repos.Prelude.{ℕ, ◌<◌, ◌≡◌, ◌≢◌, sym, subst, ap, ◌∙◌, some, arith}
use zwq_repos.Matrix.{◌>>=◌, for_loop, Arithmetic, Matrix, add_square, squariance, normalize_one}
use zwq_repos.Matrix.Loops.{for_loop_map}
use zwq_repos.Matrix.Bounds.{IsSquare, cell_inside, foreach-IsSquare}

-- What normalizing needs of the arithmetic, `one` its unit; the real numbers have it.
pub record IsDivision {A : Type 0} (r : Arithmetic A) (one : A) : Type 0 where
  pub zero_div : (c : A) → r.div r.zero c ≡ r.zero
  pub add_div : (a b c : A) → r.div (r.add a b) c ≡ r.add (r.div a c) (r.div b c)
  pub div_mul_div : (a b c : A) → r.mul (r.div a c) (r.div b c) ≡ r.div (r.mul a b) (r.mul c c)
  pub div_self : (a : A) → a ≢ r.zero → r.div a a ≡ one

squariance_rows :
    {A : Type 0} (r : Arithmetic A) (n : ℕ) (m : Matrix A)
    → IsSquare n m
    → squariance r m ≡ for_loop n 0 (λ i. for_loop n 0 (add_square r m i)) r.zero
unfolding squariance
squariance_rows r n m (e, e') =
    ap (λ a. for_loop a 0 (λ i. for_loop m.col 0 (add_square r m i)) r.zero) e
    ∙ ap (λ b. for_loop n 0 (λ i. for_loop b 0 (add_square r m i)) r.zero) e'

module _ {A : Type 0} (r : Arithmetic A) (one : A) (laws : IsDivision r one) where
  -- The squares of the quotients by `c` add up to the quotient by `c * c`.
  squariance_div :
      (n : ℕ) (m t : Matrix A) (c : A)
      → IsSquare n m
      → IsSquare n t
      → ((i j : ℕ) → i < n → j < n → t.values i j ≡ r.div (m.values i j) c)
      → squariance r t ≡ (squariance r m >>= λ s. some (r.div s (r.mul c c)))
  squariance_div n m t c sq sq' quotients =
      let h : A → A = λ a. r.div a (r.mul c c) in
      let one_round : (i j : ℕ) (ret : A)
          → i < n
          → j < n
          → add_square r t i j (h ret) ≡ (add_square r m i j ret >>= λ a. some (h a)) =
        λ i j ret lt lt'.
          let x = m.values i j in
          let sum : r.add (h ret) (r.mul (r.div x c) (r.div x c)) ≡ h (r.add ret (r.mul x x)) =
            ap (r.add (h ret)) (laws.div_mul_div x x c)
            ∙ sym (laws.add_div ret (r.mul x x) (r.mul c c)) in
          rw
            (
              cell_inside n m i j sq lt lt',
              cell_inside n t i j sq' lt lt',
              ◌>>=◌,
              quotients i j lt lt',
            )
            (ap some sum) in
      let rows =
        for_loop_map h n 0 (λ i. for_loop n 0 (add_square r m i))
          (λ i. for_loop n 0 (add_square r t i)) r.zero
          (λ i ret le lt.
            for_loop_map h n 0 (add_square r m i) (add_square r t i) ret
              (λ j u le' lt'. one_round i j u (omega arith) (omega arith))) in
      squariance_rows r n t sq'
      ∙ subst
          (λ z.
            for_loop n 0 (λ i. for_loop n 0 (add_square r t i)) z
            ≡ (for_loop n 0 (λ i. for_loop n 0 (add_square r m i)) r.zero >>= λ s. some (h s)))
          (laws.zero_div (r.mul c c)) rows
      ∙ ap (λ o. o >>= λ s. some (h s)) (sym (squariance_rows r n m sq))

  -- Where division behaves as on the real numbers, the entries of a square matrix have a sum of
  -- squares that is not zero, and `std::sqrt` gives a root of it: `normalize_one` is defined and the
  -- sum of squares of its result is one.
  pub normalize_one-squariance :
      (n : ℕ) (m : Matrix A) (s : A)
      → IsSquare n m
      → squariance r m ≡ some s
      → s ≢ r.zero
      → r.mul (r.sqrt s) (r.sqrt s) ≡ s
      → (t : Matrix A) × (normalize_one r m ≡ some t) × (squariance r t ≡ some one)
  unfolding normalize_one
  normalize_one-squariance n m s sq e nonzero root =
      let (t, et, sq', quotients) = foreach-IsSquare n r (λ x. r.div x (r.sqrt s)) m sq in
      let same = squariance_div n m t (r.sqrt s) sq sq' quotients in
      (t, rw (e, ◌>>=◌) et, same ∙ rw (e, ◌>>=◌, root) (ap some (laws.div_self s nonzero)))
