-- ===== src/Matrix/Examples.antt =====
-- Matrices over the integers modulo 3, and their theorems at concrete matrices.
use zwq_repos.Prelude.{◌≡◌, ◌↔◌, refl, some, ◌==◌, ◌&&◌, if◌then◌else◌, arith}
use zwq_repos.Matrix.{Arithmetic, Matrix, det, foreach}
use zwq_repos.Matrix.Bounds.{foreach_iff}
use zwq_repos.Matrix.Det.{IsSigned, alternate, laplace, det-laplace}
use zwq_repos.Matrix.Normal.{IsDivision}

data Residue : Type 0 where
  r0 r1 r2 : Residue

abbrev plus : Residue → Residue → Residue
plus r0 b = b
plus r1 r0 = r1
plus r1 r1 = r2
plus r1 r2 = r0
plus r2 r0 = r2
plus r2 r1 = r0
plus r2 r2 = r1

abbrev minus : Residue → Residue
minus r0 = r0
minus r1 = r2
minus r2 = r1

abbrev times : Residue → Residue → Residue
times r0 b = r0
times r1 b = b
times r2 b = minus b

-- 1 and 2 are their own inverses; a quotient by 0 is 0.
abbrev quotient : Residue → Residue → Residue
quotient a b = times a b

abbrev mod3 : Arithmetic Residue
mod3 = record { zero = r0; add = plus; mul = times; div = quotient; neg = minus; sqrt = λ a. a }

mod3-IsSigned : IsSigned mod3
mod3-IsSigned = record {
  neg_zero = refl;
  neg_add = λ a b. ground arith;
  neg_neg = λ a. ground arith;
  neg_mul = λ a b. ground arith;
  mul_neg = λ a b. ground arith;
}

mod3-IsDivision : IsDivision mod3 r1
mod3-IsDivision = record {
  zero_div = λ c. refl;
  add_div = λ a b c. ground arith;
  div_mul_div = λ a b c. ground arith;
  div_self = λ a nonzero. ground arith;
}

-- The rows 1 2 and 1 1, and the same with a third column.
abbrev two_by_two : Matrix Residue
two_by_two = record {
  row = 2;
  col = 2;
  values = λ i j. if i == 0 then if j == 0 then r1 else r2 else r1;
}

abbrev two_by_three : Matrix Residue
two_by_three = record two_by_two { col = 3 }

det-laplace_example :
    det mod3 two_by_two ≡ some (alternate mod3 1 (laplace mod3 1 two_by_two.values))
det-laplace_example = det-laplace mod3 mod3-IsSigned 1 two_by_two (refl, refl)

-- The determinant 1 * 1 - 2 * 1 is 2 modulo 3; `det` gives its negative.
two_by_two-det : (laplace mod3 1 two_by_two.values ≡ r2) × (det mod3 two_by_two ≡ some r1)
two_by_two-det = (refl, det-laplace mod3 mod3-IsSigned 1 two_by_two (refl, refl))

foreach_iff_example :
    ((t : Matrix Residue) × (foreach mod3 minus two_by_three ≡ some t))
    ↔ (two_by_three.row ≡ two_by_three.col)
foreach_iff_example = foreach_iff mod3 minus two_by_three (omega arith) (omega arith)

abbrev unit_row : Matrix Residue
unit_row = record { row = 2; col = 2; values = λ i j. if i == 0 && j == 0 then r1 else r0 }
