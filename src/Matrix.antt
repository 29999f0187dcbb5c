-- ===== src/Matrix.antt =====
-- math/Matrix.hpp. `DataType` and its arithmetic are parameters. `data`, here `values`, is an array of COL arrays of
-- ROW elements, so that `data[i][j]` exists for `i < COL` and `j < ROW`; any other access is `none`.
pub mod Loops
pub mod Bounds
pub mod Normal
pub mod Minor
pub mod Det
mod Examples
use zwq_repos.Prelude.{
  ℕ, zero, suc, ◌+◌, ◌-◌, ◌%◌, Bool, true, false, ◌&&◌, Option, none, some, ltb, ◌==◌,
  if◌then◌else◌,
}

infixl 5 ◌>>=◌
abbrev pub ◌>>=◌ : {A B : Type 0} → Option A → (A → Option B) → Option B
none >>= f = none
some a >>= f = f a

-- `for (int i = first; i < first + n; ++i) body`, with what the body changes.
unfoldable pub for_loop : {S : Type 0} → ℕ → ℕ → (ℕ → S → Option S) → S → Option S
for_loop zero i body s = some s
for_loop (suc n) i body s = body i s >>= λ s'. for_loop n (suc i) body s'

-- The operations of `DataType`, with `std::sqrt`.
pub record Arithmetic (A : Type 0) : Type 0 where
  pub zero : A
  pub add : A → A → A
  pub mul : A → A → A
  pub div : A → A → A
  pub neg : A → A
  pub sqrt : A → A

pub record Matrix (A : Type 0) : Type 0 where
  pub row : ℕ
  pub col : ℕ
  pub values : ℕ → ℕ → A

module _ {A : Type 0} where
  -- `data[i][j]`
  abbrev pub cell : Matrix A → ℕ → ℕ → Option A
  cell m i j = if ltb i m.col && ltb j m.row then some (m.values i j) else none

  -- `temp[i][j] = x`
  abbrev pub write : ℕ → ℕ → A → Matrix A → Option (Matrix A)
  write i j x temp =
      if ltb i temp.col && ltb j temp.row
      then some (record temp { values = λ a b. if a == i && b == j then x else temp.values a b })
      else none

  abbrev pub copy : Matrix A → ℕ → ℕ → ℕ → ℕ → Matrix A → Option (Matrix A)
  copy m i' j' i j temp = cell m i' j' >>= λ x. write i j x temp

  -- One row of `subdet`, which leaves out the column `j`.
  unfoldable pub subdet_row : Matrix A → ℕ → ℕ → ℕ → Matrix A → Option (Matrix A)
  unfolding for_loop
  subdet_row m i' j i temp = for_loop j 0 (λ b. copy m i' b i b) temp >>= λ temp'.
      for_loop (m.col - 1 - j) j (λ b. copy m i' (b + 1) i b) temp'

  abbrev pub each : (A → A) → Matrix A → ℕ → ℕ → Matrix A → Option (Matrix A)
  each func m i j temp = cell m i j >>= λ x. write i j (func x) temp

module _ {A : Type 0} (r : Arithmetic A) where
  -- `temp{{0}}`
  abbrev pub zeros : ℕ → ℕ → Matrix A
  zeros row col = record { row = row; col = col; values = λ i j. r.zero }

  unfoldable pub subdet : ℕ → ℕ → Matrix A → Option (Matrix A)
  unfolding for_loop subdet_row
  subdet i j m = for_loop i 0 (λ a. subdet_row m a j a) (zeros (m.row - 1) (m.col - 1)) >>= λ temp.
      for_loop (m.row - 1 - i) i (λ a. subdet_row m (a + 1) j a) temp

  -- `sign(i) * x`
  abbrev pub signed : ℕ → A → A
  signed i x = if i % 2 == 1 then x else r.neg x

  -- One round of the loop of `det`, where `minor_det` is the `det` of the smaller matrices.
  abbrev pub det_round : (Matrix A → Option A) → Matrix A → ℕ → A → Option A
  det_round minor_det m i ret = cell m i 0 >>= λ x.
      subdet i 0 m >>= minor_det >>= λ d. some (r.add ret (r.mul (signed i x) d))

  -- `det` of a matrix with so many rows.
  unfoldable pub det_of : ℕ → Matrix A → Option A
  unfolding for_loop subdet
  det_of zero m = some r.zero
  det_of (suc zero) m = cell m 0 0
  det_of (suc (suc n)) m = for_loop (suc (suc n)) 0 (det_round (det_of (suc n)) m) r.zero

  abbrev pub det : Matrix A → Option A
  det m = det_of m.row m

  unfoldable pub foreach : (A → A) → Matrix A → Option (Matrix A)
  unfolding for_loop
  foreach func m = for_loop m.row 0 (λ i. for_loop m.col 0 (each func m i)) (zeros m.row m.col)

  abbrev pub add_square : Matrix A → ℕ → ℕ → A → Option A
  add_square m i j ret = cell m i j >>= λ x. some (r.add ret (r.mul x x))

  unfoldable pub squariance : Matrix A → Option A
  unfolding for_loop
  squariance m = for_loop m.row 0 (λ i. for_loop m.col 0 (add_square m i)) r.zero

  unfoldable pub normalize_one : Matrix A → Option (Matrix A)
  unfolding squariance foreach
  normalize_one m = squariance m >>= λ sqc. foreach (λ x. r.div x (r.sqrt sqc)) m
