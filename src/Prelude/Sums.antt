-- ===== src/Prelude/Sums.antt =====
-- Sums of natural numbers over the values of a function below a bound.
use Prim.Native.Nat.{ℕ, zero, suc, ◌+◌, ◌<◌, ◌≤◌}
use mathlib.Core.Path.{◌≡◌, refl}
use mathlib.Core.Logic.{inl, inr}
use native.Mathlib.Omega.{arith}
use zwq_repos.Prelude.Tests.{◌==◌, if◌then◌else◌, ==_refl, Bool-cases}

module _ {ℓ} {W : Type ℓ} where
  -- The sum over the first values of a function.
  abbrev pub total : (W → ℕ) → ℕ → (ℕ → W) → ℕ
  total f zero ws = 0
  total f (suc k) ws = f (ws k) + total f k ws

  total_above :
      (f : W → ℕ) (k i : ℕ) (w : W) (ws : ℕ → W)
      → k ≤ i
      → total f k (λ j. if j == i then w else ws j) ≡ total f k ws
  total_above f zero i w ws le = refl
  total_above f (suc k) i w ws le = ground (arith, total_above f k i w ws)

  -- One value changes.
  pub total_replace :
      (f : W → ℕ) (k i : ℕ) (w : W) (ws : ℕ → W)
      → i < k
      → total f k (λ j. if j == i then w else ws j) + f (ws i) ≡ total f k ws + f w
  total_replace f zero i w ws lt = absurd (omega arith)
  total_replace f (suc k) i w ws lt = elim (Bool-cases (k == i)) [
    | inl e ↦
        let same : k ≡ i = ground arith in
        let above = total_above f k i w ws (omega arith) in ground (arith, ==_refl i)
    | inr e ↦ let ih = total_replace f k i w ws (ground arith) in ground arith
  ]
