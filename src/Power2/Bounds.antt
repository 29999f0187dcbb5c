-- ===== src/Power2/Bounds.antt =====
-- utility.hpp, `__power2`: where the result is defined.
use zwq_repos.Prelude.{
  ℕ, zero, suc, ◌+◌, ◌-◌, ◌*◌, ◌/◌, ◌^◌, ◌≤◌, ◌<◌, ◌≡◌, ◌⊎◌, refl, true, false, some, arith, ◌==◌,
  ltb, Bool-cases, inl, inr,
}
use native.Mathlib.Nat.{one-le-pow, div-eq_of_lt, lt-div-mul-add, two-pow-succ}
use native.Mathlib.Numerals.{add-one}
use zwq_repos.Power2.{power2_loop, power2}

pow_pos : (i : ℕ) → 0 < 2 ^ i
pow_pos i = one-le-pow i 2 (omega arith)

pow_double : (i : ℕ) → 2 ^ (i + 1) ≡ 2 ^ i + 2 ^ i
pow_double i = rw (add-one i) (two-pow-succ i)

-- The test of the loop asks whether the size is at most 2 ^ i.
test_true : (size n : ℕ) → 0 < size → 0 < n → ((size - 1) / n == 0) ≡ true → size ≤ n
test_true size n ps pn h =
    let q : (size - 1) / n ≡ 0 = ground arith in
    let b : size - 1 < (size - 1) / n * n + n = lt-div-mul-add pn in
    let b' : size - 1 < 0 * n + n = rw q at b in omega arith

test_false : (size n : ℕ) → 0 < size → 0 < n → ((size - 1) / n == 0) ≡ false → n < size
test_false size n ps pn h = elim (Bool-cases (ltb (size - 1) n)) [
  | inl e ↦
      let lt : size - 1 < n = ground arith in
      let z : (size - 1) / n ≡ 0 = div-eq_of_lt lt in absurd (ground arith)
  | inr e ↦ ground arith
]

-- What is returned for a size: a power of two from 2 on that is not below the size, and that is 2 or
-- less than twice the size.
pub record IsPower2 (size i : ℕ) : Type 0 where
  pub positive : 1 ≤ i
  pub above : size ≤ 2 ^ i
  pub least : (2 ^ i ≡ 2) ⊎ (2 ^ i < size + size)

power2_loop_lem :
    (rounds i size : ℕ)
    → 0 < size
    → size ≤ 2 ^ 30
    → 1 ≤ i
    → i ≤ 30
    → 31 ≤ i + rounds
    → (2 ^ i ≡ 2) ⊎ (2 ^ i < size + size)
    → (j : ℕ) × (power2_loop rounds i size ≡ some (2 ^ j)) × IsPower2 size j
unfolding power2_loop
power2_loop_lem zero i size ps small one le enough inv = absurd (omega arith)
power2_loop_lem (suc rounds) i size ps small one le enough inv =
    elim (Bool-cases ((size - 1) / 2 ^ i == 0)) [
      | inl e ↦
          let lt : ltb i 31 ≡ true = ground arith in
          (
            i,
            rw (e, lt) refl,
            record { positive = one; above = test_true size (2 ^ i) ps (pow_pos i) e; least = inv },
          )
      | inr e ↦
          let more = test_false size (2 ^ i) ps (pow_pos i) e in
          let next : 2 ^ (i + 1) < size + size = let d = pow_double i in omega arith in
          let below : i + 1 ≤ 30 = elim (Bool-cases (i == 30)) [
            | inl e30 ↦
                let thirty : i ≡ 30 = ground arith in
                let more' : 2 ^ 30 < size = rw thirty at more in absurd (omega arith)
            | inr ne ↦ ground arith
          ] in
          let (j, eq, h) =
            power2_loop_lem rounds (i + 1) size ps small (omega arith) below (omega arith)
              (inr next) in
          (j, rw e eq, h)
    ]

-- For a size from 1 to 2 ^ 30 the result is defined: a power of two, from 2 on, that is not below
-- the size, and that is 2 or less than twice the size.
pub power2-IsPower2 :
    (size : ℕ) → 0 < size → size ≤ 2 ^ 30 → (i : ℕ) × (power2 size ≡ some (2 ^ i)) × IsPower2 size i
unfolding power2
power2-IsPower2 size ps small =
    let nz : (0 == size) ≡ false = ground arith in
    let (j, eq, h) =
      power2_loop_lem 63 1 size ps small (omega arith) (omega arith) (omega arith) (inl refl) in
    (j, rw nz eq, h)
