-- ===== src/Power2.antt =====
-- utility.hpp: `__power2`. An `unsigned long` has 64 bits and an `int` 32.
pub mod Bounds
mod Examples
use zwq_repos.Prelude.{
  ℕ, zero, suc, ◌+◌, ◌-◌, ◌/◌, ◌^◌, Option, none, some, ◌==◌, ltb, if◌then◌else◌,
}

-- `1 << i` on an `int`: `none` where C++ leaves it undefined.
abbrev pub shift_one : ℕ → Option ℕ
shift_one i = if ltb i 31 then some (2 ^ i) else none

-- The rounds of the loop from `i` on; the code after it returns 0.
unfoldable pub power2_loop : ℕ → ℕ → ℕ → Option ℕ
power2_loop zero i size = some 0
power2_loop (suc rounds) i size =
    let rest = power2_loop rounds (i + 1) size in
    if ((size - 1) / 2 ^ i) == 0 then shift_one i else rest

unfoldable pub power2 : ℕ → Option ℕ
unfolding power2_loop
power2 size = if 0 == size then some 0 else power2_loop 63 1 size
