-- ===== src/Power2/Examples.antt =====
-- Runs of `__power2`, and its theorem at a size.
use zwq_repos.Prelude.{◌+◌, ◌^◌, ◌≡◌, refl, none, some}
use zwq_repos.Power2.{power2, power2_loop}

-- One gives 2, and a size above 2 ^ 30 shifts an `int` too far.
runs :
    (power2 1 ≡ some 2) × (power2 8 ≡ some 8) × (power2 9 ≡ some 16) × (power2 (2 ^ 30 + 1) ≡ none)
unfolding power2 power2_loop
runs = (refl, refl, refl, refl)
