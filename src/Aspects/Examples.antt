-- ===== src/Aspects/Examples.antt =====
-- Aspects that write to a log, and the theorems at them.
use zwq_repos.Prelude.{ℕ, ◌+◌, ◌≡◌, refl, none, some, List, [], ◌∷◌, ◌++◌, inl, inr, reverse}
use zwq_repos.Aspects.{Aspect, invoke, invoke_aspect}
use zwq_repos.Aspects.Nesting.{nested, copy_fronts, copy_backs, invoke-nested, invoke_aspect-nested}

-- The world is a log, an aspect's state a number that its front raises and its back writes.
abbrev raises : ℕ → ℕ → List ℕ → ℕ × List ℕ
raises args s w = (s + 1, w ++ s ∷ [])

abbrev writes : ℕ → ℕ → List ℕ → ℕ × List ℕ
writes args s w = (s, w ++ s ∷ [])

abbrev counter : ℕ → Aspect (List ℕ) ℕ ℕ
counter n = record { start = n; front = some raises; back = some writes }

abbrev closing : Aspect (List ℕ) ℕ ℕ
closing = record { start = 70; front = none; back = some writes }

abbrev func : ℕ → List ℕ → List ℕ
func args w = w ++ args ∷ []

-- The back of the first counter writes 11 where the object is shared, and 10 where it was copied.
two_logs :
    (invoke func 5 (counter 10 ∷ closing ∷ []) [] ≡ some (10 ∷ 5 ∷ 70 ∷ 11 ∷ []))
    × (invoke_aspect func 5 (counter 10) (closing ∷ []) [] ≡ 10 ∷ 5 ∷ 70 ∷ 10 ∷ [])
unfolding invoke invoke_aspect
two_logs = (refl, refl)

invoke-nested_example :
    invoke func 5 (counter 10 ∷ closing ∷ []) []
    ≡ some (nested func 5 (counter 10 ∷ closing ∷ []) [])
invoke-nested_example =
    invoke-nested func 5 (counter 10) (closing ∷ []) [] (inl (λ e. cc), (inr (λ e. cc), tt))

invoke_aspect_run :
    invoke_aspect func 5 (counter 10) (closing ∷ []) []
    ≡ copy_backs 5
        (reverse (counter 10 ∷ closing ∷ []))
        (func 5 (copy_fronts 5 (counter 10 ∷ closing ∷ []) []))
invoke_aspect_run = invoke_aspect-nested func 5 (counter 10) (closing ∷ []) []

abbrev opening : Aspect (List ℕ) ℕ ℕ
opening = record { start = 30; front = some writes; back = none }
