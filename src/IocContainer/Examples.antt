-- ===== src/IocContainer/Examples.antt =====
-- Runs of the container, and its theorem at three registrations.
use zwq_repos.Prelude.{ℕ, ◌+◌, ◌*◌, ◌≡◌, refl, none, List, [], ◌∷◌}
use zwq_repos.HashMap.{HashMap}
use zwq_repos.HashMap.Chain.{Chain, empty_chain}
use zwq_repos.IocContainer.{Creator, null, bad_any_cast, made, type_creator, derived_creator}
use zwq_repos.IocContainer.First.{verdict, first_of}

abbrev empty : HashMap Chain (Creator ℕ ℕ)
empty = record { ht = empty_chain; items = λ _. none; next = 1; retired = [] }

-- The name 4 twice, with different functions, and the name 5 for functions of another type.
abbrev three : List (ℕ × Creator ℕ ℕ)
three =
    (4, type_creator 1 (λ n. n + 1))
    ∷ (5, derived_creator 2 (λ n. n) (λ d. d * 2))
    ∷ (4, type_creator 1 (λ n. n + 100))
    ∷ []

verdicts :
    (verdict 1 7 (first_of 4 three) ≡ made 8)
    × (verdict 1 7 (first_of 5 three) ≡ bad_any_cast)
    × (verdict 1 7 (first_of 6 three) ≡ null)
verdicts = (refl, refl, refl)
