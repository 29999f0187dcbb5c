-- ===== src/IocContainer/First.antt =====
-- utility/IoCcontainer.hpp: `resolve` uses the creator that was registered first under a name.
use zwq_repos.Prelude.{ℕ, Option, none, some, List, [], ◌∷◌, ◌==◌, if◌then◌else◌}
use zwq_repos.HashMap.{HashMap}
use zwq_repos.IocContainer.{Creator, Resolved, null, call_as}

-- What a call gives for the creator of its name, if there is one.
abbrev pub verdict : {A O : Type 0} → ℕ → A → Option (Creator A O) → Resolved O
verdict func_type args none = null
verdict func_type args (some c) = call_as func_type args c

-- The first creator of the list with the name.
abbrev pub first_of : {A O : Type 0} → ℕ → List (ℕ × Creator A O) → Option (Creator A O)
first_of key [] = none
first_of key ((k, c) ∷ rest) = let r = first_of key rest in if key == k then some c else r

abbrev or_later : {C : Type 0} → Option C → Option C → Option C
or_later none o = o
or_later (some c) o = some c
