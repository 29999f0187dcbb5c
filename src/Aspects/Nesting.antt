-- ===== src/Aspects/Nesting.antt =====
-- utility/aspect_abstract.hpp and utility/aspect_entity.hpp: the order of the calls.
use zwq_repos.Prelude.{
  ◌≡◌, ◌≢◌, ◌⊎◌, refl, ap, sym, ◌∙◌, fun_ext, none, some, List, [], ◌∷◌, ◌++◌, reverse, arith,
}
use mathlib.Core.List.{reverse-cons}
use zwq_repos.Aspects.{Aspect, call, wrap, invoke, back_of_copy, invoke_aspect}

module _ {W S A : Type 0} where
  -- The fronts in order, and each object's state after its own.
  abbrev pub fronts : A → List (Aspect W S A) → W → List (Aspect W S A × S) × W
  fronts args [] w = ([], w)
  fronts args (a ∷ rest) w =
      let (s, w1) = call a.front args a.start w in
      let (ss, w2) = fronts args rest w1 in ((a, s) ∷ ss, w2)

  -- The backs in the order of the list, each object with its state.
  abbrev pub backs : A → List (Aspect W S A × S) → W → W
  backs args [] w = w
  backs args ((a, s) ∷ ss) w = backs args ss (call a.back args s w).1

  -- All fronts in order, then the function, then all backs in reverse order, on the same objects.
  abbrev pub nested : (A → W → W) → A → List (Aspect W S A) → W → W
  nested func args list w =
      let (ss, w1) = fronts args list w in backs args (reverse ss) (func args w1)

  -- Every aspect has a member to call.
  abbrev pub AllApply : List (Aspect W S A) → Type 0
  AllApply [] = Unit
  AllApply (a ∷ rest) = ((a.front ≢ none) ⊎ (a.back ≢ none)) × AllApply rest

  backs-append :
      (args : A) (xs ys : List (Aspect W S A × S)) (w : W)
      → backs args (xs ++ ys) w ≡ backs args ys (backs args xs w)
  backs-append args [] ys w = refl
  backs-append args ((a, s) ∷ xs) ys w = backs-append args xs ys (call a.back args s w).1

  wrap_lem :
      (a : Aspect W S A) (args : A) (inner : W → W) (w : W)
      → (a.front ≢ none) ⊎ (a.back ≢ none)
      → wrap a args (λ v. some (inner v)) w
        ≡ (let (s, w1) = call a.front args a.start w in some (call a.back args s (inner w1)).1)
  unfolding wrap
  wrap_lem a args inner w h = ground arith

  -- One more aspect around a nested call.
  nested_cons :
      (func : A → W → W) (args : A) (a : Aspect W S A) (rest : List (Aspect W S A)) (w : W)
      → (let (s, w1) = call a.front args a.start w in
          (call a.back args s (nested func args rest w1)).1)
        ≡ nested func args (a ∷ rest) w
  nested_cons func args a rest w =
      let s = (call a.front args a.start w).0 in
      let inside = fronts args rest (call a.front args a.start w).1 in
      sym (
        ap (λ ss. backs args ss (func args inside.1)) (reverse-cons (a, s) inside.0)
        ∙ backs-append args (reverse inside.0) ((a, s) ∷ []) (func args inside.1))

  -- `invoke` with at least one aspect, each with a member to call, runs all fronts in the order of
  -- the aspects, the function, and all backs in reverse order, and each back sees its own object
  -- as its front left it.
  pub invoke-nested :
      (func : A → W → W) (args : A) (a : Aspect W S A) (rest : List (Aspect W S A)) (w : W)
      → AllApply (a ∷ rest)
      → invoke func args (a ∷ rest) w ≡ some (nested func args (a ∷ rest) w)
  unfolding invoke
  invoke-nested func args a [] w h = wrap_lem a args (func args) w h.0
  invoke-nested func args a (b ∷ rest) w h =
      ap (λ inner. wrap a args inner w) (fun_ext λ v. invoke-nested func args b rest v h.1)
      ∙ wrap_lem a args (nested func args (b ∷ rest)) w h.0
      ∙ ap some (nested_cons func args a (b ∷ rest) w)

  -- The fronts of copies in order, the function, the backs of copies in reverse order: every member
  -- sees its aspect as it was given.
  abbrev pub copy_fronts : A → List (Aspect W S A) → W → W
  copy_fronts args [] w = w
  copy_fronts args (a ∷ rest) w = copy_fronts args rest (call a.front args a.start w).1

  abbrev pub copy_backs : A → List (Aspect W S A) → W → W
  copy_backs args [] w = w
  copy_backs args (a ∷ rest) w = copy_backs args rest (call a.back args a.start w).1

  copy_backs-append :
      (args : A) (xs ys : List (Aspect W S A)) (w : W)
      → copy_backs args (xs ++ ys) w ≡ copy_backs args ys (copy_backs args xs w)
  copy_backs-append args [] ys w = refl
  copy_backs-append args (a ∷ xs) ys w = copy_backs-append args xs ys (call a.back args a.start w).1

  -- `invoke_aspect` runs all fronts in order, the function, and all backs in reverse order, but every
  -- member runs on a fresh copy of its aspect: no back sees what its front wrote to the object.
  pub invoke_aspect-nested :
      (func : A → W → W) (args : A) (a : Aspect W S A) (rest : List (Aspect W S A)) (w : W)
      → invoke_aspect func args a rest w
        ≡ copy_backs args (reverse (a ∷ rest)) (func args (copy_fronts args (a ∷ rest) w))
  unfolding invoke_aspect
  invoke_aspect-nested func args a [] w = refl
  invoke_aspect-nested func args a (b ∷ rest) w =
      let inner = (call a.front args a.start w).1 in
      ap (back_of_copy a args) (invoke_aspect-nested func args b rest inner)
      ∙ sym (
          ap (λ l. copy_backs args l (func args (copy_fronts args (b ∷ rest) inner)))
            (reverse-cons a (b ∷ rest))
          ∙ copy_backs-append args (reverse (b ∷ rest)) (a ∷ [])
              (func args (copy_fronts args (b ∷ rest) inner)))

  -- Fronts that leave their objects as they are.
  abbrev pub AllStateless : A → List (Aspect W S A) → Type 0
  AllStateless args [] = Unit
  AllStateless args (a ∷ rest) =
      ((w : W) → (call a.front args a.start w).0 ≡ a.start) × AllStateless args rest

  nested_again :
      (func : A → W → W) (args : A) (a : Aspect W S A) (rest : List (Aspect W S A)) (w : W)
      → AllStateless args (a ∷ rest)
      → nested func args (a ∷ rest) w ≡ invoke_aspect func args a rest w
  unfolding invoke_aspect
  nested_again func args a [] w h =
      ap (λ s. (call a.back args s (func args (call a.front args a.start w).1)).1) (h.0 w)
  nested_again func args a (b ∷ rest) w h =
      let inner = (call a.front args a.start w).1 in
      sym (nested_cons func args a (b ∷ rest) w)
      ∙ ap (λ s. (call a.back args s (nested func args (b ∷ rest) inner)).1) (h.0 w)
      ∙ ap (λ v. (call a.back args a.start v).1) (nested_again func args b rest inner h.1)

  -- The two headers do the same where every aspect has a member to call and no front changes its
  -- own object.
  pub invoke-invoke_aspect :
      (func : A → W → W) (args : A) (a : Aspect W S A) (rest : List (Aspect W S A)) (w : W)
      → AllApply (a ∷ rest)
      → AllStateless args (a ∷ rest)
      → invoke func args (a ∷ rest) w ≡ some (invoke_aspect func args a rest w)
  invoke-invoke_aspect func args a rest w h k =
      invoke-nested func args a rest w h ∙ ap some (nested_again func args a rest w k)
