-- ===== src/Aspects.antt =====
-- utility/aspect_abstract.hpp and utility/aspect_entity.hpp: a call wrapped in aspects. The outside
-- world on which aspects and functions act is a value of type `W`, an aspect object has a state of
-- type `S`, and a member function that a class lacks is `none`.
pub mod Nesting
mod Examples
use zwq_repos.Prelude.{Option, none, some, List, [], ◌∷◌}

pub record Aspect (W S A : Type 0) : Type 0 where
  pub start : S
  pub front : Option (A → S → W → S × W)
  pub back : Option (A → S → W → S × W)

module _ {W S A : Type 0} where
  -- `asp.front(args...)` and `asp.back(args...)` on an object: nothing where the member is missing.
  abbrev pub call : Option (A → S → W → S × W) → A → S → W → S × W
  call none args s w = (s, w)
  call (some m) args s w = m args s w

  -- What `invoke` does with an aspect around an inner call, by the members that it has: the four
  -- cases that the overloads of aspect_abstract.hpp tell apart. `none`: no overload fits, so the
  -- call does not compile. `inner` is the call inside.
  unfoldable pub wrap : Aspect W S A → A → (W → Option W) → W → Option W
  wrap a args inner w = elim a.front [
    | none ↦ elim a.back [
      | none ↦ none
      | some back ↦ elim (inner w) [ none ↦ none | some w' ↦ some (back args a.start w').1 ]
    ]
    | some front ↦
        let (s, w1) = front args a.start w in
        elim a.back [
          | none ↦ inner w1
          | some back ↦ elim (inner w1) [ none ↦ none | some w' ↦ some (back args s w').1 ]
        ]
  ]

  -- `aspect::invoke` of aspect_abstract.hpp with its aspects in order: the last one stands around
  -- the function, each other one around the call with the rest.
  unfoldable pub invoke : (A → W → W) → A → List (Aspect W S A) → W → Option W
  unfolding wrap
  invoke func args [] w = none
  invoke func args (a ∷ []) w = wrap a args (λ v. some (func args v)) w
  invoke func args (a ∷ b ∷ rest) w = wrap a args (λ v. invoke func args (b ∷ rest) v) w

  -- `aspect(asp).front()` and `aspect(asp).back()` of aspect_entity.hpp: `aspectModel` holds a copy
  -- of the aspect, which is dropped after the call.
  unfoldable pub front_of_copy : Aspect W S A → A → W → W
  front_of_copy a args w = (call a.front args a.start w).1

  unfoldable pub back_of_copy : Aspect W S A → A → W → W
  back_of_copy a args w = (call a.back args a.start w).1

  -- `invoke_aspect` of aspect_entity.hpp, with a first aspect and the others.
  unfoldable pub invoke_aspect : (A → W → W) → A → Aspect W S A → List (Aspect W S A) → W → W
  unfolding front_of_copy back_of_copy
  invoke_aspect func args head [] w = back_of_copy head args (func args (front_of_copy head args w))
  invoke_aspect func args head (b ∷ rest) w =
      back_of_copy head args (invoke_aspect func args b rest (front_of_copy head args w))
