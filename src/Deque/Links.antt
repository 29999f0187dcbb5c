-- ===== src/Deque/Links.antt =====
-- detail-dev/deque.hpp: chains of nodes whose links lead to the right and to the left, and what
-- reversing the list of nodes does to them.
use zwq_repos.Prelude.{
  ℕ, ◌≡◌, refl, ◌∙◌, false, ◌||◌, List, [], ◌∷◌, ◌++◌, reverse, arith, has, IsDistinct, ◌==◌,
}
use mathlib.Core.List.{reverse-cons}

-- The last of the list, or `d`.
abbrev pub last_or : {A : Type 0} → A → List A → A
last_or d [] = d
last_or d (x ∷ xs) = last_or x xs

abbrev pub first_or : {A : Type 0} → A → List A → A
first_or d [] = d
first_or d (x ∷ xs) = x

-- From `x` on, `next` leads through the list, or `prev` leads back through it to `x`.
abbrev pub Follows : (ℕ → ℕ) → ℕ → List ℕ → Type 0
Follows next x [] = Unit
Follows next x (y ∷ r) = (next x ≡ y) × Follows next y r

abbrev pub Followed : (ℕ → ℕ) → ℕ → List ℕ → Type 0
Followed prev x [] = Unit
Followed prev x (y ∷ r) = (prev y ≡ x) × Followed prev y r

abbrev pub Chain : (ℕ → ℕ) → List ℕ → Type 0
Chain next [] = Unit
Chain next (x ∷ r) = Follows next x r

abbrev pub BackChain : (ℕ → ℕ) → List ℕ → Type 0
BackChain prev [] = Unit
BackChain prev (x ∷ r) = Followed prev x r

pub last_or-snoc : {A : Type 0} (d : A) (xs : List A) (z : A) → last_or d (xs ++ z ∷ []) ≡ z
last_or-snoc d [] z = refl
last_or-snoc d (x ∷ xs) z = last_or-snoc x xs z

pub first_or-snoc :
    {A : Type 0} (d : A) (xs : List A) (z : A) → first_or d (xs ++ z ∷ []) ≡ first_or z xs
first_or-snoc d [] z = refl
first_or-snoc d (x ∷ xs) z = refl

Follows-snoc :
    (next : ℕ → ℕ) (x : ℕ) (xs : List ℕ) (z : ℕ)
    → Follows next x xs
    → next (last_or x xs) ≡ z
    → Follows next x (xs ++ z ∷ [])
Follows-snoc next x [] z h e = (e, tt)
Follows-snoc next x (y ∷ ys) z h e = (h.0, Follows-snoc next y ys z h.1 e)

Followed-snoc :
    (prev : ℕ → ℕ) (x : ℕ) (xs : List ℕ) (z : ℕ)
    → Followed prev x xs
    → prev z ≡ last_or x xs
    → Followed prev x (xs ++ z ∷ [])
Followed-snoc prev x [] z h e = (e, tt)
Followed-snoc prev x (y ∷ ys) z h e = (h.0, Followed-snoc prev y ys z h.1 e)

Chain-snoc :
    (next : ℕ → ℕ) (xs : List ℕ) (y z : ℕ)
    → Chain next (xs ++ y ∷ [])
    → next y ≡ z
    → Chain next ((xs ++ y ∷ []) ++ z ∷ [])
Chain-snoc next [] y z h e = (e, tt)
Chain-snoc next (x ∷ xs) y z h e =
    Follows-snoc next x (xs ++ y ∷ []) z h (rw (last_or-snoc x xs y) e)

BackChain-snoc :
    (prev : ℕ → ℕ) (xs : List ℕ) (y z : ℕ)
    → BackChain prev (xs ++ y ∷ [])
    → prev z ≡ y
    → BackChain prev ((xs ++ y ∷ []) ++ z ∷ [])
BackChain-snoc prev [] y z h e = (e, tt)
BackChain-snoc prev (x ∷ xs) y z h e =
    Followed-snoc prev x (xs ++ y ∷ []) z h (rw (last_or-snoc x xs y) e)

-- Links to the right are links to the left of the reversed list, and the other way round.
pub BackChain-reverse : (next : ℕ → ℕ) (xs : List ℕ) → Chain next xs → BackChain next (reverse xs)
BackChain-reverse next [] h = tt
BackChain-reverse next (x ∷ []) h = tt
BackChain-reverse next (x ∷ y ∷ r) h =
    let rest = BackChain-reverse next (y ∷ r) h.1 in
    let step = BackChain-snoc next (reverse r) y x (rw (reverse-cons y r) at rest) h.0 in
    rw (reverse-cons x (y ∷ r), reverse-cons y r) step

pub Chain-reverse : (prev : ℕ → ℕ) (xs : List ℕ) → BackChain prev xs → Chain prev (reverse xs)
Chain-reverse prev [] h = tt
Chain-reverse prev (x ∷ []) h = tt
Chain-reverse prev (x ∷ y ∷ r) h =
    let rest = Chain-reverse prev (y ∷ r) h.1 in
    let step = Chain-snoc prev (reverse r) y x (rw (reverse-cons y r) at rest) h.0 in
    rw (reverse-cons x (y ∷ r), reverse-cons y r) step

pub last_or-reverse : {A : Type 0} (d : A) (xs : List A) → last_or d (reverse xs) ≡ first_or d xs
last_or-reverse d [] = refl
last_or-reverse d (x ∷ xs) = rw (reverse-cons x xs) (last_or-snoc d (reverse xs) x)

pub first_or-reverse : {A : Type 0} (d : A) (xs : List A) → first_or d (reverse xs) ≡ last_or d xs
first_or-reverse d [] = refl
first_or-reverse d (x ∷ xs) =
    rw (reverse-cons x xs) (first_or-snoc d (reverse xs) x ∙ first_or-reverse x xs)

-- Reversing keeps the members and their number.
has-snoc : (a : ℕ) (xs : List ℕ) (z : ℕ) → has a (xs ++ z ∷ []) ≡ (a == z || has a xs)
has-snoc a [] z = refl
has-snoc a (x ∷ xs) z = ground (arith, has-snoc a xs z)

pub has-reverse : (a : ℕ) (xs : List ℕ) → has a (reverse xs) ≡ has a xs
has-reverse a [] = refl
has-reverse a (x ∷ xs) =
    rw (reverse-cons x xs) (ground (arith, has-snoc a (reverse xs) x, has-reverse a xs))

IsDistinct-snoc :
    (xs : List ℕ) (z : ℕ) → IsDistinct xs → has z xs ≡ false → IsDistinct (xs ++ z ∷ [])
IsDistinct-snoc [] z d out = (refl, tt)
IsDistinct-snoc (x ∷ xs) z d out =
    (ground (arith, has-snoc x xs z, d.0), IsDistinct-snoc xs z d.1 (ground arith))

pub IsDistinct-reverse : (xs : List ℕ) → IsDistinct xs → IsDistinct (reverse xs)
IsDistinct-reverse [] d = tt
IsDistinct-reverse (x ∷ xs) d =
    rw (reverse-cons x xs)
      (IsDistinct-snoc (reverse xs) x (IsDistinct-reverse xs d.1) (has-reverse x xs ∙ d.0))
