-- ===== src/Bstree/Compare.antt =====
-- utility/bstree.hpp: the comparisons of `std::variant<U, Inf0<U>, Inf1<U>>`.
use zwq_repos.Prelude.{◌≡◌, ◌↔◌, ◌⊎◌, inl, inr, true, false, refl, arith, ltb, ◌==◌, Bool-cases}
use zwq_repos.Bstree.{Var, datum, inf0, inf1, lessexp, equalexp, greaterexp}

less_trans : (a b c : Var) → lessexp a b ≡ true → lessexp b c ≡ true → lessexp a c ≡ true
unfolding lessexp
less_trans (datum a) (datum b) (datum c) h k = ground arith
less_trans a b c h k = ground arith

equalexp_iff : (a b : Var) → (equalexp a b ≡ true) ↔ (a ≡ b)
unfolding equalexp
equalexp_iff (datum a) (datum b) = (λ e. ground arith, λ e. ground arith)
equalexp_iff a b = (λ e. ground arith, λ e. ground arith)

-- Exactly one of less, equal and greater.
abbrev pub OneOfThree : Var → Var → Type 0
OneOfThree a b =
    ((lessexp a b ≡ true) × (equalexp a b ≡ false) × (greaterexp a b ≡ false))
    ⊎ ((lessexp a b ≡ false) × (equalexp a b ≡ true) × (greaterexp a b ≡ false))
    ⊎ ((lessexp a b ≡ false) × (equalexp a b ≡ false) × (greaterexp a b ≡ true))

one_of_three : (a b : Var) → OneOfThree a b
unfolding lessexp equalexp greaterexp
one_of_three (datum a) (datum b) = elim (Bool-cases (ltb a b)) [
  | inl lt ↦ inl (ground arith)
  | inr ge ↦ elim (Bool-cases (a == b)) [
    | inl e ↦ inr (inl (ground arith))
    | inr ne ↦ inr (inr (ground arith))
  ]
]
one_of_three (datum a) inf0 = inl (refl, refl, refl)
one_of_three (datum a) inf1 = inl (refl, refl, refl)
one_of_three inf0 (datum b) = inr (inr (refl, refl, refl))
one_of_three inf0 inf0 = inr (inl (refl, refl, refl))
one_of_three inf0 inf1 = inl (refl, refl, refl)
one_of_three inf1 (datum b) = inr (inr (refl, refl, refl))
one_of_three inf1 inf0 = inr (inr (refl, refl, refl))
one_of_three inf1 inf1 = inr (inl (refl, refl, refl))

-- `__lessexp` is transitive, exactly one of less, equal and greater holds of any two values, and
-- `__equalexp` holds exactly of equal values.
pub lessexp_total_order :
    (a b c : Var)
    → (lessexp a b ≡ true → lessexp b c ≡ true → lessexp a c ≡ true)
      × ((equalexp a b ≡ true) ↔ (a ≡ b))
      × OneOfThree a b
lessexp_total_order a b c = (less_trans a b c, equalexp_iff a b, one_of_three a b)
