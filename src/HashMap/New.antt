-- ===== src/HashMap/New.antt =====
-- utility/hashmap_unique.hpp and utility/hashmap_multiple.hpp: the constructor of the maps, which
-- rounds the sizes for liburcu's table with `__power2` of utility.hpp.
use zwq_repos.Prelude.{
  ℕ, suc, ◌^◌, ◌≤◌, ◌<◌, ◌≡◌, ◌⊎◌, refl, Option, none, some, arith, inl, inr, leb, Bool-cases,
}
use native.Mathlib.Nat.{pow-le-pow_right, two-pow-succ}
use zwq_repos.Power2.{power2}
use zwq_repos.Power2.Bounds.{IsPower2, power2-IsPower2}

-- A call with arguments that may be undefined.
abbrev pub call : {H : Type 0} → (ℕ → ℕ → ℕ → Option H) → Option ℕ → Option ℕ → Option ℕ → Option H
call f (some a) (some b) (some c) = f a b c
call f (some a) (some b) none = none
call f (some a) none c = none
call f none b c = none

-- The constructor: `none` where `__power2` is undefined, or where `cds_lfht_new` gives NULL.
unfoldable pub hashmap : {H : Type 0} → (ℕ → ℕ → ℕ → Option H) → ℕ → ℕ → ℕ → Option H
unfolding power2
hashmap cds_lfht_new init_size min_nr_alloc_buckets max_nr_buckets =
    call cds_lfht_new (power2 init_size) (power2 min_nr_alloc_buckets) (power2 max_nr_buckets)

abbrev pub IsPower : ℕ → Type 0
IsPower n = (i : ℕ) × (n ≡ 2 ^ i)

-- The documentation of `cds_lfht_new`: the initial and the minimal size are powers of two, the
-- maximal size is 0 for none, or a power of two that is not below the minimal size.
pub record IsLfhtNew {H : Type 0} (cds_lfht_new : ℕ → ℕ → ℕ → Option H) : Type 0 where
  pub creates :
      (init min max : ℕ)
      → IsPower init
      → IsPower min
      → (max ≡ 0) ⊎ (IsPower max × (min ≤ max))
      → (t : H) × (cds_lfht_new init min max ≡ some t)

-- Rounding keeps the order.
power2_mono : (a b i j : ℕ) → a ≤ b → IsPower2 a i → IsPower2 b j → 2 ^ i ≤ 2 ^ j
power2_mono a b i j le p q = elim (Bool-cases (leb i j)) [
  | inl e ↦ pow-le-pow_right (omega arith) (ground arith)
  | inr e ↦
      let far : 2 ^ suc j ≤ 2 ^ i = pow-le-pow_right (omega arith) (ground arith) in
      let two : 2 ^ 1 ≤ 2 ^ j = pow-le-pow_right (omega arith) q.positive in
      elim p.least [
        | inl least ↦ omega (arith, least)
        | inr least ↦ omega (arith, least, far, two-pow-succ j, q.above, le)
      ]
]

-- With sizes from 1 to 2 ^ 30, and a maximal size of 0 or one from the minimal size to 2 ^ 30, the
-- constructor calls `cds_lfht_new` as its documentation asks, so that there is a table.
pub hashmap-some :
    {H : Type 0} (cds_lfht_new : ℕ → ℕ → ℕ → Option H)
    → IsLfhtNew cds_lfht_new
    → (init min max : ℕ) → 0 < init
    → init ≤ 2 ^ 30
    → 0 < min
    → min ≤ 2 ^ 30
    → (max ≡ 0) ⊎ ((min ≤ max) × (max ≤ 2 ^ 30))
    → (t : H) × (hashmap cds_lfht_new init min max ≡ some t)
unfolding hashmap
hashmap-some cds_lfht_new laws init min max pi bi pm bm (inl none_max) =
    let (i, ei, hi) = power2-IsPower2 init pi bi in
    let (j, ej, hj) = power2-IsPower2 min pm bm in
    let (t, e) = laws.creates (2 ^ i) (2 ^ j) 0 (i, refl) (j, refl) (inl refl) in
    (t, rw (ei, ej, none_max, call) e)
hashmap-some cds_lfht_new laws init min max pi bi pm bm (inr (le, bx)) =
    let (i, ei, hi) = power2-IsPower2 init pi bi in
    let (j, ej, hj) = power2-IsPower2 min pm bm in
    let (k, ek, hk) = power2-IsPower2 max (omega arith) bx in
    let (t, e) =
      laws.creates (2 ^ i) (2 ^ j) (2 ^ k) (i, refl) (j, refl)
        (inr ((k, refl), power2_mono min max j k le hj hk)) in
    (t, rw (ei, ej, ek, call) e)
