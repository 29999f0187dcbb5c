-- ===== src/SharedPtrWrapper/Balance.antt =====
-- utility/smart_ptr_wrapper.hpp: counts against the wrappers and temporaries that hold an object.
use zwq_repos.Prelude.{
  ℕ, ◌+◌, ◌<◌, ◌≤◌, ◌≡◌, refl, ap, ◌∙◌, Option, none, some, List, [], ◌∷◌, ltb, ◌==◌, ◌&&◌,
  if◌then◌else◌, arith, total, total_replace,
}
use zwq_repos.SharedPtrWrapper.{Heap, put, retain, release, make_shared}

-- Whether a pointer points to the object, as a number; how many of a list do.
abbrev pub holds : ℕ → Option ℕ → ℕ
holds o none = 0
holds o (some q) = if q == o then 1 else 0

abbrev pub occurs : ℕ → List (Option ℕ) → ℕ
occurs o [] = 0
occurs o (p ∷ ps) = holds o p + occurs o ps

-- With the wrappers below `n` and the temporaries `ps`: the count of an object is the number of
-- those that point to it, and it was destroyed once if it exists and none does, else never.
pub record Balanced (n : ℕ) (ps : List (Option ℕ)) (h : Heap) : Type 0 where
  pub counted : (o : ℕ) → h.use_count o ≡ total (holds o) n h.shared + occurs o ps
  pub once : (o : ℕ) → h.destroyed o ≡ (if ltb o h.next && h.use_count o == 0 then 1 else 0)
  pub bounded : (o : ℕ) → h.next ≤ o → h.use_count o ≡ 0

abbrev pub IsAlive : Option ℕ → Heap → Type 0
IsAlive p h = (o : ℕ) → p ≡ some o → 0 < h.use_count o

module _ {n : ℕ} {ps : List (Option ℕ)} where
  pub cell-IsAlive : (x : ℕ) {h : Heap} → x < n → Balanced n ps h → IsAlive (h.shared x) h
  cell-IsAlive x {h} lt b o e =
      let sum = total_replace (holds o) n x none h.shared lt in
      let one : holds o (h.shared x) ≡ 1 = ap (holds o) e ∙ ground arith in
      omega (arith, b.counted o)

  pub head-IsAlive : (p : Option ℕ) {h : Heap} → Balanced n (p ∷ ps) h → IsAlive p h
  head-IsAlive p {h} b o e =
      let one : holds o p ≡ 1 = ap (holds o) e ∙ ground arith in omega (arith, b.counted o)

  pub retain-Balanced :
      (p : Option ℕ) {h : Heap} → IsAlive p h → Balanced n ps h → Balanced n (p ∷ ps) (retain p h)
  retain-Balanced none alive b = record {
    counted = λ o. omega (arith, b.counted o);
    once = b.once;
    bounded = b.bounded;
  }
  retain-Balanced (some q) {h} alive b = record {
    counted = λ o. ground (arith, b.counted o);
    once = λ o. ground (arith, b.once o, alive q refl);
    bounded = λ o le. ground (arith, b.bounded o le, alive q refl);
  }

  pub release-Balanced :
      (p : Option ℕ) {h : Heap} → Balanced n (p ∷ ps) h → Balanced n ps (release p h)
  release-Balanced none b = record {
    counted = λ o. omega (arith, b.counted o);
    once = b.once;
    bounded = b.bounded;
  }
  release-Balanced (some q) {h} b = record {
    counted = λ o. ground (arith, b.counted o);
    once = λ o. ground (arith, b.once o, b.counted q, b.bounded q);
    bounded = λ o le. ground (arith, b.bounded o le);
  }

  pub put-Balanced :
      (x : ℕ) (p : Option ℕ) {h : Heap}
      → x < n
      → Balanced n (p ∷ ps) h
      → Balanced n (h.shared x ∷ ps) (put x p h)
  put-Balanced x p {h} lt b = record {
    counted =
        λ o. let sum = total_replace (holds o) n x p h.shared lt in omega (arith, b.counted o);
    once = b.once;
    bounded = b.bounded;
  }

  pub make_shared-Balanced :
      {h : Heap} → Balanced n ps h → Balanced n ((make_shared h).0 ∷ ps) (make_shared h).1
  make_shared-Balanced {h} b = record {
    counted = λ o. ground (arith, b.counted o, b.bounded h.next);
    once = λ o. ground (arith, b.once o, b.bounded h.next);
    bounded = λ o le. ground (arith, b.bounded o);
  }

  -- Temporaries in another order, and null ones.
  pub swap-Balanced :
      (p q : Option ℕ) {h : Heap} → Balanced n (p ∷ q ∷ ps) h → Balanced n (q ∷ p ∷ ps) h
  swap-Balanced p q b = record {
    counted = λ o. omega (arith, b.counted o);
    once = b.once;
    bounded = b.bounded;
  }

  pub null-Balanced : {h : Heap} → Balanced n ps h → Balanced n (none ∷ ps) h
  null-Balanced b = record {
    counted = λ o. omega (arith, b.counted o);
    once = b.once;
    bounded = b.bounded;
  }

  -- A wrapper in empty storage.
  pub empty-Balanced :
      (p : Option ℕ) {h : Heap} → p ≡ none → Balanced n (p ∷ ps) h → Balanced n ps h
  empty-Balanced p {h} e b = record {
    counted = λ o. let none_held : holds o p ≡ 0 = ap (holds o) e in omega (arith, b.counted o);
    once = b.once;
    bounded = b.bounded;
  }
