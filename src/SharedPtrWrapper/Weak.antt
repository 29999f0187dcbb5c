-- ===== src/SharedPtrWrapper/Weak.antt =====
-- utility/smart_ptr_wrapper.hpp, weak_ptr_wrapper: its atomic operations.
use zwq_repos.Prelude.{
  ℕ, ◌<◌, ◌≡◌, ◌≢◌, sym, subst, ◌∙◌, Option, some, arith, ◌==◌, ==_refl, Bool-cases, if◌then◌else◌,
  inl, inr, true, false,
}
use zwq_repos.SharedPtrWrapper.{Heap, same, weak_load, weak_store, weak_swap}
use zwq_repos.SharedPtrWrapper.Steps.{Reach, Reach-Balanced, Reach-destroyed}

-- `load` of a weak wrapper whose object no wrapper below `n` holds any more, so that it has been
-- destroyed, destroys the object a second time.
pub weak_load-destroyed :
    (n d w o : ℕ) {h : Heap}
    → Reach n h
    → o < h.next
    → h.weak w ≡ some o
    → ((x : ℕ) → x < n → h.shared x ≢ some o)
    → (weak_load d w h).destroyed o ≡ 2
weak_load-destroyed n d w o {h} r lt e free = elim (Reach-destroyed n o r lt) [
  | inl ((x, lt', held), e') ↦ absurd (free x lt' held)
  | inr (unheld, once) ↦
      let b = Reach-Balanced r in
      let dead : h.use_count o ≡ 0 = ground (arith, b.once o) in rw (e, same) (ground arith)
]

-- `store` into a weak wrapper takes a count from the object to which it pointed: if one wrapper below
-- `n` alone holds that object, it is destroyed although that wrapper still points to it.
pub weak_store-destroyed :
    (n w v x o : ℕ) {h : Heap}
    → Reach n h
    → x < n
    → h.shared x ≡ some o
    → h.use_count o ≡ 1
    → h.weak w ≡ some o
    → h.weak v ≢ some o
    → ((weak_store w v h).shared x ≡ some o) × ((weak_store w v h).destroyed o ≡ 1)
weak_store-destroyed n w v x o {h} r lt e one e' other =
    let b = Reach-Balanced r in
    let before : h.destroyed o ≡ 0 = ground (arith, b.once o) in
    let away : same (h.weak v) (some o) ≡ false = differs (h.weak v) other in
    (e, rw (e', away, same) (ground (arith, away)))
  where
    differs : (p : Option ℕ) → p ≢ some o → same p (some o) ≡ false
    differs p ne = ground arith

-- `swap` of two weak wrappers exchanges what they point to, and changes no count as long as the
-- object of the first is there; when that object is gone, it is destroyed a second time.
pub weak_swap-weak :
    (n w v o : ℕ) {h : Heap}
    → Reach n h
    → o < h.next
    → h.weak w ≡ some o
    → ((weak_swap w v h).weak w ≡ h.weak v)
      × ((weak_swap w v h).weak v ≡ h.weak w)
      × ((k : ℕ) → (weak_swap w v h).use_count k ≡ h.use_count k)
      × ((weak_swap w v h).destroyed o ≡ (if h.use_count o == 0 then 2 else 0))
weak_swap-weak n w v o {h} r lt e =
    let b = Reach-Balanced r in
    let now : h.destroyed o ≡ (if h.use_count o == 0 then 1 else 0) = b.once o ∙ ground arith in
    (
      ground arith,
      ground arith,
      λ k. elim (Bool-cases (same (h.weak w) (some k))) [
        | inl hit ↦ ground (arith, hit)
        | inr miss ↦ ground (arith, miss)
      ],
      ground (arith, now, e, held),
    )
  where
    held : same (h.weak w) (some o) ≡ true
    held = subst (λ p. same p (some o) ≡ true) (sym e) (==_refl o)
