-- ===== src/SharedPtrWrapper/Swap.antt =====
-- utility/smart_ptr_wrapper.hpp, `swap` of shared_ptr_wrapper.
use zwq_repos.Prelude.{ℕ, ◌<◌, ◌≡◌, ◌≢◌, Option, some, arith, Bool-cases, inl, inr, true}
use zwq_repos.SharedPtrWrapper.{Heap, same, swap}
use zwq_repos.SharedPtrWrapper.Balance.{cell-IsAlive}
use zwq_repos.SharedPtrWrapper.Steps.{Reach, Reach-Balanced}

same_eq : (p : Option ℕ) (o : ℕ) → same p (some o) ≡ true → p ≡ some o
same_eq p o e = ground arith

-- `swap` of two wrappers below `n` exchanges what they point to, and changes no other wrapper, no
-- count, and destroys nothing.
pub swap-shared :
    (n x y : ℕ) {h : Heap}
    → Reach n h
    → x < n
    → y < n
    → ((swap x y h).shared x ≡ h.shared y)
      × ((swap x y h).shared y ≡ h.shared x)
      × ((j : ℕ) → j ≢ x → j ≢ y → (swap x y h).shared j ≡ h.shared j)
      × ((o : ℕ) → (swap x y h).use_count o ≡ h.use_count o)
      × ((o : ℕ) → (swap x y h).destroyed o ≡ h.destroyed o)
swap-shared n x y {h} r lt lt' =
    let b = Reach-Balanced r in
    (
      ground arith,
      ground arith,
      λ j ne ne'. ground arith,
      λ o. elim (Bool-cases (same (h.shared x) (some o))) [
        | inl e ↦ ground (arith, e)
        | inr e ↦ ground (arith, e)
      ],
      λ o. elim (Bool-cases (same (h.shared x) (some o))) [
        | inl e ↦
            let alive = cell-IsAlive x lt b o (same_eq (h.shared x) o e) in ground (arith, e, alive)
        | inr e ↦ ground (arith, e)
      ],
    )
