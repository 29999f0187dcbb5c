-- ===== src/SharedPtrWrapper/Examples.antt =====
-- Runs of the wrappers, and their theorems at concrete heaps.
use zwq_repos.Prelude.{ℕ, ◌<◌, ◌≡◌, ◌≢◌, ◌⊎◌, refl, false, some, arith, ◌==◌, if◌then◌else◌}
use zwq_repos.SharedPtrWrapper.{
  Heap, construct, copy_construct, null_assign, destruct, cas, weak_assign, weak_load, weak_store,
  weak_swap,
}
use zwq_repos.SharedPtrWrapper.Steps.{
  Reach, here, next_step, constructs, copies, destructs, null_assigns, compares, weak_assigns,
  empty_heap, Reach-destroyed,
}
use zwq_repos.SharedPtrWrapper.Weak.{weak_swap-weak, weak_load-destroyed, weak_store-destroyed}

-- Two objects, the first also behind the wrapper 2.
abbrev two : Heap
two = copy_construct 2 0 (construct 1 (construct 0 empty_heap))

two-Reach : Reach 3 two
two-Reach =
    next_step
      (next_step (next_step here (constructs 0 (omega arith) refl))
        (constructs 1 (omega arith) refl))
      (copies 2 0 (omega arith) (omega arith) refl)

-- An exchange that succeeds, by which the wrapper 0 leaves the first object, as does the wrapper 2.
abbrev left : Heap
left = null_assign 2 (cas false 0 2 1 two).1

left-Reach : Reach 3 left
left-Reach =
    next_step (next_step two-Reach (compares false 0 2 1 (omega arith) (omega arith) (omega arith)))
      (null_assigns 2 (omega arith))

Reach-destroyed_example :
    (((x : ℕ) × (x < 3) × (left.shared x ≡ some 0)) × (left.destroyed 0 ≡ 0))
    ⊎ (((x : ℕ) → x < 3 → left.shared x ≢ some 0) × (left.destroyed 0 ≡ 1))
Reach-destroyed_example = Reach-destroyed 3 0 left-Reach (omega arith)

first_destroyed : (left.destroyed 0 ≡ 1) × (left.destroyed 1 ≡ 0) × (left.use_count 1 ≡ 2)
first_destroyed = (refl, refl, refl)

-- A weak wrapper whose object is gone.
abbrev gone : Heap
gone = destruct 0 (weak_assign 7 0 (construct 0 empty_heap))

gone-Reach : Reach 1 gone
gone-Reach =
    next_step
      (next_step (next_step here (constructs 0 (omega arith) refl))
        (weak_assigns 7 0 (omega arith)))
      (destructs 0 (omega arith))

-- `load` destroys it again.
again : (weak_load 8 7 gone).destroyed 0 ≡ 2
again = weak_load-destroyed 1 8 7 0 gone-Reach (omega arith) refl (λ x lt e. ground arith)

weak_swap-weak_example :
    ((weak_swap 7 8 gone).weak 7 ≡ gone.weak 8)
    × ((weak_swap 7 8 gone).weak 8 ≡ gone.weak 7)
    × ((k : ℕ) → (weak_swap 7 8 gone).use_count k ≡ gone.use_count k)
    × ((weak_swap 7 8 gone).destroyed 0 ≡ (if gone.use_count 0 == 0 then 2 else 0))
weak_swap-weak_example = weak_swap-weak 1 7 8 0 gone-Reach (omega arith) refl

-- A weak wrapper beside the one wrapper that holds its object.
abbrev watched : Heap
watched = weak_assign 7 0 (construct 1 (construct 0 empty_heap))

watched-Reach : Reach 2 watched
watched-Reach =
    next_step
      (next_step (next_step here (constructs 0 (omega arith) refl))
        (constructs 1 (omega arith) refl))
      (weak_assigns 7 0 (omega arith))

weak_store-destroyed_example :
    ((weak_store 7 8 watched).shared 0 ≡ some 0) × ((weak_store 7 8 watched).destroyed 0 ≡ 1)
weak_store-destroyed_example =
    weak_store-destroyed 2 7 8 0 0 watched-Reach (omega arith) refl refl refl (λ e. ground arith)
