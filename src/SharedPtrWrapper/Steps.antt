-- ===== src/SharedPtrWrapper/Steps.antt =====
-- utility/smart_ptr_wrapper.hpp, shared_ptr_wrapper: any sequence of its operations, and of those of
-- weak_ptr_wrapper that treat a std::weak_ptr as one.
use zwq_repos.Prelude.{
  ℕ, zero, suc, ◌<◌, ◌≡◌, ◌≢◌, ◌⊎◌, refl, subst, ◌∙◌, Bool, Option, none, some, List, [], ◌∷◌, ◌&&◌,
  not, if◌then◌else◌, arith, total, Bool-cases, inl, inr, false,
}
use zwq_repos.SharedPtrWrapper.{
  Heap, put, release, same, construct, copy_construct, move_construct, destruct, copy_assign,
  move_assign, raw_assign, null_assign, swap, store, exchange, cas, weak_assign, weak_copy,
  weak_move, reset, lock, expired, put_weak,
}
use zwq_repos.SharedPtrWrapper.Balance.{
  IsAlive, holds, Balanced, cell-IsAlive, head-IsAlive, retain-Balanced, release-Balanced,
  put-Balanced, make_shared-Balanced, null-Balanced, empty-Balanced,
}

abbrev pub empty_heap : Heap
empty_heap = record {
  shared = λ x. none;
  weak = λ x. none;
  use_count = λ o. 0;
  destroyed = λ o. 0;
  next = 0;
}

-- An operation on wrappers below `n`; a constructor takes empty storage.
pub data Step (n : ℕ) (h : Heap) : Heap → Type 0 where
  constructs : (d : ℕ) → d < n → h.shared d ≡ none → Step n h (construct d h)
  copies : (d x : ℕ) → d < n → x < n → h.shared d ≡ none → Step n h (copy_construct d x h)
  moves : (d x : ℕ) → d < n → x < n → d ≢ x → h.shared d ≡ none → Step n h (move_construct d x h)
  destructs : (x : ℕ) → x < n → Step n h (destruct x h)
  copy_assigns : (x y : ℕ) → x < n → y < n → Step n h (copy_assign x y h)
  move_assigns : (x y : ℕ) → x < n → y < n → Step n h (move_assign x y h)
  raw_assigns : (x : ℕ) → x < n → Step n h (raw_assign x h)
  null_assigns : (x : ℕ) → x < n → Step n h (null_assign x h)
  swaps : (x y : ℕ) → x < n → y < n → Step n h (swap x y h)
  stores : (x y : ℕ) → x < n → y < n → Step n h (store x y h)
  exchanges :
      (d x y : ℕ) → d < n → x < n → y < n → d ≢ x → h.shared d ≡ none → Step n h (exchange d x y h)
  compares :
      (spurious : Bool) (x expected desired : ℕ)
      → x < n
      → expected < n
      → desired < n
      → Step n h (cas spurious x expected desired h).1
  weak_assigns : (w x : ℕ) → x < n → Step n h (weak_assign w x h)
  weak_copies : (w v : ℕ) → Step n h (weak_copy w v h)
  weak_moves : (w v : ℕ) → Step n h (weak_move w v h)
  resets : (w : ℕ) → Step n h (reset w h)
  locks : (d w : ℕ) → d < n → h.shared d ≡ none → Step n h (lock d w h)

pub data Reach (n : ℕ) : Heap → Type 0 where
  here : Reach n empty_heap
  next_step : {h h' : Heap} → Reach n h → Step n h h' → Reach n h'

total_empty : (o k : ℕ) → total (holds o) k (λ x. none) ≡ 0
total_empty o zero = refl
total_empty o (suc k) = omega (arith, total_empty o k)

module _ {n : ℕ} where
  -- A pointer comes to stand at `x`, and what stood there ends.
  replace-Balanced :
      (x : ℕ) (p : Option ℕ) {ps : List (Option ℕ)} {h : Heap}
      → x < n
      → Balanced n (p ∷ ps) h
      → Balanced n ps (release (h.shared x) (put x p h))
  replace-Balanced x p {h = h} lt b = release-Balanced (h.shared x) (put-Balanced x p lt b)

  -- A pointer comes to stand at `d`, where none stood.
  fill-Balanced :
      (d : ℕ) (p : Option ℕ) {ps : List (Option ℕ)} {h : Heap}
      → d < n
      → h.shared d ≡ none
      → Balanced n (p ∷ ps) h
      → Balanced n ps (put d p h)
  fill-Balanced d p {h = h} lt e b = empty-Balanced (h.shared d) e (put-Balanced d p lt b)

  cas-Balanced :
      (spurious : Bool) (x expected desired : ℕ) {h : Heap}
      → x < n
      → expected < n
      → desired < n
      → Balanced n [] h
      → Balanced n [] (cas spurious x expected desired h).1
  cas-Balanced spurious x expected desired {h} lt le ld b =
      let p = h.shared desired in
      let current = h.shared x in
      let b1 = retain-Balanced p (cell-IsAlive desired ld b) b in
      elim (Bool-cases (not spurious && same current (h.shared expected))) [
        | inl e ↦
            let b2 = retain-Balanced p (head-IsAlive p b1) b1 in
            rw (e, if◌then◌else◌) (release-Balanced p (replace-Balanced x p lt b2))
        | inr e ↦
            let b2 = retain-Balanced current (cell-IsAlive x lt b1) b1 in
            rw (e, if◌then◌else◌) (release-Balanced p (replace-Balanced expected current le b2))
      ]

  weak-Balanced :
      (w : ℕ) (p : Option ℕ) {h : Heap} → Balanced n [] h → Balanced n [] (put_weak w p h)
  weak-Balanced w p b = record { counted = b.counted; once = b.once; bounded = b.bounded }

  lock-Balanced :
      (d w : ℕ) {h : Heap}
      → d < n
      → h.shared d ≡ none
      → Balanced n [] h
      → Balanced n [] (lock d w h)
  lock-Balanced d w {h} lt e b = elim (Bool-cases (expired (h.weak w) h)) [
    | inl gone ↦ rw (gone, if◌then◌else◌) b
    | inr alive ↦
        let lives : IsAlive (h.weak w) h = λ o same_o.
          let test : expired (some o) h ≡ false = subst (λ p. expired p h ≡ false) same_o alive in
          ground arith in
        rw (alive, if◌then◌else◌)
          (fill-Balanced d (h.weak w) lt e (retain-Balanced (h.weak w) lives b))
  ]

  Balanced-Step : {h h' : Heap} → Step n h h' → Balanced n [] h → Balanced n [] h'
  Balanced-Step {h} (constructs d lt e) b =
      fill-Balanced d (some h.next) lt e (make_shared-Balanced b)
  Balanced-Step {h} (copies d x lt lt' e) b =
      fill-Balanced d (h.shared x) lt e (retain-Balanced (h.shared x) (cell-IsAlive x lt' b) b)
  Balanced-Step {h} (moves d x lt lt' ne e) b =
      fill-Balanced d (h.shared x) lt (ground arith) (put-Balanced x none lt' (null-Balanced b))
  Balanced-Step {h} (destructs x lt) b = replace-Balanced x none lt (null-Balanced b)
  Balanced-Step {h} (copy_assigns x y lt lt') b =
      replace-Balanced x (h.shared y) lt (retain-Balanced (h.shared y) (cell-IsAlive y lt' b) b)
  Balanced-Step {h} (move_assigns x y lt lt') b =
      replace-Balanced x (h.shared y) lt (put-Balanced y none lt' (null-Balanced b))
  Balanced-Step {h} (raw_assigns x lt) b =
      replace-Balanced x (some h.next) lt (make_shared-Balanced b)
  Balanced-Step {h} (null_assigns x lt) b = replace-Balanced x none lt (null-Balanced b)
  Balanced-Step {h} (swaps x y lt lt') b =
      let b1 = retain-Balanced (h.shared x) (cell-IsAlive x lt b) b in
      replace-Balanced x (h.shared y) lt (put-Balanced y (h.shared x) lt' b1)
  Balanced-Step {h} (stores x y lt lt') b =
      let b1 = retain-Balanced (h.shared y) (cell-IsAlive y lt' b) b in
      let b2 = retain-Balanced (h.shared y) (head-IsAlive (h.shared y) b1) b1 in
      release-Balanced (h.shared y) (replace-Balanced x (h.shared y) lt b2)
  Balanced-Step {h} (exchanges d x y ld lt lt' ne e) b =
      let b1 = retain-Balanced (h.shared y) (cell-IsAlive y lt' b) b in
      let b2 = retain-Balanced (h.shared y) (head-IsAlive (h.shared y) b1) b1 in
      release-Balanced (h.shared y)
        (fill-Balanced d (h.shared x) ld (ground arith) (put-Balanced x (h.shared y) lt b2))
  Balanced-Step {h} (compares spurious x expected desired lt le ld) b =
      cas-Balanced spurious x expected desired lt le ld b
  Balanced-Step {h} (weak_assigns w x lt) b = weak-Balanced w (h.shared x) b
  Balanced-Step {h} (weak_copies w v) b = weak-Balanced w (h.weak v) b
  Balanced-Step {h} (weak_moves w v) b = weak-Balanced w (h.weak v) (weak-Balanced v none b)
  Balanced-Step (resets w) b = weak-Balanced w none b
  Balanced-Step (locks d w lt e) b = lock-Balanced d w lt e b

  pub Reach-Balanced : {h : Heap} → Reach n h → Balanced n [] h
  Reach-Balanced here = record {
    counted = λ o. omega (arith, total_empty o n);
    once = λ o. ground arith;
    bounded = λ o le. refl;
  }
  Reach-Balanced (next_step r st) = Balanced-Step st (Reach-Balanced r)

holder :
    (o k : ℕ) (ws : ℕ → Option ℕ)
    → ((x : ℕ) × (x < k) × (ws x ≡ some o)) ⊎ (total (holds o) k ws ≡ 0)
holder o zero ws = inr refl
holder o (suc k) ws = elim (holder o k ws) [
  | inl (x, lt, e) ↦ inl (x, omega arith, e)
  | inr none_below ↦ elim (last (ws k)) [
    | inl e ↦ inl (k, omega arith, e)
    | inr e ↦ inr (omega (arith, e))
  ]
]
  where
    last : (p : Option ℕ) → (p ≡ some o) ⊎ (holds o p ≡ 0)
    last p = ground arith

-- After any sequence of operations on the shared wrappers below `n`, with `load` as a copy, and of
-- assignments, `reset` and `lock` of weak ones: an object that exists has not been destroyed while a wrapper points to it, and has been
-- destroyed exactly once where none does.
pub Reach-destroyed :
    (n : ℕ) {h : Heap} (o : ℕ)
    → Reach n h
    → o < h.next
    → (((x : ℕ) × (x < n) × (h.shared x ≡ some o)) × (h.destroyed o ≡ 0))
      ⊎ (((x : ℕ) → x < n → h.shared x ≢ some o) × (h.destroyed o ≡ 1))
Reach-destroyed n {h} o r lt =
    let b = Reach-Balanced r in
    elim (holder o n h.shared) [
      | inl (x, lt', e) ↦
          let alive = cell-IsAlive x lt' b o e in inl ((x, lt', e), b.once o ∙ ground arith)
      | inr free ↦
          let dead : h.use_count o ≡ 0 = omega (arith, b.counted o) in
          inr (
            λ x lt' e. let alive = cell-IsAlive x lt' b o e in absurd (omega arith),
            b.once o ∙ ground arith,
          )
    ]
