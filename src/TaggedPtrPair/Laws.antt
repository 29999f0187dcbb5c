-- ===== src/TaggedPtrPair/Laws.antt =====
-- detail-dev/tagged_ptr_pair.hpp: the four parts of the pair are independent.
use zwq_repos.Prelude.{ℕ, ◌%◌, ◌^◌, ◌<◌, ◌≡◌, ◌↔◌, true, arith}
use zwq_repos.TaggedPtrPair.{
  TaggedPtrPair, tagged_ptr_pair, equal, get_left_ptr, get_right_ptr, get_left_tag, get_right_tag,
  set_left_ptr, set_right_ptr, set_left_tag, set_right_tag,
}

-- The four parts of a pair, as its accessors read them.
abbrev pub Parts : TaggedPtrPair → ℕ → ℕ → ℕ → ℕ → Type 0
Parts x l r s t =
    (get_left_ptr x ≡ l) × (get_right_ptr x ≡ r) × (get_left_tag x ≡ s) × (get_right_tag x ≡ t)

abbrev pub IsWords : TaggedPtrPair → Type 0
IsWords x = (x.left < 2 ^ 64) × (x.right < 2 ^ 64)

-- Two pointers below 2^48 are read back, and both tags are read back modulo 2^16.
pub tagged_ptr_pair_roundtrip :
    (l r s t : ℕ)
    → l < 2 ^ 48
    → r < 2 ^ 48
    → Parts (tagged_ptr_pair l r s t) l r (s % 2 ^ 16) (t % 2 ^ 16)
      × IsWords (tagged_ptr_pair l r s t)
unfolding get_left_ptr get_right_ptr get_left_tag get_right_tag tagged_ptr_pair
tagged_ptr_pair_roundtrip l r s t hl hr = omega arith

-- Each of the four setters changes its own part and keeps the other three.
pub set_pair-Parts :
    (x : TaggedPtrPair) (p t : ℕ)
    → p < 2 ^ 48
    → t < 2 ^ 16
    → Parts (set_left_ptr p x) p (get_right_ptr x) (get_left_tag x) (get_right_tag x)
      × Parts (set_right_ptr p x) (get_left_ptr x) p (get_left_tag x) (get_right_tag x)
      × Parts (set_left_tag t x) (get_left_ptr x) (get_right_ptr x) t (get_right_tag x)
      × Parts (set_right_tag t x) (get_left_ptr x) (get_right_ptr x) (get_left_tag x) t
unfolding get_left_ptr get_right_ptr get_left_tag get_right_tag set_left_ptr set_right_ptr
    set_left_tag set_right_tag
set_pair-Parts x p t hp ht = omega arith

-- On words of 64 bits `==` holds exactly when all four parts agree.
pub equal_pair_iff :
    (x y : TaggedPtrPair)
    → IsWords x
    → IsWords y
    → (equal x y ≡ true)
      ↔ Parts x (get_left_ptr y) (get_right_ptr y) (get_left_tag y) (get_right_tag y)
unfolding equal get_left_ptr get_right_ptr get_left_tag get_right_tag
equal_pair_iff x y hx hy = (λ e. ground arith, λ e. ground arith)
