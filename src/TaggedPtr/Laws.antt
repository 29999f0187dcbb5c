-- ===== src/TaggedPtr/Laws.antt =====
-- detail-dev/tagged_ptr_ptrcompression.hpp: the two parts of the word are independent.
use zwq_repos.Prelude.{ℕ, ◌^◌, ◌<◌, ◌≡◌, ◌↔◌, true, arith}
use zwq_repos.TaggedPtr.{TaggedPtr, tagged_ptr, set, equal, get_ptr, get_tag, set_ptr, set_tag}

-- A word of 64 bits.
abbrev pub IsWord : TaggedPtr → Type 0
IsWord x = x.ptr < 2 ^ 64

-- A packed pointer below 2^48 and a packed tag below 2^16 are both read back, by the constructor
-- and by `set`, and the packed value is a word of 64 bits.
pub tagged_ptr_roundtrip :
    (p t : ℕ) (old : TaggedPtr)
    → p < 2 ^ 48
    → t < 2 ^ 16
    → (get_ptr (tagged_ptr p t) ≡ p)
      × (get_tag (tagged_ptr p t) ≡ t)
      × (set p t old ≡ tagged_ptr p t)
      × IsWord (tagged_ptr p t)
unfolding get_ptr get_tag tagged_ptr set
tagged_ptr_roundtrip p t old hp ht = (omega arith, omega arith, ground arith, omega arith)

-- On every word `set_ptr` changes the pointer and keeps the tag, and `set_tag` changes the tag and
-- keeps the pointer.
pub set_parts :
    (x : TaggedPtr) (p t : ℕ)
    → p < 2 ^ 48
    → t < 2 ^ 16
    → (get_ptr (set_ptr p x) ≡ p)
      × (get_tag (set_ptr p x) ≡ get_tag x)
      × (get_ptr (set_tag t x) ≡ get_ptr x)
      × (get_tag (set_tag t x) ≡ t)
unfolding get_ptr get_tag set_ptr set_tag
set_parts x p t hp ht = omega arith

-- On words of 64 bits `==` holds exactly when both the pointers and the tags agree.
pub equal_iff :
    (x y : TaggedPtr)
    → IsWord x
    → IsWord y
    → (equal x y ≡ true) ↔ ((get_ptr x ≡ get_ptr y) × (get_tag x ≡ get_tag y))
unfolding equal get_ptr get_tag
equal_iff x y hx hy = (λ e. ground arith, λ e. ground arith)
