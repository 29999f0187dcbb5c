-- ===== src/TaggedPtr/Aba.antt =====
-- detail-dev/tagged_ptr_ptrcompression.hpp: how long the tag tells two uses of one pointer apart.
use zwq_repos.Prelude.{ℕ, zero, suc, ◌+◌, ◌*◌, ◌%◌, ◌^◌, ◌<◌, ◌≡◌, ◌↔◌, true, arith, eq_of_==}
use zwq_repos.TaggedPtr.{TaggedPtr, tagged_ptr, equal, get_tag, get_next_tag}

-- The word after `k` exchanges that each install the pointer `p` again, with the next tag.
pub reuse : ℕ → ℕ → TaggedPtr → TaggedPtr
reuse p zero x = x
reuse p (suc k) x = let y = reuse p k x in tagged_ptr p (get_next_tag y)

get_tag-reuse : (p t k : ℕ) → t < 2 ^ 16 → get_tag (reuse p k (tagged_ptr p t)) ≡ (t + k) % 2 ^ 16
unfolding reuse get_tag tagged_ptr get_next_tag
get_tag-reuse p t zero h = omega arith
get_tag-reuse p t (suc k) h = omega (arith, get_tag-reuse p t k h)

ptr-reuse :
    (p t k : ℕ)
    → t < 2 ^ 16
    → (reuse p k (tagged_ptr p t)).ptr ≡ p % 2 ^ 48 + (t + k) % 2 ^ 16 * 2 ^ 48
unfolding reuse tagged_ptr get_next_tag
ptr-reuse p t zero h = omega arith
ptr-reuse p t (suc k) h = omega (arith, get_tag-reuse p t k h)

ptr-tagged_ptr : (p t : ℕ) → (tagged_ptr p t).ptr ≡ p % 2 ^ 48 + t * 2 ^ 48
unfolding tagged_ptr
ptr-tagged_ptr p t = omega arith

-- A word whose pointer is installed again `k` times, each time with the next tag, equals the first
-- word exactly when `k` is a multiple of 65536: a comparison that spans fewer reuses than that
-- tells them apart, and one that spans exactly 65536 does not.
pub equal-reuse_iff :
    (p t k : ℕ)
    → t < 2 ^ 16
    → (equal (reuse p k (tagged_ptr p t)) (tagged_ptr p t) ≡ true) ↔ (k % 2 ^ 16 ≡ 0)
unfolding equal
equal-reuse_iff p t k h =
    let again = ptr-reuse p t k h in
    let first = ptr-tagged_ptr p t in
    (λ e. let same = eq_of_== _ _ e in omega arith, λ e. ground arith)
