-- ===== src/TaggedPtrPair.antt =====
-- detail-dev/tagged_ptr_pair.hpp: two pointers of 48 bits, each with a tag of 16 bits, in two words
-- of 64 bits. In the union `cast_unit`, `tags[3]` are the bits 48 to 63 of the left word and
-- `tags[7]` those of the right word. A tag of any integral type is narrowed to 16 bits.
pub mod Laws
mod Examples
use zwq_repos.Prelude.{ℕ, ◌+◌, ◌*◌, ◌/◌, ◌%◌, ◌^◌, Bool, not, ◌&&◌, ◌==◌}

-- `uint128_type`, the field `pair_ptr` of `tagged_ptr_pair`
pub record TaggedPtrPair : Type 0 where
  pub left : ℕ
  pub right : ℕ

unfoldable pub extract_left_ptr : TaggedPtrPair → ℕ
extract_left_ptr i = i.left % 2 ^ 48

unfoldable pub extract_right_ptr : TaggedPtrPair → ℕ
extract_right_ptr i = i.right % 2 ^ 48

unfoldable pub extract_left_tag : TaggedPtrPair → ℕ
extract_left_tag i = i.left / 2 ^ 48 % 2 ^ 16

unfoldable pub extract_right_tag : TaggedPtrPair → ℕ
extract_right_tag i = i.right / 2 ^ 48 % 2 ^ 16

unfoldable pub pack_ptr_pair : ℕ → ℕ → ℕ → ℕ → TaggedPtrPair
pack_ptr_pair lptr rptr ltag rtag = record {
  left = lptr % 2 ^ 48 + ltag % 2 ^ 16 * 2 ^ 48;
  right = rptr % 2 ^ 48 + rtag % 2 ^ 16 * 2 ^ 48;
}

-- The constructor with two tags, and `set` with two tags.
unfoldable pub tagged_ptr_pair : ℕ → ℕ → ℕ → ℕ → TaggedPtrPair
unfolding pack_ptr_pair
tagged_ptr_pair lptr rptr ltag rtag = pack_ptr_pair lptr rptr ltag rtag

-- `set` with the left tag alone: the right tag becomes 0.
unfoldable pub set_left : ℕ → ℕ → ℕ → TaggedPtrPair
unfolding pack_ptr_pair
set_left lptr rptr ltag = pack_ptr_pair lptr rptr ltag 0

-- `set` without a tag: both become 0.
unfoldable pub set : ℕ → ℕ → TaggedPtrPair
unfolding pack_ptr_pair
set lptr rptr = pack_ptr_pair lptr rptr 0 0

unfoldable pub equal : TaggedPtrPair → TaggedPtrPair → Bool
equal self p = self.left == p.left && self.right == p.right

unfoldable pub get_left_ptr : TaggedPtrPair → ℕ
unfolding extract_left_ptr
get_left_ptr self = extract_left_ptr self

unfoldable pub get_right_ptr : TaggedPtrPair → ℕ
unfolding extract_right_ptr
get_right_ptr self = extract_right_ptr self

unfoldable pub get_left_tag : TaggedPtrPair → ℕ
unfolding extract_left_tag
get_left_tag self = extract_left_tag self

unfoldable pub get_right_tag : TaggedPtrPair → ℕ
unfolding extract_right_tag
get_right_tag self = extract_right_tag self

unfoldable pub set_left_ptr : ℕ → TaggedPtrPair → TaggedPtrPair
unfolding get_right_ptr get_left_tag get_right_tag pack_ptr_pair
set_left_ptr lptr self =
    pack_ptr_pair lptr (get_right_ptr self) (get_left_tag self) (get_right_tag self)

unfoldable pub set_right_ptr : ℕ → TaggedPtrPair → TaggedPtrPair
unfolding get_left_ptr get_left_tag get_right_tag pack_ptr_pair
set_right_ptr rptr self =
    pack_ptr_pair (get_left_ptr self) rptr (get_left_tag self) (get_right_tag self)

unfoldable pub set_left_tag : ℕ → TaggedPtrPair → TaggedPtrPair
unfolding get_left_ptr get_right_ptr get_right_tag pack_ptr_pair
set_left_tag ltag self =
    pack_ptr_pair (get_left_ptr self) (get_right_ptr self) ltag (get_right_tag self)

unfoldable pub set_right_tag : ℕ → TaggedPtrPair → TaggedPtrPair
unfolding get_left_ptr get_right_ptr get_left_tag pack_ptr_pair
set_right_tag rtag self =
    pack_ptr_pair (get_left_ptr self) (get_right_ptr self) (get_left_tag self) rtag

-- `operator bool`
unfoldable pub to_bool : TaggedPtrPair → Bool
unfolding get_left_ptr get_right_ptr
to_bool self = not (get_left_ptr self == 0) && not (get_right_ptr self == 0)
