-- ===== src/TaggedPtrDcas.antt =====
-- detail-dev/tagged_ptr_dcas.hpp: the tagged pointer for machines with a compare-and-swap of two
-- words. The tag is a `size_t`, of 64 bits, and stands in a word of its own.
pub mod Laws
mod Examples
use zwq_repos.Prelude.{ℕ, ◌+◌, ◌%◌, ◌^◌, Bool, not, ◌&&◌, ◌==◌}

pub record TaggedPtrDcas : Type 0 where
  pub ptr : ℕ
  pub tag : ℕ

-- `tagged_ptr(T* p, tag_t t)`
unfoldable pub tagged_ptr : ℕ → ℕ → TaggedPtrDcas
tagged_ptr p t = record { ptr = p; tag = t }

unfoldable pub set : ℕ → ℕ → TaggedPtrDcas → TaggedPtrDcas
set p t self = record self { ptr = p; tag = t }

unfoldable pub equal : TaggedPtrDcas → TaggedPtrDcas → Bool
equal self p = self.ptr == p.ptr && self.tag == p.tag

unfoldable pub get_ptr : TaggedPtrDcas → ℕ
get_ptr self = self.ptr

unfoldable pub set_ptr : ℕ → TaggedPtrDcas → TaggedPtrDcas
set_ptr p self = record self { ptr = p }

unfoldable pub get_tag : TaggedPtrDcas → ℕ
get_tag self = self.tag

-- `(get_tag() + 1) & numeric_limits<size_t>::max()`, where the sum is taken modulo 2^64.
unfoldable pub get_next_tag : TaggedPtrDcas → ℕ
unfolding get_tag
get_next_tag self = (get_tag self + 1) % 2 ^ 64

unfoldable pub set_tag : ℕ → TaggedPtrDcas → TaggedPtrDcas
set_tag t self = record self { tag = t }

-- `operator bool`
unfoldable pub to_bool : TaggedPtrDcas → Bool
to_bool self = not (self.ptr == 0)
