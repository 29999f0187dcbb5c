-- ===== src/TaggedPtr.antt =====
-- detail-dev/tagged_ptr_ptrcompression.hpp: a pointer of 48 bits and a tag of 16 bits in one word
-- of 64 bits. A `T*` and a word are numbers; the union `cast_unit` is read as on x86-64, where
-- `tag[3]` are the bits 48 to 63 of `value`.
pub mod Laws
pub mod Aba
mod Examples
use zwq_repos.Prelude.{ℕ, ◌+◌, ◌*◌, ◌/◌, ◌%◌, ◌^◌, Bool, not, ◌==◌}

-- `compressed_ptr_t ptr`
pub record TaggedPtr : Type 0 where
  pub ptr : ℕ

-- `i & ptr_mask`, with `ptr_mask = 0xffffffffffff`
unfoldable pub extract_ptr : ℕ → ℕ
extract_ptr i = i % 2 ^ 48

-- `cu.value = i; return cu.tag[tag_index]`
unfoldable pub extract_tag : ℕ → ℕ
extract_tag i = i / 2 ^ 48 % 2 ^ 16

-- `ret.value = ptr; ret.tag[tag_index] = tag`: the bits 48 to 63 of the pointer are overwritten.
unfoldable pub pack_ptr : ℕ → ℕ → ℕ
pack_ptr ptr tag = ptr % 2 ^ 48 + tag * 2 ^ 48

-- `tagged_ptr(T* p, tag_t t)`
unfoldable pub tagged_ptr : ℕ → ℕ → TaggedPtr
unfolding pack_ptr
tagged_ptr p t = record { ptr = pack_ptr p t }

unfoldable pub set : ℕ → ℕ → TaggedPtr → TaggedPtr
unfolding pack_ptr
set p t self = record self { ptr = pack_ptr p t }

unfoldable pub equal : TaggedPtr → TaggedPtr → Bool
equal self p = self.ptr == p.ptr

unfoldable pub not_equal : TaggedPtr → TaggedPtr → Bool
unfolding equal
not_equal self p = not (equal self p)

unfoldable pub get_ptr : TaggedPtr → ℕ
unfolding extract_ptr
get_ptr self = extract_ptr self.ptr

unfoldable pub get_tag : TaggedPtr → ℕ
unfolding extract_tag
get_tag self = extract_tag self.ptr

unfoldable pub set_ptr : ℕ → TaggedPtr → TaggedPtr
unfolding get_tag pack_ptr
set_ptr p self = let tag = get_tag self in record self { ptr = pack_ptr p tag }

-- `(get_tag() + 1u) & 0xffff`
unfoldable pub get_next_tag : TaggedPtr → ℕ
unfolding get_tag
get_next_tag self = (get_tag self + 1) % 2 ^ 16

unfoldable pub set_tag : ℕ → TaggedPtr → TaggedPtr
unfolding get_ptr pack_ptr
set_tag t self = let p = get_ptr self in record self { ptr = pack_ptr p t }

-- `operator bool`
unfoldable pub to_bool : TaggedPtr → Bool
unfolding get_ptr
to_bool self = not (get_ptr self == 0)
