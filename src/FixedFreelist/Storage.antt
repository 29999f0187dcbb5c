-- ===== src/FixedFreelist/Storage.antt =====
-- detail-dev/freelist.hpp: `compiletime_sized_freelist_storage` and `runtime_sized_freelist_storage`.
use zwq_repos.Prelude.{ℕ, ◌+◌, ◌-◌, ◌*◌, ◌/◌, ◌%◌, ◌≤◌, ◌<◌, ◌≡◌, Bool, true, none, arith, ltb}
use zwq_repos.FixedFreelist.{
  TaggedIndex, Freelist, null_handle, allocate_impl_unsafe, deallocate_impl_unsafe, construct,
  destruct,
}

-- `static_assert(size < 65536)`
abbrev pub compiletime_accepts : ℕ → Bool
compiletime_accepts size = ltb size 65536

-- `assert(count > 65535)`
abbrev pub runtime_accepts : ℕ → Bool
runtime_accepts count = ltb 65535 count

-- `compiletime_sized_freelist_storage::nodes()` for an array at `data_pointer`, with cache lines of
-- 64 bytes: `(p + CACHE_LINE_SIZE - 1) & ~(CACHE_LINE_SIZE - 1)`.
pub nodes_address : ℕ → ℕ
nodes_address data_pointer = (data_pointer + 64 - 1) / 64 * 64

-- The nodes start on a cache line, and all `size` of them lie within the array of
-- `size * sizeof(T) + 64` bytes.
pub nodes_address_fits :
    (p size sizeof : ℕ)
    → (nodes_address p % 64 ≡ 0)
      × (p ≤ nodes_address p)
      × (nodes_address p + size * sizeof ≤ p + (size * sizeof + 64))
unfolding nodes_address
nodes_address_fits p size sizeof = omega arith

module _ {T : Type 0} (raw : T → TaggedIndex) where
  -- With a size that the compile-time storage accepts, the null handle is no index of a node.
  pub compiletime_null_handle :
      (s : Freelist T) → compiletime_accepts s.node_count ≡ true → null_handle s ≡ s.node_count
  compiletime_null_handle s h = ground arith

  -- With any size that the assertion of the run-time storage lets pass, the null handle is the index
  -- of a node, and right after that node was destructed `construct` fails as if no node were free.
  pub runtime_null_handle :
      (arg : T) (s : Freelist T)
      → runtime_accepts s.node_count ≡ true
      → (null_handle s < s.node_count)
        × ((construct raw arg (destruct raw (null_handle s) s)).0 ≡ none)
  unfolding construct destruct allocate_impl_unsafe deallocate_impl_unsafe
  runtime_null_handle arg s h = (ground arith, ground arith)
