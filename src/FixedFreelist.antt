-- ===== src/FixedFreelist.antt =====
-- detail-dev/freelist.hpp: `tagged_index`, the two node storages and `fixed_size_freelist`, a stack
-- of free nodes linked by their indices. A node pointer `nodes() + i` is the number `i`. The bytes
-- of one node are a free node with its link, or an object of type `T`; what the link of a live
-- object's bytes reads as is the parameter `raw`.
pub mod Chain
pub mod Loops
pub mod Clients
pub mod Storage
mod Examples
use zwq_repos.Prelude.{
  ℕ, zero, suc, ◌+◌, ◌%◌, ◌^◌, Bool, true, false, not, ◌&&◌, Option, none, some, List, [], ◌∷◌,
  ◌==◌, if◌then◌else◌,
}

-- `tagged_index`: two numbers of 16 bits.
pub record TaggedIndex : Type 0 where
  pub index : ℕ
  pub tag : ℕ

abbrev pub set_index : ℕ → TaggedIndex → TaggedIndex
set_index i self = record self { index = i }

abbrev pub set_tag : ℕ → TaggedIndex → TaggedIndex
set_tag t self = record self { tag = t }

-- `(get_tag() + 1u) & 0xffff`
abbrev pub get_next_tag : TaggedIndex → ℕ
get_next_tag self = (self.tag + 1) % 2 ^ 16

abbrev pub equal : TaggedIndex → TaggedIndex → Bool
equal self rhs = self.index == rhs.index && self.tag == rhs.tag

-- The bytes of one node.
pub data Cell (T : Type 0) : Type 0 where
  freelist_node : TaggedIndex → Cell T
  object : T → Cell T

-- `pool_`, and `nodes()` and `node_count()` of the storage.
pub record Freelist (T : Type 0) : Type 0 where
  pub pool : TaggedIndex
  pub nodes : ℕ → Cell T
  pub node_count : ℕ

-- What other threads do during one round of a compare-and-swap loop: before the memory access of
-- the round, and between it and the exchange. A weak exchange may also fail for no reason.
pub record Interference (T : Type 0) : Type 0 where
  pub before_access : Freelist T → Freelist T
  pub before_cas : Freelist T → Freelist T
  pub spurious : Bool

abbrev pub quiet : {T : Type 0} → Interference T
quiet = record { before_access = λ s. s; before_cas = λ s. s; spurious = false }

module _ {T : Type 0} where
  -- `static_cast<index_t>(node_count())`
  abbrev pub null_handle : Freelist T → ℕ
  null_handle s = s.node_count % 2 ^ 16

  abbrev pub write : Freelist T → ℕ → Cell T → Freelist T
  write s i c = record s { nodes = λ j. if j == i then c else s.nodes j }

  -- One round of `deallocate_impl`, after the link was written.
  unfoldable pub deallocate_round : ℕ → Freelist T → Freelist T → Bool → Option (Freelist T)
  deallocate_round index loaded at_cas spurious =
      let old_pool = loaded.pool in
      let new_pool : TaggedIndex = record { index = index; tag = old_pool.tag } in
      if not spurious && equal at_cas.pool old_pool
      then some (record at_cas { pool = new_pool })
      else none

module _ {T : Type 0} (raw : T → TaggedIndex) where
  -- `reinterpret_cast<tagged_index*>(nodes() + i)`
  abbrev pub as_index : Cell T → TaggedIndex
  as_index (freelist_node n) = n
  as_index (object t) = raw t

  -- `new_pool_node->next.set_index(i)`
  abbrev pub link : Freelist T → ℕ → ℕ → Freelist T
  link s n i = write s n (freelist_node (set_index i (as_index (s.nodes n))))

  unfoldable pub allocate_impl_unsafe : Freelist T → ℕ × Freelist T
  allocate_impl_unsafe s =
      let old_pool = s.pool in
      let next_index = as_index (s.nodes old_pool.index) in
      let new_pool : TaggedIndex = record {
        index = next_index.index;
        tag = get_next_tag old_pool;
      } in
      if old_pool.index == null_handle s
      then (old_pool.index, s)
      else (old_pool.index, record s { pool = new_pool })

  unfoldable pub deallocate_impl_unsafe : ℕ → Freelist T → Freelist T
  deallocate_impl_unsafe index s =
      let old_pool = s.pool in
      let new_pool : TaggedIndex = record { index = index; tag = old_pool.tag } in
      record (link s index old_pool.index) { pool = new_pool }

  -- One round of `allocate_impl`: the pool was loaded in the first state, the link is read in the
  -- second, the exchange is tried in the third. `none` when the exchange fails.
  unfoldable pub allocate_round :
      Freelist T → Freelist T → Freelist T → Bool → Option (ℕ × Freelist T)
  allocate_round loaded accessed at_cas spurious =
      let old_pool = loaded.pool in
      let next_index = as_index (accessed.nodes old_pool.index) in
      let new_pool : TaggedIndex = record {
        index = next_index.index;
        tag = get_next_tag old_pool;
      } in
      if old_pool.index == null_handle loaded
      then some (old_pool.index, loaded)
      else if not spurious && equal at_cas.pool old_pool
      then some (old_pool.index, record at_cas { pool = new_pool })
      else none

  -- `allocate_impl`, with what the others do in each round. A failed exchange has loaded the pool
  -- again. `none` when the loop is still running after these rounds.
  unfoldable pub allocate_impl : List (Interference T) → Freelist T → Option (ℕ × Freelist T)
  unfolding allocate_round
  allocate_impl [] s = none
  allocate_impl (e ∷ es) s =
      let accessed = e.before_access s in
      let at_cas = e.before_cas accessed in
      elim (allocate_round s accessed at_cas e.spurious) [
        | none ↦ allocate_impl es at_cas
        | some r ↦ some r
      ]

  unfoldable pub deallocate_impl : List (Interference T) → ℕ → Freelist T → Option (Freelist T)
  unfolding deallocate_round
  deallocate_impl [] index s = none
  deallocate_impl (e ∷ es) index s =
      let linked = link (e.before_access s) index s.pool.index in
      let at_cas = e.before_cas linked in
      elim (deallocate_round index s at_cas e.spurious) [
        | none ↦ deallocate_impl es index at_cas
        | some r ↦ some r
      ]

  -- `construct<false>(arg)`: the new object overwrites the link.
  unfoldable pub construct : T → Freelist T → Option ℕ × Freelist T
  construct arg s =
      let (node_index, s') = allocate_impl_unsafe s in
      if node_index == null_handle s
      then (none, s')
      else (some node_index, write s' node_index (object arg))

  -- `destruct<false>(n)`: the difference of the pointers is narrowed to `index_t`.
  unfoldable pub destruct : ℕ → Freelist T → Freelist T
  unfolding deallocate_impl_unsafe
  destruct n s = deallocate_impl_unsafe (n % 2 ^ 16) s

  -- The rounds of `initialize` from `i` on.
  unfoldable pub initialize_loop : ℕ → ℕ → Freelist T → Freelist T
  unfolding destruct
  initialize_loop zero i s = s
  initialize_loop (suc k) i s = initialize_loop k (i + 1) (destruct i (link s i (null_handle s)))

  -- The constructor, over memory that holds anything.
  unfoldable pub fixed_size_freelist : ℕ → (ℕ → Cell T) → Freelist T
  unfolding initialize_loop
  fixed_size_freelist count memory = initialize_loop count 0 (record {
    pool = record { index = count % 2 ^ 16; tag = 0 };
    nodes = memory;
    node_count = count;
  })

module _ {T : Type 0} where
  -- `get_handle(T*)`, where `none` is the null pointer
  unfoldable pub get_handle : Option ℕ → Freelist T → ℕ
  get_handle none s = null_handle s
  get_handle (some pointer) s = pointer % 2 ^ 16

  -- `get_pointer(index_t)`
  unfoldable pub get_pointer : ℕ → Freelist T → Option ℕ
  get_pointer index s = if index == null_handle s then none else some index
