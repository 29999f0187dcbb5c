-- ===== src/CacheFreelist.antt =====
-- detail-dev/freelist.hpp: `cache_freelist`, a stack of free nodes that its allocator has given. A
-- pointer is a number, 0 for null. A tagged pointer is its two parts, the tag of 16 bits as in
-- detail-dev/tagged_ptr_ptrcompression.hpp. The allocator is a parameter. Only one thread runs, so
-- that a weak exchange can only fail for no reason, which it does a given number of times.
pub mod Stack
pub mod Owned
pub mod Clients
mod Examples
use zwq_repos.Prelude.{
  ℕ, zero, suc, ◌+◌, ◌%◌, ◌^◌, ◌≢◌, ◌≡◌, Bool, true, false, not, ◌&&◌, ◌||◌, Option, none, some,
  ◌==◌, if◌then◌else◌,
}

pub record TaggedNodePtr : Type 0 where
  pub ptr : ℕ
  pub tag : ℕ

abbrev pub set_ptr : ℕ → TaggedNodePtr → TaggedNodePtr
set_ptr p self = record self { ptr = p }

abbrev pub get_next_tag : TaggedNodePtr → ℕ
get_next_tag self = (self.tag + 1) % 2 ^ 16

-- `Alloc::allocate(1)` and `Alloc::deallocate(p, 1)` on an allocator's state.
pub record Alloc (A : Type 0) : Type 0 where
  pub allocate : A → ℕ × A
  pub deallocate : ℕ → A → A

-- What an allocator promises, where `outstanding` tells the storage that is given out: storage is
-- fresh and not null, and may be given back while it is given out.
pub record IsAlloc (A : Type 0) (m : Alloc A) (outstanding : A → ℕ → Bool) : Type 0 where
  pub fresh : (a : A) → outstanding a (m.allocate a).0 ≡ false
  pub nonnull : (a : A) → (m.allocate a).0 ≢ 0
  pub allocated :
      (a : A) (j : ℕ) → outstanding (m.allocate a).1 j ≡ (j == (m.allocate a).0 || outstanding a j)
  pub deallocated :
      (a : A) (p j : ℕ)
      → outstanding a p ≡ true
      → outstanding (m.deallocate p a) j ≡ (not (j == p) && outstanding a j)

-- The bytes of one node.
pub data Cell (T : Type 0) : Type 0 where
  freelist_node : TaggedNodePtr → Cell T
  object : T → Cell T

-- `cache_pool`, the memory and the allocator.
pub record Cache (A T : Type 0) : Type 0 where
  pub cache_pool : TaggedNodePtr
  pub memory : ℕ → Cell T
  pub alloc : A

-- The parameter `__threadsafe`: with it, how often the exchange of the loop fails.
pub data Mode : Type 0 where
  unsafe : Mode
  threadsafe : ℕ → Mode

abbrev pub write : {A T : Type 0} → Cache A T → ℕ → Cell T → Cache A T
write s i c = record s { memory = λ j. if j == i then c else s.memory j }

-- `raw` is what a live object's bytes read as.
module _ {T : Type 0} (raw : T → TaggedNodePtr) where
  abbrev pub as_node : Cell T → TaggedNodePtr
  as_node (freelist_node n) = n
  as_node (object t) = raw t

module _ {A T : Type 0} (raw : T → TaggedNodePtr) where
  -- `new_pool->next.set_ptr(p)`
  abbrev pub link : Cache A T → ℕ → ℕ → Cache A T
  link s n p = write s n (freelist_node (set_ptr p (as_node raw (s.memory n))))

  unfoldable pub deallocate_impl_unsafe : ℕ → Cache A T → Cache A T
  deallocate_impl_unsafe n s =
      let old_pool = s.cache_pool in
      let new_pool : TaggedNodePtr = record { ptr = n; tag = old_pool.tag } in
      record (link s n old_pool.ptr) { cache_pool = new_pool }

  unfoldable pub deallocate_impl : ℕ → ℕ → Cache A T → Cache A T
  deallocate_impl zero n s =
      let old_pool = s.cache_pool in
      let new_pool : TaggedNodePtr = record { ptr = n; tag = old_pool.tag } in
      record (link s n old_pool.ptr) { cache_pool = new_pool }
  deallocate_impl (suc failures) n s = deallocate_impl failures n (link s n s.cache_pool.ptr)

  unfoldable pub deallocate : Mode → ℕ → Cache A T → Cache A T
  deallocate unsafe n s = deallocate_impl_unsafe n s
  deallocate (threadsafe failures) n s = deallocate_impl failures n s

  -- `destruct<__threadsafe>(tagged_ptr_f)` with the pointer `n`
  unfoldable pub destruct : Mode → ℕ → Cache A T → Cache A T
  destruct mode n s = deallocate mode n s

module _ {A T : Type 0} (m : Alloc A) (raw : T → TaggedNodePtr) where
  -- `none` is the exchange that failed.
  unfoldable pub allocate_round : Bool → Bool → Cache A T → Option (ℕ × Cache A T)
  allocate_round bounded fails s =
      let old_pool = s.cache_pool in
      let new_pool : TaggedNodePtr = record {
        ptr = (as_node raw (s.memory old_pool.ptr)).ptr;
        tag = get_next_tag old_pool;
      } in
      if old_pool.ptr == 0
      then (if not bounded
          then some ((m.allocate s.alloc).0, record s { alloc = (m.allocate s.alloc).1 })
          else some (0, s))
      else if fails
      then none
      else some (old_pool.ptr, record s { cache_pool = new_pool })

  unfoldable pub allocate_impl_unsafe : Bool → Cache A T → ℕ × Cache A T
  allocate_impl_unsafe bounded s =
      let old_pool = s.cache_pool in
      let new_pool : TaggedNodePtr = record {
        ptr = (as_node raw (s.memory old_pool.ptr)).ptr;
        tag = get_next_tag old_pool;
      } in
      if old_pool.ptr == 0
      then (if not bounded
          then ((m.allocate s.alloc).0, record s { alloc = (m.allocate s.alloc).1 })
          else (0, s))
      else (old_pool.ptr, record s { cache_pool = new_pool })

  -- The exchange after the last failure succeeds.
  unfoldable pub allocate_impl : Bool → ℕ → Cache A T → ℕ × Cache A T
  unfolding allocate_round
  allocate_impl bounded zero s = elim (allocate_round bounded false s) [
    | none ↦ (0, s)
    | some r ↦ r
  ]
  allocate_impl bounded (suc failures) s = elim (allocate_round bounded true s) [
    | none ↦ allocate_impl bounded failures s
    | some r ↦ r
  ]

  unfoldable pub allocate : Mode → Bool → Cache A T → ℕ × Cache A T
  allocate unsafe bounded s = allocate_impl_unsafe bounded s
  allocate (threadsafe failures) bounded s = allocate_impl bounded failures s

  -- `construct<__threadsafe, __bounded>(arg)`
  unfoldable pub construct : Mode → Bool → T → Cache A T → ℕ × Cache A T
  construct mode bounded arg s =
      let (node, s') = allocate mode bounded s in
      (node, if node == 0 then s' else write s' node (object arg))

  unfoldable pub reserve : Mode → ℕ → Cache A T → Cache A T
  reserve mode zero s = s
  reserve mode (suc count) s =
      let (node, a) = m.allocate s.alloc in
      reserve mode count (deallocate raw mode node (record s { alloc = a }))

  -- The rounds of the constructor, with the failures of `destruct<true>` in each.
  unfoldable pub construct_loop : (ℕ → ℕ) → ℕ → Cache A T → Cache A T
  construct_loop failures zero s = s
  construct_loop failures (suc n) s =
      let (node, a) = m.allocate s.alloc in
      construct_loop failures n
        (destruct raw (threadsafe (failures n)) node (record s { alloc = a }))

  -- The constructor from an allocator, over memory that holds anything.
  unfoldable pub cache_freelist : (ℕ → ℕ) → ℕ → (ℕ → Cell T) → A → Cache A T
  cache_freelist failures n memory a =
      construct_loop failures n
        (record { cache_pool = record { ptr = 0; tag = 0 }; memory = memory; alloc = a })

-- `junk` is what storage holds after it is given back.
module _ {A T : Type 0} (m : Alloc A) (raw : T → TaggedNodePtr) (junk : ℕ → Cell T) where
  -- The loop of the destructor from the node `current` on, and what it leaves of the allocator;
  -- `none` when it is still running after so many rounds.
  unfoldable pub release_loop : ℕ → ℕ → (ℕ → Cell T) → A → Option A
  release_loop zero current memory a = none
  release_loop (suc fuel) current memory a =
      let next = (as_node raw (memory current)).ptr in
      let rest =
        release_loop fuel next (λ j. if j == current then junk j else memory j)
          (m.deallocate current a) in
      if current == 0 then some a else rest

  unfoldable pub release : ℕ → Cache A T → Option A
  release fuel s = release_loop fuel s.cache_pool.ptr s.memory s.alloc
