-- ===== src/CacheFreelist/Examples.antt =====
-- Runs of the caching freelist over an allocator that counts, and its theorems at concrete states.
use zwq_repos.Prelude.{
  ℕ, ◌+◌, ◌<◌, ◌≡◌, ◌≢◌, refl, Bool, true, false, not, ◌&&◌, ◌||◌, none, some, ◌==◌, ltb, arith,
}
use zwq_repos.CacheFreelist.{
  TaggedNodePtr, Alloc, IsAlloc, Cell, object, unsafe, threadsafe, allocate, deallocate,
  allocate_impl_unsafe, deallocate_impl_unsafe, allocate_impl, deallocate_impl, construct_loop,
  construct, destruct, reserve, cache_freelist, release,
}
use zwq_repos.CacheFreelist.Stack.{allocate-deallocate-unsafe}
use zwq_repos.CacheFreelist.Clients.{construct_fresh, release-live}
use zwq_repos.CacheFreelist.Owned.{
  Client, is_live, after_construct, after_destruct, after_reserve, Reach, here, next, constructs,
  destructs, reserves, start,
}

-- The addresses 1, …, `top` were given out, and those of `used` are not given back.
record Counter : Type 0 where
  top : ℕ
  used : ℕ → Bool

abbrev counter : Alloc Counter
counter = record {
  allocate = λ a. (a.top + 1, record { top = a.top + 1; used = λ j. j == (a.top + 1) || a.used j });
  deallocate = λ p a. record a { used = λ j. not (j == p) && a.used j };
}

abbrev given : Counter → ℕ → Bool
given a j = ltb j (a.top + 1) && a.used j

counter-IsAlloc : IsAlloc Counter counter given
counter-IsAlloc = record {
  fresh = λ a. ground arith;
  nonnull = λ a. ground arith;
  allocated = λ a j. ground arith;
  deallocated = λ a p j h. ground arith;
}

abbrev unused : Counter
unused = record { top = 0; used = λ _. false }

-- Objects are numbers, whose bytes read as a link with their value.
abbrev raw : ℕ → TaggedNodePtr
raw t = record { ptr = t; tag = 0 }

abbrev bytes : ℕ → Cell ℕ
bytes i = object (i + 7)

abbrev two : Client Counter ℕ
two = start counter raw (λ _. 1) 2 bytes unused

-- The node 2 is on top; after it is destructed it is given out again.
abbrev first : Client Counter ℕ
first = after_construct counter raw (threadsafe 2) true 50 two

abbrev second : Client Counter ℕ
second = after_destruct counter raw unsafe 2 first

abbrev third : Client Counter ℕ
third = after_construct counter raw unsafe false 60 (after_reserve counter raw unsafe 1 second)

third-Reach : Reach counter raw two third
unfolding construct cache_freelist allocate_impl_unsafe allocate allocate_impl construct_loop
    destruct deallocate deallocate_impl
third-Reach =
    next
      (next (next (next here (constructs (threadsafe 2) true 50)) (destructs unsafe 2 50 refl))
        (reserves unsafe 1))
      (constructs unsafe false 60)

lifo : ((construct counter raw unsafe true 5 second.list).0 ≡ 2) × (third.live 3 ≡ some 60)
unfolding construct cache_freelist allocate_impl_unsafe destruct reserve allocate deallocate
    deallocate_impl_unsafe allocate_impl construct_loop deallocate_impl
lifo = (refl, refl)

loops_run :
    (allocate counter raw (threadsafe 3) false second.list
      ≡ allocate_impl_unsafe counter raw false second.list)
    × (deallocate raw (threadsafe 3) 9 second.list ≡ deallocate_impl_unsafe raw 9 second.list)
loops_run = allocate-deallocate-unsafe counter raw (threadsafe 3) false 9 second.list

construct_fresh_example :
    (third.live (construct counter raw unsafe true 5 third.list).0 ≡ none)
    × ((construct counter raw unsafe true 5 third.list).0 ≡ 0 → true ≡ true)
    × ((j t : ℕ)
        → third.live j ≡ some t
        → (j ≢ 0) × (third.list.memory j ≡ object t) × (given third.list.alloc j ≡ true))
construct_fresh_example =
    construct_fresh counter raw given (λ _. 1) 2 bytes unused third unsafe true 5 counter-IsAlloc
      (λ j. ground arith) third-Reach

release-live_example :
    (b : Counter) × (rounds : ℕ) × ((fuel : ℕ)
      → rounds < fuel
      → release counter raw bytes fuel third.list ≡ some b)
    × ((j : ℕ) → given b j ≡ is_live (third.live j))
release-live_example =
    release-live counter raw given bytes (λ _. 1) 2 bytes unused third counter-IsAlloc
      (λ j. ground arith) third-Reach
