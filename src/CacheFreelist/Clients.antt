-- ===== src/CacheFreelist/Clients.antt =====
-- detail-dev/freelist.hpp, `cache_freelist`: what a client of the freelist on one thread can rely on
-- over any sequence of calls, up to the destructor.
use zwq_repos.Prelude.{ℕ, ◌<◌, ◌≡◌, ◌≢◌, Bool, true, false, none, some, arith, length}
use zwq_repos.CacheFreelist.{TaggedNodePtr, Alloc, IsAlloc, Cell, object, Mode, construct, release}
use zwq_repos.CacheFreelist.Stack.{give_back, release_loop_lem}
use zwq_repos.CacheFreelist.Owned.{
  Client, is_live, Reach, start, IsOwned-Reach, IsOwned-start, construct_unused,
  outstanding-give_back,
}

module _ {A T : Type 0} (m : Alloc A) (raw : T → TaggedNodePtr) (outstanding : A → ℕ → Bool) where
  -- With an allocator that gives out fresh storage and had given out none before: after any calls
  -- of construct, destruct and reserve on a new freelist, every object that was constructed and not
  -- destructed stands in its node, which is not null and still belongs to the freelist, and the
  -- next construct gives a node that is not in use; it gives null only where it is bounded.
  pub construct_fresh :
      (failures : ℕ → ℕ) (n : ℕ) (memory : ℕ → Cell T) (a : A) (s : Client A T) (mode : Mode)
      (bounded : Bool) (arg : T)
      → IsAlloc A m outstanding
      → ((j : ℕ) → outstanding a j ≡ false)
      → Reach m raw (start m raw failures n memory a) s
      → (s.live (construct m raw mode bounded arg s.list).0 ≡ none)
        × ((construct m raw mode bounded arg s.list).0 ≡ 0 → bounded ≡ true)
        × ((j : ℕ) (t : T)
            → s.live j ≡ some t
            → (j ≢ 0) × (s.list.memory j ≡ object t) × (outstanding s.list.alloc j ≡ true))
  construct_fresh failures n memory a s mode bounded arg laws empty r =
      let (xs, o) =
        IsOwned-Reach m raw outstanding laws
          (IsOwned-start m raw outstanding laws failures n memory a empty) r in
      let (unused, null) = construct_unused m raw outstanding laws mode bounded arg s xs o in
      (unused, null, λ j t l. ground (arith, o.kept j t, o.owned j))

  -- With an allocator that gives out fresh storage and had given out none before: after any calls
  -- of construct, destruct and reserve on a new freelist, the destructor ends, whatever the storage
  -- that was given back holds, and of the storage that the allocator gave out only that of the
  -- objects that were not destructed is left.
  pub release-live :
      (junk : ℕ → Cell T) (failures : ℕ → ℕ) (n : ℕ) (memory : ℕ → Cell T) (a : A) (s : Client A T)
      → IsAlloc A m outstanding
      → ((j : ℕ) → outstanding a j ≡ false)
      → Reach m raw (start m raw failures n memory a) s
      → (b : A) × (rounds : ℕ) × ((fuel : ℕ)
          → rounds < fuel
          → release m raw junk fuel s.list ≡ some b)
        × ((j : ℕ) → outstanding b j ≡ is_live (s.live j))
  unfolding release
  release-live junk failures n memory a s laws empty r =
      let (xs, o) =
        IsOwned-Reach m raw outstanding laws
          (IsOwned-start m raw outstanding laws failures n memory a empty) r in
      (
        give_back m raw xs s.list.alloc,
        length xs,
        λ fuel lt.
            release_loop_lem m raw junk xs fuel s.list.cache_pool.ptr s.list.memory s.list.alloc
              o.holds.chain o.holds.distinct lt,
        λ j.
            outstanding-give_back m raw outstanding laws s.live xs s.list.alloc j o.holds.distinct
              o.owned o.apart,
      )
