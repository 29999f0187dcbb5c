-- ===== src/FixedFreelist/Chain.antt =====
-- detail-dev/freelist.hpp, `fixed_size_freelist` run by one thread: the links form a stack of
-- distinct node indices.
use zwq_repos.Prelude.{
  ℕ, zero, suc, ◌+◌, ◌%◌, ◌^◌, ◌<◌, ◌≡◌, ◌≢◌, refl, ltb, ==_refl, true, false, none, some, List, [],
  ◌∷◌, arith, has, IsDistinct, countdown,
}
use native.Mathlib.Numerals.{add-one}
use zwq_repos.FixedFreelist.{
  TaggedIndex, Cell, object, Freelist, as_index, null_handle, link, allocate_impl_unsafe,
  deallocate_impl_unsafe, construct, destruct, initialize_loop, fixed_size_freelist,
}

pub has-countdown : (j n : ℕ) → has j (countdown n) ≡ ltb j n
has-countdown j zero = ground arith
has-countdown j (suc n) = ground (arith, has-countdown j n)

module _ {T : Type 0} (raw : T → TaggedIndex) where
  -- From the index `i` the links lead through the nodes of the list to the null handle.
  abbrev pub Links : (ℕ → Cell T) → ℕ → ℕ → List ℕ → Type 0
  Links nodes null i [] = i ≡ null
  Links nodes null i (x ∷ xs) =
      (i ≡ x) × (x < null) × Links nodes null (as_index raw (nodes x)).index xs

  -- The free nodes of `s` are those of the list, from the top of the stack down.
  pub record Holds (s : Freelist T) (xs : List ℕ) : Type 0 where
    pub small : s.node_count < 2 ^ 16
    pub chain : Links s.nodes s.node_count s.pool.index xs
    pub distinct : IsDistinct xs

  -- A write outside the chain leaves it alone.
  pub Links-frame :
      (nodes nodes' : ℕ → Cell T) (null : ℕ) (xs : List ℕ) (i : ℕ)
      → Links nodes null i xs
      → ((j : ℕ) → has j xs ≡ true → nodes' j ≡ nodes j)
      → Links nodes' null i xs
  Links-frame nodes nodes' null [] i h same = h
  Links-frame nodes nodes' null (x ∷ xs) i h same = (
    h.0,
    h.1,
    rw (same x (ground arith)) (
        Links-frame nodes nodes' null xs (as_index raw (nodes x)).index h.2
          (λ j m. same j (ground arith))),
  )

  pub allocate-Holds_nil :
      (s : Freelist T) → Holds s [] → allocate_impl_unsafe raw s ≡ (s.node_count, s)
  unfolding allocate_impl_unsafe
  allocate-Holds_nil s h = ground (arith, h.chain)

  pub allocate-Holds_cons :
      (s : Freelist T) (x : ℕ) (xs : List ℕ)
      → Holds s (x ∷ xs)
      → ((allocate_impl_unsafe raw s).0 ≡ x)
        × Holds (allocate_impl_unsafe raw s).1 xs
        × ((allocate_impl_unsafe raw s).1.nodes ≡ s.nodes)
        × ((allocate_impl_unsafe raw s).1.node_count ≡ s.node_count)
        × ((allocate_impl_unsafe raw s).1.pool.tag ≡ (s.pool.tag + 1) % 2 ^ 16)
  unfolding allocate_impl_unsafe
  allocate-Holds_cons s x xs h = ground arith

  pub deallocate-Holds :
      (s : Freelist T) (x : ℕ) (xs : List ℕ)
      → Holds s xs
      → x < s.node_count
      → has x xs ≡ false
      → Holds (deallocate_impl_unsafe raw x s) (x ∷ xs)
  unfolding deallocate_impl_unsafe
  deallocate-Holds s x xs h lt out = record {
    small = h.small;
    chain = (
      refl,
      lt,
      rw (==_refl x) (
          Links-frame s.nodes (deallocate_impl_unsafe raw x s).nodes s.node_count xs s.pool.index
            h.chain (λ j m. ground arith)),
    );
    distinct = (out, h.distinct);
  }

  Holds-link :
      (s : Freelist T) (x i : ℕ) (xs : List ℕ)
      → Holds s xs
      → has x xs ≡ false
      → Holds (link raw s x i) xs
  Holds-link s x i xs h out = record {
    small = h.small;
    chain =
        Links-frame s.nodes (link raw s x i).nodes s.node_count xs s.pool.index h.chain
          (λ j m. ground arith);
    distinct = h.distinct;
  }

  pub destruct-Holds :
      (s : Freelist T) (x : ℕ) (xs : List ℕ)
      → Holds s xs
      → x < s.node_count
      → has x xs ≡ false
      → Holds (destruct raw x s) (x ∷ xs)
  unfolding destruct
  destruct-Holds s x xs h lt out =
      let e : x % 2 ^ 16 ≡ x = omega (arith, h.small) in rw e (deallocate-Holds s x xs h lt out)

  pub node_count-destruct : (s : Freelist T) (x : ℕ) → (destruct raw x s).node_count ≡ s.node_count
  unfolding destruct
  node_count-destruct s x = refl

  initialize_loop-Holds :
      (k i : ℕ) (s : Freelist T)
      → Holds s (countdown i)
      → i + k ≡ s.node_count
      → Holds (initialize_loop raw k i s) (countdown s.node_count)
        × ((initialize_loop raw k i s).node_count ≡ s.node_count)
  unfolding initialize_loop
  initialize_loop-Holds zero i s h e =
      let all : s.node_count ≡ i = omega arith in (simp all h, refl)
  initialize_loop-Holds (suc k) i s h e =
      let out : has i (countdown i) ≡ false = ground (arith, has-countdown i i) in
      let linked = link raw s i (null_handle s) in
      let next = destruct raw i linked in
      let kept = node_count-destruct linked i in
      let start : Holds next (countdown (i + 1)) =
        rw (add-one i)
          (destruct-Holds linked i (countdown i) (Holds-link s i _ _ h out) (omega arith) out) in
      rw kept at (initialize_loop-Holds k (i + 1) next start (omega arith))

  -- A new freelist of fewer than 65536 nodes, over memory that holds anything, has all its nodes on
  -- the stack, the last one on top, each once.
  pub fixed_size_freelist-Holds :
      (count : ℕ) (memory : ℕ → Cell T)
      → count < 2 ^ 16
      → Holds (fixed_size_freelist raw count memory) (countdown count)
        × ((fixed_size_freelist raw count memory).node_count ≡ count)
  unfolding fixed_size_freelist
  fixed_size_freelist-Holds count memory small =
      initialize_loop-Holds count 0 _ (record { small = small; chain = omega arith; distinct = tt })
        (omega arith)

  construct_top :
      (arg : T) (s : Freelist T) (x : ℕ) (xs : List ℕ)
      → Holds s (x ∷ xs)
      → ((construct raw arg s).0 ≡ some x)
        × ((construct raw arg s).1.pool.index ≡ (as_index raw (s.nodes x)).index)
        × ((construct raw arg s).1.nodes x ≡ object arg)
        × ((j : ℕ) → j ≢ x → (construct raw arg s).1.nodes j ≡ s.nodes j)
        × ((construct raw arg s).1.node_count ≡ s.node_count)
  unfolding construct allocate_impl_unsafe
  construct_top arg s x xs h =
      (ground arith, ground arith, ground arith, λ j ne. ground arith, ground arith)

  -- `construct` on a stack with a node on top takes that node, which then holds the object, and
  -- leaves the rest of the stack and every other node as they were.
  pub construct-Holds_cons :
      (arg : T) (s : Freelist T) (x : ℕ) (xs : List ℕ)
      → Holds s (x ∷ xs)
      → ((construct raw arg s).0 ≡ some x)
        × Holds (construct raw arg s).1 xs
        × ((construct raw arg s).1.nodes x ≡ object arg)
        × ((j : ℕ) → j ≢ x → (construct raw arg s).1.nodes j ≡ s.nodes j)
        × ((construct raw arg s).1.node_count ≡ s.node_count)
  construct-Holds_cons arg s x xs h =
      let (got, top, there, others, count) = construct_top arg s x xs h in
      let s' = (construct raw arg s).1 in
      let next = (as_index raw (s.nodes x)).index in
      let chain =
        Links-frame s.nodes s'.nodes s.node_count xs next h.chain.2
          (λ j m. others j (ground (arith, h.distinct.0))) in
      (
        got,
        record { small = rw count h.small; chain = rw (count, top) chain; distinct = h.distinct.1 },
        there,
        others,
        count,
      )

  -- `construct` on the empty stack fails and changes nothing.
  pub construct-Holds_nil :
      (arg : T) (s : Freelist T) → Holds s [] → construct raw arg s ≡ (none, s)
  unfolding construct allocate_impl_unsafe
  construct-Holds_nil arg s h = ground (arith, h.chain)
