-- ===== src/CacheFreelist/Stack.antt =====
-- detail-dev/freelist.hpp, `cache_freelist`: the links form a stack of distinct nodes, the loops do
-- what the functions for one thread do, and the destructor gives every node of the stack back.
use zwq_repos.Prelude.{
  ℕ, zero, suc, ◌≡◌, ◌≢◌, ◌<◌, refl, ap, fun_ext, ==_refl, Bool, true, false, some, List, [], ◌∷◌,
  arith, has, length, IsDistinct, ◌==◌, if◌then◌else◌,
}
use zwq_repos.CacheFreelist.{
  TaggedNodePtr, Alloc, Cell, object, Cache, Mode, unsafe, threadsafe, as_node, write, link,
  deallocate_impl_unsafe, deallocate_impl, allocate_round, allocate_impl_unsafe, allocate_impl,
  deallocate, allocate, construct, release_loop,
}

module _ {T : Type 0} (raw : T → TaggedNodePtr) where
  -- From the pointer `i` the links lead through the nodes of the list to null.
  abbrev pub Links : (ℕ → Cell T) → ℕ → List ℕ → Type 0
  Links memory i [] = i ≡ 0
  Links memory i (x ∷ xs) = (i ≡ x) × (x ≢ 0) × Links memory (as_node raw (memory x)).ptr xs

  -- The nodes of `s` are those of the list, from the top of the stack down.
  pub record Holds {A : Type 0} (s : Cache A T) (xs : List ℕ) : Type 0 where
    pub chain : Links s.memory s.cache_pool.ptr xs
    pub distinct : IsDistinct xs

  pub Links-frame :
      (memory memory' : ℕ → Cell T) (xs : List ℕ) (i : ℕ)
      → Links memory i xs
      → ((j : ℕ) → has j xs ≡ true → memory' j ≡ memory j)
      → Links memory' i xs
  Links-frame memory memory' [] i h same = h
  Links-frame memory memory' (x ∷ xs) i h same = (
    h.0,
    h.1,
    rw (same x (ground arith)) (
        Links-frame memory memory' xs (as_node raw (memory x)).ptr h.2
          (λ j m'. same j (ground arith))),
  )

module _ {A T : Type 0} (raw : T → TaggedNodePtr) where
  link-link : (s : Cache A T) (n p : ℕ) → link raw (link raw s n p) n p ≡ link raw s n p
  link-link s n p = ap (λ mem. record s { memory = mem }) (fun_ext (λ j. ground arith))

  deallocate_impl_lem :
      (failures n : ℕ) (s : Cache A T)
      → deallocate_impl raw failures n s ≡ deallocate_impl_unsafe raw n s
  unfolding deallocate_impl deallocate_impl_unsafe
  deallocate_impl_lem zero n s = refl
  deallocate_impl_lem (suc failures) n s =
      let step = deallocate_impl_lem failures n (link raw s n s.cache_pool.ptr) in
      rw (step, link-link s n s.cache_pool.ptr) refl

  deallocate-unsafe :
      (mode : Mode) (n : ℕ) (s : Cache A T)
      → deallocate raw mode n s ≡ deallocate_impl_unsafe raw n s
  unfolding deallocate
  deallocate-unsafe unsafe n s = refl
  deallocate-unsafe (threadsafe failures) n s = deallocate_impl_lem failures n s

  pub deallocate-Holds :
      (mode : Mode) (x : ℕ) (s : Cache A T) (xs : List ℕ)
      → Holds raw s xs
      → x ≢ 0
      → has x xs ≡ false
      → Holds raw (deallocate raw mode x s) (x ∷ xs)
        × ((deallocate raw mode x s).alloc ≡ s.alloc)
        × ((j : ℕ) → j ≢ x → (deallocate raw mode x s).memory j ≡ s.memory j)
  unfolding deallocate_impl_unsafe
  deallocate-Holds mode x s xs h nz out =
      let e = deallocate-unsafe mode x s in
      let t = deallocate_impl_unsafe raw x s in
      rw e (
        record {
          chain = (
            refl,
            nz,
            rw (==_refl x) (
                Links-frame raw s.memory t.memory xs s.cache_pool.ptr h.chain
                  (λ j m'. ground arith)),
          );
          distinct = (out, h.distinct);
        },
        refl,
        λ j ne. ground arith,
      )

module _ {A T : Type 0} (m : Alloc A) (raw : T → TaggedNodePtr) where
  allocate_impl_lem :
      (bounded : Bool) (failures : ℕ) (s : Cache A T)
      → allocate_impl m raw bounded failures s ≡ allocate_impl_unsafe m raw bounded s
  unfolding allocate_impl allocate_impl_unsafe allocate_round
  allocate_impl_lem bounded zero s = ground arith
  allocate_impl_lem bounded (suc failures) s = ground (arith, allocate_impl_lem bounded failures s)

  -- Whatever `__threadsafe` is and however often the weak exchanges fail for no reason, allocate
  -- and deallocate do what their versions for one thread do.
  pub allocate-deallocate-unsafe :
      (mode : Mode) (bounded : Bool) (n : ℕ) (s : Cache A T)
      → (allocate m raw mode bounded s ≡ allocate_impl_unsafe m raw bounded s)
        × (deallocate raw mode n s ≡ deallocate_impl_unsafe raw n s)
  unfolding allocate
  allocate-deallocate-unsafe unsafe bounded n s = (refl, deallocate-unsafe raw unsafe n s)
  allocate-deallocate-unsafe (threadsafe failures) bounded n s =
      (allocate_impl_lem bounded failures s, deallocate-unsafe raw (threadsafe failures) n s)

  pub construct-Holds_cons :
      (mode : Mode) (bounded : Bool) (arg : T) (s : Cache A T) (x : ℕ) (xs : List ℕ)
      → Holds raw s (x ∷ xs)
      → ((construct m raw mode bounded arg s).0 ≡ x)
        × Holds raw (construct m raw mode bounded arg s).1 xs
        × ((construct m raw mode bounded arg s).1.memory x ≡ object arg)
        × ((j : ℕ) → j ≢ x → (construct m raw mode bounded arg s).1.memory j ≡ s.memory j)
        × ((construct m raw mode bounded arg s).1.alloc ≡ s.alloc)
  unfolding construct allocate_impl_unsafe
  construct-Holds_cons mode bounded arg s x xs h =
      let e = (allocate-deallocate-unsafe mode bounded x s).0 in
      let mem = λ (j : ℕ). if j == x then object arg else s.memory j in
      let rest =
        Links-frame raw s.memory mem xs (as_node raw (s.memory x)).ptr h.chain.2
          (λ j m'. ground (arith, h.distinct.0)) in
      ground (arith, e, rest)

  -- On the empty stack `construct` fails where it is bounded and allocates otherwise.
  pub construct-Holds_nil :
      (mode : Mode) (bounded : Bool) (arg : T) (s : Cache A T)
      → Holds raw s []
      → (m.allocate s.alloc).0 ≢ 0
      → construct m raw mode bounded arg s ≡ (
          if bounded then (0, s) else (
            (m.allocate s.alloc).0,
            write (record s { alloc = (m.allocate s.alloc).1 }) (m.allocate s.alloc).0 (object arg),
          ))
  unfolding construct allocate_impl_unsafe
  construct-Holds_nil mode bounded arg s h nz =
      let e = (allocate-deallocate-unsafe mode bounded 0 s).0 in ground (arith, e, h.chain)

  -- The allocator after the nodes of the list are given back in order.
  abbrev pub give_back : List ℕ → A → A
  give_back [] a = a
  give_back (x ∷ xs) a = give_back xs (m.deallocate x a)

  -- The destructor's loop ends after one round more than the stack has nodes, having given each
  -- back once, although what a node holds is lost when it is given back.
  pub release_loop_lem :
      (junk : ℕ → Cell T) (xs : List ℕ) (fuel i : ℕ) (memory : ℕ → Cell T) (a : A)
      → Links raw memory i xs
      → IsDistinct xs
      → length xs < fuel
      → release_loop m raw junk fuel i memory a ≡ some (give_back xs a)
  unfolding release_loop
  release_loop_lem junk xs zero i memory a h d lt = absurd (omega arith)
  release_loop_lem junk [] (suc fuel) i memory a h d lt = ground arith
  release_loop_lem junk (x ∷ xs) (suc fuel) i memory a h d lt =
      let next = (as_node raw (memory x)).ptr in
      let freed = λ (j : ℕ). if j == x then junk j else memory j in
      let rest = Links-frame raw memory freed xs next h.2 (λ j m'. ground (arith, d.0)) in
      let step =
        release_loop_lem junk xs fuel next freed (m.deallocate x a) rest d.1 (omega arith) in
      ground (arith, h.0, h.1, step)
