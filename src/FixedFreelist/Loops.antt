-- ===== src/FixedFreelist/Loops.antt =====
-- detail-dev/freelist.hpp, `fixed_size_freelist`: the compare-and-swap loops `allocate_impl` and
-- `deallocate_impl` while other threads change the freelist.
use zwq_repos.Prelude.{
  ℕ, ◌≡◌, ◌⊎◌, inl, inr, refl, fun_ext, Bool, not, ◌&&◌, true, false, some, List, [], ◌∷◌, ◌++◌,
  arith, Bool-cases, Option-cases, ==_refl,
}
use zwq_repos.FixedFreelist.{
  TaggedIndex, set_index, equal, freelist_node, Freelist, Interference, quiet, as_index, link,
  deallocate_impl_unsafe, deallocate_round, deallocate_impl,
}

eq_of_equal : (x y : TaggedIndex) → equal x y ≡ true → x ≡ y
eq_of_equal x y h = ground arith

equal_refl : (x : TaggedIndex) → equal x x ≡ true
equal_refl x = ground arith

module _ {T : Type 0} (raw : T → TaggedIndex) where
  -- The states in which a round of `allocate_impl` begins or tries its exchange.
  abbrev pub Visits : List (Interference T) → Freelist T → Freelist T → Type 0
  Visits [] s t = t ≡ s
  Visits (e ∷ es) s t = (t ≡ s) ⊎ Visits es (e.before_cas (e.before_access s)) t

  -- While the pool holds the same index and tag, the link of its first node stays the same. (A tag
  -- that came round after 65536 exchanges would break this.)
  abbrev pub AbaSafe : List (Interference T) → Freelist T → Type 0
  AbaSafe [] s = Unit
  AbaSafe (e ∷ es) s =
      let accessed = e.before_access s in
      let at_cas = e.before_cas accessed in
      (at_cas.pool ≡ s.pool
        → (as_index raw (accessed.nodes s.pool.index)).index
          ≡ (as_index raw (at_cas.nodes s.pool.index)).index)
      × (at_cas.node_count ≡ s.node_count)
      × AbaSafe es at_cas

  -- The states in which a round of `deallocate_impl` tries its exchange.
  abbrev pub Tries : List (Interference T) → ℕ → Freelist T → Freelist T → Type 0
  Tries [] index s t = ⊥
  Tries (e ∷ es) index s t =
      let at_cas = e.before_cas (link raw (e.before_access s) index s.pool.index) in
      (t ≡ at_cas) ⊎ Tries es index at_cas t

  -- Between the link's write and the exchange no other thread touches the node that is given back.
  abbrev pub Untouched : List (Interference T) → ℕ → Freelist T → Type 0
  Untouched [] index s = Unit
  Untouched (e ∷ es) index s =
      let linked = link raw (e.before_access s) index s.pool.index in
      let at_cas = e.before_cas linked in
      (at_cas.nodes index ≡ linked.nodes index) × Untouched es index at_cas

  -- To write a link again changes nothing.
  link_twice :
      (c : Freelist T) (index i : ℕ) (n : TaggedIndex)
      → c.nodes index ≡ freelist_node (set_index i n)
      → (link raw c index i).nodes ≡ c.nodes
  link_twice c index i n h = fun_ext λ j. ground arith

  deallocate_round_quiet :
      (index : ℕ) (s : Freelist T)
      → deallocate_round index s (link raw s index s.pool.index) false
        ≡ some (deallocate_impl_unsafe raw index (link raw s index s.pool.index))
  unfolding deallocate_round deallocate_impl_unsafe
  deallocate_round_quiet index s =
      let c = link raw s index s.pool.index in
      let same =
        link_twice c index s.pool.index (as_index raw (s.nodes index))
          (ground (arith, ==_refl index)) in
      rw (equal_refl s.pool, same)

  deallocate_round_lem :
      (index : ℕ) (s a c : Freelist T) (spurious : Bool) {r : Freelist T}
      → c.nodes index ≡ (link raw a index s.pool.index).nodes index
      → deallocate_round index s c spurious ≡ some r
      → r ≡ deallocate_impl_unsafe raw index c
  unfolding deallocate_round deallocate_impl_unsafe
  deallocate_round_lem index s a c spurious kept h =
      elim (Bool-cases (not spurious && equal c.pool s.pool)) [
        | inl swap ↦
            let e = eq_of_equal c.pool s.pool (ground arith) in
            let same =
              link_twice c index c.pool.index (as_index raw (a.nodes index))
                (ground (arith, ==_refl index)) in
            ground arith
        | inr fails ↦ absurd (ground arith)
      ]

  -- `deallocate_impl`, however often its exchange fails, returns by the first round without
  -- interference, and leaves what the plain deallocation leaves when it is run alone in one of the
  -- states in which an exchange was tried, provided that no other thread writes to the node.
  pub deallocate_impl_linear :
      (es : List (Interference T)) (index : ℕ) (s : Freelist T)
      → Untouched (es ++ quiet ∷ []) index s
      → (t : Freelist T) × Tries (es ++ quiet ∷ []) index s t
        × (deallocate_impl raw (es ++ quiet ∷ []) index s
            ≡ some (deallocate_impl_unsafe raw index t))
  unfolding deallocate_impl
  deallocate_impl_linear [] index s h =
      let linked = link raw s index s.pool.index in
      (linked, inl refl, rw (deallocate_round_quiet index s, deallocate_impl))
  deallocate_impl_linear (e ∷ es) index s (kept, rest) =
      let a = e.before_access s in
      let c = e.before_cas (link raw a index s.pool.index) in
      elim (Option-cases (deallocate_round index s c e.spurious)) [
        | inl again ↦
            let (t, v, r) = deallocate_impl_linear es index c rest in
            (t, inr v, rw (again, deallocate_impl) r)
        | inr (r, done) ↦ (
          c,
          inl refl,
          rw (done, deallocate_impl, deallocate_round_lem index s a c e.spurious kept done),
        )
      ]
