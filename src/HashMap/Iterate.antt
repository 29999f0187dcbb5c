-- ===== src/HashMap/Iterate.antt =====
-- utility/hashmap_unique.hpp: the iterators, against `for_each`.
use zwq_repos.Prelude.{
  ℕ, zero, suc, ◌<◌, ◌≡◌, refl, sym, ap, ◌∙◌, true, false, Option, none, some, List, [], ◌∷◌, ◌++◌,
  length, ◌==◌, has, arith, if◌then◌else◌,
}
use mathlib.Core.List.{append_assoc}
use zwq_repos.HashMap.{
  Lfht, HashMap, visit, for_each, begin, increment, post_increment, end_node, not_equal,
  dereference,
}
use zwq_repos.HashMap.Table.{IsLfht, WellFormed}
use zwq_repos.HashMap.Walk.{visits, for_each-visits, has-middle}

module _ {H V : Type 0} (m : Lfht H) where
  -- The entries that a loop from `iter` to `end()` sees, with `it++`; `none` when it is still running
  -- after so many rounds, or has no entry to give.
  unfoldable pub collect : ℕ → ℕ → HashMap H V → Option (List (ℕ × V))
  unfolding post_increment increment
  collect zero iter s = none
  collect (suc fuel) iter s =
      let (old, next) = post_increment m iter s in
      let rest = collect fuel next s in
      if not_equal iter end_node
      then elim (dereference old s.items) [
        | none ↦ none
        | some kv ↦ elim rest [ none ↦ none | some kvs ↦ some (kv ∷ kvs) ]
      ]
      else some []

-- One call of the function for each entry.
abbrev pub calls {ℓ ℓ'} : {A : Type ℓ} {W : Type ℓ'} → (A → W → W) → List A → W → W
calls func [] w = w
calls func (x ∷ xs) w = calls func xs (func x w)

module _ {H V W : Type 0} (m : Lfht H) (nodes : H → List ℕ) (stored : H → ℕ → ℕ) (hash : ℕ → ℕ)
    (func : ℕ × V → W → W) (laws : IsLfht H m nodes stored) where
  collect_end : (fuel : ℕ) (s : HashMap H V) → 0 < fuel → collect m fuel 0 s ≡ some []
  unfolding collect
  collect_end zero s lt = absurd (omega arith)
  collect_end (suc fuel) s lt = refl

  -- One round of the loop.
  collect_round :
      (fuel n next : ℕ) (s : HashMap H V) (kv : ℕ × V) (kvs : List (ℕ × V))
      → (n == 0) ≡ false
      → s.items n ≡ some kv
      → m.next_node n s.ht ≡ next
      → collect m fuel next s ≡ some kvs
      → collect m (suc fuel) n s ≡ some (kv ∷ kvs)
  unfolding collect increment post_increment
  collect_round fuel n next s kv kvs n' item goes rest = rw (n', item, goes, rest) refl

  -- From a node of the list the loop sees the entries of this node and of those after it.
  collect_from :
      (xs : List ℕ) (n : ℕ) (r : List ℕ) (fuel : ℕ) (s : HashMap H V)
      → WellFormed nodes stored hash s
      → nodes s.ht ≡ xs ++ n ∷ r
      → suc (length r) < fuel
      → (kvs : List (ℕ × V)) × (collect m fuel n s ≡ some kvs)
        × ((w : W) → visits m nodes stored hash func (n ∷ r) s.items w ≡ calls func kvs w)
  collect_from xs n r zero s wf e lt = absurd (omega arith)
  collect_from xs n [] (suc fuel) s wf e lt =
      let there : has n (nodes s.ht) ≡ true = ap (has n) e ∙ has-middle xs n [] in
      let (k, v, item, _) = wf.linked n there in
      let n' : (n == 0) ≡ false = ground (arith, there, wf.nonnull) in
      (
        (k, v) ∷ [],
        collect_round fuel n 0 s (k, v) [] n' item (laws.ends s.ht xs n wf.distinct e)
            (collect_end fuel s (omega arith)),
        λ w. ap (λ o. visit func o w) item,
      )
  collect_from xs n (j ∷ r) (suc fuel) s wf e lt =
      let there : has n (nodes s.ht) ≡ true = ap (has n) e ∙ has-middle xs n (j ∷ r) in
      let (k, v, item, _) = wf.linked n there in
      let n' : (n == 0) ≡ false = ground (arith, there, wf.nonnull) in
      let e' : nodes s.ht ≡ (xs ++ n ∷ []) ++ j ∷ r = e ∙ sym (append_assoc xs (n ∷ []) (j ∷ r)) in
      let (kvs, rest, same) = collect_from (xs ++ n ∷ []) j r fuel s wf e' (omega arith) in
      (
        (k, v) ∷ kvs,
        collect_round fuel n j s (k, v) kvs n' item (laws.goes_on s.ht xs n j r wf.distinct e) rest,
        λ w.
            ap (λ o. visits m nodes stored hash func (j ∷ r) s.items (visit func o w)) item
            ∙ same (func (k, v) w),
      )

  -- In a sound map, with one round more than the nodes, the loop from begin() to end() ends, every
  -- dereference gives an entry, and for_each gives what one call of the function for each of these
  -- entries gives, in their order.
  pub collect-for_each :
      (fuel : ℕ) (s : HashMap H V)
      → WellFormed nodes stored hash s
      → length (nodes s.ht) < fuel
      → (kvs : List (ℕ × V)) × (collect m fuel (begin m s) s ≡ some kvs)
        × ((w : W) → for_each m func fuel s w ≡ some (calls func kvs w))
  unfolding begin
  collect-for_each fuel s wf lt = by_nodes (nodes s.ht) refl
    where
      loop :
          (w : W)
          → for_each m func fuel s w ≡ some (visits m nodes stored hash func (nodes s.ht) s.items w)
      loop w = (for_each-visits m nodes stored hash func laws fuel s w wf lt).0

      by_nodes :
          (ns : List ℕ)
          → nodes s.ht ≡ ns
          → (kvs : List (ℕ × V)) × (collect m fuel (m.first s.ht) s ≡ some kvs)
            × ((w : W) → for_each m func fuel s w ≡ some (calls func kvs w))
      by_nodes [] e = (
        [],
        rw (laws.starts_empty s.ht e) (collect_end fuel s (omega arith)),
        λ w. loop w ∙ ap (λ ns. some (visits m nodes stored hash func ns s.items w)) e,
      )
      by_nodes (n ∷ r) e =
          let (kvs, all, same) = collect_from [] n r fuel s wf e (rw e at lt) in
          (
            kvs,
            rw (laws.starts s.ht n r e) all,
            λ w.
                loop w
                ∙ ap (λ ns. some (visits m nodes stored hash func ns s.items w)) e
                ∙ ap some (same w),
          )
