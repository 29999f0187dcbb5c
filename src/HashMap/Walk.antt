-- ===== src/HashMap/Walk.antt =====
-- utility/hashmap_unique.hpp and utility/hashmap_multiple.hpp: `for_each` and `size`.
use zwq_repos.Prelude.{
  ℕ, zero, suc, ◌<◌, ◌≡◌, refl, sym, ap, ◌∙◌, true, false, Option, some, List, [], ◌∷◌, ◌++◌,
  length, ◌==◌, ==_refl, has, IsDistinct, arith,
}
use mathlib.Core.List.{append_assoc}
use zwq_repos.HashMap.{Lfht, HashMap, visit, for_each_loop, for_each, size}
use zwq_repos.HashMap.Table.{IsLfht, WellFormed}

pub has-middle : (xs : List ℕ) (n : ℕ) (r : List ℕ) → has n (xs ++ n ∷ r) ≡ true
has-middle [] n r = ground (arith, ==_refl n)
has-middle (x ∷ xs) n r = ground (arith, has-middle xs n r)

module _ {H V W : Type 0} (m : Lfht H) (nodes : H → List ℕ) (stored : H → ℕ → ℕ) (hash : ℕ → ℕ)
    (func : ℕ × V → W → W) where
  -- One call for each node of the list, in order.
  abbrev pub visits : List ℕ → (ℕ → Option (ℕ × V)) → W → W
  visits [] items w = w
  visits (n ∷ r) items w = visits r items (visit func (items n) w)

  module _ (laws : IsLfht H m nodes stored) where
    for_each_loop_lem :
        (xs : List ℕ) (n : ℕ) (r : List ℕ) (fuel : ℕ) (s : HashMap H V) (w : W)
        → has 0 (nodes s.ht) ≡ false
        → IsDistinct (nodes s.ht)
        → nodes s.ht ≡ xs ++ n ∷ r
        → suc (length r) < fuel
        → for_each_loop m func fuel n s w ≡ some (visits (n ∷ r) s.items w)
    unfolding for_each_loop
    for_each_loop_lem xs n r zero s w nz d e lt = absurd (omega arith)
    for_each_loop_lem xs n [] (suc zero) s w nz d e lt = absurd (omega arith)
    for_each_loop_lem xs n [] (suc (suc fuel)) s w nz d e lt =
        let n' : (n == 0) ≡ false = ground (arith, has-middle xs n [], ap (has n) e) in
        rw (n', laws.ends s.ht xs n d e) refl
    for_each_loop_lem xs n (k ∷ r) (suc fuel) s w nz d e lt =
        let n' : (n == 0) ≡ false = ground (arith, has-middle xs n (k ∷ r), ap (has n) e) in
        let e' : nodes s.ht ≡ (xs ++ n ∷ []) ++ k ∷ r =
          e ∙ sym (append_assoc xs (n ∷ []) (k ∷ r)) in
        let rest =
          for_each_loop_lem (xs ++ n ∷ []) k r fuel s (visit func (s.items n) w) nz d e'
            (omega arith) in
        rw (n', laws.goes_on s.ht xs n k r d e) rest

    end_loop :
        (fuel : ℕ) (s : HashMap H V) (w : W) → 0 < fuel → for_each_loop m func fuel 0 s w ≡ some w
    unfolding for_each_loop
    end_loop zero s w lt = absurd (omega arith)
    end_loop (suc fuel) s w lt = refl

    -- On a well-formed table for_each ends after one round more than the table has nodes, having
    -- called the function once for each entry in the order of the traversal; size is their number.
    pub for_each-visits :
        (fuel : ℕ) (s : HashMap H V) (w : W)
        → WellFormed nodes stored hash s
        → length (nodes s.ht) < fuel
        → (for_each m func fuel s w ≡ some (visits (nodes s.ht) s.items w))
          × (size m s ≡ length (nodes s.ht))
    unfolding for_each size
    for_each-visits fuel s w wf lt = (by_nodes (nodes s.ht) refl, laws.counts s.ht)
      where
        by_nodes :
            (ns : List ℕ)
            → nodes s.ht ≡ ns
            → for_each_loop m func fuel (m.first s.ht) s w ≡ some (visits (nodes s.ht) s.items w)
        by_nodes [] e = rw (laws.starts_empty s.ht e, e) (end_loop fuel s w (omega arith))
        by_nodes (n ∷ r) e =
            rw (laws.starts s.ht n r e, e)
              (for_each_loop_lem [] n r fuel s w wf.nonnull wf.distinct e (rw e at lt))
