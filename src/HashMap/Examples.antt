-- ===== src/HashMap/Examples.antt =====
-- Runs of both maps, and their theorems at concrete states.
use zwq_repos.Prelude.{
  List, ℕ, ◌+◌, ◌≡◌, refl, some, none, [], if◌then◌else◌, ◌==◌, arith, Option, ◌≤◌, ◌^◌, ◌||◌, inr,
}
use zwq_repos.HashMap.{HashMap, insert, insert_multiple, find, at_key, remove, grace_period}
use zwq_repos.HashMap.Chain.{Chain, chain, chain-IsLfht, empty_chain}
use native.Mathlib.Nat.{one-le-pow}
use zwq_repos.Power2.{power2, power2_loop}
use zwq_repos.HashMap.Iterate.{collect, calls, collect-for_each}
use zwq_repos.HashMap.{begin, for_each}
use zwq_repos.HashMap.New.{hashmap, IsLfhtNew, hashmap-some}
use zwq_repos.HashMap.Table.{WellFormed}
use zwq_repos.HashMap.Unique.{IsMap, or_else, is_some, insert-at_key}
use zwq_repos.HashMap.Remove.{remove-at_key}
use zwq_repos.HashMap.Multiple.{entry, insert_multiple-entry}
use zwq_repos.HashMap.Leak.{here, next_step, removes, passes, IsLost, insert_present-IsLost}

abbrev hash : ℕ → ℕ
hash k = k + 1

abbrev empty : HashMap Chain ℕ
empty = record { ht = empty_chain; items = λ _. none; next = 1; retired = [] }

empty-IsMap : IsMap chain (λ t. t.list) (λ t. t.hash_of) hash empty
empty-IsMap = record {
  well_formed = record {
    nonnull = refl;
    positive = omega arith;
    distinct = tt;
    linked = λ n there. absurd (ground arith);
    below = λ n there. absurd (ground arith);
    kept = λ n there. refl;
    waiting = λ n there. absurd (ground arith);
  };
  unique = λ n p k v w there there' item item'. absurd (ground arith);
}

abbrev one : HashMap Chain ℕ
one = insert chain hash (7, 70) empty

one-IsMap : IsMap chain (λ t. t.list) (λ t. t.hash_of) hash one
one-IsMap =
    (insert-at_key chain (λ t. t.list) (λ t. t.hash_of) hash chain-IsLfht 7 70 empty empty-IsMap).0

insert-at_key_example :
    IsMap chain (λ t. t.list) (λ t. t.hash_of) hash (insert chain hash (7, 71) one)
    × ((j : ℕ)
        → at_key chain hash j (insert chain hash (7, 71) one) ≡ (
            if j == 7
            then some (or_else (at_key chain hash 7 one) 71)
            else at_key chain hash j one))
insert-at_key_example =
    insert-at_key chain (λ t. t.list) (λ t. t.hash_of) hash chain-IsLfht 7 71 one one-IsMap

remove-at_key_example :
    IsMap chain (λ t. t.list) (λ t. t.hash_of) hash (remove chain hash (λ t. t) 7 one).1
    × ((remove chain hash (λ t. t) 7 one).0 ≡ (if is_some (at_key chain hash 7 one) then 1 else 0))
    × ((j : ℕ)
        → at_key chain hash j (remove chain hash (λ t. t) 7 one).1
          ≡ (if j == 7 then none else at_key chain hash j one))
remove-at_key_example =
    remove-at_key chain (λ t. t.list) (λ t. t.hash_of) hash chain-IsLfht 7 one one-IsMap

one_present : at_key chain hash 7 one ≡ some 70
unfolding insert at_key find chain
one_present = refl

-- The second insertion of the key 7 loses the node 2, also after the key is removed.
insert_present-IsLost_example :
    IsLost chain
      (λ t. t.list)
      (λ t. t.hash_of)
      hash
      2
      (grace_period (remove chain hash (λ t. t) 7 (insert chain hash (7, 71) one)).1)
unfolding insert chain
insert_present-IsLost_example =
    insert_present-IsLost chain (λ t. t.list) (λ t. t.hash_of) hash chain-IsLfht 7 71 one
      (grace_period (remove chain hash (λ t. t) 7 (insert chain hash (7, 71) one)).1) one-IsMap
      (λ e. ground (arith, one_present, e)) (next_step (next_step here (removes 7)) passes)

insert_multiple-entry_example :
    WellFormed (λ t. t.list) (λ t. t.hash_of) hash (insert_multiple chain hash (7, 71) one)
    × (entry chain (λ t. t.list) (λ t. t.hash_of) hash one one.next ≡ none)
    × ((j : ℕ)
        → entry chain (λ t. t.list) (λ t. t.hash_of) hash (insert_multiple chain hash (7, 71) one) j
          ≡ (if j == one.next
              then some (7, 71)
              else entry chain (λ t. t.list) (λ t. t.hash_of) hash one j))
    × ((w : ℕ) × (entry chain
            (λ t. t.list)
            (λ t. t.hash_of)
            hash
            (insert_multiple chain hash (7, 71) one)
            (find chain hash 7 (insert_multiple chain hash (7, 71) one))
          ≡ some (7, w)))
insert_multiple-entry_example =
    insert_multiple-entry chain (λ t. t.list) (λ t. t.hash_of) hash chain-IsLfht 7 71 one
      one-IsMap.well_formed

-- A table of its three sizes, refused where the first or the second is 0.
abbrev sizes : ℕ → ℕ → ℕ → Option (ℕ × ℕ × ℕ)
sizes init min max = if init == 0 || min == 0 then none else some (init, min, max)

sizes-IsLfhtNew : IsLfhtNew sizes
sizes-IsLfhtNew = record {
  creates = λ init min max (i, e) (j, e') limit.
      let positive : 1 ≤ 2 ^ i = one-le-pow i 2 (omega arith) in
      let positive' : 1 ≤ 2 ^ j = one-le-pow j 2 (omega arith) in
      ((init, min, max), ground (arith, e, e', positive, positive'));
}

hashmap-some_example : (t : ℕ × ℕ × ℕ) × (hashmap sizes 6 3 100 ≡ some t)
hashmap-some_example =
    hashmap-some sizes sizes-IsLfhtNew 6 3 100 (omega arith) (omega arith) (omega arith)
      (omega arith) (inr (omega arith, omega arith))

hashmap_runs : (hashmap sizes 6 3 0 ≡ some (8, 4, 0)) × (hashmap sizes 0 0 0 ≡ none)
unfolding hashmap power2 power2_loop
hashmap_runs = (refl, refl)

collect-for_each_example :
    (kvs : List (ℕ × ℕ)) × (collect chain 2 (begin chain one) one ≡ some kvs)
    × ((w : ℕ) → for_each chain (λ kv x. kv.1 + x) 2 one w ≡ some (calls (λ kv x. kv.1 + x) kvs w))
unfolding insert chain
collect-for_each_example =
    collect-for_each chain (λ t. t.list) (λ t. t.hash_of) hash (λ kv x. kv.1 + x) chain-IsLfht 2 one
      one-IsMap.well_formed (omega arith)
