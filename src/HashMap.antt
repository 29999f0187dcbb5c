-- ===== src/HashMap.antt =====
-- utility/hashmap_unique.hpp and utility/hashmap_multiple.hpp: maps over the hash table of liburcu,
-- which is a parameter. A node is a number, 0 for NULL; keys are numbers. The two headers differ in
-- `insert`. What `call_rcu` will free stands in a list until a grace period has passed.
pub mod Table
pub mod Unique
pub mod Remove
pub mod Leak
pub mod Multiple
pub mod Walk
pub mod Iterate
pub mod New
pub mod Chain
mod Examples
use zwq_repos.Prelude.{
  ℕ, zero, suc, ◌+◌, Bool, true, false, not, ◌&&◌, ◌||◌, Option, none, some, List, [], ◌∷◌, ◌==◌,
  has, if◌then◌else◌,
}

-- The functions of urcu/rculfhash.h on a table's state. `lookup` gives a node with the hash that the
-- test accepts, or NULL; `add_unique` the node that stands in the table afterwards; `del` whether the
-- node was there.
pub record Lfht (H : Type 0) : Type 0 where
  pub lookup : ℕ → (ℕ → Bool) → H → ℕ
  pub add : ℕ → ℕ → H → H
  pub add_unique : ℕ → (ℕ → Bool) → ℕ → H → ℕ × H
  pub del : ℕ → H → Bool × H
  pub first : H → ℕ
  pub next_node : ℕ → H → ℕ
  pub count_nodes : H → ℕ

-- The table, the allocated nodes with their `kvItem`, the next address of `malloc`, and the nodes
-- that wait to be freed.
pub record HashMap (H V : Type 0) : Type 0 where
  pub ht : H
  pub items : ℕ → Option (ℕ × V)
  pub next : ℕ
  pub retired : List ℕ

module _ {V : Type 0} where
  -- `match`
  abbrev pub match_key : (ℕ → Option (ℕ × V)) → ℕ → ℕ → Bool
  match_key items key n = elim (items n) [ none ↦ false | some kv ↦ key == kv.0 ]

  -- `(*iter).second`; `none` where the iterator is at the end, which C++ leaves undefined.
  abbrev pub second : ℕ → (ℕ → Option (ℕ × V)) → Option V
  second iter items =
      if iter == 0 then none else elim (items iter) [ none ↦ none | some kv ↦ some kv.1 ]

  -- One call of `func`.
  abbrev pub visit : {W : Type 0} → (ℕ × V → W → W) → Option (ℕ × V) → W → W
  visit func none w = w
  visit func (some kv) w = func kv w

module _ {H V : Type 0} where
  -- `malloc`, and `node->kvItem = kvpair`
  abbrev pub new_node : ℕ × V → HashMap H V → ℕ × HashMap H V
  new_node kvpair s = (
    s.next,
    record s { items = λ j. if j == s.next then some kvpair else s.items j; next = s.next + 1 },
  )

  -- The grace period passes: `free_node` for each node that waits.
  unfoldable pub grace_period : HashMap H V → HashMap H V
  grace_period s = record s {
    items = λ j. if has j s.retired then none else s.items j;
    retired = [];
  }

module _ {H V : Type 0} (m : Lfht H) (hash : ℕ → ℕ) where
  -- `insert` of hashmap_unique.hpp: what `cds_lfht_add_unique` returns is dropped.
  unfoldable pub insert : ℕ × V → HashMap H V → HashMap H V
  insert kvpair s =
      let (node, s') = new_node kvpair s in
      record s' { ht = (m.add_unique (hash kvpair.0) (match_key s'.items kvpair.0) node s'.ht).1 }

  -- `insert` of hashmap_multiple.hpp
  unfoldable pub insert_multiple : ℕ × V → HashMap H V → HashMap H V
  insert_multiple kvpair s =
      let (node, s') = new_node kvpair s in record s' { ht = m.add (hash kvpair.0) node s'.ht }

  -- `find`: the node of the iterator, NULL for `end()`.
  unfoldable pub find : ℕ → HashMap H V → ℕ
  find key s = m.lookup (hash key) (match_key s.items key) s.ht

  -- `operator[]`
  unfoldable pub at_key : ℕ → HashMap H V → Option V
  unfolding find
  at_key key s = second (find key s) s.items

  -- `remove`, where other threads do `others` between the search and the deletion. When the deletion
  -- fails, the iterator still holds its node, so that the key counts as not found.
  unfoldable pub remove : (H → H) → ℕ → HashMap H V → ℕ × HashMap H V
  unfolding find
  remove others key s =
      let ht_node = find key s in
      let (deleted, t) = m.del ht_node (others s.ht) in
      if ht_node == 0
      then (0, s)
      else if deleted
      then (1, record s { ht = t; retired = ht_node ∷ s.retired })
      else (0, record s { ht = t })

module _ {H V : Type 0} (m : Lfht H) where
  -- `size`
  unfoldable pub size : HashMap H V → ℕ
  size s = m.count_nodes s.ht

  -- The rounds of `for_each` from the node `iter` on; `none` when it is still running after so many.
  unfoldable pub for_each_loop : {W : Type 0} → (ℕ × V → W → W) → ℕ → ℕ → HashMap H V → W → Option W
  for_each_loop func zero iter s w = none
  for_each_loop func (suc fuel) iter s w =
      let rest = for_each_loop func fuel (m.next_node iter s.ht) s (visit func (s.items iter) w) in
      if iter == 0 then some w else rest

  unfoldable pub for_each : {W : Type 0} → (ℕ × V → W → W) → ℕ → HashMap H V → W → Option W
  unfolding for_each_loop
  for_each func fuel s w = for_each_loop func fuel (m.first s.ht) s w

  -- `begin`; an iterator is the node of its `iter`.
  unfoldable pub begin : HashMap H V → ℕ
  begin s = m.first s.ht

  -- `operator++()`
  unfoldable pub increment : ℕ → HashMap H V → ℕ
  increment iter s = m.next_node iter s.ht

  -- `operator++(int)`: the iterator from before, and the one after.
  unfoldable pub post_increment : ℕ → HashMap H V → ℕ × ℕ
  unfolding increment
  post_increment iter s = (iter, increment iter s)

-- `end`
abbrev pub end_node : ℕ
end_node = 0

-- `operator==` and `operator!=`
abbrev pub same_node : ℕ → ℕ → Bool
same_node a b = a == b

abbrev pub not_equal : ℕ → ℕ → Bool
not_equal a b = not (same_node a b)

-- `operator*`; `none` at the end, which C++ leaves undefined.
abbrev pub dereference : {V : Type 0} → ℕ → (ℕ → Option (ℕ × V)) → Option (ℕ × V)
dereference iter items = if iter == 0 then none else items iter
