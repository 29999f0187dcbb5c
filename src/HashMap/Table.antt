-- ===== src/HashMap/Table.antt =====
-- utility/hashmap_unique.hpp and utility/hashmap_multiple.hpp: what liburcu documents of its table,
-- and the invariant of both maps.
use zwq_repos.Prelude.{
  ℕ, suc, ◌<◌, ◌≡◌, ◌≢◌, refl, Bool, true, false, not, ◌&&◌, ◌||◌, Option, some, List, [], ◌∷◌,
  ◌++◌, length, ◌==◌, ==_refl, eq_of_==, arith, Option-cases, Bool-cases, inl, inr, ◌∙◌, has,
  IsDistinct, if◌then◌else◌,
}
use zwq_repos.HashMap.{Lfht, HashMap, match_key, new_node, find}

-- `nodes` lists the nodes of a table in the order of its traversal, `stored` gives the hash with which
-- a node was added.
pub record IsLfht (H : Type 0) (m : Lfht H) (nodes : H → List ℕ) (stored : H → ℕ → ℕ) : Type 0 where
  -- A search gives a node of the table with the hash that the test accepts, or there is none.
  pub lookup_some :
      (h : ℕ) (f : ℕ → Bool) (t : H)
      → m.lookup h f t ≢ 0
      → (has (m.lookup h f t) (nodes t) ≡ true)
        × (stored t (m.lookup h f t) ≡ h)
        × (f (m.lookup h f t) ≡ true)
  pub lookup_none :
      (h : ℕ) (f : ℕ → Bool) (t : H) (n : ℕ)
      → has 0 (nodes t) ≡ false
      → m.lookup h f t ≡ 0
      → has n (nodes t) ≡ true
      → stored t n ≡ h
      → f n ≡ false
  -- A node is linked unless the search for its key finds one.
  pub unique_some :
      (h n : ℕ) (f : ℕ → Bool) (t : H) → m.lookup h f t ≢ 0 → (m.add_unique h f n t).1 ≡ t
  pub unique_none :
      (h n : ℕ) (f : ℕ → Bool) (t : H) → m.lookup h f t ≡ 0 → (m.add_unique h f n t).1 ≡ m.add h n t
  pub added :
      (h n j : ℕ) (t : H)
      → has n (nodes t) ≡ false
      → (has j (nodes (m.add h n t)) ≡ (j == n || has j (nodes t)))
        × (stored (m.add h n t) j ≡ (if j == n then h else stored t j))
  pub added_distinct :
      (h n : ℕ) (t : H)
      → has n (nodes t) ≡ false
      → IsDistinct (nodes t)
      → IsDistinct (nodes (m.add h n t)) × (length (nodes (m.add h n t)) ≡ suc (length (nodes t)))
  -- A node is unlinked once.
  pub deleted :
      (n j : ℕ) (t : H)
      → has n (nodes t) ≡ true
      → ((m.del n t).0 ≡ true)
        × (has j (nodes (m.del n t).1) ≡ (not (j == n) && has j (nodes t)))
        × (stored (m.del n t).1 j ≡ stored t j)
  pub deleted_distinct :
      (n : ℕ) (t : H)
      → has n (nodes t) ≡ true
      → IsDistinct (nodes t)
      → IsDistinct (nodes (m.del n t).1) × (length (nodes t) ≡ suc (length (nodes (m.del n t).1)))
  pub missing : (n : ℕ) (t : H) → has n (nodes t) ≡ false → m.del n t ≡ (false, t)
  pub counts : (t : H) → m.count_nodes t ≡ length (nodes t)
  -- A traversal visits the list.
  pub starts : (t : H) (n : ℕ) (r : List ℕ) → nodes t ≡ n ∷ r → m.first t ≡ n
  pub starts_empty : (t : H) → nodes t ≡ [] → m.first t ≡ 0
  pub goes_on :
      (t : H) (xs : List ℕ) (n k : ℕ) (r : List ℕ)
      → IsDistinct (nodes t)
      → nodes t ≡ xs ++ n ∷ k ∷ r
      → m.next_node n t ≡ k
  pub ends :
      (t : H) (xs : List ℕ) (n : ℕ)
      → IsDistinct (nodes t)
      → nodes t ≡ xs ++ n ∷ []
      → m.next_node n t ≡ 0

-- Every node of the table is allocated, under the hash of its key, and does not wait to be freed.
pub record WellFormed {H V : Type 0} (nodes : H → List ℕ) (stored : H → ℕ → ℕ) (hash : ℕ → ℕ)
    (s : HashMap H V) : Type 0 where
  pub nonnull : has 0 (nodes s.ht) ≡ false
  pub positive : 0 < s.next
  pub distinct : IsDistinct (nodes s.ht)
  pub linked :
      (n : ℕ)
      → has n (nodes s.ht) ≡ true
      → (k : ℕ) × (v : V) × (s.items n ≡ some (k, v)) × (stored s.ht n ≡ hash k)
  pub below : (n : ℕ) → has n (nodes s.ht) ≡ true → n < s.next
  pub kept : (n : ℕ) → has n (nodes s.ht) ≡ true → has n s.retired ≡ false
  pub waiting : (n : ℕ) → has n s.retired ≡ true → n < s.next

module _ {H V : Type 0} (m : Lfht H) (nodes : H → List ℕ) (stored : H → ℕ → ℕ) (hash : ℕ → ℕ)
    (laws : IsLfht H m nodes stored) where
  match_key-true :
      (items : ℕ → Option (ℕ × V)) (key n : ℕ)
      → match_key items key n ≡ true
      → (v : V) × (items n ≡ some (key, v))
  match_key-true items key n e = elim (Option-cases (items n)) [
    | inl none_ ↦ absurd (ground arith)
    | inr ((k, v), some_) ↦ let same : key ≡ k = eq_of_== key k (ground arith) in (v, rw same some_)
  ]

  -- `find` gives a node of the table with the key.
  pub find-some :
      (key : ℕ) (s : HashMap H V)
      → find m hash key s ≢ 0
      → (has (find m hash key s) (nodes s.ht) ≡ true)
        × ((v : V) × (s.items (find m hash key s) ≡ some (key, v)))
  unfolding find
  find-some key s nz =
      let (there, h, test) = laws.lookup_some (hash key) (match_key s.items key) s.ht nz in
      (there, match_key-true s.items key _ test)

  -- Where it gives none, no node of the table has the key.
  pub find-none :
      (key : ℕ) (s : HashMap H V)
      → WellFormed nodes stored hash s
      → find m hash key s ≡ 0
      → (n : ℕ) (v : V) → has n (nodes s.ht) ≡ true
      → s.items n ≢ some (key, v)
  unfolding find
  find-none key s wf e n v there item =
      let (k, w, item', h) = wf.linked n there in
      let same : k ≡ key = ground arith in
      let test : match_key s.items key n ≡ false =
        laws.lookup_none (hash key) (match_key s.items key) s.ht n wf.nonnull e there
          (rw same at h) in
      let test' : match_key s.items key n ≡ true = rw (item, match_key) (==_refl key) in
      absurd (ground arith)

  pub fresh_node :
      (s : HashMap H V) → WellFormed nodes stored hash s → has s.next (nodes s.ht) ≡ false
  fresh_node s wf = elim (Bool-cases (has s.next (nodes s.ht))) [
    | inl e ↦ absurd (omega (arith, wf.below s.next e))
    | inr e ↦ e
  ]

  -- Both ways of insertion start with a node that no table holds.
  pub WellFormed-add :
      (key : ℕ) (v : V) (s : HashMap H V)
      → WellFormed nodes stored hash s
      → WellFormed nodes stored hash
          (record (new_node (key, v) s).1 { ht = m.add (hash key) s.next s.ht })
  WellFormed-add key v s wf =
      let n = s.next in
      let fresh : has n (nodes s.ht) ≡ false = fresh_node s wf in
      let add = λ (j : ℕ). laws.added (hash key) n j s.ht fresh in
      record {
        nonnull = ground (arith, add 0, wf.nonnull, wf.positive);
        positive = ground arith;
        distinct = (laws.added_distinct (hash key) n s.ht fresh wf.distinct).0;
        linked = λ j there. linked_add j there;
        below = λ j there. ground (arith, add j, wf.below j);
        kept = λ j there. ground (arith, add j, wf.kept j, wf.waiting j);
        waiting = λ j there. ground (arith, wf.waiting j);
      }
    where
      linked_add :
          (j : ℕ)
          → has j (nodes (m.add (hash key) s.next s.ht)) ≡ true
          → (k : ℕ) × (w : V) × ((if j == s.next then some (key, v) else s.items j) ≡ some (k, w))
            × (stored (m.add (hash key) s.next s.ht) j ≡ hash k)
      linked_add j there =
          let (has_, hash_) = laws.added (hash key) s.next j s.ht (fresh_node s wf) in
          elim (Bool-cases (j == s.next)) [
            | inl e ↦ (key, v, rw e refl, hash_ ∙ rw e refl)
            | inr e ↦
                let (k, w, item, h) = wf.linked j (ground arith) in
                (k, w, rw e item, hash_ ∙ rw e h)
          ]
