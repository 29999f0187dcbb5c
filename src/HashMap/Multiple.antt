-- ===== src/HashMap/Multiple.antt =====
-- utility/hashmap_multiple.hpp: the entries of the map under `insert`, `find` and `remove`. A key may
-- have several.
use zwq_repos.Prelude.{
  ℕ, ◌≡◌, ◌≢◌, refl, true, Option, none, some, List, ◌==◌, ==_refl, has, if◌then◌else◌, arith,
  Bool-cases, inl, inr,
}
use zwq_repos.HashMap.{Lfht, HashMap, insert_multiple, find, remove}
use zwq_repos.HashMap.Table.{IsLfht, WellFormed, find-some, find-none, fresh_node, WellFormed-add}

module _ {H V : Type 0} (m : Lfht H) (nodes : H → List ℕ) (stored : H → ℕ → ℕ) (hash : ℕ → ℕ) where
  -- The entry at a node of the table.
  abbrev pub entry : HashMap H V → ℕ → Option (ℕ × V)
  entry s n = if has n (nodes s.ht) then s.items n else none

  -- What a call of remove has done: it took one entry with the key and returned 1, or there was none,
  -- it returned 0 and changed nothing.
  pub data Removed (k : ℕ) (s t : HashMap H V) : ℕ → Type 0 where
    took :
        (n : ℕ) (v : V)
        → entry s n ≡ some (k, v)
        → ((j : ℕ) → entry t j ≡ (if j == n then none else entry s j))
        → Removed k s t 1
    found_none : ((n : ℕ) (v : V) → entry s n ≢ some (k, v)) → t ≡ s → Removed k s t 0

  module _ (laws : IsLfht H m nodes stored) where
    -- insert of the multiple map keeps the table well-formed and adds one entry at a new node: every
    -- other entry stays, also one with the same key. A search for the key then finds an entry of it.
    pub insert_multiple-entry :
        (k : ℕ) (v : V) (s : HashMap H V)
        → WellFormed nodes stored hash s
        → WellFormed nodes stored hash (insert_multiple m hash (k, v) s)
          × (entry s s.next ≡ none)
          × ((j : ℕ)
              → entry (insert_multiple m hash (k, v) s) j
                ≡ (if j == s.next then some (k, v) else entry s j))
          × ((w : V) × (entry
                  (insert_multiple m hash (k, v) s)
                  (find m hash k (insert_multiple m hash (k, v) s))
                ≡ some (k, w)))
    unfolding insert_multiple
    insert_multiple-entry k v s wf =
        let fresh = fresh_node m nodes stored hash laws s wf in
        let wf' = WellFormed-add m nodes stored hash laws k v s wf in
        let added = λ (j : ℕ). (laws.added (hash k) s.next j s.ht fresh).0 in
        let t = insert_multiple m hash (k, v) s in
        (
          wf',
          rw fresh refl,
          λ j. ground (arith, added j),
          elim (Bool-cases (find m hash k t == 0)) [
            | inl z ↦
                let there : has s.next (nodes t.ht) ≡ true = ground (arith, added s.next) in
                absurd (
                  find-none m nodes stored hash laws k t wf' (ground arith) s.next v there
                    (rw (==_refl s.next) refl))
            | inr nz ↦
                let (there, (w, item)) = find-some m nodes stored hash laws k t (ground arith) in
                (w, rw there item)
          ],
        )

    -- Where no other thread deletes in between, remove takes exactly one entry with the key and
    -- returns 1, or no entry has the key, it returns 0 and changes nothing.
    pub remove-Removed :
        (k : ℕ) (s : HashMap H V)
        → WellFormed nodes stored hash s
        → Removed k s (remove m hash (λ t. t) k s).1 (remove m hash (λ t. t) k s).0
    unfolding remove
    remove-Removed k s wf = elim (Bool-cases (find m hash k s == 0)) [
      | inl e ↦
          let none_ = find-none m nodes stored hash laws k s wf (ground arith) in
          rw e (found_none (λ n v item. none_ n v (ground arith) (ground arith)) refl)
      | inr e ↦
          let n = find m hash k s in
          let (there, (v, item)) = find-some m nodes stored hash laws k s (ground arith) in
          let ok = (laws.deleted n 0 s.ht there).0 in
          let gone = λ (j : ℕ). (laws.deleted n j s.ht there).1 in
          rw (e, ok) (took n v (rw there item) (λ j. ground (arith, gone j)))
    ]
