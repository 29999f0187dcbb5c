-- ===== src/HashMap/Unique.antt =====
-- utility/hashmap_unique.hpp: the map of keys to values that `insert`, `remove` and `operator[]`
-- implement, and the node that an insertion of a present key loses.
use zwq_repos.Prelude.{
  ℕ, ◌≡◌, ◌≢◌, ◌⊎◌, refl, sym, ap, ◌∙◌, Bool, true, false, ◌||◌, Option, none, some, List, ◌==◌,
  ==_refl, eq_of_==, has, if◌then◌else◌, arith, Option-cases, Bool-cases, inl, inr,
}
use zwq_repos.HashMap.{Lfht, HashMap, match_key, new_node, insert, find, at_key}
use zwq_repos.HashMap.Table.{IsLfht, WellFormed, find-some, find-none, fresh_node, WellFormed-add}

-- The value that stands for a key after an insertion: the old one, if there is one.
abbrev pub or_else : {V : Type 0} → Option V → V → V
or_else none v = v
or_else (some w) v = w

abbrev pub is_some : {V : Type 0} → Option V → Bool
is_some none = false
is_some (some w) = true

module _ {H V : Type 0} (m : Lfht H) (nodes : H → List ℕ) (stored : H → ℕ → ℕ) (hash : ℕ → ℕ) where
  -- A map: no two nodes of the table have one key.
  pub record IsMap (s : HashMap H V) : Type 0 where
    pub well_formed : WellFormed nodes stored hash s
    pub unique :
        (n p k : ℕ) (v w : V)
        → has n (nodes s.ht) ≡ true
        → has p (nodes s.ht) ≡ true
        → s.items n ≡ some (k, v)
        → s.items p ≡ some (k, w)
        → n ≡ p

  abbrev pub Entry : HashMap H V → ℕ → V → Type 0
  Entry s k v = (n : ℕ) × (has n (nodes s.ht) ≡ true) × (s.items n ≡ some (k, v))

  module _ (laws : IsLfht H m nodes stored) where
    pub at_key-Entry :
        (k : ℕ) (v : V) (s : HashMap H V) → IsMap s → Entry s k v → at_key m hash k s ≡ some v
    unfolding at_key
    at_key-Entry k v s h (n, there, item) = elim (Bool-cases (find m hash k s == 0)) [
      | inl e ↦
          absurd
            (find-none m nodes stored hash laws k s h.well_formed (ground arith) n v there item)
      | inr e ↦
          let (there', (w, item')) = find-some m nodes stored hash laws k s (ground arith) in
          let same = h.unique (find m hash k s) n k w v there' there item' item in
          let value : s.items (find m hash k s) ≡ some (k, v) = rw same item in rw (e, value) refl
    ]

    pub Entry-at_key : (k : ℕ) (v : V) (s : HashMap H V) → at_key m hash k s ≡ some v → Entry s k v
    unfolding at_key
    Entry-at_key k v s e = elim (Bool-cases (find m hash k s == 0)) [
      | inl z ↦ absurd (ground arith)
      | inr z ↦
          let (there, (w, item)) = find-some m nodes stored hash laws k s (ground arith) in
          let value : w ≡ v = ground arith in (find m hash k s, there, rw value at item)
    ]

    -- Equal entries for a key give equal values.
    pub same-at_key :
        (j : ℕ) (s t : HashMap H V)
        → IsMap s
        → IsMap t
        → ((v : V) → Entry s j v → Entry t j v)
        → ((v : V) → Entry t j v → Entry s j v)
        → at_key m hash j t ≡ at_key m hash j s
    same-at_key j s t hs ht to from = elim (Option-cases (at_key m hash j s)) [
      | inr (v, e) ↦ at_key-Entry j v t ht (to v (Entry-at_key j v s e)) ∙ sym e
      | inl e ↦ elim (Option-cases (at_key m hash j t)) [
        | inl e' ↦ e' ∙ sym e
        | inr (v, e') ↦
            let e'' = at_key-Entry j v s hs (from v (Entry-at_key j v t e')) in
            absurd (ground arith)
      ]
    ]

    -- A new node that no table holds changes nothing.
    pub IsMap-new_node : (k : ℕ) (v : V) (s : HashMap H V) → IsMap s → IsMap (new_node (k, v) s).1
    IsMap-new_node k v s h =
        let wf = h.well_formed in
        let old : (n : ℕ) → has n (nodes s.ht) ≡ true → (n == s.next) ≡ false =
          λ n there. ground (arith, wf.below n) in
        record {
          well_formed = record {
            nonnull = wf.nonnull;
            positive = ground arith;
            distinct = wf.distinct;
            linked = λ n there.
                let (k', w, item, h') = wf.linked n there in (k', w, rw (old n there) item, h');
            below = λ n there. ground (arith, wf.below n);
            kept = wf.kept;
            waiting = λ n there. ground (arith, wf.waiting n);
          };
          unique = λ n p k' w w' there there' item item'.
              h.unique n p k' w w' there there' (rw (old n there) at item)
                (rw (old p there') at item');
        }

    Entry-new_node :
        (k j : ℕ) (v w : V) (s : HashMap H V)
        → IsMap s
        → (Entry s j w → Entry (new_node (k, v) s).1 j w)
          × (Entry (new_node (k, v) s).1 j w → Entry s j w)
    Entry-new_node k j v w s h =
        let old : (n : ℕ) → has n (nodes s.ht) ≡ true → (n == s.next) ≡ false =
          λ n there. ground (arith, h.well_formed.below n) in
        (
          λ (n, there, item). (n, there, rw (old n there) item),
          λ (n, there, item). (n, there, rw (old n there) at item),
        )

    -- An absent key at a new node of the table.
    pub IsMap-add :
        (k : ℕ) (v : V) (s : HashMap H V)
        → IsMap s
        → ((n : ℕ) (w : V) → has n (nodes s.ht) ≡ true → s.items n ≢ some (k, w))
        → IsMap (record (new_node (k, v) s).1 { ht = m.add (hash k) s.next s.ht })
    IsMap-add k v s h absent = record {
      well_formed = WellFormed-add m nodes stored hash laws k v s h.well_formed;
      unique = λ n p k' w w' there there' item item'. ground (
        arith,
        added n,
        added p,
        absent n w,
        absent p w',
        h.unique n p k' w w',
        absent n w',
        absent p w,
      );
    }
      where
        added :
            (j : ℕ)
            → has j (nodes (m.add (hash k) s.next s.ht)) ≡ (j == s.next || has j (nodes s.ht))
        added j =
            (laws.added (hash k) s.next j s.ht
              (fresh_node m nodes stored hash laws s h.well_formed)).0

    pub insert_cases :
        (k : ℕ) (v : V) (s : HashMap H V)
        → ((find m hash k (new_node (k, v) s).1 ≢ 0)
            × (insert m hash (k, v) s ≡ (new_node (k, v) s).1))
          ⊎ ((find m hash k (new_node (k, v) s).1 ≡ 0)
              × (insert m hash (k, v) s
                  ≡ record (new_node (k, v) s).1 { ht = m.add (hash k) s.next s.ht }))
    unfolding insert find
    insert_cases k v s =
        let s' = (new_node (k, v) s).1 in
        let f = match_key s'.items k in
        elim (Bool-cases (m.lookup (hash k) f s.ht == 0)) [
          | inl e ↦
              let z : m.lookup (hash k) f s.ht ≡ 0 = ground arith in
              inr (z, ap (λ t. record s' { ht = t }) (laws.unique_none (hash k) s.next f s.ht z))
          | inr e ↦
              let nz : m.lookup (hash k) f s.ht ≢ 0 = ground arith in
              inl (nz, ap (λ t. record s' { ht = t }) (laws.unique_some (hash k) s.next f s.ht nz))
        ]

    pub at_key_end : (k : ℕ) (s : HashMap H V) → find m hash k s ≡ 0 → at_key m hash k s ≡ none
    unfolding at_key
    at_key_end k s z = rw z refl

    pub absent_key :
        (k : ℕ) (v : V) (s : HashMap H V)
        → IsMap s
        → find m hash k (new_node (k, v) s).1 ≡ 0
        → (n : ℕ) (w : V) → has n (nodes s.ht) ≡ true
        → s.items n ≢ some (k, w)
    absent_key k v s h z n w there item =
        let (n', there', item') = (Entry-new_node k k v w s h).0 (n, there, item) in
        find-none m nodes stored hash laws k (new_node (k, v) s).1
          (IsMap-new_node k v s h).well_formed z n' w there' item'

    add-at_key :
        (k : ℕ) (v : V) (s : HashMap H V)
        → IsMap s
        → ((n : ℕ) (w : V) → has n (nodes s.ht) ≡ true → s.items n ≢ some (k, w))
        → (j : ℕ)
        → at_key m hash j (record (new_node (k, v) s).1 { ht = m.add (hash k) s.next s.ht })
          ≡ (if j == k then some v else at_key m hash j s)
    add-at_key k v s h absent j =
        let t : HashMap H V = record (new_node (k, v) s).1 { ht = m.add (hash k) s.next s.ht } in
        let ht = IsMap-add k v s h absent in
        let fresh = fresh_node m nodes stored hash laws s h.well_formed in
        let added = λ (n : ℕ). (laws.added (hash k) s.next n s.ht fresh).0 in
        elim (Bool-cases (j == k)) [
          | inl e ↦
              let same = eq_of_== j k e in
              let there : has s.next (nodes t.ht) ≡ true = ground (arith, added s.next) in
              rw (e, same) (at_key-Entry k v t ht (s.next, there, rw (==_refl s.next) refl))
          | inr e ↦ rw e (
              same-at_key j s t h ht
                (λ w (n, there, item).
                  let old : (n == s.next) ≡ false = ground (arith, h.well_formed.below n) in
                  (n, ground (arith, added n), rw old item))
                (λ w (n, there, item). elim (Bool-cases (n == s.next)) [
                  | inl new_ ↦
                      let clash : some (k, v) ≡ some (j, w) = rw new_ at item in
                      absurd (ground arith)
                  | inr old ↦ (n, ground (arith, added n), rw old at item)
                ]))
        ]

    -- insert keeps a map a map. A key that was absent gets the value, a key that was present keeps
    -- the one that it has, and every other key keeps its own.
    pub insert-at_key :
        (k : ℕ) (v : V) (s : HashMap H V)
        → IsMap s
        → IsMap (insert m hash (k, v) s)
          × ((j : ℕ)
              → at_key m hash j (insert m hash (k, v) s)
                ≡ (if j == k then some (or_else (at_key m hash k s) v) else at_key m hash j s))
    insert-at_key k v s h =
        let s' = (new_node (k, v) s).1 in
        let h' = IsMap-new_node k v s h in
        let moved = λ (j : ℕ).
          same-at_key j s s' h h' (λ w. (Entry-new_node k j v w s h).0)
            (λ w. (Entry-new_node k j v w s h).1) in
        elim (insert_cases k v s) [
          | inl (nz, e) ↦
              let (there, (w, item)) = find-some m nodes stored hash laws k s' nz in
              let present : at_key m hash k s' ≡ some w =
                at_key-Entry k w s' h' (find m hash k s', there, item) in
              rw e (h', λ j. ground (arith, moved j, moved k, present))
          | inr (z, e) ↦
              let absent = absent_key k v s h z in
              let none_ : at_key m hash k s' ≡ none = at_key_end k s' z in
              rw e (
                IsMap-add k v s h absent,
                λ j. ground (arith, add-at_key k v s h absent j, moved k, none_),
              )
        ]
