-- ===== src/HashMap/Remove.antt =====
-- utility/hashmap_unique.hpp, `remove` and the grace period after it.
use zwq_repos.Prelude.{
  ℕ, ◌≡◌, ◌≢◌, ◌⊎◌, refl, sym, ap, ◌∙◌, true, false, not, ◌&&◌, Option, none, some, List, ◌∷◌, ◌==◌,
  eq_of_==, has, if◌then◌else◌, arith, Option-cases, Bool-cases, inl, inr,
}
use zwq_repos.HashMap.{Lfht, HashMap, find, at_key, remove}
use zwq_repos.HashMap.Table.{IsLfht, find-some}
use zwq_repos.HashMap.Unique.{IsMap, is_some, at_key-Entry, Entry-at_key, same-at_key, at_key_end}

module _ {H V : Type 0} (m : Lfht H) (nodes : H → List ℕ) (stored : H → ℕ → ℕ) (hash : ℕ → ℕ)
    (laws : IsLfht H m nodes stored) where
  -- A node of the table is unlinked and waits.
  abbrev pub unlinked : ℕ → HashMap H V → HashMap H V
  unlinked n s = record s { ht = (m.del n s.ht).1; retired = n ∷ s.retired }

  pub IsMap-unlinked :
      (n : ℕ) (s : HashMap H V)
      → has n (nodes s.ht) ≡ true
      → IsMap m nodes stored hash s
      → IsMap m nodes stored hash (unlinked n s)
  IsMap-unlinked n s there h =
      let wf = h.well_formed in
      let gone = λ (j : ℕ). laws.deleted n j s.ht there in
      record {
        well_formed = record {
          nonnull = ground (arith, gone 0, wf.nonnull);
          positive = wf.positive;
          distinct = (laws.deleted_distinct n s.ht there wf.distinct).0;
          linked = λ j in_.
              let (k, v, item, h') = wf.linked j (ground (arith, gone j)) in
              (k, v, item, (gone j).2 ∙ h');
          below = λ j in_. wf.below j (ground (arith, gone j));
          kept = λ j in_. ground (arith, gone j, wf.kept j);
          waiting = λ j in_. ground (arith, wf.waiting j, wf.below n);
        };
        unique = λ i j k v w in_ in_' e e'.
            h.unique i j k v w (ground (arith, gone i)) (ground (arith, gone j)) e e';
      }

  pub remove_cases :
      (k : ℕ) (s : HashMap H V)
      → ((find m hash k s ≡ 0) × (remove m hash (λ t. t) k s ≡ (0, s)))
        ⊎ ((find m hash k s ≢ 0) × (remove m hash (λ t. t) k s ≡ (1, unlinked (find m hash k s) s)))
  unfolding remove
  remove_cases k s = elim (Bool-cases (find m hash k s == 0)) [
    | inl e ↦ inl (ground arith, rw e refl)
    | inr e ↦
        let (there, _) = find-some m nodes stored hash laws k s (ground arith) in
        let ok = (laws.deleted (find m hash k s) 0 s.ht there).0 in
        inr (ground arith, rw (e, ok) refl)
  ]

  -- Where no other thread deletes in between, remove keeps a map a map; it returns 1 exactly when the
  -- key was present, the key is absent afterwards, and every other key keeps its value.
  pub remove-at_key :
      (k : ℕ) (s : HashMap H V)
      → IsMap m nodes stored hash s
      → IsMap m nodes stored hash (remove m hash (λ t. t) k s).1
        × ((remove m hash (λ t. t) k s).0 ≡ (if is_some (at_key m hash k s) then 1 else 0))
        × ((j : ℕ)
            → at_key m hash j (remove m hash (λ t. t) k s).1
              ≡ (if j == k then none else at_key m hash j s))
  remove-at_key k s h = elim (remove_cases k s) [
    | inl (z, e) ↦
        let none_ = at_key_end m nodes stored hash laws k s z in
        rw e (h, rw none_ refl, λ j. ground (arith, none_))
    | inr (nz, e) ↦
        let n = find m hash k s in
        let (there, (v, item)) = find-some m nodes stored hash laws k s nz in
        let h' = IsMap-unlinked n s there h in
        let present = at_key-Entry m nodes stored hash laws k v s h (n, there, item) in
        let gone = λ (j : ℕ). laws.deleted n j s.ht there in
        let absent : at_key m hash k (unlinked n s) ≡ none =
          elim (Option-cases (at_key m hash k (unlinked n s))) [
            | inl e' ↦ e'
            | inr (w, e') ↦
                let (p, in_, item') = Entry-at_key m nodes stored hash laws k w (unlinked n s) e' in
                let same : p ≡ n = h.unique p n k w v (ground (arith, gone p)) there item' item in
                absurd (ground (arith, gone p))
          ] in
        rw e (
          h',
          rw present refl,
          λ j. elim (Bool-cases (j == k)) [
            | inl e' ↦ rw (e', eq_of_== j k e') absent
            | inr e' ↦ rw e' (
                same-at_key m nodes stored hash laws j s (unlinked n s) h h'
                  (λ w (p, in_, item'). (p, other j p w in_ item' n v item (gone p).1 e', item'))
                  (λ w (p, in_, item'). (p, ground (arith, gone p), item')))
          ],
        )
  ]
    where
      other :
          (j p : ℕ) (w : V)
          → has p (nodes s.ht) ≡ true
          → s.items p ≡ some (j, w)
          → (n : ℕ) (v : V) → s.items n ≡ some (k, v)
          → has p (nodes (m.del n s.ht).1) ≡ (not (p == n) && has p (nodes s.ht))
          → (j == k) ≡ false
          → has p (nodes (m.del n s.ht).1) ≡ true
      other j p w in_ item n v item' gone ne = elim (Bool-cases (p == n)) [
        | inl e ↦
            let same = eq_of_== p n e in
            let both : ◌≡◌ {A = Option (ℕ × V)} (some (j, w)) (some (k, v)) =
              sym item ∙ (ap s.items same ∙ item') in
            absurd (ground arith)
        | inr e ↦ ground (arith)
      ]
