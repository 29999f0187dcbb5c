-- ===== src/HashMap/Leak.antt =====
-- utility/hashmap_unique.hpp: `insert` drops the answer of `cds_lfht_add_unique`, so that the node
-- that it made for a present key is lost.
use zwq_repos.Prelude.{
  ℕ, ◌<◌, ◌≡◌, ◌≢◌, refl, false, none, List, ◌==◌, ==_refl, has, arith, Option-cases, Bool-cases,
  inl, inr,
}
use zwq_repos.HashMap.{Lfht, HashMap, insert, find, at_key, remove, grace_period}
use zwq_repos.HashMap.Table.{IsLfht, find-some, fresh_node}
use zwq_repos.HashMap.Unique.{IsMap, Entry-at_key, insert_cases, insert-at_key, absent_key}
use zwq_repos.HashMap.Remove.{remove_cases, remove-at_key}

module _ {H V : Type 0} (m : Lfht H) (nodes : H → List ℕ) (stored : H → ℕ → ℕ) (hash : ℕ → ℕ) where
  -- Calls on the map by one thread, and grace periods that pass.
  pub data Step (s : HashMap H V) : HashMap H V → Type 0 where
    inserts : (k : ℕ) (v : V) → Step s (insert m hash (k, v) s)
    removes : (k : ℕ) → Step s (remove m hash (λ t. t) k s).1
    passes : Step s (grace_period s)

  pub data Reach (s : HashMap H V) : HashMap H V → Type 0 where
    here : Reach s s
    next_step : {t u : HashMap H V} → Reach s t → Step t u → Reach s u

  -- The node is allocated, but neither in the table nor waiting to be freed.
  pub record IsLost (n : ℕ) (s : HashMap H V) : Type 0 where
    pub old : n < s.next
    pub allocated : s.items n ≢ none
    pub unlinked_ : has n (nodes s.ht) ≡ false
    pub forgotten : has n s.retired ≡ false

  module _ (laws : IsLfht H m nodes stored) where
    IsMap-grace_period :
        (s : HashMap H V) → IsMap m nodes stored hash s → IsMap m nodes stored hash (grace_period s)
    unfolding grace_period
    IsMap-grace_period s h =
        let wf = h.well_formed in
        record {
          well_formed = record {
            nonnull = wf.nonnull;
            positive = wf.positive;
            distinct = wf.distinct;
            linked = λ n there.
                let (k, v, item, h') = wf.linked n there in (k, v, rw (wf.kept n there) item, h');
            below = wf.below;
            kept = λ n there. refl;
            waiting = λ n there. absurd (ground arith);
          };
          unique = λ n p k v w there there' item item'.
              h.unique n p k v w there there' (rw (wf.kept n there) at item)
                (rw (wf.kept p there') at item');
        }

    pub IsMap-Step :
        {s t : HashMap H V} → Step s t → IsMap m nodes stored hash s → IsMap m nodes stored hash t
    IsMap-Step (inserts k v) h = (insert-at_key m nodes stored hash laws k v _ h).0
    IsMap-Step (removes k) h = (remove-at_key m nodes stored hash laws k _ h).0
    IsMap-Step passes h = IsMap-grace_period _ h

    IsLost-insert :
        (n k : ℕ) (v : V) (s : HashMap H V)
        → IsMap m nodes stored hash s
        → IsLost n s
        → IsLost n (insert m hash (k, v) s)
    IsLost-insert n k v s h l =
        let old : (n == s.next) ≡ false = ground (arith, l.old) in
        elim (insert_cases m nodes stored hash laws k v s) [
          | inl (nz, e) ↦ rw e (record {
            old = ground (arith, l.old);
            allocated = rw old l.allocated;
            unlinked_ = l.unlinked_;
            forgotten = l.forgotten;
          })
          | inr (z, e) ↦
              let fresh = fresh_node m nodes stored hash laws s h.well_formed in
              rw e (record {
                old = ground (arith, l.old);
                allocated = rw old l.allocated;
                unlinked_ =
                    ground (arith, (laws.added (hash k) s.next n s.ht fresh).0, l.unlinked_);
                forgotten = l.forgotten;
              })
        ]

    IsLost-remove :
        (n k : ℕ) (s : HashMap H V) → IsLost n s → IsLost n (remove m hash (λ t. t) k s).1
    IsLost-remove n k s l = elim (remove_cases m nodes stored hash laws k s) [
      | inl (z, e) ↦ rw e l
      | inr (nz, e) ↦
          let (there, _) = find-some m nodes stored hash laws k s nz in
          rw e (record {
            old = l.old;
            allocated = l.allocated;
            unlinked_ =
                ground (arith, (laws.deleted (find m hash k s) n s.ht there).1, l.unlinked_);
            forgotten = ground (arith, l.forgotten, l.unlinked_);
          })
    ]

    IsLost-Step :
        {s t : HashMap H V} (n : ℕ)
        → Step s t
        → IsMap m nodes stored hash s
        → IsLost n s
        → IsLost n t
    unfolding grace_period
    IsLost-Step n (inserts k v) h l = IsLost-insert n k v _ h l
    IsLost-Step n (removes k) h l = IsLost-remove n k _ l
    IsLost-Step n passes h l = record {
      old = l.old;
      allocated = rw l.forgotten l.allocated;
      unlinked_ = l.unlinked_;
      forgotten = refl;
    }

    IsLost-Reach :
        {s t : HashMap H V} (n : ℕ)
        → Reach s t
        → IsMap m nodes stored hash s
        → IsLost n s
        → IsMap m nodes stored hash t × IsLost n t
    IsLost-Reach n here h l = (h, l)
    IsLost-Reach n (next_step r st) h l =
        let (h', l') = IsLost-Reach n r h l in (IsMap-Step st h', IsLost-Step n st h' l')

    -- insert on a key that is present allocates a node that no later call frees: after any calls of
    -- insert and remove, and after any grace periods, it is still allocated, outside the table, and
    -- not among the nodes that wait to be freed.
    pub insert_present-IsLost :
        (k : ℕ) (v : V) (s t : HashMap H V)
        → IsMap m nodes stored hash s
        → at_key m hash k s ≢ none
        → Reach (insert m hash (k, v) s) t
        → IsLost s.next t
    insert_present-IsLost k v s t h present r =
        let h' = (insert-at_key m nodes stored hash laws k v s h).0 in
        elim (insert_cases m nodes stored hash laws k v s) [
          | inr (z, e) ↦ elim (Option-cases (at_key m hash k s)) [
            | inl e' ↦ absurd (present e')
            | inr (w, e') ↦
                let (n, there, item) = Entry-at_key m nodes stored hash laws k w s e' in
                absurd (absent_key m nodes stored hash laws k v s h z n w there item)
          ]
          | inl (nz, e) ↦
              let lost : IsLost s.next (insert m hash (k, v) s) = rw e (record {
                old = ground arith;
                allocated = rw (==_refl s.next) (λ e'. ground arith);
                unlinked_ = fresh_node m nodes stored hash laws s h.well_formed;
                forgotten = elim (Bool-cases (has s.next s.retired)) [
                  | inl w ↦ absurd (omega (arith, h.well_formed.waiting s.next w))
                  | inr w ↦ w
                ];
              }) in
              (IsLost-Reach s.next r h' lost).1
        ]
