-- ===== src/Bst/NonBlocking/Moves.antt =====
-- BST/NonBlockingBST.cpp: one step of one thread, and the whole system after it.
use zwq_repos.Prelude.{
  ℕ, ◌≡◌, ◌≢◌, ◌⊎◌, inl, inr, refl, sym, subst, true, ◌==◌, if◌then◌else◌, arith, Bool-cases,
}
use zwq_repos.Bst.NonBlocking.{outside, Heap, dirty, Thread, System}
use zwq_repos.Bst.NonBlocking.Route.{Contains}
use zwq_repos.Bst.NonBlocking.Invariant.{
  unknown, finished, History, IsHeap, IsThread, IsBusy, IsSound,
}
use zwq_repos.Bst.NonBlocking.Evolves.{Evolves, IsThread-evolves}
use zwq_repos.Bst.NonBlocking.Extends.{Extends, Evolves-Extends}

-- The keys stay as they are, or one that was not among them is added.
pub data Adds (h h' : Heap) : Type 0 where
  same_keys : ((k : ℕ) → Contains h' k → Contains h k) → Adds h h'
  new_key :
      (x : ℕ)
      → ¬ Contains h x
      → Contains h' x
      → ((k : ℕ) → Contains h' k → Contains h k ⊎ (k ≡ x))
      → Adds h h'

-- A step of the thread `i` from `t` to `t'`.
pub record Move (i : ℕ) (g : History) (h : Heap) (t : Thread) (g' : History) (h' : Heap)
    (t' : Thread) : Type 0 where
  pub heap : IsHeap g' h'
  pub evolves : Evolves i g h g' h'
  pub me : IsThread g' h' i t'
  pub adds : Adds h h'
  pub active : t ≢ outside → t' ≢ outside
  -- A new operation is one of the thread, and one that ends adds its key.
  pub begins :
      (o : ℕ)
      → g'.stage o ≢ unknown
      → ((g.stage o ≢ unknown) × (g'.caller o ≡ g.caller o)) ⊎ ((g'.caller o ≡ i) × (t' ≢ outside))
  pub ended :
      (o : ℕ) → g'.stage o ≡ finished → (g.stage o ≡ finished) ⊎ (¬ Contains h (g'.op_key o))
  pub dirt :
      (p o : ℕ)
      → g'.linked p ≡ true
      → h'.update p ≡ dirty o
      → ((g.linked p ≡ true)
          × (h.update p ≡ dirty o)
          × (g'.caller o ≡ g.caller o)
          × (IsBusy o t → IsBusy o t'))
        ⊎ ((g'.caller o ≡ i) × IsBusy o t')

abbrev pub Moves : ℕ → History → Heap → Thread → Heap × Thread → Type 0
Moves i g h t c = (g' : History) × Move i g h t g' c.0 c.1

-- What was sound stays so.
pub IsSound-Move :
    (i : ℕ) (g : History) (s : System) (g' : History) (h' : Heap) (t' : Thread)
    → IsSound g s
    → Move i g s.heap (s.threads i) g' h' t'
    → IsSound g' (record { heap = h'; threads = λ j. if j == i then t' else s.threads j })
IsSound-Move i g s g' h' t' sound m = record {
  heap = m.heap;
  threads = λ j. elim (Bool-cases (j == i)) [
    | inl e ↦
        let same : j ≡ i = ground arith in
        rw (e, if◌then◌else◌) (subst (λ x. IsThread g' h' x t') (sym same) m.me)
    | inr e ↦
        let ne : j ≢ i = ground arith in
        rw (e, if◌then◌else◌)
          (IsThread-evolves m.evolves sound.heap j (s.threads j) ne (sound.threads j))
  ];
  busy = λ p o l e. elim (m.dirt p o l e) [
    | inr (c, b) ↦ let test : (g'.caller o == i) ≡ true = ground arith in rw (test, if◌then◌else◌) b
    | inl (was_linked, was, c, stays) ↦
        let b = sound.busy p o was_linked was in
        elim (Bool-cases (g'.caller o == i)) [
          | inl t ↦
              let same : g.caller o ≡ i = ground arith in
              rw (t, if◌then◌else◌) (stays (subst (λ x. IsBusy o (s.threads x)) same b))
          | inr t ↦ rw (t, if◌then◌else◌) (subst (λ x. IsBusy o (s.threads x)) (sym c) b)
        ]
  ];
  begun = λ o kn. elim (m.begins o kn) [
    | inr (c, now) ↦
        let test : (g'.caller o == i) ≡ true = ground arith in rw (test, if◌then◌else◌) now
    | inl (was, c) ↦
        let b = sound.begun o was in
        elim (Bool-cases (g'.caller o == i)) [
          | inl t ↦
              let same : g.caller o ≡ i = ground arith in
              rw (t, if◌then◌else◌) (m.active (subst (λ x. s.threads x ≢ outside) same b))
          | inr t ↦ rw (t, if◌then◌else◌) (subst (λ x. s.threads x ≢ outside) (sym c) b)
        ]
  ];
}

pub Extends-refl : (h : Heap) → Extends h h
Extends-refl h = record {
  next = omega arith;
  key = λ a lt. refl;
  is_leaf = λ a lt. refl;
  left = λ a lt. refl;
  right = λ a lt. refl;
  update = λ a lt. refl;
  parent = λ a lt. refl;
  leaf = λ a lt. refl;
  subtree = λ a lt. refl;
}

-- A step that changes only the thread, which is not on the way to clean what it made dirty.
pub stays :
    (i : ℕ) (g : History) (h : Heap) (t t' : Thread)
    → IsHeap g h
    → IsThread g h i t'
    → ((o : ℕ) → IsBusy o t → IsBusy o t')
    → (t ≢ outside → t' ≢ outside)
    → Moves i g h t (h, t')
stays i g h t t' inv me busy active = (
  g,
  record {
    heap = inv;
    evolves = Evolves-Extends (Extends-refl h) g inv i;
    me = me;
    adds = same_keys (λ k c. c);
    active = active;
    begins = λ o kn. inl (kn, refl);
    ended = λ o e. inl e;
    dirt = λ p o l e. inl (l, e, refl, busy o);
  },
)
