-- ===== src/Bst/NonBlocking/Solo.antt =====
-- BST/NonBlockingBST.cpp: from everywhere a thread that runs alone returns.
use zwq_repos.Prelude.{
  ℕ, zero, suc, ◌+◌, ◌≡◌, ◌≢◌, inl, inr, refl, sym, subst, ap, ◌∙◌, Bool, true, false, ◌==◌,
  if◌then◌else◌, arith, Bool-cases, ==_refl,
}
use zwq_repos.Bst.NonBlocking.{
  UpdateRecord, Heap, child, dirty, same_update, cas_update, prepare, flag, Thread, outside,
  at_node, at_child, found, helping, cleaning, returned, advance, System, run, Reach,
}
use zwq_repos.Bst.NonBlocking.Invariant.{History, IsHeap, IsThread}
use zwq_repos.Bst.NonBlocking.Searching.{leaf_below, node_below}
use zwq_repos.Bst.NonBlocking.Attempting.{flag-Moves}
use zwq_repos.Bst.NonBlocking.Helping.{other_retries}
use zwq_repos.Bst.NonBlocking.Reached.{Reach-IsSound}
use zwq_repos.Bst.NonBlocking.Alone.{
  go, Returns, Returns-step, own_ends, search_ends, help_ends, root-Returns,
}

module _ (i k n : ℕ) (g : History) (h : Heap) (inv : IsHeap g h) where
  helping_ends : (o : ℕ) → IsThread g h i (helping k n false o) → Returns k (h, helping k n false o)
  helping_ends o x = help_ends i k n g h inv o x (λ g' inv' m. root-Returns i k n g' _ inv' m)

  cleaning_ends :
      (o : ℕ) → IsThread g h i (cleaning k n false o) → Returns k (h, cleaning k n false o)
  unfolding advance
  cleaning_ends o (done, x) =
      let (g', m) = other_retries i g h inv k n o done x in
      Returns-step k h (cleaning k n false o) (root-Returns i k n g' _ m.heap m.me.0)

module _ (i k n : ℕ) (g : History) (h : Heap) (inv : IsHeap g h) where
  attempt_ends :
      (p : ℕ) (u : UpdateRecord) (l : ℕ)
      → IsThread g h i (found k n p u l)
      → h.key l ≢ k
      → u.is_dirty ≡ false
      → Returns k (flag k n p u l h)
  attempt_ends p u l x ne clean =
      let (g', m) = flag-Moves i g h inv k n p u l x ne clean in
      let h1 = prepare k n p l h in
      elim (Bool-cases (same_update (h1.update p) u)) [
        | inl e ↦ rw (e, if◌then◌else◌) (own_ends i k n _ (h.next + 2))
        | inr e ↦
            let me =
              subst
                (λ t. IsThread g' (cas_update p u (dirty (h.next + 2)) h1) i (
                  if t
                  then helping k n true (h.next + 2)
                  else helping k n false (h1.update p).info))
                e m.me in
            subst
              (λ t. Returns k (
                cas_update p u (dirty (h.next + 2)) h1,
                if t then helping k n true (h.next + 2) else helping k n false (h1.update p).info,
              ))
              (sym e) (helping_ends i k n g' (cas_update p u (dirty (h.next + 2)) h1) m.heap _ me)
      ]

  found_ends :
      (p : ℕ) (u : UpdateRecord) (l : ℕ)
      → IsThread g h i (found k n p u l)
      → Returns k (h, found k n p u l)
  unfolding advance
  found_ends p u l x =
      let (m, q, s, f) = x in
      Returns-step k h (found k n p u l) (elim (Bool-cases (h.key l == k)) [
        | inl e ↦ rw (e, if◌then◌else◌) (0, false, l, refl)
        | inr e ↦
            rw (e, if◌then◌else◌)
              (elim (Bool-cases u.is_dirty) [
                | inl d ↦ subst branch (sym d) (helping_ends i k n g h inv u.info (s.known d, m))
                | inr d ↦ subst branch (sym d) (attempt_ends p u l x (ground arith) d)
              ])
      ])
    where
      branch : Bool → Type 0
      branch t = Returns k (if t then (h, helping k n false u.info) else flag k n p u l h)

  at_node_ends : (l : ℕ) → IsThread g h i (at_node k n l) → Returns k (h, at_node k n l)
  at_node_ends l x =
      search_ends i k n g h inv (g.hi l) l (omega arith) x (λ p y z. found_ends p (h.update p) y z)

  at_child_ends :
      (p : ℕ) (u : UpdateRecord)
      → IsThread g h i (at_child k n p u)
      → Returns k (h, at_child k n p u)
  unfolding advance
  at_child_ends p u x =
      Returns-step k h (at_child k n p u) (elim (Bool-cases (h.is_leaf (child h p k))) [
        | inl e ↦
            rw (e, if◌then◌else◌) (found_ends p u (child h p k) (leaf_below i g h inv k n p u e x))
        | inr e ↦
            rw (e, if◌then◌else◌) (at_node_ends (child h p k) (node_below i g h inv k n p u e x))
      ])

-- The key of a thread's call.
abbrev pub key_of : Thread → ℕ
key_of outside = 0
key_of (at_node k n l) = k
key_of (at_child k n p u) = k
key_of (found k n p u l) = k
key_of (helping k n own o) = k
key_of (cleaning k n own o) = k
key_of (returned k b x) = k

thread_ends :
    (i : ℕ) (g : History) (h : Heap) (t : Thread)
    → IsHeap g h
    → IsThread g h i t
    → t ≢ outside
    → Returns (key_of t) (h, t)
unfolding advance
thread_ends i g h outside inv x ne = absurd (ne refl)
thread_ends i g h (at_node k n l) inv x ne = at_node_ends i k n g h inv l x
thread_ends i g h (at_child k n p u) inv x ne = at_child_ends i k n g h inv p u x
thread_ends i g h (found k n p u l) inv x ne = found_ends i k n g h inv p u l x
thread_ends i g h (helping k n true o) inv x ne = own_ends i k n h o
thread_ends i g h (helping k n false o) inv x ne = helping_ends i k n g h inv o x
thread_ends i g h (cleaning k n true o) inv x ne = (1, true, o, refl)
thread_ends i g h (cleaning k n false o) inv x ne = cleaning_ends i k n g h inv o x
thread_ends i g h (returned k b x) inv y ne = (0, b, x, refl)

-- A number of steps of the thread `i`, and of no other.
abbrev pub alone : ℕ → ℕ → System → System
alone zero i s = s
alone (suc m) i s = alone m i (run i s)

alone-go :
    (m i : ℕ) (s : System) (t : Thread)
    → s.threads i ≡ t
    → (alone m i s).threads i ≡ (go m (s.heap, t)).1
alone-go zero i s t e = e
alone-go (suc m) i s t e =
    let c = advance (s.threads i) s.heap in
    let now : (run i s).threads i ≡ c.1 = rw (==_refl i, if◌then◌else◌) refl in
    alone-go m i (run i s) c.1 now
    ∙ ap (λ x. (go m ((advance x s.heap).0, (advance x s.heap).1)).1) e

-- In a reachable system a call of `insert` that has begun returns, with its key, when its thread runs alone for long
-- enough, wherever the other threads have stopped.
pub alone_returns :
    {s : System} (i : ℕ)
    → Reach s
    → s.threads i ≢ outside
    → (m x : ℕ) × (b : Bool) × ((alone m i s).threads i ≡ returned (key_of (s.threads i)) b x)
alone_returns {s} i r begun =
    let (g, sound) = Reach-IsSound r in
    let (m, b, x, e) = thread_ends i g s.heap (s.threads i) sound.heap (sound.threads i) begun in
    (m, x, b, alone-go m i s (s.threads i) refl ∙ e)
