-- ===== src/Bst/NonBlocking/Alone.antt =====
-- BST/NonBlockingBST.cpp: a thread that runs alone.
use zwq_repos.Prelude.{
  ℕ, zero, suc, ◌+◌, ◌≤◌, ◌<◌, ◌≡◌, ◌≢◌, inl, inr, refl, sym, subst, ap, ◌∙◌, Bool, true, false,
  ◌&&◌, ◌==◌, if◌then◌else◌, arith, Bool-cases,
}
use zwq_repos.Bst.NonBlocking.{
  UpdateRecord, Heap, root, child, dirty, same_update, help_child, help_clean, flag, prepare,
  Thread, at_node, at_child, found, helping, cleaning, returned, advance,
}
use zwq_repos.Bst.NonBlocking.Invariant.{History, IsHeap, Mine, IsThread}
use zwq_repos.Bst.NonBlocking.Searching.{Seen-now, range_shrinks, leaf_below, node_below}
use zwq_repos.Bst.NonBlocking.Preparing.{prepare-Extends}
use zwq_repos.Bst.NonBlocking.Helping.{helping-Moves, other_retries, root-Leads}

-- Steps of one thread with the heap.
abbrev pub go : ℕ → Heap × Thread → Heap × Thread
go zero c = c
go (suc m) c = go m (advance c.1 c.0)

abbrev pub Returns : ℕ → Heap × Thread → Type 0
Returns k c = (m : ℕ) × (b : Bool) × (x : ℕ) × ((go m c).1 ≡ returned k b x)

pub Returns-step : (k : ℕ) (h : Heap) (t : Thread) → Returns k (advance t h) → Returns k (h, t)
Returns-step k h t (m, b, x, e) = (suc m, b, x, e)

-- How many of the first nodes are dirty.
abbrev pub dirties : (ℕ → UpdateRecord) → ℕ → ℕ
dirties f zero = 0
dirties f (suc m) = if (f m).is_dirty then suc (dirties f m) else dirties f m

pub dirties-same :
    (f f' : ℕ → UpdateRecord) (m : ℕ) → ((a : ℕ) → a < m → f' a ≡ f a) → dirties f' m ≡ dirties f m
dirties-same f f' zero same = refl
dirties-same f f' (suc m) same =
    let rest = dirties-same f f' m (λ a lt. same a (omega arith)) in
    let last = ap (λ (v : UpdateRecord). v.is_dirty) (same m (omega arith)) in
    ground (arith, rest, last)

pub dirties-clean :
    (f f' : ℕ → UpdateRecord) (p m : ℕ)
    → p < m
    → (f p).is_dirty ≡ true
    → (f' p).is_dirty ≡ false
    → ((a : ℕ) → a ≢ p → f' a ≡ f a)
    → dirties f' m < dirties f m
dirties-clean f f' p zero lt was now same = absurd (omega arith)
dirties-clean f f' p (suc m) lt was now same = elim (Bool-cases (m == p)) [
  | inl e ↦
      let here : m ≡ p = ground arith in
      let rest = dirties-same f f' m (λ a lt'. same a (λ q. omega arith)) in
      let was_m : (f m).is_dirty ≡ true = ap (λ x. (f x).is_dirty) here ∙ was in
      let now_m : (f' m).is_dirty ≡ false = ap (λ x. (f' x).is_dirty) here ∙ now in
      ground (arith, rest, was_m, now_m)
  | inr e ↦
      let away : m ≢ p = ground arith in
      let rest = dirties-clean f f' p m (omega arith) was now same in
      let last = ap (λ (v : UpdateRecord). v.is_dirty) (same m away) in ground (arith, rest, last)
]

pub same_refl : (u : UpdateRecord) → same_update u u ≡ true
same_refl u = elim (Bool-cases u.is_dirty) [ inl e ↦ ground (arith, e) | inr e ↦ ground (arith, e) ]

module _ (i k n : ℕ) where
  -- After the help for its own operation the thread returns; otherwise it searches again.
  pub own_ends : (h : Heap) (o : ℕ) → Returns k (h, helping k n true o)
  unfolding advance
  own_ends h o = (2, true, o, refl)

  -- A search by itself ends, since the range of keys becomes smaller.
  pub search_ends :
      (g : History) (h : Heap) (inv : IsHeap g h) (d l : ℕ)
      → g.hi l ≤ g.lo l + d
      → IsThread g h i (at_node k n l)
      → ((p x : ℕ)
          → IsThread g h i (found k n p (h.update p) x)
          → Returns k (h, found k n p (h.update p) x))
      → Returns k (h, at_node k n l)
  unfolding advance
  search_ends g h inv zero l small (m, q) ends =
      let x = inv.node l q.linked in absurd (omega (arith, x.low, x.high))
  search_ends g h inv (suc d) l small (m, q) ends =
      let x : IsThread g h i (at_child k n l (h.update l)) =
        (m, q, Seen-now i g h inv l q.linked) in
      let shrinks = range_shrinks i g h inv k l q in
      Returns-step k h (at_node k n l) (
        Returns-step k h (at_child k n l (h.update l))
          (elim (Bool-cases (h.is_leaf (child h l k))) [
            | inl e ↦
                rw (e, if◌then◌else◌)
                  (ends l (child h l k) (leaf_below i g h inv k n l (h.update l) e x))
            | inr e ↦
                rw (e, if◌then◌else◌)
                  (search_ends g h inv d (child h l k) (omega (arith, shrinks, small))
                    (node_below i g h inv k n l (h.update l) e x) ends)
          ]))

  -- The exchange that a thread alone tries with the value that is there succeeds.
  pub flag_ends :
      (g : History) (h : Heap) (inv : IsHeap g h) (p l : ℕ)
      → p < h.next
      → Returns k (flag k n p (h.update p) l h)
  flag_ends g h inv p l old =
      let x = prepare-Extends k n p l h in
      let same = x.update p old in
      let hit : same_update ((prepare k n p l h).update p) (h.update p) ≡ true =
        subst (λ v. same_update v (h.update p) ≡ true) (sym same) (same_refl (h.update p)) in
      rw (hit, if◌then◌else◌) (own_ends _ (h.next + 2))

  -- After the help for another's operation the thread is at the root, with one dirty node less where
  -- it was dirty.
  pub help_ends :
      (g : History) (h : Heap) (inv : IsHeap g h) (o : ℕ)
      → IsThread g h i (helping k n false o)
      → ((g' : History)
          → IsHeap g' (help_clean o (help_child o h))
          → Mine g' (help_clean o (help_child o h)) i k n
          → Returns k (help_clean o (help_child o h), at_node k n root))
      → Returns k (h, helping k n false o)
  unfolding advance
  help_ends g h inv o x again =
      let (g1, m1) = helping-Moves i g h inv k n false o x in
      let (done, x1) = m1.me in
      let (g2, m2) = other_retries i g1 (help_child o h) m1.heap k n o done x1 in
      Returns-step k h (helping k n false o)
        (Returns-step k (help_child o h) (cleaning k n false o) (again g2 m2.heap m2.me.0))

-- The help makes the node clean.
help_cleans :
    (g : History) (h : Heap) (inv : IsHeap g h) (p : ℕ)
    → g.linked p ≡ true
    → (h.update p).is_dirty ≡ true
    → dirties (help_clean (h.update p).info (help_child (h.update p).info h)).update h.next
      < dirties h.update h.next
help_cleans g h inv p l d =
    let o = (h.update p).info in
    let here = ((inv.update p l).dirty_info d).1 in
    let hit : same_update (h.update (h.parent o)) (dirty o) ≡ true =
      subst (λ x. same_update (h.update x) (dirty o) ≡ true) (sym here) (ground (arith, d)) in
    dirties-clean h.update (help_clean o (help_child o h)).update p h.next (inv.node p l).old d
      (let test : (p == h.parent o && same_update (h.update (h.parent o)) (dirty o)) ≡ true =
          ground (arith, hit, here) in
        rw (test, if◌then◌else◌) refl)
      (λ a ne.
        let test : (a == h.parent o && same_update (h.update (h.parent o)) (dirty o)) ≡ false =
          ground (arith, ne, here) in
        rw (test, if◌then◌else◌) refl)

module _ (i k n : ℕ) where
  root_from :
      (g : History) (h : Heap)
      → IsHeap g h
      → Mine g h i k n
      → ((g' : History) (h' : Heap)
          → IsHeap g' h'
          → dirties h'.update h'.next < dirties h.update h.next
          → Mine g' h' i k n
          → Returns k (h', at_node k n root))
      → Returns k (h, at_node k n root)
  unfolding advance
  root_from g h inv m again =
      let q = root-Leads g h k inv m.in_range in
      search_ends i k n g h inv (g.hi root) root (omega arith) (m, q)
        (λ p x y.
          let (m', q', s, f) = y in
          Returns-step k h (found k n p (h.update p) x) (elim (Bool-cases (h.key x == k)) [
            | inl e ↦ rw (e, if◌then◌else◌) (0, false, x, refl)
            | inr e ↦
                rw (e, if◌then◌else◌)
                  (elim (Bool-cases (h.update p).is_dirty) [
                    | inl d ↦ subst (branch p x h) (sym d) (
                        help_ends i k n g h inv (h.update p).info (s.known d, m')
                          (λ g' inv' m2.
                            again g' (help_clean (h.update p).info (help_child (h.update p).info h))
                              inv' (help_cleans g h inv p q'.linked d) m2))
                    | inr d ↦
                        subst (branch p x h) (sym d)
                          (flag_ends i k n g h inv p x (inv.node p q'.linked).old)
                  ])
          ]))
    where
      branch : ℕ → ℕ → Heap → Bool → Type 0
      branch p x h t =
          Returns k
            (if t then (h, helping k n false (h.update p).info) else flag k n p (h.update p) x h)

  -- A thread at the root returns: each help before makes one node clean.
  pub root_ends :
      (c : ℕ) (g : History) (h : Heap)
      → IsHeap g h
      → dirties h.update h.next ≤ c
      → Mine g h i k n
      → Returns k (h, at_node k n root)
  root_ends zero g h inv few m = root_from g h inv m (λ g' h' inv' lt m'. absurd (omega arith))
  root_ends (suc c) g h inv few m =
      root_from g h inv m (λ g' h' inv' lt m'. root_ends c g' h' inv' (omega arith) m')

  pub root-Returns :
      (g : History) (h : Heap) → IsHeap g h → Mine g h i k n → Returns k (h, at_node k n root)
  root-Returns g h inv m = root_ends (dirties h.update h.next) g h inv (omega arith) m
