-- ===== src/Bst/NonBlocking/Reached.antt =====
-- BST/NonBlockingBST.cpp: every step keeps the system sound.
use zwq_repos.Prelude.{
  ◌≢◌, ℕ, ◌+◌, ◌≡◌, ◌⊎◌, inl, inr, refl, sym, subst, ap, ◌∙◌, true, false, ◌||◌, ◌==◌,
  if◌then◌else◌, arith,
}
use zwq_repos.Bst.Tree.{inf2}
use zwq_repos.Bst.NonBlocking.{
  UpdateRecord, Heap, root, clean_null, new_bst, Thread, outside, at_node, at_child, found, helping,
  cleaning, returned, advance, System, call, Step, calls, runs, start, Reach, here, next_step,
}
use zwq_repos.Bst.NonBlocking.Route.{Route, arrived, Contains}
use zwq_repos.Bst.NonBlocking.Invariant.{
  finished, History, nobody, unknown, IsNode, IsInner, IsHeap, IsThread, IsSound,
}
use zwq_repos.Bst.NonBlocking.Moves.{Adds, Move, Moves, IsSound-Move, stays}
use zwq_repos.Bst.NonBlocking.Searching.{at_node-Moves, at_child-Moves}
use zwq_repos.Bst.NonBlocking.Attempting.{found-Moves}
use zwq_repos.Bst.NonBlocking.Helping.{helping-Moves, own_returns, other_retries}
use zwq_repos.Bst.NonBlocking.Owning.{call-Moves}

-- The first tree: the root, which leads keys below INT_MAX to the leaf 1, others to the leaf 2.
abbrev first : History
first = record {
  lo = λ a. if a == 2 then inf2 else 0;
  hi = λ a. if a == 1 then inf2 else inf2 + 1;
  linked = λ a. a == 1 || (a == 2 || a == 3);
  owner = λ a. nobody;
  stage = λ o. unknown;
  op_key = λ o. 0;
  new_node = λ o. 0;
  sibling = λ o. 0;
  caller = λ o. 0;
}

first_cases : (a : ℕ) → first.linked a ≡ true → (a ≡ 1) ⊎ ((a ≡ 2) ⊎ (a ≡ 3))
first_cases a e = ground arith

first_root : (a : ℕ) → first.linked a ≡ true → new_bst.is_leaf a ≡ false → a ≡ root
first_root a e inner = elim (first_cases a e) [
  | inl q ↦ absurd (ground (arith, ap new_bst.is_leaf q))
  | inr (inl q) ↦ absurd (ground (arith, ap new_bst.is_leaf q))
  | inr (inr q) ↦ q
]

first-IsNode : (a : ℕ) → first.linked a ≡ true → IsNode first new_bst a
first-IsNode a e = elim (first_cases a e) [
  | inl q ↦
      subst (IsNode first new_bst) (sym q)
        (record { old = omega arith; low = omega arith; high = omega arith })
  | inr (inl q) ↦
      subst (IsNode first new_bst) (sym q)
        (record { old = omega arith; low = omega arith; high = omega arith })
  | inr (inr q) ↦
      subst (IsNode first new_bst) (sym q)
        (record { old = omega arith; low = omega arith; high = omega arith })
]

first-IsInner : IsInner first new_bst root
first-IsInner = record {
  left_linked = refl;
  left_lo = refl;
  left_hi = refl;
  right_linked = refl;
  right_lo = refl;
  right_hi = refl;
  above = omega arith;
}

first_update : (a : ℕ) → first.linked a ≡ true → new_bst.update a ≡ clean_null
first_update a e = elim (first_cases a e) [
  | inl q ↦ ap new_bst.update q
  | inr (inl q) ↦ ap new_bst.update q
  | inr (inr q) ↦ ap new_bst.update q
]

IsHeap-first : IsHeap first new_bst
IsHeap-first = record {
  root_linked = refl;
  root_inner = refl;
  root_lo = refl;
  root_hi = refl;
  null_unknown = refl;
  positive = omega arith;
  unowned = λ a le. refl;
  node = first-IsNode;
  inner = λ a e inner. subst (IsInner first new_bst) (sym (first_root a e inner)) first-IsInner;
  route =
      λ k a q. subst (Route new_bst k root) (sym (first_root a q.linked q.inner)) (arrived root);
  update = λ p l. rw (first_update p l) (record {
    small = omega arith;
    known = λ nz. absurd (nz refl);
    dirty_info = λ d. absurd (ground arith);
  });
  op = λ o kn. absurd (kn refl);
  waits = λ o e. absurd (ground arith);
  ends = λ o e. absurd (ground arith);
  once = λ o x e. absurd (ground arith);
}

IsSound-start : IsSound first start
IsSound-start = record {
  heap = IsHeap-first;
  threads = λ i. tt;
  busy = λ p o l e.
      let d = ap (λ (v : UpdateRecord). v.is_dirty) (sym (first_update p l) ∙ e) in
      absurd (ground arith);
  begun = λ o kn. absurd (kn refl);
}

-- Each step of a thread.
advance-Moves :
    (i : ℕ) (g : History) (h : Heap) (t : Thread)
    → IsHeap g h
    → IsThread g h i t
    → Moves i g h t (advance t h)
unfolding advance
advance-Moves i g h outside inv x = stays i g h outside outside inv tt (λ y b. b) (λ ne. ne)
advance-Moves i g h (at_node k n l) inv x = at_node-Moves i g h inv k n l x
advance-Moves i g h (at_child k n p u) inv x = at_child-Moves i g h inv k n p u x
advance-Moves i g h (found k n p u l) inv x = found-Moves i g h inv k n p u l x
advance-Moves i g h (helping k n own o) inv x = helping-Moves i g h inv k n own o x
advance-Moves i g h (cleaning k n true o) inv (done, x) = own_returns i g h inv k n o done x
advance-Moves i g h (cleaning k n false o) inv (done, x) = other_retries i g h inv k n o done x
advance-Moves i g h (returned k b y) inv x =
    stays i g h (returned k b y) (returned k b y) inv x (λ z c. c) (λ ne. ne)

-- The keys before and after: all stay, and at most one is new.
pub record Changes (h h' : Heap) : Type 0 where
  pub present : (k : ℕ) → Contains h k → Contains h' k
  pub adds : Adds h h'

-- The history after a step, against the one before.
pub record Grows (g : History) (h : Heap) (g' : History) : Type 0 where
  pub known : (o : ℕ) → g.stage o ≢ unknown → g'.stage o ≢ unknown
  pub caller : (o : ℕ) → g.stage o ≢ unknown → g'.caller o ≡ g.caller o
  pub ended :
      (o : ℕ) → g'.stage o ≡ finished → (g.stage o ≡ finished) ⊎ (¬ Contains h (g'.op_key o))
  pub op_key : (o : ℕ) → g.stage o ≢ unknown → g'.op_key o ≡ g.op_key o

Grows-Move :
    (i : ℕ) (g : History) (h : Heap) (t : Thread) (g' : History) (h' : Heap) (t' : Thread)
    → Move i g h t g' h' t'
    → Grows g h g' × Changes h h'
Grows-Move i g h t g' h' t' m = (
  record {
    known = m.evolves.known;
    caller = m.evolves.caller;
    ended = m.ended;
    op_key = m.evolves.op_key;
  },
  record { present = m.evolves.present; adds = m.adds },
)

pub IsSound-Step :
    (g : History) {s t : System}
    → IsSound g s
    → Step s t
    → (g' : History) × IsSound g' t × (Grows g s.heap g' × Changes s.heap t.heap)
IsSound-Step g {s} sound (calls i k e le) =
    let (g', m) = call-Moves i g s.heap sound.heap k le in
    let m' =
      subst (λ t. Move i g s.heap t g' (call i k s).heap (at_node k s.heap.next root)) (sym e) m in
    (
      g',
      IsSound-Move i g s g' (call i k s).heap (at_node k s.heap.next root) sound m',
      Grows-Move i g s.heap (s.threads i) g' (call i k s).heap (at_node k s.heap.next root) m',
    )
IsSound-Step g {s} sound (runs i) =
    let (g', m) = advance-Moves i g s.heap (s.threads i) sound.heap (sound.threads i) in
    let c = advance (s.threads i) s.heap in
    (g', IsSound-Move i g s g' c.0 c.1 sound m, Grows-Move i g s.heap (s.threads i) g' c.0 c.1 m)

-- A reachable system is sound, with some history.
pub Reach-IsSound : {s : System} → Reach s → (g : History) × IsSound g s
Reach-IsSound here = (first, IsSound-start)
Reach-IsSound (next_step r x) =
    let (g, sound) = Reach-IsSound r in let (g', sound', _) = IsSound-Step g sound x in (g', sound')
