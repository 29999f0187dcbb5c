-- ===== src/Bst/NonBlocking/Examples.antt =====
-- BST/NonBlockingBST.cpp: runs of two threads.
use zwq_repos.Prelude.{Bool, ◌≢◌, ℕ, ◌≡◌, List, [], ◌∷◌, refl, true, arith}
use zwq_repos.Bst.NonBlocking.{
  outside, root, returned, System, call, run, calls, runs, start, Reach, here, next_step, advance,
}
use zwq_repos.Bst.NonBlocking.Route.{Route, arrived, down, Contains}
use zwq_repos.Bst.NonBlocking.Invariant.{IsBusy}
use zwq_repos.Bst.NonBlocking.Reached.{Changes}
use zwq_repos.Bst.NonBlocking.Solo.{alone, key_of, alone_returns}
use zwq_repos.Bst.NonBlocking.New.{Runs, stop, further, insert-adds}
use zwq_repos.Bst.NonBlocking.Results.{Step-Changes, returned-Contains, one_inserts, dirty-IsBusy}

-- The threads take steps in an order.
abbrev run_all : List ℕ → System → System
run_all [] s = s
run_all (i ∷ is) s = run_all is (run i s)

Reach-run_all : (is : List ℕ) {s : System} → Reach s → Reach (run_all is s)
Reach-run_all [] r = r
Reach-run_all (i ∷ is) r = Reach-run_all is (next_step r (runs i))

-- The threads 0 and 1 insert 7 and 5.
abbrev called : System
called = call 1 5 (call 0 7 start)

called_reached : Reach called
called_reached =
    next_step (next_step here (calls 0 7 refl (omega arith))) (calls 1 5 refl (omega arith))

-- Thread 0 has made the root dirty.
abbrev flagged : System
flagged = run_all (0 ∷ 0 ∷ 0 ∷ []) called

-- Thread 1 reads the dirty value.
abbrev seen : System
seen = run_all (1 ∷ 1 ∷ 1 ∷ []) flagged

-- It changes the child for thread 0.
abbrev helped : System
helped = run 1 seen

-- Thread 0 goes on alone.
abbrev finished : System
finished = run_all (0 ∷ 0 ∷ []) helped

flagged_reached : Reach flagged
flagged_reached = Reach-run_all (0 ∷ 0 ∷ 0 ∷ []) called_reached

seen_reached : Reach seen
seen_reached = Reach-run_all (1 ∷ 1 ∷ 1 ∷ []) flagged_reached

helped_reached : Reach helped
helped_reached = next_step seen_reached (runs 1)

finished_reached : Reach finished
finished_reached = Reach-run_all (0 ∷ 0 ∷ []) helped_reached

thread_0 : finished.threads 0 ≡ returned 7 true 8
unfolding advance
thread_0 = refl

Step-Changes_example : Changes seen.heap helped.heap
Step-Changes_example = Step-Changes seen_reached (runs 1)

returned-Contains_example : Contains finished.heap 7
returned-Contains_example = returned-Contains 0 7 true 8 finished_reached thread_0

one_inserts_example : ◌≡◌ {A = ℕ} 0 0
one_inserts_example = one_inserts 0 0 7 8 8 finished_reached thread_0 thread_0

dirty_root : (flagged.heap.update root).is_dirty ≡ true
unfolding advance
dirty_root = refl

dirty-IsBusy_example : (i : ℕ) × IsBusy (flagged.heap.update root).info (flagged.threads i)
dirty-IsBusy_example = dirty-IsBusy 0 root flagged_reached (arrived root) dirty_root

leaf_5 : Route finished.heap 5 root 4
unfolding advance
leaf_5 = down root refl (down 7 refl (arrived 4))

leaf_5-is_leaf : finished.heap.is_leaf 4 ≡ true
unfolding advance
leaf_5-is_leaf = refl

thread_1 : flagged.threads 1 ≢ outside
unfolding advance
thread_1 e = ground arith

alone_returns_example :
    (m x : ℕ) × (b : Bool) × ((alone m 1 flagged).threads 1
      ≡ returned (key_of (flagged.threads 1)) b x)
alone_returns_example = alone_returns 1 flagged_reached thread_1

Runs-run_all : (is : List ℕ) {s t : System} → Runs s t → Runs s (run_all is t)
Runs-run_all [] r = r
Runs-run_all (i ∷ is) r = Runs-run_all is (further r (runs i))

-- From the empty tree to the return of thread 0.
finished_runs : Runs start finished
finished_runs = Runs-run_all (0 ∷ 0 ∷ []) (
    further
      (Runs-run_all (1 ∷ 1 ∷ 1 ∷ []) (
        Runs-run_all (0 ∷ 0 ∷ 0 ∷ [])
          (further (further stop (calls 0 7 refl (omega arith))) (calls 1 5 refl (omega arith)))))
      (runs 1))

insert-adds_example : (¬ Contains start.heap 7) × Contains finished.heap 7
insert-adds_example = insert-adds 0 7 8 here refl finished_runs thread_0
