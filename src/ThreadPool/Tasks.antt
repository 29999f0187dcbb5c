-- ===== src/ThreadPool/Tasks.antt =====
-- utility/thread_pool.hpp and utility/thread_pool_block.hpp: the tasks of the queue, of the workers and of the past.
use zwq_repos.Prelude.{
  ℕ, zero, suc, ◌+◌, ◌<◌, ◌≡◌, refl, ap, Bool, List, [], ◌∷◌, ◌++◌, if◌then◌else◌, arith, total,
  total_replace,
}
use zwq_repos.ThreadPool.{
  Task, Worker, at_flag, dequeuing, waiting, running, ended, ThreadPool, thread_pool, put, take,
  finish, after_task, WorkerStep, leaves, enters, takes, misses, wakes, finishes, works, submits,
  stops, Reach, here, next, Kind, miss,
}

-- How many tasks of a list pass a test, and how many of them a worker runs.
abbrev pub count : (Task → Bool) → List Task → ℕ
count is [] = 0
count is (t ∷ r) = (if is t then 1 else 0) + count is r

abbrev pub runs : (Task → Bool) → Worker → ℕ
runs is (running t) = if is t then 1 else 0
runs is at_flag = 0
runs is dequeuing = 0
runs is waiting = 0
runs is ended = 0

pub count-append :
    (is : Task → Bool) (xs ys : List Task) → count is (xs ++ ys) ≡ count is xs + count is ys
count-append is [] ys = omega arith
count-append is (t ∷ r) ys = omega (arith, count-append is r ys)

-- Every submitted task waits, runs or has run.
abbrev pub Conserves : (Task → Bool) → ThreadPool → Type 0
Conserves is s =
    count is s.task_queue + total (runs is) s.threads s.workers + count is s.finished
    ≡ count is s.submitted

Conserves-take :
    (is : Task → Bool) (i : ℕ) (xs : List Task) (t : Task) (ys : List Task) (s : ThreadPool)
    → i < s.threads
    → runs is (s.workers i) ≡ 0
    → s.task_queue ≡ xs ++ t ∷ ys
    → Conserves is s
    → Conserves is (take i xs t ys s)
Conserves-take is i xs t ys s lt w q h =
    let sum = total_replace (runs is) s.threads i (running t) s.workers lt in
    let before : count is s.task_queue ≡ count is (xs ++ t ∷ ys) = ap (count is) q in
    omega (arith, count-append is xs (t ∷ ys), count-append is xs ys, h, w)

Conserves-put :
    (is : Task → Bool) (i : ℕ) (w : Worker) (s : ThreadPool)
    → i < s.threads
    → runs is (s.workers i) ≡ 0
    → runs is w ≡ 0
    → Conserves is s
    → Conserves is (put i w s)
Conserves-put is i w s lt e e' h =
    let sum = total_replace (runs is) s.threads i w s.workers lt in omega (arith, h)

Conserves-finish :
    (is : Task → Bool) (i : ℕ) (t : Task) (s : ThreadPool)
    → i < s.threads
    → s.workers i ≡ running t
    → Conserves is s
    → Conserves is (finish i t s)
Conserves-finish is i t s lt w h =
    let sum = total_replace (runs is) s.threads i (after_task t) s.workers lt in
    let rest : runs is (after_task t) ≡ 0 = ground arith in
    let mine : runs is (s.workers i) ≡ (if is t then 1 else 0) = ap (runs is) w in omega (arith, h)

pub Conserves-WorkerStep :
    {k : Kind} {s : ThreadPool} {i : ℕ} {t : ThreadPool} (is : Task → Bool)
    → i < s.threads
    → WorkerStep k s i t
    → Conserves is s
    → Conserves is t
Conserves-WorkerStep {s = s} {i = i} n lt (leaves w f) h =
    Conserves-put n i ended s lt (ap (runs n) w) refl h
Conserves-WorkerStep {s = s} {i = i} n lt (enters w f) h =
    Conserves-put n i dequeuing s lt (ap (runs n) w) refl h
Conserves-WorkerStep {s = s} {i = i} n lt (takes xs t ys w q) h =
    Conserves-take n i xs t ys s lt (ap (runs n) w) q h
Conserves-WorkerStep {k} {s} {i} n lt (misses w) h =
    Conserves-put n i (miss k) s lt (ap (runs n) w) (ground arith) h
Conserves-WorkerStep {s = s} {i = i} n lt (wakes xs t ys w q) h =
    Conserves-take n i xs t ys s lt (ap (runs n) w) q h
Conserves-WorkerStep {s = s} {i = i} n lt (finishes t w) h = Conserves-finish n i t s lt w h

total_zero : (is : Task → Bool) (k : ℕ) → total (runs is) k (λ _. at_flag) ≡ 0
total_zero is zero = refl
total_zero is (suc k) = omega (arith, total_zero is k)

-- In every state that a pool of either kind can reach, whatever the workers' order and with tasks
-- submitted at any time, and for every test on tasks: as many tasks that pass it were submitted as
-- stand in the queue, with a running worker, or among those that were run, all three together.
pub Reach-Conserves :
    (k : Kind) (num : ℕ) (is : Task → Bool) {s : ThreadPool}
    → Reach k (thread_pool num) s
    → Conserves is s
Reach-Conserves k num is here = omega (arith, total_zero is num)
Reach-Conserves k num is (next r (works i lt st)) =
    Conserves-WorkerStep is lt st (Reach-Conserves k num is r)
Reach-Conserves k num is (next {t} r (submits task)) =
    let h = Reach-Conserves k num is r in omega (arith, count-append is t.task_queue (task ∷ []), h)
Reach-Conserves k num is (next r (stops e)) = Reach-Conserves k num is r
