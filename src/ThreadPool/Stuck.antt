-- ===== src/ThreadPool/Stuck.antt =====
-- utility/thread_pool_block.hpp: its destructor joins threads that only `pthread_exit` ends.
use zwq_repos.Prelude.{
  ℕ, zero, suc, ◌<◌, ◌≤◌, ◌≡◌, refl, ap, ◌∙◌, Bool, true, false, arith, total, total_replace,
  if◌then◌else◌,
}
use zwq_repos.ThreadPool.{
  Task, job, pthread_exit, Worker, at_flag, dequeuing, waiting, running, ended, ThreadPool,
  thread_pool, after_task, WorkerStep, leaves, enters, takes, misses, wakes, finishes, works,
  submits, stops, Reach, here, next, Kind, blocking,
}
use zwq_repos.ThreadPool.Tasks.{count, Reach-Conserves}
use zwq_repos.ThreadPool.Stop.{Ended}

abbrev pub is_exit : Task → Bool
is_exit (job n) = false
is_exit pthread_exit = true

abbrev pub gone : Worker → ℕ
gone ended = 1
gone at_flag = 0
gone dequeuing = 0
gone waiting = 0
gone (running t) = 0

-- As many workers have ended as tasks that end one were run.
abbrev Exits : ThreadPool → Type 0
Exits s = (s.flag ≡ false) × (total gone s.threads s.workers ≡ count is_exit s.finished)

Exits-WorkerStep :
    {s : ThreadPool} {i : ℕ} {t : ThreadPool}
    → i < s.threads
    → WorkerStep blocking s i t
    → Exits s
    → Exits t
Exits-WorkerStep lt (leaves w f) (f', h) = absurd (ground arith)
Exits-WorkerStep {s} {i = i} lt (enters w f) (f', h) =
    let sum = total_replace gone s.threads i dequeuing s.workers lt in
    (f', omega (arith, ap gone w, h))
Exits-WorkerStep {s} {i = i} lt (takes xs t ys w q) (f', h) =
    let sum = total_replace gone s.threads i (running t) s.workers lt in
    (f', omega (arith, ap gone w, h))
Exits-WorkerStep {s} {i = i} lt (misses w) (f', h) =
    let sum = total_replace gone s.threads i waiting s.workers lt in
    (f', omega (arith, ap gone w, h))
Exits-WorkerStep {s} {i = i} lt (wakes xs t ys w q) (f', h) =
    let sum = total_replace gone s.threads i (running t) s.workers lt in
    (f', omega (arith, ap gone w, h))
Exits-WorkerStep {s} {i = i} lt (finishes t w) (f', h) =
    let sum = total_replace gone s.threads i (after_task t) s.workers lt in
    let one : gone (after_task t) ≡ (if is_exit t then 1 else 0) = ground arith in
    (f', omega (arith, ap gone w, one, h))

total_zero : (k : ℕ) → total gone k (λ _. at_flag) ≡ 0
total_zero zero = refl
total_zero (suc k) = omega (arith, total_zero k)

pub Reach-Exits : (num : ℕ) {s : ThreadPool} → Reach blocking (thread_pool num) s → Exits s
Reach-Exits num here = (refl, total_zero num)
Reach-Exits num (next r (works i lt st)) = Exits-WorkerStep lt st (Reach-Exits num r)
Reach-Exits num (next r (submits t)) = Reach-Exits num r
Reach-Exits num (next r (stops e)) = absurd (ground arith)

threads_lem :
    {k : Kind} {s : ThreadPool} {i : ℕ} {t : ThreadPool}
    → WorkerStep k s i t
    → t.threads ≡ s.threads
threads_lem (leaves w f) = refl
threads_lem (enters w f) = refl
threads_lem (takes xs t ys w q) = refl
threads_lem (misses w) = refl
threads_lem (wakes xs t ys w q) = refl
threads_lem (finishes t w) = refl

pub Reach-threads :
    {k : Kind} (num : ℕ) {s : ThreadPool} → Reach k (thread_pool num) s → s.threads ≡ num
Reach-threads num here = refl
Reach-threads num (next r (works i lt st)) = threads_lem st ∙ Reach-threads num r
Reach-threads num (next r (submits t)) = Reach-threads num r
Reach-threads num (next r (stops e)) = Reach-threads num r

total_all : (k : ℕ) (ws : ℕ → Worker) → ((i : ℕ) → i < k → ws i ≡ ended) → total gone k ws ≡ k
total_all zero ws all = refl
total_all (suc k) ws all =
    omega (arith, ap gone (all k (omega arith)), total_all k ws (λ i lt. all i (omega arith)))

-- In the blocking pool all workers have ended, so that the destructor's join returns, only in states
-- in which at least as many `pthread_exit` tasks were submitted as the pool has threads.
pub Ended-submitted :
    (num : ℕ) {s : ThreadPool}
    → Reach blocking (thread_pool num) s
    → Ended s
    → num ≤ count is_exit s.submitted
Ended-submitted num {s} r all =
    let (f, e) = Reach-Exits num r in
    omega (
      arith,
      Reach-Conserves blocking num is_exit r,
      total_all s.threads s.workers all,
      Reach-threads num r,
      e,
    )
