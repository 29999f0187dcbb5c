-- ===== src/ThreadPool/Stop.antt =====
-- utility/thread_pool.hpp: after its destructor has set the flag, the join of the threads returns.
use zwq_repos.Prelude.{
  ℕ, zero, suc, ◌+◌, ◌*◌, ◌<◌, ◌≤◌, ◌≡◌, ◌≢◌, ◌⊎◌, refl, ap, ◌∙◌, true, arith, total, total_replace,
  inl, inr,
}
use zwq_repos.ThreadPool.{
  Task, Worker, at_flag, dequeuing, waiting, running, ended, ThreadPool, after_task, WorkerStep,
  leaves, enters, takes, misses, wakes, finishes, Works, idle, work, spinning, Reach, here, next,
  works, submits, stops, thread_pool, stop,
}

-- How many steps a worker can still make once the flag is set.
abbrev pub weight : Worker → ℕ
weight ended = 0
weight at_flag = 1
weight (running t) = 2
weight dequeuing = 3
weight waiting = 3

abbrev pub Ended : ThreadPool → Type 0
Ended s = (i : ℕ) → i < s.threads → s.workers i ≡ ended

weight_after : (t : Task) → weight (after_task t) < 2
weight_after t = ground arith

weight-WorkerStep :
    {s : ThreadPool} {i : ℕ} {t : ThreadPool}
    → i < s.threads
    → s.flag ≡ true
    → WorkerStep spinning s i t
    → (suc (total weight t.threads t.workers) ≤ total weight s.threads s.workers)
      × (t.flag ≡ true)
      × (t.threads ≡ s.threads)
weight-WorkerStep {s} {i = i} lt f (leaves w f') =
    let sum = total_replace weight s.threads i ended s.workers lt in
    (omega (arith, ap weight w), f, refl)
weight-WorkerStep lt f (enters w f') = absurd (ground arith)
weight-WorkerStep {s} {i = i} lt f (takes xs t ys w q) =
    let sum = total_replace weight s.threads i (running t) s.workers lt in
    (omega (arith, ap weight w), f, refl)
weight-WorkerStep {s} {i = i} lt f (misses w) =
    let sum = total_replace weight s.threads i at_flag s.workers lt in
    (omega (arith, ap weight w), f, refl)
weight-WorkerStep {s} {i = i} lt f (wakes xs t ys w q) =
    let sum = total_replace weight s.threads i (running t) s.workers lt in
    (omega (arith, ap weight w), f, refl)
weight-WorkerStep {s} {i = i} lt f (finishes t w) =
    let sum = total_replace weight s.threads i (after_task t) s.workers lt in
    (omega (arith, ap weight w, weight_after t), f, refl)

weight-Works :
    {s : ThreadPool} {n : ℕ} {t : ThreadPool}
    → s.flag ≡ true
    → Works spinning s n t
    → (n + total weight t.threads t.workers ≤ total weight s.threads s.workers)
      × (t.flag ≡ true)
      × (t.threads ≡ s.threads)
weight-Works f idle = (omega arith, f, refl)
weight-Works f (work i r lt st) =
    let (le, f', e) = weight-Works f r in
    let (le', f'', e') = weight-WorkerStep lt f' st in (omega arith, f'', e' ∙ e)

total_bound : (k : ℕ) (ws : ℕ → Worker) → total weight k ws ≤ 3 * k
total_bound zero ws = omega arith
total_bound (suc k) ws =
    let one : weight (ws k) ≤ 3 = bound (ws k) in omega (arith, total_bound k ws)
  where
    bound : (w : Worker) → weight w ≤ 3
    bound w = ground arith

-- No worker of the spinning pool comes to wait.
step_waits :
    {s : ThreadPool} {i : ℕ} {t : ThreadPool}
    → WorkerStep spinning s i t
    → ((j : ℕ) → s.workers j ≢ waiting)
    → (j : ℕ) → t.workers j ≢ waiting
step_waits (leaves w f) nw j = ground (arith, nw j)
step_waits (enters w f) nw j = ground (arith, nw j)
step_waits (takes xs t ys w q) nw j = ground (arith, nw j)
step_waits (misses w) nw j = ground (arith, nw j)
step_waits (wakes xs t ys w q) nw j = ground (arith, nw j)
step_waits (finishes t w) nw j = ground (arith, nw j)

-- A worker of the spinning pool that has not ended can step.
step_or_ended :
    (s : ThreadPool) (i : ℕ) (w : Worker)
    → s.workers i ≡ w
    → w ≢ waiting
    → s.flag ≡ true
    → (w ≡ ended) ⊎ ((t : ThreadPool) × WorkerStep spinning s i t)
step_or_ended s i at_flag e nw f = inr (_, leaves e f)
step_or_ended s i dequeuing e nw f = inr (_, misses e)
step_or_ended s i waiting e nw f = absurd (nw refl)
step_or_ended s i (running t) e nw f = inr (_, finishes t e)
step_or_ended s i ended e nw f = inl refl

-- No worker of a spinning pool waits.
Reach-waits :
    (num : ℕ) {s : ThreadPool}
    → Reach spinning (thread_pool num) s
    → (i : ℕ) → s.workers i ≢ waiting
Reach-waits num here i = ground arith
Reach-waits num (next r (works j lt st)) i = step_waits st (Reach-waits num r) i
Reach-waits num (next r (submits t)) i = Reach-waits num r i
Reach-waits num (next r (stops e)) i = Reach-waits num r i

Works-waits :
    {s : ThreadPool} {n : ℕ} {t : ThreadPool}
    → Works spinning s n t
    → ((i : ℕ) → s.workers i ≢ waiting)
    → (i : ℕ) → t.workers i ≢ waiting
Works-waits idle nw i = nw i
Works-waits (work j r lt st) nw i = step_waits st (Works-waits r nw) i

-- In the spinning pool, from any reachable state with the flag set as its destructor does: every
-- schedule of the workers has at most three steps for each thread, and where no worker can step any
-- more all of them have ended, so that the destructor's join returns.
pub stop-Ended :
    (num : ℕ) {s : ThreadPool} {n : ℕ} {t : ThreadPool}
    → Reach spinning (thread_pool num) s
    → Works spinning (stop s) n t
    → (n ≤ 3 * s.threads)
      × (((i : ℕ) (u : ThreadPool) → i < t.threads → ¬ WorkerStep spinning t i u) → Ended t)
stop-Ended num {s} {n} {t} r ws =
    let (le, f, e) = weight-Works {s = stop s} refl ws in
    let nw = Works-waits ws (Reach-waits num r) in
    (
      omega (arith, total_bound s.threads s.workers),
      λ stuck i lt. elim (step_or_ended t i (t.workers i) refl (nw i) f) [
        | inl e' ↦ e'
        | inr (u, st) ↦ absurd (stuck i u lt st)
      ],
    )
