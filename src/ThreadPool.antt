-- ===== src/ThreadPool.antt =====
-- utility/thread_pool.hpp and utility/thread_pool_block.hpp: workers that take tasks from a concurrent
-- queue, as a step relation. The queue is that of another library: a dequeue takes any of its tasks,
-- and a try may fail while there are some. A task runs to its end. The two pools differ in what a
-- worker does when its try has failed.
pub mod Tasks
pub mod Stop
pub mod Stuck
pub mod Terminal
mod Examples
use zwq_repos.Prelude.{
  ℕ, zero, suc, ◌+◌, ◌<◌, ◌≡◌, Bool, true, false, List, [], ◌∷◌, ◌++◌, ◌==◌, if◌then◌else◌,
}

-- A job, or `std::bind(pthread_exit, nullptr)`.
pub data Task : Type 0 where
  job : ℕ → Task
  pthread_exit : Task

-- Where a worker stands: at the test of `__flag`, before its try, in `wait_dequeue`, in a task, or
-- ended.
pub data Worker : Type 0 where
  at_flag dequeuing waiting : Worker
  running : Task → Worker
  ended : Worker

-- `finished` and `submitted` record the tasks that were run and handed in.
pub record ThreadPool : Type 0 where
  pub flag : Bool
  pub task_queue : List Task
  pub workers : ℕ → Worker
  pub threads : ℕ
  pub finished : List Task
  pub submitted : List Task

-- The constructor with `num` threads, after all of them have started.
abbrev pub thread_pool : ℕ → ThreadPool
thread_pool num = record {
  flag = false;
  task_queue = [];
  workers = λ _. at_flag;
  threads = num;
  finished = [];
  submitted = [];
}

abbrev pub put : ℕ → Worker → ThreadPool → ThreadPool
put i w s = record s { workers = λ j. if j == i then w else s.workers j }

-- `submit`
abbrev pub submit : Task → ThreadPool → ThreadPool
submit t s = record s { task_queue = s.task_queue ++ t ∷ []; submitted = t ∷ s.submitted }

-- The destructor of thread_pool.hpp sets the flag before it joins the threads; that of
-- thread_pool_block.hpp only joins them.
abbrev pub stop : ThreadPool → ThreadPool
stop s = record s { flag = true }

-- `terminal`, for a vector of this capacity.
unfoldable pub terminal : ℕ → ThreadPool → ThreadPool
terminal zero s = s
terminal (suc capacity) s = terminal capacity (submit pthread_exit s)

-- `run_pending_task` after a try that failed: `std::this_thread::yield()` or `wait_dequeue`.
abbrev pub yields : Worker
yields = at_flag

abbrev pub waits : Worker
waits = waiting

pub data Kind : Type 0 where
  spinning blocking : Kind

abbrev pub miss : Kind → Worker
miss spinning = yields
miss blocking = waits

-- A worker has the task that stood between `xs` and `ys`.
abbrev pub take : ℕ → List Task → Task → List Task → ThreadPool → ThreadPool
take i xs t ys s = put i (running t) (record s { task_queue = xs ++ ys })

-- The worker after a task: back at the flag, or ended by `pthread_exit`.
abbrev pub after_task : Task → Worker
after_task (job n) = at_flag
after_task pthread_exit = ended

abbrev pub finish : ℕ → Task → ThreadPool → ThreadPool
finish i t s = put i (after_task t) (record s { finished = t ∷ s.finished })

-- A step of the worker `i` of a pool: `work_thread` and
-- `run_pending_task`.
pub data WorkerStep (k : Kind) (s : ThreadPool) (i : ℕ) : ThreadPool → Type 0 where
  leaves : s.workers i ≡ at_flag → s.flag ≡ true → WorkerStep k s i (put i ended s)
  enters : s.workers i ≡ at_flag → s.flag ≡ false → WorkerStep k s i (put i dequeuing s)
  takes :
      (xs : List Task) (t : Task) (ys : List Task)
      → s.workers i ≡ dequeuing
      → s.task_queue ≡ xs ++ t ∷ ys
      → WorkerStep k s i (take i xs t ys s)
  misses : s.workers i ≡ dequeuing → WorkerStep k s i (put i (miss k) s)
  wakes :
      (xs : List Task) (t : Task) (ys : List Task)
      → s.workers i ≡ waiting
      → s.task_queue ≡ xs ++ t ∷ ys
      → WorkerStep k s i (take i xs t ys s)
  finishes : (t : Task) → s.workers i ≡ running t → WorkerStep k s i (finish i t s)

-- A step of a worker, or of the pool's owner.
pub data Step (k : Kind) (s : ThreadPool) : ThreadPool → Type 0 where
  works : {t : ThreadPool} (i : ℕ) → i < s.threads → WorkerStep k s i t → Step k s t
  submits : (t : Task) → Step k s (submit t s)
  stops : k ≡ spinning → Step k s (stop s)

pub data Reach (k : Kind) (s : ThreadPool) : ThreadPool → Type 0 where
  here : Reach k s s
  next : {t u : ThreadPool} → Reach k s t → Step k t u → Reach k s u

-- A number of steps of the workers alone.
pub data Works (k : Kind) (s : ThreadPool) : ℕ → ThreadPool → Type 0 where
  idle : Works k s 0 s
  work :
      {t u : ThreadPool} {n : ℕ} (i : ℕ)
      → Works k s n t
      → i < t.threads
      → WorkerStep k t i u
      → Works k s (suc n) u
