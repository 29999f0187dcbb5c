-- ===== src/ThreadPool/Examples.antt =====
-- Runs of pools, and their theorems at concrete states.
use zwq_repos.Prelude.{ℕ, ◌*◌, ◌<◌, ◌≤◌, refl, Bool, false, [], ◌∷◌, ◌==◌, arith}
use zwq_repos.ThreadPool.{
  Task, job, pthread_exit, dequeuing, waiting, ThreadPool, thread_pool, put, submit, stop, take,
  finish, WorkerStep, enters, takes, misses, wakes, finishes, works, submits, Reach, here, next,
  Works, idle, work, spinning, blocking,
}
use zwq_repos.ThreadPool.Tasks.{Conserves, Reach-Conserves, count}
use zwq_repos.ThreadPool.Stop.{Ended, stop-Ended}
use zwq_repos.ThreadPool.Stuck.{is_exit, Ended-submitted}

abbrev is_seven : Task → Bool
is_seven (job n) = n == 7
is_seven pthread_exit = false

-- Two threads; the first runs a job while another waits in the queue.
abbrev busy : ThreadPool
busy = put 1 dequeuing (
    take 0 [] (job 7) (job 8 ∷ [])
      (put 0 dequeuing (submit (job 8) (submit (job 7) (thread_pool 2)))))

busy-Reach : Reach spinning (thread_pool 2) busy
busy-Reach =
    next
      (next
        (next (next (next here (submits (job 7))) (submits (job 8)))
          (works 0 (omega arith) (enters refl refl)))
        (works 0 (omega arith) (takes [] (job 7) (job 8 ∷ []) refl refl)))
      (works 1 (omega arith) (enters refl refl))

Reach-Conserves_example : Conserves is_seven busy
Reach-Conserves_example = Reach-Conserves spinning 2 is_seven busy-Reach

-- The flag is set, the second worker takes the other job and runs it, the first ends its own.
abbrev stopping : ThreadPool
stopping = finish 0 (job 7) (finish 1 (job 8) (take 1 [] (job 8) [] (stop busy)))

stopping-Works : Works spinning (stop busy) 3 stopping
stopping-Works =
    work 0
      (work 1 (work 1 idle (omega arith) (takes [] (job 8) [] refl refl)) (omega arith)
        (finishes (job 8) refl))
      (omega arith) (finishes (job 7) refl)

stop-Ended_example :
    (3 ≤ 3 * busy.threads)
    × (((i : ℕ) (u : ThreadPool) → i < stopping.threads → ¬ WorkerStep spinning stopping i u)
        → Ended stopping)
stop-Ended_example = stop-Ended 2 busy-Reach stopping-Works

-- One thread that waits, a task that ends it, and its end.
abbrev parked : ThreadPool
parked = put 0 waiting (put 0 dequeuing (thread_pool 1))

parked-Reach : Reach blocking (thread_pool 1) parked
parked-Reach =
    next (next here (works 0 (omega arith) (enters refl refl)))
      (works 0 (omega arith) (misses refl))

abbrev over : ThreadPool
over = finish 0 pthread_exit (take 0 [] pthread_exit [] (submit pthread_exit parked))

over-Reach : Reach blocking (thread_pool 1) over
over-Reach =
    next
      (next (next parked-Reach (submits pthread_exit))
        (works 0 (omega arith) (wakes [] pthread_exit [] refl refl)))
      (works 0 (omega arith) (finishes pthread_exit refl))

over-Ended : Ended over
over-Ended i lt = ground arith

Ended-submitted_example : 1 ≤ count is_exit over.submitted
Ended-submitted_example = Ended-submitted 1 over-Reach over-Ended
