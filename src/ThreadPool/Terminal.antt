-- ===== src/ThreadPool/Terminal.antt =====
-- utility/thread_pool_block.hpp: `terminal` before the destructor.
use zwq_repos.Prelude.{ℕ, ◌+◌, ◌*◌, total, length}
use zwq_repos.ThreadPool.{Worker, at_flag, dequeuing, waiting, running, ended, ThreadPool}

-- How many steps a worker can still make without another task.
abbrev pub left : Worker → ℕ
left ended = 0
left waiting = 1
left dequeuing = 2
left at_flag = 3
left (running t) = 4

abbrev pub load : ThreadPool → ℕ
load s = 4 * length s.task_queue + total left s.threads s.workers
