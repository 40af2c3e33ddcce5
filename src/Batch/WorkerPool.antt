-- ===== src/Batch/WorkerPool.antt =====
-- src/routerbot/core/batch/worker_pool.py: the loop of a worker. What a handler does is an Outcome, the
-- text of what it returns or of what it raises. The loop goes on for as many rounds as it is
-- given, a round with nothing to take included; the delays before the next round, the callbacks and
-- the worker's name on the job change no queue and are left out.
pub mod Rounds
pub mod Draining
pub mod Failing
mod Examples
use routerbot.Base.{ℕ, zero, suc, String, Option, none, some}
use routerbot.Batch.JobQueue.{AsyncJob, JobQueue, take, complete, fail}

pub data Outcome : Type 0 where
  returned : String → Outcome
  raised : String → Outcome

abbrev pub settle : ℕ → ℕ → Outcome → JobQueue → JobQueue
settle now job_id (returned result) q = complete now job_id result q
settle now job_id (raised error_msg) q = fail now job_id error_msg q

abbrev pub handle : ℕ → (AsyncJob → Outcome) → Option AsyncJob → JobQueue → JobQueue
handle now handler none q = q
handle now handler (some job) q = settle now job.job_id (handler job) q

-- One round of _worker_loop.
unfoldable pub work_once : ℕ → (AsyncJob → Outcome) → JobQueue → JobQueue
work_once now handler q = let (job, q') = take now q in handle now handler job q'

-- Rounds of the loop; `clock` and `handler` may do otherwise in each.
unfoldable pub work : ℕ → (ℕ → ℕ) → (ℕ → AsyncJob → Outcome) → JobQueue → JobQueue
unfolding work_once
work zero clock handler q = q
work (suc n) clock handler q = work n clock handler (work_once (clock n) (handler n) q)
