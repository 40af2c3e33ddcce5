-- ===== src/Batch/JobQueue/Calls.antt =====
-- The calls of a job queue, in any order.
use routerbot.Base.{ℕ, String, List, [], ◌∷◌}
use routerbot.Batch.JobQueue.{
  AsyncJobRequest, JobQueue, id_eq, submit, take, complete, fail, cancel, expire_stale_jobs, clear,
}

pub data Call : Type 0 where
  submitted : ℕ → ℕ → AsyncJobRequest → Call
  taken : ℕ → Call
  completed_with : ℕ → ℕ → String → Call
  failed_with : ℕ → ℕ → String → Call
  cancelled_at : ℕ → ℕ → Call
  swept : ℕ → Call
  cleared : Call

unfoldable pub apply : JobQueue → Call → JobQueue
apply q (submitted now id request) = (submit now id request q).1
apply q (taken now) = (take now q).1
apply q (completed_with now id result) = complete now id result q
apply q (failed_with now id error) = fail now id error q
apply q (cancelled_at now id) = (cancel now id q).1
apply q (swept now) = (expire_stale_jobs now q).1
apply q cleared = (clear q).1

unfoldable pub run : JobQueue → List Call → JobQueue
run q [] = q
run q (c ∷ cs) = run (apply q c) cs
