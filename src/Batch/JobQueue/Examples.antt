-- ===== src/Batch/JobQueue/Examples.antt =====
-- The theorems on job queues, at two jobs of which the second is more urgent.
use routerbot.Base.{◌≡◌, refl, some, List, [], ◌∷◌, arith, lookup, insert}
use routerbot.Batch.JobQueue.{
  AsyncJobRequest, AsyncJob, JobQueue, high, low, init, submit, take, fail, cancel, new_job, start,
  id_eq,
}
use routerbot.Batch.JobQueue.Calls.{Call, submitted, taken, failed_with, cancelled_at, apply, run}
use routerbot.Batch.JobQueue.Attempts.{IsSound, init-IsSound, apply-IsSound, run-IsSound}
use routerbot.Batch.JobQueue.Ranks.{IsFresh}
use routerbot.Batch.JobQueue.Urgency.{IsMostUrgent, take-IsMostUrgent}

abbrev slow : AsyncJobRequest
slow = record { body = "{}"; priority = low; ttl_seconds = 3600 }

abbrev urgent : AsyncJobRequest
urgent = record { body = "{}"; priority = high; ttl_seconds = 3600 }

abbrev submissions : List Call
submissions = submitted 10 7 slow ∷ submitted 11 5 urgent ∷ []

abbrev two_jobs : JobQueue
two_jobs = run (init 100 3) submissions

apply-IsSound_example : IsSound (apply two_jobs (taken 12))
apply-IsSound_example =
    apply-IsSound two_jobs (taken 12)
      (run-IsSound (init 100 3) submissions (init-IsSound 100 3 (omega arith)))

urgent_job : AsyncJob
urgent_job = start 12 (new_job 11 5 urgent 3)

taken_first : (take 12 two_jobs).0 ≡ some urgent_job
unfolding run apply init submit take urgent_job lookup insert
taken_first = refl

submissions-IsFresh : IsFresh (init 100 3) submissions
unfolding init apply submit lookup insert
submissions-IsFresh = (refl, (refl, tt))

take-IsMostUrgent_example : IsMostUrgent 12 two_jobs urgent_job
take-IsMostUrgent_example =
    take-IsMostUrgent 100 3 submissions 12 urgent_job (omega arith) submissions-IsFresh taken_first

-- A cancelled job that its worker reports as failed is started again.
restarted :
    (take 15 (run two_jobs (taken 12 ∷ cancelled_at 13 5 ∷ failed_with 14 5 "timeout" ∷ []))).0
    ≡ some (record (new_job 11 5 urgent 3) {
      status = (start 15 (new_job 11 5 urgent 3)).status;
      started_at = some 15;
      completed_at = some 13;
      error = "timeout";
      attempts = 2;
    })
unfolding run apply init submit take cancel fail lookup insert
restarted = refl
