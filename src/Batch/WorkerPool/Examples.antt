-- ===== src/Batch/WorkerPool/Examples.antt =====
-- The theorem on workers, at two jobs of which each may be tried twice.
use routerbot.Base.{
  at_key, eqb, true, ℕ, ◌≡◌, refl, arith, some, false, true, [], lookup, All, inl, insert, ◌-◌,
}
use routerbot.Batch.JobQueue.{
  failed, AsyncJob, AsyncJobRequest, low, JobQueue, id_eq, is_active, init, submit, take, fail,
  complete,
}
use routerbot.Batch.JobQueue.Attempts.{init-IsSound}
use routerbot.Batch.WorkerPool.{Outcome, raised, work}
use routerbot.Batch.WorkerPool.Failing.{IsTrying, work-fails}
use routerbot.Batch.WorkerPool.Draining.{IsIdle, work-drains, submit-IsIdle}

abbrev ask : AsyncJobRequest
ask = record { body = "{}"; priority = low; ttl_seconds = 60 }

abbrev two_jobs : JobQueue
two_jobs = (submit 6 2 ask (submit 5 1 ask (init 10 2)).1).1

init-IsIdle : IsIdle (init 10 2)
init-IsIdle = record { sound = init-IsSound 10 2 (omega arith); idle = unfold init in tt }

two_jobs-IsIdle : IsIdle two_jobs
two_jobs-IsIdle =
    submit-IsIdle 6 2 ask (submit 5 1 ask (init 10 2)).1
      (submit-IsIdle 5 1 ask (init 10 2) init-IsIdle)

-- Each is tried twice.
broken : ℕ → AsyncJob → Outcome
broken n job = raised "RuntimeError: down"

all_failed :
    at_key (λ j. eqb j.attempts 2) (lookup 1 (work 4 (λ n. 100 - n) broken two_jobs).jobs) ≡ true
unfolding work submit init take fail complete lookup insert broken
all_failed = refl

work-drains_example :
    ((work 6 (λ n. 100 - n) broken two_jobs).entries ≡ [])
    × ((id : ℕ) (job : AsyncJob)
        → lookup id (work 6 (λ n. 100 - n) broken two_jobs).jobs ≡ some job
        → is_active job.status ≡ false)
work-drains_example =
    work-drains 6 (λ n. 100 - n) broken two_jobs two_jobs-IsIdle
      (unfold submit init in unfold insert in omega arith)

fresh : All IsTrying two_jobs.jobs
unfolding submit init insert
fresh = (inl (refl, omega arith), (inl (refl, omega arith), tt))

one-found : (job : AsyncJob) × (lookup 1 (work 6 (λ n. 100 - n) broken two_jobs).jobs ≡ some job)
unfolding work submit init take fail complete lookup insert broken
one-found = (_, refl)

work-fails_example :
    (one-found.0.status ≡ failed) × (one-found.0.attempts ≡ one-found.0.max_attempts)
work-fails_example =
    work-fails 6 (λ n. 100 - n) broken two_jobs
      (λ n job. ("RuntimeError: down", unfold broken in refl)) two_jobs-IsIdle fresh
      (unfold submit init in unfold insert in omega arith) 1 one-found.0 one-found.1
