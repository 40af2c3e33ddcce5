-- ===== src/Batch/WorkerPool/Failing.antt =====
-- Under a handler that always raises, each job is tried as often as it may, and then fails.
use routerbot.Base.{
  ℕ, zero, suc, ◌+◌, ◌<◌, ◌≤◌, ◌≡◌, ◌⊎◌, refl, sym, subst, String, arith, some, true, false, ltb,
  lookup, lookup-All, insert-All, All, Bool-cases, Option-cases, List-cases, inl, inr,
}
use routerbot.Batch.JobQueue.{
  AsyncJob, pending, failed, is_pending, is_active, JobQueue, id_eq, start,
}
use routerbot.Batch.WorkerPool.{Outcome, raised, work_once, work}
use routerbot.Batch.WorkerPool.Rounds.{
  settled_job, work_once-empty, work_once-missing, work_once-skipped, work_once-done,
}
use routerbot.Batch.WorkerPool.Draining.{
  IsIdleJob, IsIdle, rounds_left, work-drains, work_once-IsIdle,
}

-- A job that waits for a further attempt, or has failed after the last one.
abbrev pub IsTrying : ℕ × AsyncJob → Type 0
IsTrying p =
    ((p.1.status ≡ pending) × (p.1.attempts < p.1.max_attempts))
    ⊎ ((p.1.status ≡ failed) × (p.1.attempts ≡ p.1.max_attempts))

-- The handler raises, whatever the round and the job.
abbrev pub Raises : (AsyncJob → Outcome) → Type 0
Raises handler = (job : AsyncJob) → (error : String) × (handler job ≡ raised error)

settled_job-IsTrying :
    (now id : ℕ) (error : String) (job : AsyncJob)
    → job.attempts < job.max_attempts
    → IsTrying (id, settled_job now (raised error) (start now job))
settled_job-IsTrying now id error job h =
    elim (Bool-cases (ltb (job.attempts + 1) job.max_attempts)) [
      | inl t ↦ rw t (inl (refl, ground arith))
      | inr f ↦ rw f (inr (refl, ground arith))
    ]

room :
    (id : ℕ) (job : AsyncJob)
    → IsTrying (id, job)
    → is_pending job ≡ true
    → job.attempts < job.max_attempts
room id job (inl w) t = w.1
room id job (inr w) t = ground arith

work_once-IsTrying :
    (now : ℕ) (handler : AsyncJob → Outcome) (q : JobQueue)
    → Raises handler
    → All IsIdleJob q.jobs
    → All IsTrying q.jobs
    → All IsTrying (work_once now handler q).jobs
work_once-IsTrying now handler q r v a = elim (List-cases q.entries) [
  | inl empty ↦ rw (work_once-empty now handler q empty) a
  | inr (e, es, front) ↦ elim (Option-cases (lookup e.id q.jobs)) [
    | inl m ↦ rw (work_once-missing now handler q e es front m) a
    | inr (job, m) ↦ elim (Bool-cases (is_pending job)) [
      | inl t ↦
          let own = lookup-All IsIdleJob e.id job q.jobs m v in
          let tried = lookup-All IsTrying e.id job q.jobs m a in
          let (error, o) = r (start now job) in
          rw (work_once-done now handler q e es front job m t own.0) (
            insert-All IsTrying e.id _ q.jobs
              (subst (λ x. IsTrying (e.id, settled_job now x (start now job))) (sym o)
                (settled_job-IsTrying now e.id error job (room e.id job tried t)))
              a)
      | inr f ↦ rw (work_once-skipped now handler q e es front job m f) a
    ]
  ]
]

round-IsIdle :
    (now : ℕ) (handler : AsyncJob → Outcome) (q : JobQueue)
    → IsIdle q
    → IsIdle (work_once now handler q)
round-IsIdle now handler q v = elim (List-cases q.entries) [
  | inl empty ↦ subst IsIdle (sym (work_once-empty now handler q empty)) v
  | inr (e, es, front) ↦ work_once-IsIdle now handler q e es front v
]

work-IsTrying :
    (n : ℕ) (clock : ℕ → ℕ) (handler : ℕ → AsyncJob → Outcome) (q : JobQueue)
    → ((n : ℕ) → Raises (handler n))
    → IsIdle q
    → All IsTrying q.jobs
    → All IsTrying (work n clock handler q).jobs
unfolding work
work-IsTrying zero clock handler q r v a = a
work-IsTrying (suc n) clock handler q r v a =
    work-IsTrying n clock handler (work_once (clock n) (handler n) q) r
      (round-IsIdle (clock n) (handler n) q v)
      (work_once-IsTrying (clock n) (handler n) q (r n) v.idle a)

exhausted :
    (id : ℕ) (job : AsyncJob)
    → IsTrying (id, job)
    → is_active job.status ≡ false
    → (job.status ≡ failed) × (job.attempts ≡ job.max_attempts)
exhausted id job (inl w) f = let e : true ≡ false = rw w.0 at f in cc
exhausted id job (inr w) f = w

-- Under a handler that always raises, a worker that is left alone with a queue of jobs which wait for
-- an attempt that they have left, or have failed for good, ends with every job failed, after
-- exactly as many attempts as it may have.
pub work-fails :
    (n : ℕ) (clock : ℕ → ℕ) (handler : ℕ → AsyncJob → Outcome) (q : JobQueue)
    → ((n : ℕ) → Raises (handler n))
    → IsIdle q
    → All IsTrying q.jobs
    → rounds_left q ≤ n
    → (id : ℕ) (job : AsyncJob) → lookup id (work n clock handler q).jobs ≡ some job
    → (job.status ≡ failed) × (job.attempts ≡ job.max_attempts)
work-fails n clock handler q r v a h id job m =
    exhausted id job
      (lookup-All IsTrying id job (work n clock handler q).jobs m
        (work-IsTrying n clock handler q r v a))
      ((work-drains n clock handler q v h).1 id job m)
