-- ===== src/Batch/WorkerPool/Rounds.antt =====
-- What one round does to the queue.
use routerbot.Base.{
  ℕ, ◌≡◌, refl, ◌∙◌, ap, arith, none, some, true, false, List, [], ◌∷◌, if◌then◌else◌, ltb, lookup,
  insert, insert_twice, lookup-insert_self, Bool-cases, inl, inr,
}
use routerbot.Batch.JobQueue.{
  AsyncJob, pending, completed, failed, is_pending, Entry, put_entry, JobQueue, id_eq, entry_of,
  take, start, complete, fail,
}
use routerbot.Batch.WorkerPool.{Outcome, returned, raised, settle, work_once}

-- A started job once its handler is done.
abbrev pub settled_job : ℕ → Outcome → AsyncJob → AsyncJob
settled_job now (returned result) job = record job {
  status = completed;
  result = some result;
  completed_at = some now;
}
settled_job now (raised error) job =
    if ltb job.attempts job.max_attempts
    then record job { status = pending; error = error }
    else record job { status = failed; error = error; completed_at = some now }

-- The entries of the priority queue then: a job that may be tried again has a new one.
abbrev pub settled_entries : ℕ → Outcome → AsyncJob → ℕ → List Entry → List Entry
settled_entries now (returned result) job id es = es
settled_entries now (raised error) job id es =
    if ltb job.attempts job.max_attempts then put_entry (entry_of now id job.request) es else es

settle_lem :
    (now id : ℕ) (o : Outcome) (job : AsyncJob) (es : List Entry) (q : JobQueue)
    → settle now id o (record q { jobs = insert id job q.jobs; entries = es }) ≡ record q {
      jobs = insert id (settled_job now o job) q.jobs;
      entries = settled_entries now o job id es;
    }
unfolding complete fail
settle_lem now id (returned result) job es q =
    rw (lookup-insert_self id job q.jobs)
      (ground (arith, insert_twice id (settled_job now (returned result) job) job q.jobs))
settle_lem now id (raised error) job es q =
    rw (lookup-insert_self id job q.jobs) (elim (Bool-cases (ltb job.attempts job.max_attempts)) [
      | inl t ↦ rw t (
          ground
            (arith, insert_twice id (record job { status = pending; error = error }) job q.jobs))
      | inr f ↦ rw f (
          ground (
            arith,
            insert_twice id (record job { status = failed; error = error; completed_at = some now })
                job q.jobs,
          ))
    ])

module _ (now : ℕ) (handler : AsyncJob → Outcome) (q : JobQueue) where
  pub work_once-empty : q.entries ≡ [] → work_once now handler q ≡ q
  unfolding work_once take
  work_once-empty e = rw e refl

  module _ (e : Entry) (es : List Entry) (front : q.entries ≡ e ∷ es) where
    pub work_once-missing :
        lookup e.id q.jobs ≡ none → work_once now handler q ≡ record q { entries = es }
    unfolding work_once take
    work_once-missing m = rw (front, m) refl

    pub work_once-skipped :
        (job : AsyncJob)
        → lookup e.id q.jobs ≡ some job
        → is_pending job ≡ false
        → work_once now handler q ≡ record q { entries = es }
    unfolding work_once take
    work_once-skipped job m f = rw (front, m, f) refl

    pub work_once-done :
        (job : AsyncJob)
        → lookup e.id q.jobs ≡ some job
        → is_pending job ≡ true
        → job.job_id ≡ e.id
        → work_once now handler q ≡ record q {
          jobs = insert e.id (settled_job now (handler (start now job)) (start now job)) q.jobs;
          entries = settled_entries now (handler (start now job)) (start now job) e.id es;
        }
    unfolding work_once take
    work_once-done job m t k =
        rw (front, m, t)
          (ap
              (λ i.
                settle now i (handler (start now job))
                  (record q { jobs = insert e.id (start now job) q.jobs; entries = es }))
              k
            ∙ settle_lem now e.id (handler (start now job)) (start now job) es q)
