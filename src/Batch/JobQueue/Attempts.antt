-- ===== src/Batch/JobQueue/Attempts.antt =====
-- No job is tried more often than it may, and no pending job is forgotten.
use routerbot.Base.{
  ℕ, ◌<◌, ◌≡◌, refl, sym, ap, ◌∙◌, at_key, ltb, ltb→lt, String, arith, Option, none, some, List, [],
  ◌∷◌, leb, length, keep, lookup, lookup-nil, Bool-cases, inl, inr, subst,
}
use routerbot.Batch.JobQueue.{
  pending, set_job, change, is_done, AsyncJobRequest, AsyncJob, is_pending, Entry, JobQueue, init,
  id_eq, entry_of, new_job, submit, take, take_entry, take_job, start, complete, fail, fail_job,
  cancel, cancel_job, expire_stale_jobs, clear,
}
use routerbot.Batch.JobQueue.Calls.{
  Call, submitted, taken, completed_with, failed_with, cancelled_at, swept, cleared, apply, run,
}
use routerbot.Batch.JobQueue.Updates.{
  IsSoundJob, update, put_entry-update, lookup-expire, found, drop_entry,
}

-- Attempts stay within their bound, a pending job has one left, and an entry in the priority queue.
pub record IsSound (q : JobQueue) : Type 0 where
  pub retries : 0 < q.retry_max_attempts
  pub sound : (id : ℕ) → IsSoundJob id (lookup id q.jobs) q.entries

submit-IsSound :
    (now id : ℕ) (request : AsyncJobRequest) (q : JobQueue)
    → IsSound q
    → IsSound (submit now id request q).1
unfolding submit
submit-IsSound now id request q v =
    let job = new_job now id request q.retry_max_attempts in
    let u =
      put_entry-update (entry_of now id request) job q.jobs q.entries (omega arith) (λ _. v.retries)
        v.sound in
    elim (Bool-cases (leb q.max_pending_jobs (length (keep (λ p. is_pending p.1) q.jobs)))) [
      | inl t ↦ rw t v
      | inr n ↦ rw n record { retries = v.retries; sound = u }
    ]

-- The job of an entry is taken, or was not pending.
take_job-IsSound :
    (now : ℕ) (e : Entry) (es : List Entry) (o : Option AsyncJob) (q : JobQueue)
    → o ≡ lookup e.id q.jobs
    → 0 < q.retry_max_attempts
    → ((i : ℕ) → IsSoundJob i (lookup i q.jobs) (e ∷ es))
    → IsSound (take_job now e.id o (record q { entries = es })).1
take_job-IsSound now e es none q h r v = record {
  retries = r;
  sound = drop_entry e es q.jobs (ap (at_key is_pending) (sym h)) v;
}
take_job-IsSound now e es (some job) q h r v = elim (Bool-cases (is_pending job)) [
  | inl t ↦
      let s = found e.id job q (e ∷ es) h v in
      rw t record {
        retries = r;
        sound =
            update e.id (start now job) q.jobs (e ∷ es) es (λ i n p. ground arith)
              (ground (arith, s.1 t)) v;
      }
  | inr n ↦
      rw n record {
        retries = r;
        sound = drop_entry e es q.jobs (ap (at_key is_pending) (sym h) ∙ n) v;
      }
]

take-IsSound :
    (now : ℕ) (es : List Entry) (q : JobQueue)
    → q.entries ≡ es
    → IsSound q
    → IsSound (take_entry now es q).1
take-IsSound now [] q h v = v
take-IsSound now (e ∷ es) q h v =
    take_job-IsSound now e es (lookup e.id q.jobs) q refl v.retries
      (λ i. subst (IsSoundJob i (lookup i q.jobs)) h (v.sound i))

set_job-IsSound :
    (id : ℕ) (j : AsyncJob) (q : JobQueue)
    → IsSound q
    → IsSoundJob id (some j) q.entries
    → IsSound (set_job id j q)
set_job-IsSound id j q v s = record {
  retries = v.retries;
  sound = update id j q.jobs q.entries q.entries (λ i n p. p) s v.sound;
}

change-IsSound :
    (id : ℕ) (o : Option AsyncJob) (f : AsyncJob → JobQueue → JobQueue) (q : JobQueue)
    → o ≡ lookup id q.jobs
    → IsSound q
    → ((job : AsyncJob) → IsSoundJob id (some job) q.entries → IsSound (f job q))
    → IsSound (change id o f q)
change-IsSound id none f q h v g = v
change-IsSound id (some job) f q h v g = g job (found id job q q.entries h v.sound)

fail_job-IsSound :
    (now id : ℕ) (error : String) (job : AsyncJob) (q : JobQueue)
    → IsSound q
    → IsSoundJob id (some job) q.entries
    → IsSound (fail_job now id error job q)
fail_job-IsSound now id error job q v s = elim (Bool-cases (ltb job.attempts job.max_attempts)) [
  | inl t ↦ rw t record {
    retries = v.retries;
    sound =
        put_entry-update (entry_of now id job.request)
          (record job { status = pending; error = error }) q.jobs q.entries s.0
          (λ _. ltb→lt job.attempts job.max_attempts t) v.sound;
  }
  | inr n ↦ rw n (set_job-IsSound id _ q v (s.0, (λ t. cc), λ t. cc))
]

cancel_job-IsSound :
    (now id : ℕ) (o : Option AsyncJob) (q : JobQueue)
    → o ≡ lookup id q.jobs
    → IsSound q
    → IsSound (cancel_job now id o q).1
cancel_job-IsSound now id none q h v = v
cancel_job-IsSound now id (some job) q h v =
    let s = found id job q q.entries h v.sound in
    elim (Bool-cases (is_done job.status)) [
      | inl t ↦ rw t v
      | inr n ↦ rw n (set_job-IsSound id _ q v (s.0, (λ t. cc), λ t. cc))
    ]

-- With at least one attempt configured, every call keeps this: no job has been started more often than it may, and each pending job can
-- be started once more and has an entry in the priority queue, so none is forgotten.
pub apply-IsSound : (q : JobQueue) (c : Call) → IsSound q → IsSound (apply q c)
unfolding apply
apply-IsSound q (submitted now id request) v = submit-IsSound now id request q v
apply-IsSound q (taken now) v = unfold take in take-IsSound now q.entries q refl v
apply-IsSound q (completed_with now id result) v =
    unfold complete in
    change-IsSound id (lookup id q.jobs) _ q refl v
      (λ job s. set_job-IsSound id _ q v (s.0, (λ t. cc), λ t. cc))
apply-IsSound q (failed_with now id error) v =
    unfold fail in
    change-IsSound id (lookup id q.jobs) (fail_job now id error) q refl v
      (λ job s. fail_job-IsSound now id error job q v s)
apply-IsSound q (cancelled_at now id) v =
    unfold cancel in cancel_job-IsSound now id (lookup id q.jobs) q refl v
apply-IsSound q (swept now) v =
    unfold expire_stale_jobs in
    record { retries = v.retries; sound = λ i. lookup-expire now i q.jobs q.entries (v.sound i) }
apply-IsSound q cleared v =
    unfold clear in record { retries = v.retries; sound = λ i. rw (lookup-nil {V = AsyncJob} i) tt }

pub init-IsSound :
    (max_pending_jobs retry_max_attempts : ℕ)
    → 0 < retry_max_attempts
    → IsSound (init max_pending_jobs retry_max_attempts)
unfolding init
init-IsSound m r h = record { retries = h; sound = λ i. rw (lookup-nil {V = AsyncJob} i) tt }

pub run-IsSound : (q : JobQueue) (cs : List Call) → IsSound q → IsSound (run q cs)
unfolding run
run-IsSound q [] v = v
run-IsSound q (c ∷ cs) v = run-IsSound (apply q c) cs (apply-IsSound q c v)
