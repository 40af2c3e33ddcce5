-- ===== src/Batch/JobQueue/Priorities.antt =====
-- The order in which jobs are taken.
use routerbot.Base.{
  ℕ, String, subst, In, ◌≡◌, refl, sym, arith, Option, none, some, true, false, List, [], ◌∷◌, leb,
  ltb, All, All-mono, Bool-cases, inl, inr, lookup, length, keep,
}
use routerbot.Batch.JobQueue.{
  pending, AsyncJob, AsyncJobRequest, Entry, first_of, put_entry, JobQueue, id_eq, submit, take,
  take_entry, take_job, complete, fail, fail_job, cancel, cancel_job, expire_stale_jobs, clear,
  start, is_pending, entry_of, change, set_job, init,
}
use routerbot.Batch.JobQueue.Calls.{
  Call, submitted, taken, completed_with, failed_with, cancelled_at, swept, cleared, apply, run,
}

-- Each entry comes before all those behind it.
abbrev pub IsOrdered : List Entry → Type 0
IsOrdered [] = Unit
IsOrdered (e ∷ es) = All (λ f. first_of e f ≡ true) es × IsOrdered es

first_of_trans : (a b c : Entry) → first_of a b ≡ true → first_of b c ≡ true → first_of a c ≡ true
first_of_trans a b c h k = ground arith

first_of-total : (a b : Entry) → first_of a b ≡ false → first_of b a ≡ true
first_of-total a b h = ground arith

pub put_entry-All :
    (P : Entry → Type 0) (e : Entry) (es : List Entry) → P e → All P es → All P (put_entry e es)
put_entry-All P e [] p h = (p, tt)
put_entry-All P e (f ∷ fs) p h = elim (Bool-cases (first_of f e)) [
  | inl t ↦ rw t (h.0, put_entry-All P e fs p h.1)
  | inr n ↦ rw n (p, h)
]

put_entry-IsOrdered : (e : Entry) (es : List Entry) → IsOrdered es → IsOrdered (put_entry e es)
put_entry-IsOrdered e [] h = (tt, tt)
put_entry-IsOrdered e (f ∷ fs) h = elim (Bool-cases (first_of f e)) [
  | inl t ↦ rw t (put_entry-All (λ g. first_of f g ≡ true) e fs t h.0, put_entry-IsOrdered e fs h.1)
  | inr n ↦
      let first = first_of-total f e n in
      rw n ((first, All-mono fs h.0 (λ g p. first_of_trans e f g first p)), h)
]

take_job-entries :
    (now id : ℕ) (o : Option AsyncJob) (q : JobQueue) → (take_job now id o q).1.entries ≡ q.entries
take_job-entries now id none q = refl
take_job-entries now id (some job) q = ground arith

take_entry-IsOrdered :
    (now : ℕ) (es : List Entry) (q : JobQueue)
    → q.entries ≡ es
    → IsOrdered es
    → IsOrdered (take_entry now es q).1.entries
take_entry-IsOrdered now [] q e h = rw e tt
take_entry-IsOrdered now (f ∷ fs) q e h =
    rw (take_job-entries now f.id (lookup f.id q.jobs) (record q { entries = fs })) h.1

fail-IsOrdered :
    (now id : ℕ) (error : String) (o : Option AsyncJob) (q : JobQueue)
    → IsOrdered q.entries
    → IsOrdered (change id o (fail_job now id error) q).entries
fail-IsOrdered now id error none q h = h
fail-IsOrdered now id error (some job) q h =
    let p = put_entry-IsOrdered (entry_of now id job.request) q.entries h in
    elim (Bool-cases (ltb job.attempts job.max_attempts)) [ inl t ↦ rw t p | inr n ↦ rw n h ]

submit-IsOrdered :
    (now id : ℕ) (request : AsyncJobRequest) (q : JobQueue)
    → IsOrdered q.entries
    → IsOrdered (submit now id request q).1.entries
unfolding submit
submit-IsOrdered now id request q h =
    let p = put_entry-IsOrdered (entry_of now id request) q.entries h in
    elim (Bool-cases (leb q.max_pending_jobs (length (keep (λ p. is_pending p.1) q.jobs)))) [
      | inl t ↦ rw t h
      | inr n ↦ rw n p
    ]

set-entries :
    (id : ℕ) (o : Option AsyncJob) (f : AsyncJob → AsyncJob) (q : JobQueue)
    → (change id o (λ job q. set_job id (f job) q) q).entries ≡ q.entries
set-entries id none f q = refl
set-entries id (some job) f q = refl

cancel-entries :
    (now id : ℕ) (o : Option AsyncJob) (q : JobQueue)
    → (cancel_job now id o q).1.entries ≡ q.entries
cancel-entries now id none q = refl
cancel-entries now id (some job) q = ground arith

apply-IsOrdered : (q : JobQueue) (c : Call) → IsOrdered q.entries → IsOrdered (apply q c).entries
unfolding apply
apply-IsOrdered q (submitted now id request) h = submit-IsOrdered now id request q h
apply-IsOrdered q (taken now) h = unfold take in take_entry-IsOrdered now q.entries q refl h
apply-IsOrdered q (completed_with now id result) h =
    unfold complete in subst IsOrdered (sym (set-entries id (lookup id q.jobs) _ q)) h
apply-IsOrdered q (failed_with now id error) h =
    unfold fail in fail-IsOrdered now id error (lookup id q.jobs) q h
apply-IsOrdered q (cancelled_at now id) h =
    unfold cancel in subst IsOrdered (sym (cancel-entries now id (lookup id q.jobs) q)) h
apply-IsOrdered q (swept now) h = unfold expire_stale_jobs in h
apply-IsOrdered q cleared h = unfold clear in tt

run-IsOrdered : (q : JobQueue) (cs : List Call) → IsOrdered q.entries → IsOrdered (run q cs).entries
unfolding run
run-IsOrdered q [] h = h
run-IsOrdered q (c ∷ cs) h = run-IsOrdered (apply q c) cs (apply-IsOrdered q c h)

-- The job that is taken is that of an entry which comes before every entry of the queue.
unfoldable pub IsFirst : ℕ → JobQueue → AsyncJob → Entry → AsyncJob → Type 0
IsFirst now q job e j =
    In e q.entries
    × (lookup e.id q.jobs ≡ some j)
    × (job ≡ start now j)
    × All (λ f. first_of e f ≡ true) q.entries
    × (j.status ≡ pending)

first_of_refl : (e : Entry) → first_of e e ≡ true
first_of_refl e = ground arith

take_job-some :
    (now id : ℕ) (o : Option AsyncJob) (q : JobQueue) (job : AsyncJob)
    → (take_job now id o q).0 ≡ some job
    → (j : AsyncJob) × (o ≡ some j) × (job ≡ start now j) × (j.status ≡ pending)
take_job-some now id none q job h = cc
take_job-some now id (some j) q job h = (j, refl, ground arith, ground arith)

take_entry-IsFirst :
    (now : ℕ) (es : List Entry) (q : JobQueue) (job : AsyncJob)
    → q.entries ≡ es
    → IsOrdered es
    → (take_entry now es q).0 ≡ some job
    → (e : Entry) × (j : AsyncJob) × IsFirst now q job e j
unfolding IsFirst
take_entry-IsFirst now [] q job e o h = cc
take_entry-IsFirst now (f ∷ fs) q job e o h =
    let t = take_job-some now f.id (lookup f.id q.jobs) (record q { entries = fs }) job h in
    (
      f,
      t.0,
      (
        subst (In f) (sym e) (inl refl),
        t.1,
        t.2,
        subst (All (λ g. first_of f g ≡ true)) (sym e) (first_of_refl f, o.0),
        t.3,
      ),
    )

-- After every run of calls on a new queue, a job that is taken is that of an entry which comes
-- before every other one: by priority, then by the time it was put in, then by identifier.
pub take-IsFirst :
    (max_pending_jobs retry_max_attempts : ℕ) (cs : List Call) (now : ℕ) (job : AsyncJob)
    → (take now (run (init max_pending_jobs retry_max_attempts) cs)).0 ≡ some job
    → (e : Entry) × (j : AsyncJob) × IsFirst now
        (run (init max_pending_jobs retry_max_attempts) cs)
        job
        e
        j
unfolding take
take-IsFirst m r cs now job h =
    let q = run (init m r) cs in
    take_entry-IsFirst now q.entries q job refl (run-IsOrdered (init m r) cs (unfold init in tt)) h
