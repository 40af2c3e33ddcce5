-- ===== src/Batch/WorkerPool/Draining.antt =====
-- A worker that is left to itself ends with no job waiting.
use routerbot.Base.{
  ℕ, zero, suc, ◌+◌, ◌-◌, ◌<◌, ◌≤◌, ◌≡◌, refl, sym, ◌∙◌, ap, subst, arith, Option, none, some, Bool,
  true, false, List, [], ◌∷◌, ltb, lookup, total, total-insert, lookup-All, insert-All, All,
  Bool-cases, Option-cases, inl, inr, length, List-cases, leb, keep,
}
use routerbot.Batch.JobQueue.{
  AsyncJob, AsyncJobRequest, in_progress, is_pending, Entry, put_entry, JobQueue, id_eq, entry_of,
  is_active, submit, start, take,
}
use routerbot.Batch.JobQueue.Calls.{submitted, taken, completed_with, failed_with, apply}
use routerbot.Batch.JobQueue.Updates.{IsSoundJob, queued}
use routerbot.Batch.JobQueue.Attempts.{IsSound, apply-IsSound}
use routerbot.Batch.WorkerPool.{Outcome, returned, raised, handle, settle, work_once, work}
use routerbot.Batch.WorkerPool.Rounds.{
  settled_job, settled_entries, work_once-empty, work_once-missing, work_once-skipped,
  work_once-done,
}

abbrev pub is_running : AsyncJob → Bool
is_running j = elim j.status [ in_progress ↦ true | _ ↦ false ]

-- A job under its own identifier, on which no worker is at work.
abbrev pub IsIdleJob : ℕ × AsyncJob → Type 0
IsIdleJob p = (p.1.job_id ≡ p.0) × (is_running p.1 ≡ false)

-- A sound queue on which no worker is at work.
pub record IsIdle (q : JobQueue) : Type 0 where
  pub sound : IsSound q
  pub idle : All IsIdleJob q.jobs

abbrev left : AsyncJob → ℕ
left j = j.max_attempts - j.attempts

-- The entries to take, and the attempts that the jobs have left.
abbrev pub rounds_left : JobQueue → ℕ
rounds_left q = length q.entries + total left q.jobs

length-put_entry : (e : Entry) (es : List Entry) → length (put_entry e es) ≡ suc (length es)
length-put_entry e [] = omega arith
length-put_entry e (f ∷ fs) = ground (arith, length-put_entry e fs)

settled_job-idle :
    (now id : ℕ) (o : Outcome) (job : AsyncJob)
    → job.job_id ≡ id
    → IsIdleJob (id, settled_job now o job)
settled_job-idle now id (returned r) job k = (k, refl)
settled_job-idle now id (raised e) job k = ground arith

-- A round costs an entry, and pays for a new one with an attempt.
settled-left :
    (now id : ℕ) (o : Outcome) (job : AsyncJob) (es : List Entry)
    → job.attempts < job.max_attempts
    → length (settled_entries now o (start now job) id es)
        + left (settled_job now o (start now job))
      ≤ length es + left job
settled-left now id (returned r) job es h = omega arith
settled-left now id (raised e) job es h =
    elim (Bool-cases (ltb (job.attempts + 1) job.max_attempts)) [
      | inl t ↦ rw t (omega (arith, length-put_entry (entry_of now id job.request) es))
      | inr f ↦ rw f (omega arith)
    ]

settle-IsSound : (now id : ℕ) (o : Outcome) (q : JobQueue) → IsSound q → IsSound (settle now id o q)
unfolding apply
settle-IsSound now id (returned r) q s = apply-IsSound q (completed_with now id r) s
settle-IsSound now id (raised e) q s = apply-IsSound q (failed_with now id e) s

handle-IsSound :
    (now : ℕ) (handler : AsyncJob → Outcome) (o : Option AsyncJob) (q : JobQueue)
    → IsSound q
    → IsSound (handle now handler o q)
handle-IsSound now handler none q s = s
handle-IsSound now handler (some job) q s = settle-IsSound now job.job_id (handler job) q s

work_once-IsSound :
    (now : ℕ) (handler : AsyncJob → Outcome) (q : JobQueue)
    → IsSound q
    → IsSound (work_once now handler q)
unfolding work_once apply
work_once-IsSound now handler q s =
    handle-IsSound now handler (take now q).0 (take now q).1 (apply-IsSound q (taken now) s)

-- A round keeps all jobs idle, and while there is an entry it brings the end nearer.
abbrev Progress : JobQueue → JobQueue → Type 0
Progress q q' = All IsIdleJob q'.jobs × (rounds_left q' < rounds_left q)

work_once-Progress :
    (now : ℕ) (handler : AsyncJob → Outcome) (q : JobQueue) (e : Entry) (es : List Entry)
    → q.entries ≡ e ∷ es
    → IsIdle q
    → Progress q (work_once now handler q)
work_once-Progress now handler q e es front v = elim (Option-cases (lookup e.id q.jobs)) [
  | inl m ↦
      rw (work_once-missing now handler q e es front m) (v.idle, omega (arith, ap length front))
  | inr (job, m) ↦ elim (Bool-cases (is_pending job)) [
    | inr f ↦
        rw (work_once-skipped now handler q e es front job m f)
          (v.idle, omega (arith, ap length front))
    | inl t ↦
        let own = lookup-All IsIdleJob e.id job q.jobs m v.idle in
        let o = handler (start now job) in
        let room : job.attempts < job.max_attempts =
          (subst (λ x. IsSoundJob e.id x q.entries) m (v.sound.sound e.id)).1 t in
        rw (work_once-done now handler q e es front job m t own.0) (
          insert-All IsIdleJob e.id (settled_job now o (start now job)) q.jobs
              (settled_job-idle now e.id o (start now job) own.0) v.idle,
          omega (
            arith,
            ap length front,
            settled-left now e.id o job es room,
            total-insert left e.id (settled_job now o (start now job)) job q.jobs m,
          ),
        )
  ]
]

pub work_once-IsIdle :
    (now : ℕ) (handler : AsyncJob → Outcome) (q : JobQueue) (e : Entry) (es : List Entry)
    → q.entries ≡ e ∷ es
    → IsIdle q
    → IsIdle (work_once now handler q)
work_once-IsIdle now handler q e es front v = record {
  sound = work_once-IsSound now handler q v.sound;
  idle = (work_once-Progress now handler q e es front v).0;
}

work-empty :
    (n : ℕ) (clock : ℕ → ℕ) (handler : ℕ → AsyncJob → Outcome) (q : JobQueue)
    → q.entries ≡ []
    → work n clock handler q ≡ q
unfolding work
work-empty zero clock handler q e = refl
work-empty (suc n) clock handler q e =
    rw (work_once-empty (clock n) (handler n) q e) (work-empty n clock handler q e)

work-emptied :
    (n : ℕ) (clock : ℕ → ℕ) (handler : ℕ → AsyncJob → Outcome) (q : JobQueue)
    → IsIdle q
    → rounds_left q ≤ n
    → IsIdle (work n clock handler q) × ((work n clock handler q).entries ≡ [])
unfolding work
work-emptied zero clock handler q v h = elim (List-cases q.entries) [
  | inl empty ↦ (v, empty)
  | inr (e, es, front) ↦ absurd (omega (arith, ap length front))
]
work-emptied (suc n) clock handler q v h = elim (List-cases q.entries) [
  | inl empty ↦
      let stays = work-empty (suc n) clock handler q empty in
      (subst IsIdle (sym stays) v, ap (λ (r : JobQueue). r.entries) stays ∙ empty)
  | inr (e, es, front) ↦
      work-emptied n clock handler (work_once (clock n) (handler n) q)
        (work_once-IsIdle (clock n) (handler n) q e es front v)
        (omega (arith, (work_once-Progress (clock n) (handler n) q e es front v).1))
]

unqueued :
    (id : ℕ) (job : AsyncJob) (es : List Entry)
    → es ≡ []
    → IsSoundJob id (some job) es
    → is_running job ≡ false
    → is_active job.status ≡ false
unqueued id job es e s f = elim (Bool-cases (is_pending job)) [
  | inl t ↦ let q : false ≡ true = subst (λ xs. queued id xs ≡ true) e (s.2 t) in cc
  | inr p ↦ ground arith
]

-- A worker that is left alone with a queue, of which nobody works on a job, ends its work: after as
-- many rounds as there are entries and attempts left, or any more, whatever the handler does in
-- each of them, no entry is left and no job is pending or in progress.
pub work-drains :
    (n : ℕ) (clock : ℕ → ℕ) (handler : ℕ → AsyncJob → Outcome) (q : JobQueue)
    → IsIdle q
    → rounds_left q ≤ n
    → ((work n clock handler q).entries ≡ [])
      × ((id : ℕ) (job : AsyncJob)
          → lookup id (work n clock handler q).jobs ≡ some job
          → is_active job.status ≡ false)
work-drains n clock handler q v h =
    let (i, empty) = work-emptied n clock handler q v h in
    (
      empty,
      λ id job m.
          unqueued id job (work n clock handler q).entries empty
            (subst (λ x. IsSoundJob id x (work n clock handler q).entries) m (i.sound.sound id))
            (lookup-All IsIdleJob id job (work n clock handler q).jobs m i.idle).1,
    )

-- A new queue is idle, and stays so when jobs are submitted.
pub submit-IsIdle :
    (now id : ℕ) (request : AsyncJobRequest) (q : JobQueue)
    → IsIdle q
    → IsIdle (submit now id request q).1
submit-IsIdle now id request q v = record {
  sound = unfold apply in apply-IsSound q (submitted now id request) v.sound;
  idle =
      unfold submit in
      elim (Bool-cases (leb q.max_pending_jobs (length (keep (λ p. is_pending p.1) q.jobs)))) [
        | inl t ↦ rw t v.idle
        | inr f ↦ rw f (insert-All IsIdleJob id _ q.jobs (refl, refl) v.idle)
      ];
}
