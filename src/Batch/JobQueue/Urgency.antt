-- ===== src/Batch/JobQueue/Urgency.antt =====
-- How urgent a job is that is taken.
use routerbot.Base.{
  ℕ, ◌+◌, ◌<◌, ◌≤◌, ◌≡◌, refl, sym, ◌∙◌, ap, arith, Option, none, some, some_inj, true, List, [],
  ◌∷◌, eqb, All, In-All, Dict, lookup, Bool-cases, inl, inr,
}
use routerbot.Batch.JobQueue.{
  pending, in_progress, Priority, high, medium, low, priority_order, AsyncJob, is_pending, Entry,
  first_of, JobQueue, id_eq, eqb_iff, init, take,
}
use routerbot.Batch.JobQueue.Calls.{Call, run}
use routerbot.Batch.JobQueue.Updates.{queued, IsSoundJob}
use routerbot.Batch.JobQueue.Attempts.{init-IsSound, run-IsSound}
use routerbot.Batch.JobQueue.Priorities.{IsFirst, take-IsFirst}
use routerbot.Batch.JobQueue.Ranks.{Ranked, IsFresh, run-IsRanked}

-- The first priority is the more urgent one.
abbrev pub MoreUrgent : Priority → Priority → Type 0
MoreUrgent high high = ⊥
MoreUrgent high medium = Unit
MoreUrgent high low = Unit
MoreUrgent medium high = ⊥
MoreUrgent medium medium = ⊥
MoreUrgent medium low = Unit
MoreUrgent low p = ⊥

MoreUrgent-lt : (p q : Priority) → MoreUrgent p q → priority_order p < priority_order q
MoreUrgent-lt high high u = elim u [ ]
MoreUrgent-lt high medium u = omega arith
MoreUrgent-lt high low u = omega arith
MoreUrgent-lt medium high u = elim u [ ]
MoreUrgent-lt medium medium u = elim u [ ]
MoreUrgent-lt medium low u = omega arith
MoreUrgent-lt low q u = elim u [ ]

-- The job is one that waited, and now has begun with one attempt more; no job that waits is more
-- urgent.
pub record IsMostUrgent (now : ℕ) (q : JobQueue) (job : AsyncJob) : Type 0 where
  pub entry : Entry
  pub waiting : AsyncJob
  pub first : IsFirst now q job entry waiting
  pub begun : (job.status ≡ in_progress) × (job.attempts ≡ waiting.attempts + 1)
  pub urgent :
      (i : ℕ) (k : AsyncJob)
      → lookup i q.jobs ≡ some k
      → k.status ≡ pending
      → ¬ MoreUrgent k.request.priority waiting.request.priority

-- The order of an entry of a job among some that come after `e`.
after_first :
    (e : Entry) (i : ℕ) (k : AsyncJob) (d : Dict ℕ AsyncJob) (es : List Entry)
    → All (λ f. first_of e f ≡ true) es
    → All (Ranked d) es
    → queued i es ≡ true
    → lookup i d ≡ some k
    → e.order ≤ priority_order k.request.priority
after_first e i k d [] a r t l = cc
after_first e i k d (f ∷ fs) a r t l = elim (Bool-cases (eqb f.id i)) [
  | inl y ↦
      let (j, m, o) = r.0 in
      let s : j ≡ k = some_inj (sym m ∙ ap (λ n. lookup n d) ((eqb_iff f.id i).0 y) ∙ l) in
      let o' : f.order ≡ priority_order k.request.priority =
        o ∙ ap (λ (x : AsyncJob). priority_order x.request.priority) s in
      let le : e.order ≤ f.order = ground (arith, a.0) in omega (arith, le, o')
  | inr n ↦
      let t' : queued i fs ≡ true = ground (arith, t, n) in after_first e i k d fs a.1 r.1 t' l
]

pending_sound :
    (i : ℕ) (o : Option AsyncJob) (k : AsyncJob) (es : List Entry)
    → o ≡ some k
    → k.status ≡ pending
    → IsSoundJob i o es
    → queued i es ≡ true
pending_sound i none k es h p s = cc
pending_sound i (some j) k es h p s =
    let e : j ≡ k = some_inj h in let t : is_pending j ≡ true = rw e (rw p refl) in s.2 t

-- With at least one attempt configured and new identifiers for submitted jobs, after every run of
-- calls on a new queue, a job that is taken was pending, has begun with one attempt more, and no pending
-- job is more urgent: none has priority high while it has medium or low, or medium while it has low.
-- Its entry comes before every other one, by priority, then by the time it was put in, then by
-- identifier.
pub take-IsMostUrgent :
    (max_pending_jobs retry_max_attempts : ℕ) (cs : List Call) (now : ℕ) (job : AsyncJob)
    → 0 < retry_max_attempts
    → IsFresh (init max_pending_jobs retry_max_attempts) cs
    → (take now (run (init max_pending_jobs retry_max_attempts) cs)).0 ≡ some job
    → IsMostUrgent now (run (init max_pending_jobs retry_max_attempts) cs) job
take-IsMostUrgent m r cs now job pos fresh h =
    let q = run (init m r) cs in
    let sound = run-IsSound (init m r) cs (init-IsSound m r pos) in
    let ranked = run-IsRanked (init m r) cs fresh (unfold init in tt) in
    let (e, j, first) = take-IsFirst m r cs now job h in
    record {
      entry = e;
      waiting = j;
      first = first;
      begun =
          unfold IsFirst in
          (ap (λ (x : AsyncJob). x.status) first.2, ap (λ (x : AsyncJob). x.attempts) first.2);
      urgent =
          unfold IsFirst in
          λ i k l p u.
            let (k', l', o) = In-All (Ranked q.jobs) e q.entries first.0 ranked in
            let s : k' ≡ j = some_inj (sym l' ∙ first.1) in
            let o' : e.order ≡ priority_order j.request.priority =
              o ∙ ap (λ (x : AsyncJob). priority_order x.request.priority) s in
            let queue = pending_sound i (lookup i q.jobs) k q.entries l p (sound.sound i) in
            let le = after_first e i k q.jobs q.entries first.3 ranked queue l in
            let lt = MoreUrgent-lt k.request.priority j.request.priority u in
            absurd (omega (arith, le, lt, o'));
    }
