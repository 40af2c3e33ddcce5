-- ===== src/Batch/JobQueue/Ranks.antt =====
-- The entries of the priority queue are for jobs that are there, and have the order of their priority.
use routerbot.Base.{
  ℕ, ◌≡◌, refl, sym, ◌∙◌, ap, String, Option, none, some, some_inj, List, [], ◌∷◌, map, eqb, leb,
  ltb, length, keep, All, All-mono, Dict, lookup, insert, lookup-insert, Bool-cases, inl, inr,
}
use routerbot.Batch.JobQueue.{
  pending, priority_order, AsyncJob, AsyncJobRequest, is_pending, Entry, JobQueue, id_eq, eqb_iff,
  entry_of, submit, new_job, take, take_entry, take_job, start, complete, fail, fail_job, cancel,
  cancel_job, change, set_job, is_done, expire, is_stale, expire_stale_jobs, clear,
}
use routerbot.Batch.JobQueue.Calls.{
  Call, submitted, taken, completed_with, failed_with, cancelled_at, swept, cleared, apply, run,
}
use routerbot.Batch.JobQueue.Priorities.{put_entry-All}

-- An entry is for a job that is there, and has the order of its priority.
abbrev pub Ranked : Dict ℕ AsyncJob → Entry → Type 0
Ranked d e =
    (j : AsyncJob) × (lookup e.id d ≡ some j) × (e.order ≡ priority_order j.request.priority)

abbrev pub IsRanked : JobQueue → Type 0
IsRanked q = All (Ranked q.jobs) q.entries

-- The identifier of a submitted job is a new one.
abbrev pub FreshCall : JobQueue → Call → Type 0
FreshCall q (submitted now id request) = lookup id q.jobs ≡ none
FreshCall q (taken now) = Unit
FreshCall q (completed_with now id result) = Unit
FreshCall q (failed_with now id error) = Unit
FreshCall q (cancelled_at now id) = Unit
FreshCall q (swept now) = Unit
FreshCall q cleared = Unit

abbrev pub IsFresh : JobQueue → List Call → Type 0
IsFresh q [] = Unit
IsFresh q (c ∷ cs) = FreshCall q c × IsFresh (apply q c) cs

Ranked-replace :
    (id : ℕ) (j j' : AsyncJob) (d : Dict ℕ AsyncJob)
    → lookup id d ≡ some j
    → j'.request ≡ j.request
    → (e : Entry) → Ranked d e
    → Ranked (insert id j' d) e
Ranked-replace id j j' d h r e (k, l, o) = elim (Bool-cases (eqb id e.id)) [
  | inl t ↦
      let s : j ≡ k = some_inj (sym h ∙ ap (λ i. lookup i d) ((eqb_iff id e.id).0 t) ∙ l) in
      (
        j',
        lookup-insert id e.id j' d ∙ rw t refl,
        o
            ∙ ap (λ (x : AsyncJob). priority_order x.request.priority) (sym s)
            ∙ ap (λ (x : AsyncJobRequest). priority_order x.priority) (sym r),
      )
  | inr f ↦ (k, lookup-insert id e.id j' d ∙ rw f l, o)
]

Ranked-new :
    (id : ℕ) (j' : AsyncJob) (d : Dict ℕ AsyncJob)
    → lookup id d ≡ none
    → (e : Entry) → Ranked d e
    → Ranked (insert id j' d) e
Ranked-new id j' d h e (k, l, o) = elim (Bool-cases (eqb id e.id)) [
  | inl t ↦ let s : none ≡ some k = sym h ∙ ap (λ i. lookup i d) ((eqb_iff id e.id).0 t) ∙ l in cc
  | inr f ↦ (k, lookup-insert id e.id j' d ∙ rw f l, o)
]

submit-IsRanked :
    (now id : ℕ) (request : AsyncJobRequest) (q : JobQueue)
    → lookup id q.jobs ≡ none
    → IsRanked q
    → IsRanked (submit now id request q).1
unfolding submit
submit-IsRanked now id request q h v =
    let job = new_job now id request q.retry_max_attempts in
    let own : Ranked (insert id job q.jobs) (entry_of now id request) =
      (job, lookup-insert id id job q.jobs ∙ rw ((eqb_iff id id).1 refl) refl, refl) in
    let p =
      put_entry-All (Ranked (insert id job q.jobs)) (entry_of now id request) q.entries own
        (All-mono {P = Ranked q.jobs} q.entries v (Ranked-new id job q.jobs h)) in
    elim (Bool-cases (leb q.max_pending_jobs (length (keep (λ p. is_pending p.1) q.jobs)))) [
      | inl t ↦ rw t v
      | inr n ↦ rw n p
    ]

-- A job that is there is changed, but not its request.
set_job-IsRanked :
    (id : ℕ) (j j' : AsyncJob) (q : JobQueue)
    → lookup id q.jobs ≡ some j
    → j'.request ≡ j.request
    → IsRanked q
    → IsRanked (set_job id j' q)
set_job-IsRanked id j j' q h r v =
    All-mono {P = Ranked q.jobs} q.entries v (Ranked-replace id j j' q.jobs h r)

change-IsRanked :
    (id : ℕ) (o : Option AsyncJob) (f : AsyncJob → JobQueue → JobQueue) (q : JobQueue)
    → lookup id q.jobs ≡ o
    → IsRanked q
    → ((j : AsyncJob) → lookup id q.jobs ≡ some j → IsRanked (f j q))
    → IsRanked (change id o f q)
change-IsRanked id none f q h v g = v
change-IsRanked id (some j) f q h v g = g j h

fail_job-IsRanked :
    (now id : ℕ) (error : String) (j : AsyncJob) (q : JobQueue)
    → IsRanked q
    → lookup id q.jobs ≡ some j
    → IsRanked (fail_job now id error j q)
fail_job-IsRanked now id error j q v h =
    let again = record j { status = pending; error = error } in
    let own : Ranked (insert id again q.jobs) (entry_of now id j.request) =
      (again, lookup-insert id id again q.jobs ∙ rw ((eqb_iff id id).1 refl) refl, refl) in
    let p =
      put_entry-All (Ranked (insert id again q.jobs)) (entry_of now id j.request) q.entries own
        (set_job-IsRanked id j again q h refl v) in
    elim (Bool-cases (ltb j.attempts j.max_attempts)) [
      | inl t ↦ rw t p
      | inr n ↦ rw n (set_job-IsRanked id j _ q h refl v)
    ]

cancel_job-IsRanked :
    (now id : ℕ) (o : Option AsyncJob) (q : JobQueue)
    → lookup id q.jobs ≡ o
    → IsRanked q
    → IsRanked (cancel_job now id o q).1
cancel_job-IsRanked now id none q h v = v
cancel_job-IsRanked now id (some j) q h v = elim (Bool-cases (is_done j.status)) [
  | inl t ↦ rw t v
  | inr n ↦ rw n (set_job-IsRanked id j _ q h refl v)
]

take_job-IsRanked :
    (now id : ℕ) (o : Option AsyncJob) (q : JobQueue)
    → lookup id q.jobs ≡ o
    → IsRanked q
    → IsRanked (take_job now id o q).1
take_job-IsRanked now id none q h v = v
take_job-IsRanked now id (some j) q h v = elim (Bool-cases (is_pending j)) [
  | inl t ↦ rw t (set_job-IsRanked id j (start now j) q h refl v)
  | inr n ↦ rw n v
]

take_entry-IsRanked :
    (now : ℕ) (es : List Entry) (q : JobQueue)
    → IsRanked q
    → All (Ranked q.jobs) es
    → IsRanked (take_entry now es q).1
take_entry-IsRanked now [] q v a = v
take_entry-IsRanked now (e ∷ es) q v a =
    take_job-IsRanked now e.id (lookup e.id q.jobs) (record q { entries = es }) refl a.1

expire-request : (now : ℕ) (j : AsyncJob) → (expire now j).request ≡ j.request
expire-request now j = elim (Bool-cases (is_stale now j)) [ inl t ↦ rw t refl | inr f ↦ rw f refl ]

lookup-swept :
    (now id : ℕ) (d : Dict ℕ AsyncJob) (j : AsyncJob)
    → lookup id d ≡ some j
    → lookup id (map (λ p. (p.0, expire now p.1)) d) ≡ some (expire now j)
unfolding lookup
lookup-swept now id [] j h = cc
lookup-swept now id ((i, k) ∷ d) j h = elim (Bool-cases (eqb i id)) [
  | inl t ↦
      let h' : some k ≡ some j = rw t at h in rw t (ap (λ x. some (expire now x)) (some_inj h'))
  | inr f ↦ let h' = rw f at h in rw f (lookup-swept now id d j h')
]

swept-Ranked :
    (now : ℕ) (d : Dict ℕ AsyncJob) (e : Entry)
    → Ranked d e
    → Ranked (map (λ p. (p.0, expire now p.1)) d) e
swept-Ranked now d e (j, l, o) = (
  expire now j,
  lookup-swept now e.id d j l,
  o ∙ ap (λ (x : AsyncJobRequest). priority_order x.priority) (sym (expire-request now j)),
)

apply-IsRanked : (q : JobQueue) (c : Call) → FreshCall q c → IsRanked q → IsRanked (apply q c)
unfolding apply
apply-IsRanked q (submitted now id request) f v = submit-IsRanked now id request q f v
apply-IsRanked q (taken now) f v = unfold take in take_entry-IsRanked now q.entries q v v
apply-IsRanked q (completed_with now id result) f v =
    unfold complete in
    change-IsRanked id (lookup id q.jobs) _ q refl v (λ j h. set_job-IsRanked id j _ q h refl v)
apply-IsRanked q (failed_with now id error) f v =
    unfold fail in
    change-IsRanked id (lookup id q.jobs) (fail_job now id error) q refl v
      (λ j h. fail_job-IsRanked now id error j q v h)
apply-IsRanked q (cancelled_at now id) f v =
    unfold cancel in cancel_job-IsRanked now id (lookup id q.jobs) q refl v
apply-IsRanked q (swept now) f v =
    unfold expire_stale_jobs in All-mono {P = Ranked q.jobs} q.entries v (swept-Ranked now q.jobs)
apply-IsRanked q cleared f v = unfold clear in tt

pub run-IsRanked : (q : JobQueue) (cs : List Call) → IsFresh q cs → IsRanked q → IsRanked (run q cs)
unfolding run
run-IsRanked q [] f v = v
run-IsRanked q (c ∷ cs) f v = run-IsRanked (apply q c) cs f.1 (apply-IsRanked q c f.0 v)
