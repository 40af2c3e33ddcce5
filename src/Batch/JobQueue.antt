-- ===== src/Batch/JobQueue.antt =====
-- src/routerbot/core/batch/job_queue.py, and its part of models.py. No method awaits while it
-- changes the queue, so each is one step; `now` is the reading of datetime.now(), a natural number.
-- A job's identifier is the 64-bit number that its sixteen hexadecimal digits write, whose order is
-- the order of these texts; fresh ones are an argument. The asyncio.PriorityQueue is the sorted list
-- of its entries.
pub mod Calls
pub mod Updates
pub mod Attempts
pub mod Priorities
pub mod Ranks
pub mod Urgency
mod Examples
use routerbot.Base.{
  ℕ, ◌+◌, ◌-◌, String, ◌↔◌, ◌≡◌, arith, Option, none, some, Bool, true, false, ◌&&◌, ◌||◌, List, [],
  ◌∷◌, map, if◌then◌else◌, ltb, leb, eqb, length, keep, Dict, Eq, lookup, insert,
}

pub data JobStatus : Type 0 where
  pending in_progress completed failed cancelled expired : JobStatus

pub data Priority : Type 0 where
  high medium low : Priority

-- _PRIORITY_ORDER
abbrev pub priority_order : Priority → ℕ
priority_order high = 0
priority_order medium = 1
priority_order low = 2

pub eqb_iff : (a b : ℕ) → (eqb a b ≡ true) ↔ (a ≡ b)
eqb_iff a b = (λ h. ground arith, λ h. ground arith)

instance abbrev pub id_eq : Eq ℕ
id_eq = record { beq = eqb; beq_iff = eqb_iff }

-- What the queue reads of a request; `body` is the rest, as text.
pub record AsyncJobRequest : Type 0 where
  pub body : String
  pub priority : Priority
  pub ttl_seconds : ℕ

pub record AsyncJob : Type 0 where
  pub job_id : ℕ
  pub status : JobStatus
  pub request : AsyncJobRequest
  pub created_at : Option ℕ
  pub started_at : Option ℕ
  pub completed_at : Option ℕ
  pub result : Option String
  pub error : String
  pub attempts : ℕ
  pub max_attempts : ℕ

abbrev pub is_pending : AsyncJob → Bool
is_pending j = elim j.status [ pending ↦ true | _ ↦ false ]

-- (priority_order, timestamp, job_id)
pub record Entry : Type 0 where
  pub order : ℕ
  pub since : ℕ
  pub id : ℕ

-- a <= b of tuples
abbrev pub first_of : Entry → Entry → Bool
first_of a b =
    ltb a.order b.order
    || eqb a.order b.order && (ltb a.since b.since || eqb a.since b.since && leb a.id b.id)

abbrev pub put_entry : Entry → List Entry → List Entry
put_entry e [] = e ∷ []
put_entry e (f ∷ fs) = let rest = put_entry e fs in if first_of f e then f ∷ rest else e ∷ f ∷ fs

pub record JobQueue : Type 0 where
  pub max_pending_jobs : ℕ
  pub retry_max_attempts : ℕ
  pub jobs : Dict ℕ AsyncJob
  pub entries : List Entry

unfoldable pub init : ℕ → ℕ → JobQueue
init max_pending_jobs retry_max_attempts = record {
  max_pending_jobs = max_pending_jobs;
  retry_max_attempts = retry_max_attempts;
  jobs = [];
  entries = [];
}

abbrev pub new_job : ℕ → ℕ → AsyncJobRequest → ℕ → AsyncJob
new_job now job_id request max_attempts = record {
  job_id = job_id;
  status = pending;
  request = request;
  created_at = some now;
  started_at = none;
  completed_at = none;
  result = none;
  error = "";
  attempts = 0;
  max_attempts = max_attempts;
}

abbrev pub entry_of : ℕ → ℕ → AsyncJobRequest → Entry
entry_of now job_id request = record {
  order = priority_order request.priority;
  since = now;
  id = job_id;
}

-- No job is the QueueFullError.
unfoldable pub submit : ℕ → ℕ → AsyncJobRequest → JobQueue → Option AsyncJob × JobQueue
submit now job_id request q =
    let pending_count = length (keep (λ p. is_pending p.1) q.jobs) in
    let job = new_job now job_id request q.retry_max_attempts in
    if leb q.max_pending_jobs pending_count then (none, q) else (
      some job,
      record q {
        jobs = insert job_id job q.jobs;
        entries = put_entry (entry_of now job_id request) q.entries;
      },
    )

abbrev pub start : ℕ → AsyncJob → AsyncJob
start now job = record job {
  status = in_progress;
  started_at = some now;
  attempts = job.attempts + 1;
}

-- `take` once the entry of `id` is out of the priority queue.
abbrev pub take_job : ℕ → ℕ → Option AsyncJob → JobQueue → Option AsyncJob × JobQueue
take_job now id none q = (none, q)
take_job now id (some job) q =
    if is_pending job
    then (some (start now job), record q { jobs = insert id (start now job) q.jobs })
    else (none, q)

abbrev pub take_entry : ℕ → List Entry → JobQueue → Option AsyncJob × JobQueue
take_entry now [] q = (none, q)
take_entry now (e ∷ es) q = take_job now e.id (lookup e.id q.jobs) (record q { entries = es })

unfoldable pub take : ℕ → JobQueue → Option AsyncJob × JobQueue
take now q = take_entry now q.entries q

-- job = self._jobs.get(job_id), changed in place when it is there.
abbrev pub change : ℕ → Option AsyncJob → (AsyncJob → JobQueue → JobQueue) → JobQueue → JobQueue
change id none f q = q
change id (some job) f q = f job q

abbrev pub set_job : ℕ → AsyncJob → JobQueue → JobQueue
set_job id job q = record q { jobs = insert id job q.jobs }

unfoldable pub complete : ℕ → ℕ → String → JobQueue → JobQueue
complete now id result q =
    change id (lookup id q.jobs)
      (λ job q.
        set_job id
          (record job { status = completed; result = some result; completed_at = some now }) q)
      q

-- The priority queue has no bound, so its put_nowait never raises QueueFull.
abbrev pub fail_job : ℕ → ℕ → String → AsyncJob → JobQueue → JobQueue
fail_job now id error job q =
    if ltb job.attempts job.max_attempts
    then record (set_job id (record job { status = pending; error = error }) q) {
      entries = put_entry (entry_of now id job.request) q.entries;
    }
    else set_job id (record job { status = failed; error = error; completed_at = some now }) q

unfoldable pub fail : ℕ → ℕ → String → JobQueue → JobQueue
fail now id error q = change id (lookup id q.jobs) (fail_job now id error) q

abbrev pub is_done : JobStatus → Bool
is_done completed = true
is_done failed = true
is_done cancelled = true
is_done _ = false

abbrev pub cancel_job : ℕ → ℕ → Option AsyncJob → JobQueue → Bool × JobQueue
cancel_job now id none q = (false, q)
cancel_job now id (some job) q =
    if is_done job.status
    then (false, q)
    else (true, set_job id (record job { status = cancelled; completed_at = some now }) q)

unfoldable pub cancel : ℕ → ℕ → JobQueue → Bool × JobQueue
cancel now id q = cancel_job now id (lookup id q.jobs) q

abbrev pub is_active : JobStatus → Bool
is_active pending = true
is_active in_progress = true
is_active _ = false

abbrev pub is_older : ℕ → ℕ → Option ℕ → Bool
is_older now ttl none = false
is_older now ttl (some created_at) = ltb ttl (now - created_at)

abbrev pub is_stale : ℕ → AsyncJob → Bool
is_stale now job = is_active job.status && is_older now job.request.ttl_seconds job.created_at

abbrev pub expire : ℕ → AsyncJob → AsyncJob
expire now job =
    if is_stale now job
    then record job {
      status = expired;
      completed_at = some now;
      error = "Job expired (TTL exceeded)";
    }
    else job

unfoldable pub expire_stale_jobs : ℕ → JobQueue → ℕ × JobQueue
expire_stale_jobs now q = (
  length (keep (λ p. is_stale now p.1) q.jobs),
  record q { jobs = map (λ p. (p.0, expire now p.1)) q.jobs },
)

unfoldable pub clear : JobQueue → ℕ × JobQueue
clear q = (length q.jobs, record q { jobs = []; entries = [] })
