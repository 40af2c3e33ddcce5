-- ===== src/Batch/JobQueue/Updates.antt =====
-- What is asked of one job and its entries, and how a change of another job leaves it.
use routerbot.Base.{
  ℕ, ◌≤◌, ◌<◌, ◌≡◌, sym, at_key, arith, Option, none, some, Bool, true, false, ◌||◌, List, [], ◌∷◌,
  map, eqb, any, Dict, lookup, insert, lookup-insert, Bool-cases, inl, inr, subst,
}
use routerbot.Batch.JobQueue.{
  AsyncJob, is_pending, Entry, put_entry, JobQueue, id_eq, eqb_iff, expire,
}

-- An entry of the priority queue is for the job.
abbrev pub queued : ℕ → List Entry → Bool
queued id es = any (λ e. eqb e.id id) es

abbrev pub IsSoundJob : ℕ → Option AsyncJob → List Entry → Type 0
IsSoundJob id none es = Unit
IsSoundJob id (some j) es =
    (j.attempts ≤ j.max_attempts)
    × (is_pending j ≡ true → j.attempts < j.max_attempts)
    × (is_pending j ≡ true → queued id es ≡ true)

pub queued-put_entry :
    (id : ℕ) (e : Entry) (es : List Entry)
    → queued id (put_entry e es) ≡ (eqb e.id id || queued id es)
queued-put_entry id e [] = ground arith
queued-put_entry id e (f ∷ fs) = ground (arith, queued-put_entry id e fs)

pub lookup-expire :
    (now id : ℕ) (d : Dict ℕ AsyncJob) (es : List Entry)
    → IsSoundJob id (lookup id d) es
    → IsSoundJob id (lookup id (map (λ p. (p.0, expire now p.1)) d)) es
unfolding lookup
lookup-expire now id [] es h = tt
lookup-expire now id ((i, j) ∷ d) es h = ground (arith, lookup-expire now id d es)

weaken :
    (id : ℕ) (o : Option AsyncJob) (es es' : List Entry)
    → (queued id es ≡ true → queued id es' ≡ true)
    → IsSoundJob id o es
    → IsSoundJob id o es'
weaken id none es es' m h = tt
weaken id (some j) es es' m h = (h.0, h.1, λ p. m (h.2 p))

-- The other jobs keep their entries.
pub update :
    (id : ℕ) (j : AsyncJob) (d : Dict ℕ AsyncJob) (es es' : List Entry)
    → ((i : ℕ) → eqb id i ≡ false → queued i es ≡ true → queued i es' ≡ true)
    → IsSoundJob id (some j) es'
    → ((i : ℕ) → IsSoundJob i (lookup i d) es)
    → (i : ℕ) → IsSoundJob i (lookup i (insert id j d)) es'
update id j d es es' m s h i = elim (Bool-cases (eqb id i)) [
  | inl t ↦
      rw (lookup-insert id i j d, t) (subst (λ k. IsSoundJob k (some j) es') ((eqb_iff id i).0 t) s)
  | inr n ↦ rw (lookup-insert id i j d, n) (weaken i (lookup i d) es es' (m i n) (h i))
]

pub put_entry-update :
    (e : Entry) (j : AsyncJob) (d : Dict ℕ AsyncJob) (es : List Entry)
    → (j.attempts ≤ j.max_attempts)
    → (is_pending j ≡ true → j.attempts < j.max_attempts)
    → ((i : ℕ) → IsSoundJob i (lookup i d) es)
    → (i : ℕ) → IsSoundJob i (lookup i (insert e.id j d)) (put_entry e es)
put_entry-update e j d es a p h =
    update e.id j d es (put_entry e es) (λ i n q. ground (arith, queued-put_entry i e es))
      (a, p, λ _. ground (arith, queued-put_entry e.id e es)) h

pub found :
    (id : ℕ) (job : AsyncJob) (q : JobQueue) (es : List Entry)
    → some job ≡ lookup id q.jobs
    → ((i : ℕ) → IsSoundJob i (lookup i q.jobs) es)
    → IsSoundJob id (some job) es
found id job q es h v = subst (λ o. IsSoundJob id o es) (sym h) (v id)

idle :
    (id : ℕ) (o : Option AsyncJob) (es es' : List Entry)
    → at_key is_pending o ≡ false
    → IsSoundJob id o es
    → IsSoundJob id o es'
idle id none es es' p h = tt
idle id (some j) es es' p h = (h.0, h.1, λ t. cc)

-- An entry of no pending job can go.
pub drop_entry :
    (e : Entry) (es : List Entry) (d : Dict ℕ AsyncJob)
    → at_key is_pending (lookup e.id d) ≡ false
    → ((i : ℕ) → IsSoundJob i (lookup i d) (e ∷ es))
    → (i : ℕ) → IsSoundJob i (lookup i d) es
drop_entry e es d p h i = elim (Bool-cases (eqb e.id i)) [
  | inl t ↦
      idle i (lookup i d) (e ∷ es) es
        (subst (λ k. at_key is_pending (lookup k d) ≡ false) ((eqb_iff e.id i).0 t) p) (h i)
  | inr n ↦ weaken i (lookup i d) (e ∷ es) es (λ q. ground arith) (h i)
]
