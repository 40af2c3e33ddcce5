-- ===== src/Resilience/RequestQueue/Balance.antt =====
-- The counters of a queue, and its depth, over a run of calls.
use routerbot.Base.{
  ℕ, suc, zero, ◌+◌, ◌≤◌, ◌≡◌, refl, String, Option, some, List, [], ◌∷◌, arith, length, ◌∙◌,
  length-append,
}
use routerbot.Resilience.RequestQueue.{
  QueuedRequest, RequestQueue, RequestQueueConfig, init, or_default, enqueue, drain_loop, drain,
  drain_all, clear, depth, queued,
}

pub data Call : Type 0 where
  put : ℕ → String → String → Option ℕ → Call
  take : ℕ → Option ℕ → Call
  take_all : ℕ → Call
  drop : Call

-- The queue after a call, and how many items the call dropped.
unfoldable pub apply : RequestQueue → Call → ℕ × RequestQueue
apply q (put now request_id payload ttl) = (0, (enqueue now request_id payload ttl q).1)
apply q (take now max_items) = (0, (drain now max_items q).1)
apply q (take_all now) = (0, (drain_all now q).1)
apply q drop = clear q

unfoldable pub run : RequestQueue → List Call → ℕ × RequestQueue
run q [] = (0, q)
run q (c ∷ cs) = let p = apply q c in let rest = run p.1 cs in (p.0 + rest.0, rest.1)

-- What has come in is what went out, what waits, and what was dropped.
abbrev pub IsBalanced : ℕ → RequestQueue → Type 0
IsBalanced dropped q = q.total_enqueued ≡ q.total_drained + q.total_expired + depth q + dropped

drain_loop-total :
    (now room : ℕ) (q : RequestQueue) (items : List QueuedRequest)
    → let q' = (drain_loop now room q items).1 in
      (q'.total_drained + q'.total_expired + depth q'
        ≡ q.total_drained + q.total_expired + length items)
      × (q'.total_enqueued ≡ q.total_enqueued)
      × (q'.config ≡ q.config)
      × (depth q' ≤ length items)
drain_loop-total now zero q items = (refl, refl, refl, omega arith)
drain_loop-total now (suc room) q [] = (refl, refl, refl, omega arith)
drain_loop-total now (suc room) q (item ∷ items) =
    let dead =
      drain_loop-total now (suc room) (record q { total_expired = q.total_expired + 1 }) items in
    let live = drain_loop-total now room (record q { total_drained = q.total_drained + 1 }) items in
    ground (arith, dead, live)

-- One call: the balance, the depth and the configuration.
record IsStep (q : RequestQueue) (p : ℕ × RequestQueue) : Type 0 where
  balance :
      p.1.total_enqueued + q.total_drained + q.total_expired + depth q
      ≡ q.total_enqueued + p.1.total_drained + p.1.total_expired + depth p.1 + p.0
  capacity : depth q ≤ q.config.max_size → depth p.1 ≤ q.config.max_size
  config : p.1.config ≡ q.config

drain-IsStep :
    (now : ℕ) (max_items : Option ℕ) (q : RequestQueue) → IsStep q (0, (drain now max_items q).1)
unfolding drain
drain-IsStep now max_items q =
    let t = drain_loop-total now (or_default max_items q.config.drain_batch_size) q q.queue in
    record { balance = omega (arith, t.0, t.1); capacity = λ h. omega (arith, t.3); config = t.2 }

apply-IsStep : (q : RequestQueue) (c : Call) → IsStep q (apply q c)
unfolding apply
apply-IsStep q (put now request_id payload ttl) =
    let l = length-append q.queue (queued now request_id payload ttl q ∷ []) in
    record {
      balance = unfold enqueue in ground (arith, l);
      capacity = λ h. unfold enqueue in ground (arith, l);
      config = unfold enqueue in ground arith;
    }
apply-IsStep q (take now max_items) = drain-IsStep now max_items q
apply-IsStep q (take_all now) = unfold drain_all in drain-IsStep now (some (depth q + 1)) q
apply-IsStep q drop =
    unfold clear in record { balance = omega arith; capacity = λ h. omega arith; config = refl }

run-IsStep : (q : RequestQueue) (cs : List Call) → IsStep q (run q cs)
unfolding run
run-IsStep q [] = record { balance = omega arith; capacity = λ h. h; config = refl }
run-IsStep q (c ∷ cs) =
    let s = apply-IsStep q c in
    let r = run-IsStep (apply q c).1 cs in
    record {
      balance = omega (arith, s.balance, r.balance);
      capacity = λ h. ground (arith, s.capacity h, r.capacity, s.config);
      config = r.config ∙ s.config;
    }

-- Over every run of calls on a new queue, the requests that were accepted are those that were
-- handed out, those that were found expired, those that wait, and those that clears have dropped;
-- and no more wait than the configured size.
pub run-balanced :
    (provider : String) (config : RequestQueueConfig) (cs : List Call)
    → let p = run (init provider config) cs in
      (p.1.total_enqueued ≡ p.1.total_drained + p.1.total_expired + depth p.1 + p.0)
      × (depth p.1 ≤ config.max_size)
unfolding init
run-balanced provider config cs =
    let s = run-IsStep (init provider config) cs in
    (omega (arith, s.balance), s.capacity (omega arith))
