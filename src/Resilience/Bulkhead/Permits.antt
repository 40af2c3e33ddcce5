-- ===== src/Resilience/Bulkhead/Permits.antt =====
-- What a bulkhead's counters say of its requests, in every order of steps.
use routerbot.Base.{◌+◌, ◌≤◌, ◌≡◌, String, arith}
use routerbot.Resilience.Bulkhead.{
  BulkheadConfig, init, start_waiting, reject, accept, leave, World, start, Step, arrives,
  fails_fast, acquires, times_out, times_out_granted, is_accepted, ends, is_cancelled,
  is_cancelled_granted, Reachable, here, after,
}

-- The counters, in terms of the requests.
pub record IsBalanced (config : BulkheadConfig) (w : World) : Type 0 where
  pub permits : w.bulkhead.semaphore + w.granted + w.running ≡ config.max_concurrent
  pub inside : w.bulkhead.active ≡ w.running
  pub outside : w.bulkhead.waiting ≡ w.queued + w.granted + w.abandoned
  pub total :
      w.arrived
      ≡ w.bulkhead.total_accepted + w.bulkhead.total_rejected + w.queued + w.granted + w.abandoned

Step-IsBalanced :
    (config : BulkheadConfig) (w u : World) → Step w u → IsBalanced config w → IsBalanced config u
unfolding start_waiting reject accept leave
Step-IsBalanced config w u arrives h = omega (arith, h.permits, h.inside, h.outside, h.total)
Step-IsBalanced config w u (fails_fast n e _ _) h =
    omega (arith, h.permits, h.inside, h.outside, h.total)
Step-IsBalanced config w u (acquires n k e f) h =
    omega (arith, h.permits, h.inside, h.outside, h.total)
Step-IsBalanced config w u (times_out n e _) h =
    omega (arith, h.permits, h.inside, h.outside, h.total)
Step-IsBalanced config w u (times_out_granted n e _) h =
    omega (arith, h.permits, h.inside, h.outside, h.total)
Step-IsBalanced config w u (is_accepted n e) h =
    omega (arith, h.permits, h.inside, h.outside, h.total)
Step-IsBalanced config w u (ends n e) h = omega (arith, h.permits, h.inside, h.outside, h.total)
Step-IsBalanced config w u (is_cancelled n e) h =
    omega (arith, h.permits, h.inside, h.outside, h.total)
Step-IsBalanced config w u (is_cancelled_granted n e) h =
    omega (arith, h.permits, h.inside, h.outside, h.total)

-- In every world that a new bulkhead reaches, whatever the order of its requests and whichever are
-- cancelled: the permits that are free, granted and in use make up `max_concurrent`; the active
-- count is that of the requests inside; the waiting count is that of the requests that wait and of
-- all that were ever cancelled while they did; and each arrival is accepted, rejected, waiting or
-- cancelled.
pub Reachable-IsBalanced :
    (provider : String) (config : BulkheadConfig) (w : World)
    → Reachable (start provider config) w
    → IsBalanced config w
unfolding start init
Reachable-IsBalanced provider config w here = omega arith
Reachable-IsBalanced provider config w (after {v} r s) =
    Step-IsBalanced config v w s (Reachable-IsBalanced provider config v r)

-- Never are more than `max_concurrent` requests inside, nor counted as active, whatever the order of
-- the requests and whichever are cancelled.
pub running-bounded :
    (provider : String) (config : BulkheadConfig) (w : World)
    → Reachable (start provider config) w
    → (w.running ≤ config.max_concurrent) × (w.bulkhead.active ≤ config.max_concurrent)
running-bounded provider config w r =
    let b = Reachable-IsBalanced provider config w r in
    (omega (arith, b.permits), omega (arith, b.permits, b.inside))

-- Once no request waits or is inside, every permit is free again and none is active; but the waiting
-- count is the number of requests that were cancelled while they waited, not zero.
pub idle-permits :
    (provider : String) (config : BulkheadConfig) (w : World)
    → Reachable (start provider config) w
    → w.queued + w.granted + w.running ≡ 0
    → (w.bulkhead.semaphore ≡ config.max_concurrent)
      × (w.bulkhead.active ≡ 0)
      × (w.bulkhead.waiting ≡ w.abandoned)
idle-permits provider config w r e =
    let b = Reachable-IsBalanced provider config w r in
    (omega (arith, b.permits, e), omega (arith, b.inside, e), omega (arith, b.outside, e))
