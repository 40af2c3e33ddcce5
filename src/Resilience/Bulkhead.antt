-- ===== src/Resilience/Bulkhead.antt =====
-- `Bulkhead` of src/routerbot/core/resilience/bulkhead.py. Requests interleave where they await the
-- semaphore; the lock is never held over an await, so what it guards is one step. A world is the
-- bulkhead with the number of its requests at each place, and a step is what one request does.
pub mod Permits
pub mod Manager
mod Examples
use routerbot.Base.{ℕ, suc, ◌+◌, ◌-◌, ◌<◌, ◌≡◌, String, Bool, true, eqb}

pub record BulkheadConfig : Type 0 where
  pub max_concurrent : ℕ
  pub max_wait_seconds : ℕ

-- `semaphore` is the value of the asyncio.Semaphore.
pub record Bulkhead : Type 0 where
  pub provider : String
  pub config : BulkheadConfig
  pub semaphore : ℕ
  pub active : ℕ
  pub waiting : ℕ
  pub total_accepted : ℕ
  pub total_rejected : ℕ

unfoldable pub init : String → BulkheadConfig → Bulkhead
init provider config = record {
  provider = provider;
  config = config;
  semaphore = config.max_concurrent;
  active = 0;
  waiting = 0;
  total_accepted = 0;
  total_rejected = 0;
}

-- async with self._lock: self._waiting += 1
unfoldable pub start_waiting : Bulkhead → Bulkhead
start_waiting b = record b { waiting = b.waiting + 1 }

abbrev pub locked : Bulkhead → Bool
locked b = eqb b.semaphore 0

-- The except branch, and that of a locked semaphore.
unfoldable pub reject : Bulkhead → Bulkhead
reject b = record b { waiting = b.waiting - 1; total_rejected = b.total_rejected + 1 }

unfoldable pub accept : Bulkhead → Bulkhead
accept b = record b {
  waiting = b.waiting - 1;
  active = b.active + 1;
  total_accepted = b.total_accepted + 1;
}

-- The finally branch.
unfoldable pub leave : Bulkhead → Bulkhead
leave b = record b { semaphore = b.semaphore + 1; active = b.active - 1 }

-- Of the requests that have arrived, `queued` await the semaphore, `granted` have it and are to be
-- accepted, `running` are inside, and `abandoned` were cancelled before they were accepted.
pub record World : Type 0 where
  pub bulkhead : Bulkhead
  pub arrived : ℕ
  pub queued : ℕ
  pub granted : ℕ
  pub running : ℕ
  pub abandoned : ℕ

unfoldable pub start : String → BulkheadConfig → World
start provider config = record {
  bulkhead = init provider config;
  arrived = 0;
  queued = 0;
  granted = 0;
  running = 0;
  abandoned = 0;
}

-- What one request does to the world. A request that is cancelled, or timed out, after it was granted
-- the semaphore gives it back, as asyncio.Semaphore does. The code has no branch for a cancelled
-- request, so that one keeps counting as waiting.
pub data Step (w : World) : World → Type 0 where
  arrives : Step w (record w {
    bulkhead = start_waiting w.bulkhead;
    arrived = w.arrived + 1;
    queued = w.queued + 1;
  })
  fails_fast :
      (n : ℕ)
      → w.queued ≡ suc n
      → w.bulkhead.config.max_wait_seconds ≡ 0
      → locked w.bulkhead ≡ true
      → Step w (record w { bulkhead = reject w.bulkhead; queued = n })
  acquires :
      (n k : ℕ)
      → w.queued ≡ suc n
      → w.bulkhead.semaphore ≡ suc k
      → Step w (record w {
        bulkhead = record (w.bulkhead) { semaphore = k };
        queued = n;
        granted = w.granted + 1;
      })
  times_out :
      (n : ℕ)
      → w.queued ≡ suc n
      → 0 < w.bulkhead.config.max_wait_seconds
      → Step w (record w { bulkhead = reject w.bulkhead; queued = n })
  times_out_granted :
      (n : ℕ)
      → w.granted ≡ suc n
      → 0 < w.bulkhead.config.max_wait_seconds
      → Step w (record w {
        bulkhead = reject (record (w.bulkhead) { semaphore = w.bulkhead.semaphore + 1 });
        granted = n;
      })
  is_accepted :
      (n : ℕ)
      → w.granted ≡ suc n
      → Step w (record w { bulkhead = accept w.bulkhead; granted = n; running = w.running + 1 })
  ends :
      (n : ℕ) → w.running ≡ suc n → Step w (record w { bulkhead = leave w.bulkhead; running = n })
  is_cancelled :
      (n : ℕ) → w.queued ≡ suc n → Step w (record w { queued = n; abandoned = w.abandoned + 1 })
  is_cancelled_granted :
      (n : ℕ)
      → w.granted ≡ suc n
      → Step w (record w {
        bulkhead = record (w.bulkhead) { semaphore = w.bulkhead.semaphore + 1 };
        granted = n;
        abandoned = w.abandoned + 1;
      })

-- Worlds that are reached by steps.
pub data Reachable (w : World) : World → Type 0 where
  here : Reachable w w
  after : {v u : World} → Reachable w v → Step v u → Reachable w u
