-- ===== src/Resilience/Bulkhead/Examples.antt =====
-- The theorems on bulkheads, after one request was served and another cancelled as it waited.
use routerbot.Base.{refl}
use routerbot.Resilience.Bulkhead.{
  BulkheadConfig, World, start, init, start_waiting, accept, leave, arrives, acquires, is_accepted,
  ends, is_cancelled, Reachable, here, after,
}
use routerbot.Resilience.Bulkhead.Permits.{IsBalanced, Reachable-IsBalanced}

abbrev single : BulkheadConfig
single = record { max_concurrent = 1; max_wait_seconds = 5 }

abbrev served : World
served = record (start "openai" single) {
  bulkhead =
      leave
        (accept (record (start_waiting (start_waiting (init "openai" single))) { semaphore = 0 }));
  arrived = 2;
  abandoned = 1;
}

-- The second request arrives while the first is to be accepted, and is cancelled while that one is
-- inside.
served-Reachable : Reachable (start "openai" single) served
unfolding start init start_waiting accept leave
served-Reachable =
    let first = after (after here arrives) (acquires 0 0 refl refl) in
    let second = after (after first arrives) (is_accepted 0 refl) in
    after (after second (is_cancelled 0 refl)) (ends 0 refl)

Reachable-IsBalanced_example : IsBalanced single served
Reachable-IsBalanced_example = Reachable-IsBalanced "openai" single served served-Reachable
