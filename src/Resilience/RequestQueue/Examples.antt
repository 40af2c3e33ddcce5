-- ===== src/Resilience/RequestQueue/Examples.antt =====
-- The theorems on request queues, at a queue of three requests of which one has expired.
use routerbot.Base.{◌++◌, All, length, ◌≤◌, ◌≡◌, refl, none, some, true, List, [], ◌∷◌, map, String}
use routerbot.Resilience.RequestQueue.{
  RequestQueueConfig, RequestQueue, QueuedRequest, init, enqueue, drain, drain_all, depth,
}
use routerbot.Resilience.RequestQueue.Flow.{
  Trace, play_all, Gone, request, IsTimely, out, expiries, drops,
}
use routerbot.Resilience.RequestQueue.Fates.{play_all-balanced}
use routerbot.Resilience.RequestQueue.Balance.{Call, put, take, drop, apply, run}

abbrev config : RequestQueueConfig
config = record { max_size = 3; default_ttl = 30; drain_batch_size = 1; enabled = true }

abbrev puts : List Call
puts =
    put 0 "a" "{}" none
    ∷ put 1 "b" "{}" (some 5)
    ∷ put 2 "c" "{}" (some 0)
    ∷ put 3 "d" "{}" none
    ∷ []

abbrev waiting : RequestQueue
waiting = (run (init "openai" config) puts).1

abbrev names : List QueuedRequest → List String
names = map (λ r. r.request_id)

-- The fourth is rejected; the second has expired.
drained_all : names (drain_all 10 waiting).0 ≡ "a" ∷ "c" ∷ []
unfolding run apply init enqueue drain drain_all
drained_all = refl

abbrev day : List Call
day = put 0 "a" "{}" none ∷ put 1 "b" "{}" none ∷ take 40 none ∷ put 41 "c" "{}" none ∷ drop ∷ []

abbrev played : Trace
played = play_all (init "openai" config) day

play_all-balanced_example :
    (gone : List Gone) × (played.accepted ≡ map request gone ++ played.queue.queue)
    × All IsTimely gone
    × (played.handed ≡ out gone)
    × (played.dropped ≡ drops gone)
    × (played.queue.total_enqueued ≡ length played.accepted)
    × (played.queue.total_drained ≡ length played.handed)
    × (played.queue.total_expired ≡ expiries gone)
    × (depth played.queue ≤ 3)
play_all-balanced_example = play_all-balanced "openai" config day
