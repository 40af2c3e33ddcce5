-- ===== src/Resilience/RequestQueue/Manager.antt =====
-- `RequestQueueManager` of src/routerbot/core/resilience/request_queue.py. A queue that the manager
-- answers with is shared: what is done to it is done in the manager.
use routerbot.Base.{
  ℕ, ◌+◌, ◌≡◌, refl, String, Option, none, some, List, [], ◌∷◌, arith, Dict, lookup, insert,
  insert_twice, string_eq, get_or, total, total-insert, total-insert_new, Option-cases, inl, inr,
  if◌then◌else◌, is_none, length-append,
}
use routerbot.Resilience.RequestQueue.{
  QueuedRequest, RequestQueue, RequestQueueConfig, depth, clear, queued,
}
use routerbot.Resilience.RequestQueue as RequestQueue

pub record RequestQueueManager : Type 0 where
  pub default_config : RequestQueueConfig
  pub queues : Dict String RequestQueue

unfoldable init : RequestQueueConfig → RequestQueueManager
init default_config = record { default_config = default_config; queues = [] }

abbrev found :
    String → Option RequestQueue → RequestQueueManager → RequestQueue × RequestQueueManager
found provider (some q) m = (q, m)
found provider none m =
    let q = RequestQueue.init provider m.default_config in
    (q, record m { queues = insert provider q m.queues })

unfoldable get : String → RequestQueueManager → RequestQueue × RequestQueueManager
get provider m = found provider (lookup provider m.queues) m

-- A method of a queue, at the one of the provider.
unfoldable at_queue :
    {A : Type 0}
    → String
    → (RequestQueue → A × RequestQueue)
    → RequestQueueManager
    → A × RequestQueueManager
unfolding get
at_queue provider method m =
    let (q, m') = get provider m in
    let (a, q') = method q in (a, record m' { queues = insert provider q' m'.queues })

unfoldable enqueue :
    ℕ
    → String
    → String
    → String
    → Option ℕ
    → RequestQueueManager
    → Option QueuedRequest × RequestQueueManager
unfolding at_queue
enqueue now request_id provider payload ttl m =
    at_queue provider (RequestQueue.enqueue now request_id payload ttl) m

unfoldable drain :
    ℕ → String → Option ℕ → RequestQueueManager → List QueuedRequest × RequestQueueManager
unfolding at_queue
drain now provider max_items m = at_queue provider (RequestQueue.drain now max_items) m

abbrev total_depth : RequestQueueManager → ℕ
total_depth m = total depth m.queues

-- The loop of clear_all.
unfoldable clear_queues : Dict String RequestQueue → ℕ × Dict String RequestQueue
clear_queues [] = (0, [])
clear_queues ((p, q) ∷ qs) =
    let (n, q') = clear q in let (rest, qs') = clear_queues qs in (n + rest, (p, q') ∷ qs')

unfoldable clear_all : RequestQueueManager → ℕ × RequestQueueManager
unfolding clear_queues
clear_all m = let (n, qs) = clear_queues m.queues in (n, record m { queues = qs })

clear_queues_lem :
    (qs : Dict String RequestQueue)
    → ((clear_queues qs).0 ≡ total depth qs) × (total depth (clear_queues qs).1 ≡ 0)
unfolding clear_queues clear
clear_queues_lem [] = (refl, refl)
clear_queues_lem ((p, q) ∷ qs) =
    let (a, b) = clear_queues_lem qs in (omega (arith, a), omega (arith, b))

-- To clear all queues drops as many requests as wait in all of them together, and then none waits.
clear_all_lem :
    (m : RequestQueueManager)
    → ((clear_all m).0 ≡ total_depth m) × (total_depth (clear_all m).1 ≡ 0)
unfolding clear_all
clear_all_lem m = clear_queues_lem m.queues

-- The queue of a provider, or the one that would be made for it.
abbrev queue_of : String → RequestQueueManager → RequestQueue
queue_of provider m =
    get_or (lookup provider m.queues) (RequestQueue.init provider m.default_config)

total_depth-at_queue :
    {A : Type 0} (provider : String) (method : RequestQueue → A × RequestQueue)
    (m : RequestQueueManager)
    → total_depth (at_queue provider method m).1 + depth (queue_of provider m)
      ≡ total_depth m + depth (method (queue_of provider m)).1
unfolding at_queue get RequestQueue.init
total_depth-at_queue provider method m = elim (Option-cases (lookup provider m.queues)) [
  | inl e ↦
      let q = RequestQueue.init provider m.default_config in
      let q' = (method q).1 in
      rw (e, insert_twice provider q' q m.queues)
        (omega (arith, total-insert_new depth provider q' m.queues e))
  | inr (q, e) ↦ rw e (total-insert depth provider (method q).1 q m.queues e)
]

depth-enqueue :
    (now : ℕ) (request_id payload : String) (ttl : Option ℕ) (q : RequestQueue)
    → depth (RequestQueue.enqueue now request_id payload ttl q).1
      ≡ depth q + (if is_none (RequestQueue.enqueue now request_id payload ttl q).0 then 0 else 1)
unfolding RequestQueue.enqueue
depth-enqueue now request_id payload ttl q =
    ground (arith, length-append q.queue (queued now request_id payload ttl q ∷ []))

at_queue_lem :
    {A : Type 0} (provider : String) (method : RequestQueue → A × RequestQueue)
    (m : RequestQueueManager)
    → (at_queue provider method m).0 ≡ (method (queue_of provider m)).0
unfolding at_queue get
at_queue_lem provider method m = elim (Option-cases (lookup provider m.queues)) [
  | inl e ↦ rw e refl
  | inr (q, e) ↦ rw e refl
]

-- An accepted request is one more that waits, and a refused one is none.
total_depth-enqueue :
    (now : ℕ) (request_id provider payload : String) (ttl : Option ℕ) (m : RequestQueueManager)
    → total_depth (enqueue now request_id provider payload ttl m).1
      ≡ total_depth m + (if is_none (enqueue now request_id provider payload ttl m).0 then 0 else 1)
unfolding enqueue
total_depth-enqueue now request_id provider payload ttl m =
    let method = RequestQueue.enqueue now request_id payload ttl in
    let t = total_depth-at_queue provider method m in
    let d = depth-enqueue now request_id payload ttl (queue_of provider m) in
    let a = at_queue_lem provider method m in rw a (omega (arith, t, d))
