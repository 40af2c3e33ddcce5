-- ===== src/Resilience/RequestQueue.antt =====
-- `RequestQueue` of src/routerbot/core/resilience/request_queue.py, and its part of models.py. No
-- method awaits anything, so each is one step. `now` is the reading of datetime.now(), a natural
-- number, one for all the items of a drain. The asyncio.Queue is the list of its items, first in
-- first; its maxsize is at least 1 by the configuration's bounds.
pub mod Balance
pub mod Order
pub mod Flow
pub mod Fates
pub mod Manager
mod Examples
use routerbot.Base.{
  ℕ, suc, zero, ◌+◌, String, Option, none, some, Bool, true, false, ◌||◌, not, List, [], ◌∷◌, ◌++◌,
  if◌then◌else◌, ltb, leb, eqb, length,
}

-- The payload is opaque: the text of its JSON.
pub record QueuedRequest : Type 0 where
  pub request_id : String
  pub provider : String
  pub payload : String
  pub enqueued_at : ℕ
  pub ttl_seconds : ℕ

abbrev pub is_expired : ℕ → QueuedRequest → Bool
is_expired now r = ltb (r.enqueued_at + r.ttl_seconds) now

pub record RequestQueueConfig : Type 0 where
  pub max_size : ℕ
  pub default_ttl : ℕ
  pub drain_batch_size : ℕ
  pub enabled : Bool

pub record RequestQueue : Type 0 where
  pub provider : String
  pub config : RequestQueueConfig
  pub queue : List QueuedRequest
  pub total_enqueued : ℕ
  pub total_drained : ℕ
  pub total_expired : ℕ
  pub total_rejected : ℕ

unfoldable pub init : String → RequestQueueConfig → RequestQueue
init provider config = record {
  provider = provider;
  config = config;
  queue = [];
  total_enqueued = 0;
  total_drained = 0;
  total_expired = 0;
  total_rejected = 0;
}

-- `n or default`: nothing given and 0 both take the default.
abbrev pub or_default : Option ℕ → ℕ → ℕ
or_default none default = default
or_default (some n) default = if eqb n 0 then default else n

abbrev pub depth : RequestQueue → ℕ
depth q = length q.queue

abbrev pub is_empty : RequestQueue → Bool
is_empty q = eqb (depth q) 0

abbrev pub is_full : RequestQueue → Bool
is_full q = leb q.config.max_size (depth q)

-- The identifier, a random one in the code, is an argument.
abbrev pub queued : ℕ → String → String → Option ℕ → RequestQueue → QueuedRequest
queued now request_id payload ttl q = record {
  request_id = request_id;
  provider = q.provider;
  payload = payload;
  enqueued_at = now;
  ttl_seconds = or_default ttl q.config.default_ttl;
}

unfoldable pub enqueue :
    ℕ → String → String → Option ℕ → RequestQueue → Option QueuedRequest × RequestQueue
enqueue now request_id payload ttl q =
    let item = queued now request_id payload ttl q in
    if not q.config.enabled
    then (none, q)
    else if is_full q
    then (none, record q { total_rejected = q.total_rejected + 1 })
    else (
      some item,
      record q { queue = q.queue ++ item ∷ []; total_enqueued = q.total_enqueued + 1 },
    )

-- The loop of `drain`, with `room` for that many more results.
abbrev pub drain_loop :
    ℕ → ℕ → RequestQueue → List QueuedRequest → List QueuedRequest × RequestQueue
drain_loop now zero q items = ([], record q { queue = items })
drain_loop now (suc room) q [] = ([], record q { queue = [] })
drain_loop now (suc room) q (item ∷ items) =
    let dead = drain_loop now (suc room) (record q { total_expired = q.total_expired + 1 }) items in
    let live = drain_loop now room (record q { total_drained = q.total_drained + 1 }) items in
    if is_expired now item then dead else (item ∷ live.0, live.1)

unfoldable pub drain : ℕ → Option ℕ → RequestQueue → List QueuedRequest × RequestQueue
drain now max_items q = drain_loop now (or_default max_items q.config.drain_batch_size) q q.queue

unfoldable pub drain_all : ℕ → RequestQueue → List QueuedRequest × RequestQueue
unfolding drain
drain_all now q = drain now (some (depth q + 1)) q

-- The number dropped; no counter moves.
unfoldable pub clear : RequestQueue → ℕ × RequestQueue
clear q = (depth q, record q { queue = [] })
