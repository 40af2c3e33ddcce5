-- ===== src/Resilience/RequestQueue/Flow.antt =====
-- What becomes of the requests that a queue accepts: the answers to a run of calls, and how the
-- requests leave the queue.
use routerbot.Base.{
  ℕ, suc, ◌+◌, ◌<◌, ◌≤◌, ◌≡◌, refl, sym, ◌∙◌, ap, Option, none, some, List, [], ◌∷◌, ◌++◌, arith,
  map, length, length-append, append_assoc, All, All-append,
}
use routerbot.Resilience.RequestQueue.{
  QueuedRequest, RequestQueue, enqueue, drain, drain_all, clear,
}
use routerbot.Resilience.RequestQueue.Balance.{Call, put, take, take_all, drop}

-- What was answered: the requests that were accepted, those that were handed out, and the number of
-- those that clears dropped; and the queue in the end.
pub record Trace : Type 0 where
  pub accepted : List QueuedRequest
  pub handed : List QueuedRequest
  pub dropped : ℕ
  pub queue : RequestQueue

abbrev pub listed : Option QueuedRequest → List QueuedRequest
listed none = []
listed (some r) = r ∷ []

unfoldable pub play : RequestQueue → Call → Trace
play q (put now request_id payload ttl) =
    let (o, q') = enqueue now request_id payload ttl q in
    record { accepted = listed o; handed = []; dropped = 0; queue = q' }
play q (take now max_items) =
    let (rs, q') = drain now max_items q in
    record { accepted = []; handed = rs; dropped = 0; queue = q' }
play q (take_all now) =
    let (rs, q') = drain_all now q in record { accepted = []; handed = rs; dropped = 0; queue = q' }
play q drop =
    let (n, q') = clear q in record { accepted = []; handed = []; dropped = n; queue = q' }

unfoldable pub play_all : RequestQueue → List Call → Trace
unfolding play
play_all q [] = record { accepted = []; handed = []; dropped = 0; queue = q }
play_all q (c ∷ cs) =
    let t = play q c in
    let u = play_all t.queue cs in
    record {
      accepted = t.accepted ++ u.accepted;
      handed = t.handed ++ u.handed;
      dropped = t.dropped + u.dropped;
      queue = u.queue;
    }

-- How a request left the queue, and when.
pub data Gone : Type 0 where
  handed_out : ℕ → QueuedRequest → Gone
  found_expired : ℕ → QueuedRequest → Gone
  cleared : QueuedRequest → Gone

abbrev pub request : Gone → QueuedRequest
request (handed_out now r) = r
request (found_expired now r) = r
request (cleared r) = r

-- Requests are handed out in time, and expire after it.
abbrev pub IsTimely : Gone → Type 0
IsTimely (handed_out now r) = now ≤ r.enqueued_at + r.ttl_seconds
IsTimely (found_expired now r) = r.enqueued_at + r.ttl_seconds < now
IsTimely (cleared r) = Unit

abbrev pub out : List Gone → List QueuedRequest
out [] = []
out (handed_out now r ∷ gs) = r ∷ out gs
out (found_expired now r ∷ gs) = out gs
out (cleared r ∷ gs) = out gs

abbrev pub expiries : List Gone → ℕ
expiries [] = 0
expiries (handed_out now r ∷ gs) = expiries gs
expiries (found_expired now r ∷ gs) = suc (expiries gs)
expiries (cleared r ∷ gs) = expiries gs

abbrev pub drops : List Gone → ℕ
drops [] = 0
drops (handed_out now r ∷ gs) = drops gs
drops (found_expired now r ∷ gs) = drops gs
drops (cleared r ∷ gs) = suc (drops gs)

append_gone :
    (gs hs : List Gone)
    → (map request (gs ++ hs) ≡ map request gs ++ map request hs)
      × (out (gs ++ hs) ≡ out gs ++ out hs)
      × (expiries (gs ++ hs) ≡ expiries gs + expiries hs)
      × (drops (gs ++ hs) ≡ drops gs + drops hs)
append_gone [] hs = (refl, refl, omega arith, omega arith)
append_gone (handed_out now r ∷ gs) hs =
    let (a, b, c, d) = append_gone gs hs in (ap (λ l. r ∷ l) a, ap (λ l. r ∷ l) b, c, d)
append_gone (found_expired now r ∷ gs) hs =
    let (a, b, c, d) = append_gone gs hs in (ap (λ l. r ∷ l) a, b, omega (arith, c), d)
append_gone (cleared r ∷ gs) hs =
    let (a, b, c, d) = append_gone gs hs in (ap (λ l. r ∷ l) a, b, c, omega (arith, d))

-- From a queue on: what waited and what was accepted is what left, in the order of arrival, and then
-- what waits; what was answered, and the counters, are as the requests left.
pub record IsFlow (q : RequestQueue) (t : Trace) (gone : List Gone) : Type 0 where
  pub order : q.queue ++ t.accepted ≡ map request gone ++ t.queue.queue
  pub timely : All IsTimely gone
  pub handed : t.handed ≡ out gone
  pub dropped : t.dropped ≡ drops gone
  pub enqueued : t.queue.total_enqueued ≡ q.total_enqueued + length t.accepted
  pub drained : t.queue.total_drained ≡ q.total_drained + length t.handed
  pub expired : t.queue.total_expired ≡ q.total_expired + expiries gone

pub IsFlow-append :
    (q : RequestQueue) (t u : Trace) (gs hs : List Gone)
    → IsFlow q t gs
    → IsFlow t.queue u hs
    → IsFlow q
        (record {
          accepted = t.accepted ++ u.accepted;
          handed = t.handed ++ u.handed;
          dropped = t.dropped + u.dropped;
          queue = u.queue;
        })
        (gs ++ hs)
IsFlow-append q t u gs hs f g =
    let (a, b, c, d) = append_gone gs hs in
    record {
      order =
          sym (append_assoc q.queue t.accepted u.accepted)
          ∙ ap (λ l. l ++ u.accepted) f.order
          ∙ append_assoc (map request gs) t.queue.queue u.accepted
          ∙ ap (λ l. map request gs ++ l) g.order
          ∙ sym (append_assoc (map request gs) (map request hs) u.queue.queue)
          ∙ ap (λ l. l ++ u.queue.queue) (sym a);
      timely = All-append IsTimely gs hs f.timely g.timely;
      handed = ap (λ l. l ++ u.handed) f.handed ∙ ap (λ l. out gs ++ l) g.handed ∙ sym b;
      dropped = omega (arith, f.dropped, g.dropped, d);
      enqueued = omega (arith, f.enqueued, g.enqueued, length-append t.accepted u.accepted);
      drained = omega (arith, f.drained, g.drained, length-append t.handed u.handed);
      expired = omega (arith, f.expired, g.expired, c);
    }
