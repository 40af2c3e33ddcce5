-- ===== src/Resilience/RequestQueue/Fates.antt =====
-- Every request that a queue accepts is accounted for.
use routerbot.Base.{
  true, false, not, if◌then◌else◌, Bool, ℕ, suc, zero, ◌+◌, ◌≤◌, ◌≡◌, refl, ◌∙◌, ap, String, Option,
  none, some, List, [], ◌∷◌, ◌++◌, arith, map, length, append-nil, All, Bool-cases, inl, inr,
  ltb→lt, ltb→le,
}
use routerbot.Resilience.RequestQueue.{
  queued, QueuedRequest, RequestQueue, RequestQueueConfig, is_expired, is_full, init, or_default,
  enqueue, drain_loop, drain, drain_all, clear, depth,
}
use routerbot.Resilience.RequestQueue.Balance.{
  Call, put, take, take_all, drop, apply, run, run-balanced,
}
use routerbot.Resilience.RequestQueue.Flow.{
  listed, play, play_all, Gone, handed_out, found_expired, cleared, request, IsTimely, out,
  expiries, drops, IsFlow, IsFlow-append,
}

drain_loop_lem :
    (now room : ℕ) (q : RequestQueue) (items : List QueuedRequest)
    → let p = drain_loop now room q items in
      (gone : List Gone) × (items ≡ map request gone ++ p.1.queue)
      × All IsTimely gone
      × (p.0 ≡ out gone)
      × (0 ≡ drops gone)
      × (p.1.total_enqueued ≡ q.total_enqueued)
      × (p.1.total_drained ≡ q.total_drained + length p.0)
      × (p.1.total_expired ≡ q.total_expired + expiries gone)
drain_loop_lem now zero q items = ([], refl, tt, refl, refl, refl, omega arith, omega arith)
drain_loop_lem now (suc room) q [] = ([], refl, tt, refl, refl, refl, omega arith, omega arith)
drain_loop_lem now (suc room) q (item ∷ items) = elim (Bool-cases (is_expired now item)) [
  | inl t ↦
      let (g, a, b, c, d, e, f, h) =
        drain_loop_lem now (suc room) (record q { total_expired = q.total_expired + 1 }) items in
      rw t (
        found_expired now item ∷ g,
        ap (λ l. item ∷ l) a,
        (ltb→lt (item.enqueued_at + item.ttl_seconds) now t, b),
        c,
        d,
        e,
        f,
        omega (arith, h),
      )
  | inr n ↦
      let (g, a, b, c, d, e, f, h) =
        drain_loop_lem now room (record q { total_drained = q.total_drained + 1 }) items in
      rw n (
        handed_out now item ∷ g,
        ap (λ l. item ∷ l) a,
        (ltb→le (item.enqueued_at + item.ttl_seconds) now n, b),
        ap (λ l. item ∷ l) c,
        d,
        e,
        omega (arith, f),
        h,
      )
]

drain-IsFlow :
    (now : ℕ) (max_items : Option ℕ) (q : RequestQueue)
    → let p = drain now max_items q in
      (gone : List Gone) × IsFlow q
        (record { accepted = []; handed = p.0; dropped = 0; queue = p.1 })
        gone
unfolding drain
drain-IsFlow now max_items q =
    let (g, a, b, c, d, e, f, h) =
      drain_loop_lem now (or_default max_items q.config.drain_batch_size) q q.queue in
    (
      g,
      record {
        order = append-nil q.queue ∙ a;
        timely = b;
        handed = c;
        dropped = d;
        enqueued = omega (arith, e);
        drained = f;
        expired = h;
      },
    )

clear_gone :
    (rs : List QueuedRequest)
    → let gone = map cleared rs in
      (rs ≡ map request gone)
      × All IsTimely gone
      × ([] ≡ out gone)
      × (length rs ≡ drops gone)
      × (0 ≡ expiries gone)
clear_gone [] = (refl, tt, refl, refl, refl)
clear_gone (r ∷ rs) =
    let (a, b, c, d, e) = clear_gone rs in (ap (λ l. r ∷ l) a, (tt, b), c, omega (arith, d), e)

stays :
    (q q' : RequestQueue) (rs : List QueuedRequest)
    → q.queue ++ rs ≡ q'.queue
    → q'.total_enqueued ≡ q.total_enqueued + length rs
    → q'.total_drained ≡ q.total_drained
    → q'.total_expired ≡ q.total_expired
    → IsFlow q (record { accepted = rs; handed = []; dropped = 0; queue = q' }) []
stays q q' rs a b c d = record {
  order = a;
  timely = tt;
  handed = refl;
  dropped = refl;
  enqueued = b;
  drained = omega (arith, c);
  expired = omega (arith, d);
}

put-IsFlow :
    (enabled full : Bool) (item : QueuedRequest) (q : RequestQueue)
    → let p : Option QueuedRequest × RequestQueue =
        if not enabled
        then (none, q)
        else if full
        then (none, record q { total_rejected = q.total_rejected + 1 })
        else (
          some item,
          record q { queue = q.queue ++ item ∷ []; total_enqueued = q.total_enqueued + 1 },
        ) in
      IsFlow q (record { accepted = listed p.0; handed = []; dropped = 0; queue = p.1 }) []
put-IsFlow false full item q = stays q q [] (append-nil q.queue) (omega arith) refl refl
put-IsFlow true true item q =
    stays q (record q { total_rejected = q.total_rejected + 1 }) [] (append-nil q.queue)
      (omega arith) refl refl
put-IsFlow true false item q =
    stays q (record q { queue = q.queue ++ item ∷ []; total_enqueued = q.total_enqueued + 1 })
      (item ∷ []) refl (omega arith) refl refl

play-IsFlow : (q : RequestQueue) (c : Call) → (gone : List Gone) × IsFlow q (play q c) gone
unfolding play
play-IsFlow q (put now request_id payload ttl) = (
  [],
  unfold enqueue in put-IsFlow q.config.enabled (is_full q) (queued now request_id payload ttl q) q,
)
play-IsFlow q (take now max_items) = drain-IsFlow now max_items q
play-IsFlow q (take_all now) = unfold drain_all in drain-IsFlow now (some (depth q + 1)) q
play-IsFlow q drop =
    let (a, b, c, d, e) = clear_gone q.queue in
    (
      map cleared q.queue,
      unfold clear in
          record {
            order = ap (λ l. l ++ []) a;
            timely = b;
            handed = c;
            dropped = d;
            enqueued = omega arith;
            drained = omega arith;
            expired = omega (arith, e);
          },
    )

play_all-IsFlow :
    (q : RequestQueue) (cs : List Call) → (gone : List Gone) × IsFlow q (play_all q cs) gone
unfolding play_all
play_all-IsFlow q [] = ([], stays q q [] (append-nil q.queue) (omega arith) refl refl)
play_all-IsFlow q (c ∷ cs) =
    let (gs, f) = play-IsFlow q c in
    let (hs, g) = play_all-IsFlow (play q c).queue cs in
    (gs ++ hs, IsFlow-append q (play q c) (play_all (play q c).queue cs) gs hs f g)

queue-play : (q : RequestQueue) (c : Call) → (play q c).queue ≡ (apply q c).1
unfolding play apply
queue-play q (put now request_id payload ttl) = refl
queue-play q (take now max_items) = refl
queue-play q (take_all now) = refl
queue-play q drop = refl

queue-play_all : (q : RequestQueue) (cs : List Call) → (play_all q cs).queue ≡ (run q cs).1
unfolding play_all run
queue-play_all q [] = refl
queue-play_all q (c ∷ cs) =
    queue-play_all (play q c).queue cs ∙ ap (λ q'. (run q' cs).1) (queue-play q c)

-- Over every run of calls on a new queue, the requests that were accepted are, in the order in which
-- they came, those that have left the queue and then those that wait. The ones that left were handed
-- out in time, found expired after it, or dropped by a clear; the answers of the drains together are
-- those handed out, in that order. The counters say how many were accepted, handed out and found
-- expired; and no more wait than the configured size.
pub play_all-balanced :
    (provider : String) (config : RequestQueueConfig) (cs : List Call)
    → let t = play_all (init provider config) cs in
      (gone : List Gone) × (t.accepted ≡ map request gone ++ t.queue.queue)
      × All IsTimely gone
      × (t.handed ≡ out gone)
      × (t.dropped ≡ drops gone)
      × (t.queue.total_enqueued ≡ length t.accepted)
      × (t.queue.total_drained ≡ length t.handed)
      × (t.queue.total_expired ≡ expiries gone)
      × (depth t.queue ≤ config.max_size)
play_all-balanced provider config cs =
    let (gone, f) = play_all-IsFlow (init provider config) cs in
    let (b, room) = run-balanced provider config cs in
    (
      gone,
      unfold init in f.order,
      f.timely,
      f.handed,
      f.dropped,
      unfold init in omega (arith, f.enqueued),
      unfold init in omega (arith, f.drained),
      unfold init in omega (arith, f.expired),
      rw (queue-play_all (init provider config) cs) room,
    )
