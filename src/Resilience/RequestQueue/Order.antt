-- ===== src/Resilience/RequestQueue/Order.antt =====
-- What a drain takes: the live items, first in first, and no live item is lost.
use routerbot.Base.{
  ℕ, suc, zero, ◌+◌, ◌≡◌, refl, sym, ◌∙◌, ap, Option, some, Bool, not, List, [], ◌∷◌, ◌++◌, arith,
  length, keep, Bool-cases, inl, inr, append-nil, length-keep-le, length-append, ◌⊎◌,
}
use routerbot.Resilience.RequestQueue.{
  QueuedRequest, is_expired, RequestQueue, or_default, drain_loop, drain, drain_all, depth,
}

abbrev pub is_live : ℕ → QueuedRequest → Bool
is_live now r = not (is_expired now r)

drain_loop-keep :
    (now room : ℕ) (q : RequestQueue) (items : List QueuedRequest)
    → let p = drain_loop now room q items in
      (keep (is_live now) items ≡ p.0 ++ keep (is_live now) p.1.queue)
      × ((length p.0 ≡ room) ⊎ (p.1.queue ≡ []))
drain_loop-keep now zero q items = (refl, inl refl)
drain_loop-keep now (suc room) q [] = (refl, inr refl)
drain_loop-keep now (suc room) q (item ∷ items) =
    let dead =
      drain_loop-keep now (suc room) (record q { total_expired = q.total_expired + 1 }) items in
    let live = drain_loop-keep now room (record q { total_drained = q.total_drained + 1 }) items in
    elim (Bool-cases (is_expired now item)) [
      | inl t ↦ rw t dead
      | inr n ↦ rw n (ap (λ xs. item ∷ xs) live.0, ground (arith, live.1))
    ]

-- A drain answers with the items that have not expired, in the order in which they came, and leaves
-- the other ones of these in the queue, in the same order. It answers with as many as it may unless
-- it empties the queue.
pub drain-keep :
    (now : ℕ) (max_items : Option ℕ) (q : RequestQueue)
    → let p = drain now max_items q in
      (keep (is_live now) q.queue ≡ p.0 ++ keep (is_live now) p.1.queue)
      × ((length p.0 ≡ or_default max_items q.config.drain_batch_size) ⊎ (p.1.queue ≡ []))
unfolding drain
drain-keep now max_items q =
    drain_loop-keep now (or_default max_items q.config.drain_batch_size) q q.queue

-- To drain all leaves nothing in the queue, and answers with every item that has not expired.
pub drain_all-keep :
    (now : ℕ) (q : RequestQueue)
    → let p = drain_all now q in (p.0 ≡ keep (is_live now) q.queue) × (p.1.queue ≡ [])
unfolding drain_all
drain_all-keep now q =
    let k = drain-keep now (some (depth q + 1)) q in
    let p = drain now (some (depth q + 1)) q in
    let l = length-append p.0 (keep (is_live now) p.1.queue) in
    let b = length-keep-le (is_live now) q.queue in
    let done : p.1.queue ≡ [] = elim k.1 [
      | inl full ↦ let no : ⊥ = ground (arith, full, ap length k.0, l, b) in elim no [ ]
      | inr e ↦ e
    ] in
    (sym (k.0 ∙ ap (λ xs. p.0 ++ keep (is_live now) xs) done ∙ append-nil p.0), done)
