-- ===== src/Proxy/RateLimit/Sliding.antt =====
-- The sliding window of the global scope, over a run of requests.
use routerbot.Base.{
  ℕ, ◌+◌, ◌≤◌, ◌<◌, ◌≡◌, ap, some, Bool, true, ◌&&◌, List, [], ◌∷◌, ◌++◌, arith, if◌then◌else◌,
  Bool-cases, inl, inr, length, keep, ltb, leb, append-nil, append_assoc, keep-append, keep-keep,
  keep-length_mono, length-append,
}
use routerbot.Proxy.RateScope.{InMemoryRateLimiter, recent, prune, request_count}
use routerbot.Proxy.RateLimit.{Caller, check_rate_limit, config_for}
use routerbot.Proxy.RateLimit.Scopes.{allowed-check_rate_limit}
use routerbot.Proxy.RateLimit.Admission.{admit, admitted, IsSorted}
use routerbot.Proxy.RateLimit.Window.{global_times, check_rate_limit-global, record_request-global}

-- The time `t` stands in the window that ends at `end`.
abbrev pub in_window : ℕ → ℕ → ℕ → Bool
in_window minute end t = leb t end && ltb end (t + minute)

-- `earlier` are the times let through up to `since`; the limiter has those of them that matter.
record Tracks (limit since : ℕ) (earlier : List ℕ) (l : InMemoryRateLimiter) : Type 0 where
  limited : l.global_config.rpm ≡ some limit
  kept :
      (now : ℕ)
      → since ≤ now
      → keep (recent l.minute now) (global_times l) ≡ keep (recent l.minute now) earlier
  bounded : (end : ℕ) → length (keep (in_window l.minute end) earlier) ≤ limit

-- What is allowed finds less than the limit in the window.
allowed-room :
    (limit now : ℕ) (c : Caller) (l : InMemoryRateLimiter)
    → l.global_config.rpm ≡ some limit
    → (check_rate_limit now c l).0.allowed ≡ true
    → length (keep (recent l.minute now) (global_times l)) < limit
unfolding request_count config_for prune
allowed-room limit now c l h a = ground (arith, allowed-check_rate_limit now c l, h, a)

-- What is recent at a later time was recent before.
recent-later :
    (minute now later t : ℕ)
    → now ≤ later
    → recent minute later t ≡ true
    → recent minute now t ≡ true
recent-later minute now later t o h = ground arith

pruned-Tracks :
    (limit since now : ℕ) (earlier : List ℕ) (l l' : InMemoryRateLimiter)
    → since ≤ now
    → l'.minute ≡ l.minute
    → l'.global_config ≡ l.global_config
    → global_times l' ≡ keep (recent l.minute now) (global_times l)
    → Tracks limit since earlier l
    → Tracks limit now earlier l'
pruned-Tracks limit since now earlier l l' o em ec et h = record {
  limited = cc (ec, h.limited);
  kept = λ later p. ground (
    arith,
    em,
    et,
    keep-keep (recent l.minute now) (recent l.minute later)
        (λ t. recent-later l.minute now later t p) (global_times l),
    h.kept later (omega arith),
  );
  bounded = λ end. ground (arith, em, h.bounded end);
}

-- One more in a window with less than the limit.
extended-bound :
    (limit minute now : ℕ) (earlier : List ℕ)
    → length (keep (recent minute now) earlier) < limit
    → ((end : ℕ) → length (keep (in_window minute end) earlier) ≤ limit)
    → (end : ℕ) → length (keep (in_window minute end) (earlier ++ now ∷ [])) ≤ limit
extended-bound limit minute now earlier r b end = ground (
  arith,
  keep-append (in_window minute end) earlier (now ∷ []),
  length-append (keep (in_window minute end) earlier) (keep (in_window minute end) (now ∷ [])),
  b end,
  λ (o : now ≤ end).
      keep-length_mono (recent minute now) (in_window minute end)
        (λ t h. recent-later minute now end t o (ground arith)) earlier,
)

recorded-Tracks :
    (limit now : ℕ) (earlier : List ℕ) (l l' : InMemoryRateLimiter)
    → l'.minute ≡ l.minute
    → l'.global_config ≡ l.global_config
    → global_times l' ≡ global_times l ++ now ∷ []
    → length (keep (recent l.minute now) earlier) < limit
    → Tracks limit now earlier l
    → Tracks limit now (earlier ++ now ∷ []) l'
recorded-Tracks limit now earlier l l' em ec et r h = record {
  limited = cc (ec, h.limited);
  kept = λ later p. ground (
    arith,
    em,
    et,
    keep-append (recent l.minute later) (global_times l) (now ∷ []),
    keep-append (recent l.minute later) earlier (now ∷ []),
    h.kept later p,
  );
  bounded = λ end. ground (arith, em, extended-bound limit l.minute now earlier r h.bounded end);
}

admit-Tracks :
    (limit since now : ℕ) (c : Caller) (earlier : List ℕ) (l : InMemoryRateLimiter)
    → since ≤ now
    → Tracks limit since earlier l
    → (let p = admit now c l in
        Tracks limit now (if p.0.allowed then earlier ++ now ∷ [] else earlier) p.1)
unfolding admit
admit-Tracks limit since now c earlier l o h =
    let g = check_rate_limit-global now c l in
    let r = record_request-global now c 0 (check_rate_limit now c l).1 in
    let pruned = pruned-Tracks limit since now earlier l _ o g.0 g.1 g.2 h in
    elim (Bool-cases (check_rate_limit now c l).0.allowed) [
      | inl t ↦
          rw (t, t)
            (recorded-Tracks limit now earlier _ _ r.0 r.1 r.2
              (ground (
                arith,
                g.0,
                allowed-room limit now c l h.limited t,
                h.kept now o,
                pruned.kept now (omega arith),
              ))
              pruned)
      | inr n ↦ rw n pruned
    ]

admit-minute :
    (now : ℕ) (c : Caller) (l : InMemoryRateLimiter) → (admit now c l).1.minute ≡ l.minute
unfolding admit
admit-minute now c l = ground (
  arith,
  check_rate_limit-global now c l,
  record_request-global now c 0 (check_rate_limit now c l).1,
)

admitted-Tracks :
    (limit since : ℕ) (earlier : List ℕ) (rs : List (ℕ × Caller)) (l : InMemoryRateLimiter)
    → IsSorted since rs
    → Tracks limit since earlier l
    → (end : ℕ) → length (keep (in_window l.minute end) (earlier ++ admitted rs l)) ≤ limit
unfolding admitted
admitted-Tracks limit since earlier [] l o h end = rw (append-nil earlier) (h.bounded end)
admitted-Tracks limit since earlier ((now, c) ∷ rs) l o h end =
    let tracks = admit-Tracks limit since now c earlier l o.0 h in
    let same = admit-minute now c l in
    elim (Bool-cases (admit now c l).0.allowed) [
      | inl t ↦
          let rest =
            admitted-Tracks limit now (earlier ++ now ∷ []) rs (admit now c l).1 o.1
              (rw t at tracks) end in
          ground
            (arith, same, rest, t, append_assoc earlier (now ∷ []) (admitted rs (admit now c l).1))
      | inr n ↦
          let rest =
            admitted-Tracks limit now earlier rs (admit now c l).1 o.1 (rw n at tracks) end in
          ground (arith, same, rest, n)
    ]

-- A limiter with an empty global window and a global limit of `limit` requests in a minute lets
-- through, of requests that come in the order of their times, at most `limit` in every stretch of
-- one minute, wherever it ends.
pub admitted-bounded :
    (limit : ℕ) (l : InMemoryRateLimiter) (rs : List (ℕ × Caller))
    → l.global_config.rpm ≡ some limit
    → global_times l ≡ []
    → IsSorted 0 rs
    → (end : ℕ) → length (keep (in_window l.minute end) (admitted rs l)) ≤ limit
admitted-bounded limit l rs h e o end =
    admitted-Tracks limit 0 [] rs l o
      record {
        limited = h;
        kept = λ now p. ap (keep (recent l.minute now)) e;
        bounded = λ end. omega arith;
      }
      end
