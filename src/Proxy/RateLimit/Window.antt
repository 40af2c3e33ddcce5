-- ===== src/Proxy/RateLimit/Window.antt =====
-- What checks and records do to the window of the global scope.
use routerbot.Base.{
  ℕ, String, ◌≡◌, refl, ap, ◌∙◌, Option, none, some, false, List, [], ◌∷◌, ◌++◌, arith,
  lookup-insert, keep,
}
use routerbot.Proxy.RateScope.{
  RateLimitScope, global, key, user, team, model, WindowEntry, window_key_eq, InMemoryRateLimiter,
  window_at, check_scope, recent, prune, scope_beq, nothing_yet, window_record_request,
  record_tokens,
}
use routerbot.Proxy.RateLimit.{
  Progress, denied, so_far, next, next_given, given, config_for, Caller, check_rate_limit,
  record_scope, record_given, record_request,
}
use routerbot.Proxy.RateLimit.Scopes.{check_scope-Frame}

abbrev pub global_times : InMemoryRateLimiter → List ℕ
global_times l = (window_at (global, "global") l).timestamps

-- The minute and the global scope are as they were.
record Same (l l' : InMemoryRateLimiter) : Type 0 where
  minute : l'.minute ≡ l.minute
  config : l'.global_config ≡ l.global_config
  times : global_times l' ≡ global_times l

Same-refl : (l : InMemoryRateLimiter) → Same l l
Same-refl l = record { minute = refl; config = refl; times = refl }

Same-trans : {l₀ l₁ l₂ : InMemoryRateLimiter} → Same l₀ l₁ → Same l₁ l₂ → Same l₀ l₂
Same-trans s t = record {
  minute = t.minute ∙ s.minute;
  config = t.config ∙ s.config;
  times = t.times ∙ s.times;
}

next_given-Same :
    (s : RateLimitScope) (o : Option String) (now : ℕ) (p : Progress × InMemoryRateLimiter)
    → scope_beq s global ≡ false
    → Same p.1 (next_given s o now p).1
next_given-Same s none now p h = Same-refl p.1
next_given-Same s (some i) now (denied r, l) h = Same-refl l
next_given-Same s (some i) now (so_far r, l) h =
    let f = check_scope-Frame s i (config_for s i l) now l in
    record {
      minute = f.same_minute;
      config = unfold check_scope in refl;
      times = ap (λ (e : WindowEntry). e.timestamps) (f.same_window global "global" h);
    }

record_given-Same :
    (s : RateLimitScope) (o : Option String) (now tokens : ℕ) (l : InMemoryRateLimiter)
    → scope_beq s global ≡ false
    → Same l (record_given s o now tokens l)
unfolding record_scope window_at
record_given-Same s none now tokens l h = Same-refl l
record_given-Same s (some i) now tokens l h = record {
  minute = refl;
  config = refl;
  times = ground (
    arith,
    lookup-insert (s, i) (global, "global")
        (record_tokens now tokens (window_record_request now (window_at (s, i) l))) l.windows,
  );
}

-- The first of the checks prunes the global window, and keeps what is recent.
first_check :
    (now : ℕ) (l : InMemoryRateLimiter)
    → let l' = (check_scope global "global" (config_for global "global" l) now l).1 in
      (l'.minute ≡ l.minute)
      × (l'.global_config ≡ l.global_config)
      × (global_times l' ≡ keep (recent l.minute now) (global_times l))
unfolding check_scope window_at
first_check now l = (
  refl,
  refl,
  unfold prune in
      ground (
        arith,
        lookup-insert (global, "global") (global, "global")
            (prune l.minute now (window_at (global, "global") l)) l.windows,
      ),
)

-- What a check leaves of the global scope: its window, pruned.
pub check_rate_limit-global :
    (now : ℕ) (c : Caller) (l : InMemoryRateLimiter)
    → let l' = (check_rate_limit now c l).1 in
      (l'.minute ≡ l.minute)
      × (l'.global_config ≡ l.global_config)
      × (global_times l' ≡ keep (recent l.minute now) (global_times l))
unfolding check_rate_limit
check_rate_limit-global now c l =
    let p₀ = next global "global" (config_for global "global" l) now (so_far nothing_yet, l) in
    let p₁ = next_given model (given c.model_name) now p₀ in
    let p₂ = next_given team (given c.team_id) now p₁ in
    let p₃ = next_given key (given c.key_id) now p₂ in
    let s = Same-trans (next_given-Same model (given c.model_name) now p₀ refl) (
      Same-trans (next_given-Same team (given c.team_id) now p₁ refl) (
        Same-trans (next_given-Same key (given c.key_id) now p₂ refl)
          (next_given-Same user (given c.user_id) now p₃ refl))) in
    let t = first_check now l in (s.minute ∙ t.0, s.config ∙ t.1, s.times ∙ t.2)

first_record :
    (now tokens : ℕ) (l : InMemoryRateLimiter)
    → let l' = record_scope global "global" now tokens l in
      (l'.minute ≡ l.minute)
      × (l'.global_config ≡ l.global_config)
      × (global_times l' ≡ global_times l ++ now ∷ [])
unfolding record_scope window_at record_tokens window_record_request
first_record now tokens l = (
  refl,
  refl,
  ground (
    arith,
    lookup-insert (global, "global") (global, "global")
        (record_tokens now tokens (window_record_request now (window_at (global, "global") l)))
        l.windows,
  ),
)

-- What a record adds to the global scope: one time.
pub record_request-global :
    (now : ℕ) (c : Caller) (tokens : ℕ) (l : InMemoryRateLimiter)
    → let l' = record_request now c tokens l in
      (l'.minute ≡ l.minute)
      × (l'.global_config ≡ l.global_config)
      × (global_times l' ≡ global_times l ++ now ∷ [])
unfolding record_request
record_request-global now c tokens l =
    let l₀ = record_scope global "global" now tokens l in
    let l₁ = record_given model (given c.model_name) now tokens l₀ in
    let l₂ = record_given team (given c.team_id) now tokens l₁ in
    let l₃ = record_given key (given c.key_id) now tokens l₂ in
    let s = Same-trans (record_given-Same model (given c.model_name) now tokens l₀ refl) (
      Same-trans (record_given-Same team (given c.team_id) now tokens l₁ refl) (
        Same-trans (record_given-Same key (given c.key_id) now tokens l₂ refl)
          (record_given-Same user (given c.user_id) now tokens l₃ refl))) in
    let t = first_record now tokens l in (s.minute ∙ t.0, s.config ∙ t.1, s.times ∙ t.2)
