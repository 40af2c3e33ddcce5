-- ===== src/Proxy/RateLimit.antt =====
-- `InMemoryRateLimiter` of src/routerbot/proxy/middleware/rate_limit.py: the checks of all scopes in
-- order, and the records.
pub mod Admission
pub mod Window
pub mod Scopes
pub mod Sliding
mod Examples
use routerbot.Base.{
  ℕ, String, Option, none, some, Bool, true, false, Dict, lookup, insert, string_eq, if◌then◌else◌,
  get_or, ◌==◌, [],
}
use routerbot.Proxy.RateScope.{
  RateLimitScope, global, key, user, team, model, RateLimitConfig, unlimited, RateLimitResult,
  nothing_yet, WindowEntry, window_record_request, record_tokens, window_key_eq,
  InMemoryRateLimiter, window_at, check_scope, merge_tightest,
}

-- How far check_rate_limit has come: it has returned a denial, or holds the tightest limits so far.
pub data Progress : Type 0 where
  denied : RateLimitResult → Progress
  so_far : RateLimitResult → Progress

abbrev pub outcome : Progress → RateLimitResult
outcome (denied r) = r
outcome (so_far r) = r

abbrev pub continue :
    RateLimitResult → RateLimitResult × InMemoryRateLimiter → Progress × InMemoryRateLimiter
continue tightest (r, l) = ((if r.allowed then so_far (merge_tightest tightest r) else denied r), l)

abbrev pub next :
    RateLimitScope
    → String
    → RateLimitConfig
    → ℕ
    → Progress × InMemoryRateLimiter
    → Progress × InMemoryRateLimiter
next s identifier c now (denied r, l) = (denied r, l)
next s identifier c now (so_far r, l) = continue r (check_scope s identifier c now l)

-- `if model:` passes over None and the empty text.
abbrev pub given : Option String → Option String
given none = none
given (some name) = if name == "" then none else some name

unfoldable pub config_for : RateLimitScope → String → InMemoryRateLimiter → RateLimitConfig
config_for global identifier l = l.global_config
config_for key identifier l = get_or (lookup identifier l.key_configs) l.default_key_config
config_for user identifier l = get_or (lookup identifier l.user_configs) unlimited
config_for team identifier l = get_or (lookup identifier l.team_configs) unlimited
config_for model identifier l = get_or (lookup identifier l.model_configs) unlimited

abbrev pub next_given :
    RateLimitScope
    → Option String
    → ℕ
    → Progress × InMemoryRateLimiter
    → Progress × InMemoryRateLimiter
next_given s none now p = p
next_given s (some identifier) now p = next s identifier (config_for s identifier p.1) now p

-- Who makes a request, and of what.
pub record Caller : Type 0 where
  pub key_id : Option String
  pub user_id : Option String
  pub team_id : Option String
  pub model_name : Option String

unfoldable pub check_rate_limit :
    ℕ → Caller → InMemoryRateLimiter → RateLimitResult × InMemoryRateLimiter
check_rate_limit now c l =
    let p = next global "global" (config_for global "global" l) now (so_far nothing_yet, l) in
    let p = next_given model (given c.model_name) now p in
    let p = next_given team (given c.team_id) now p in
    let p = next_given key (given c.key_id) now p in
    let p = next_given user (given c.user_id) now p in (outcome p.0, p.1)

unfoldable pub record_scope :
    RateLimitScope → String → ℕ → ℕ → InMemoryRateLimiter → InMemoryRateLimiter
unfolding window_at window_record_request record_tokens
record_scope s identifier now tokens l =
    let e = window_record_request now (window_at (s, identifier) l) in
    record l { windows = insert (s, identifier) (record_tokens now tokens e) l.windows }

abbrev pub record_given :
    RateLimitScope → Option String → ℕ → ℕ → InMemoryRateLimiter → InMemoryRateLimiter
record_given s none now tokens l = l
record_given s (some identifier) now tokens l = record_scope s identifier now tokens l

unfoldable pub record_request : ℕ → Caller → ℕ → InMemoryRateLimiter → InMemoryRateLimiter
record_request now c tokens l =
    let l = record_scope global "global" now tokens l in
    let l = record_given model (given c.model_name) now tokens l in
    let l = record_given team (given c.team_id) now tokens l in
    let l = record_given key (given c.key_id) now tokens l in
    record_given user (given c.user_id) now tokens l

unfoldable pub set_key_config : String → RateLimitConfig → InMemoryRateLimiter → InMemoryRateLimiter
set_key_config id c l = record l { key_configs = insert id c l.key_configs }

unfoldable pub set_user_config :
    String → RateLimitConfig → InMemoryRateLimiter → InMemoryRateLimiter
set_user_config id c l = record l { user_configs = insert id c l.user_configs }

unfoldable pub set_team_config :
    String → RateLimitConfig → InMemoryRateLimiter → InMemoryRateLimiter
set_team_config id c l = record l { team_configs = insert id c l.team_configs }

unfoldable pub set_model_config :
    String → RateLimitConfig → InMemoryRateLimiter → InMemoryRateLimiter
set_model_config id c l = record l { model_configs = insert id c l.model_configs }

unfoldable pub reset : InMemoryRateLimiter → InMemoryRateLimiter
reset l = record l { windows = [] }
