-- ===== src/Proxy/RateLimit/Examples.antt =====
-- The theorems on rate limits, at two requests in sixty ticks.
use routerbot.Base.{
  ℕ, ◌≤◌, ◌≡◌, refl, none, some, ◌&&◌, List, [], ◌∷◌, arith, length, keep, lookup, string_eq,
  insert,
}
use routerbot.Proxy.RateScope.{
  global, model, team, key, user, unlimited, InMemoryRateLimiter, window_at, window_key_eq, prune,
  check_scope, merge_tightest, window_record_request, record_tokens,
}
use routerbot.Proxy.RateLimit.{
  Caller, check_rate_limit, given, record_request, record_scope, config_for,
}
use routerbot.Proxy.RateLimit.Scopes.{has_room, has_room_given, allowed-check_rate_limit}
use routerbot.Proxy.RateLimit.Admission.{admitted, admit}
use routerbot.Proxy.RateLimit.Sliding.{in_window, admitted-bounded}

abbrev two_a_minute : InMemoryRateLimiter
two_a_minute = record {
  minute = 60;
  global_config = record unlimited { rpm = some 2 };
  default_key_config = record unlimited { rpm = some 1 };
  key_configs = [];
  user_configs = [];
  team_configs = [];
  model_configs = [];
  windows = [];
}

abbrev alice : Caller
alice = record { key_id = some "alice"; user_id = none; team_id = none; model_name = none }

abbrev bob : Caller
bob = record { key_id = some "bob"; user_id = none; team_id = none; model_name = none }

abbrev carol : Caller
carol = record { key_id = some "carol"; user_id = none; team_id = none; model_name = none }

abbrev requests : List (ℕ × Caller)
requests = (1, alice) ∷ (2, alice) ∷ (3, bob) ∷ (4, carol) ∷ (61, carol) ∷ []

-- The second of alice is over her own limit, the first of carol over the global one.
admitted-requests : admitted requests two_a_minute ≡ 1 ∷ 3 ∷ 61 ∷ []
unfolding admitted admit check_rate_limit record_request record_scope config_for window_at
    check_scope prune merge_tightest window_record_request record_tokens lookup insert
admitted-requests = refl

admitted-bounded_example : length (keep (in_window 60 61) (admitted requests two_a_minute)) ≤ 2
unfolding window_at lookup
admitted-bounded_example =
    admitted-bounded 2 two_a_minute requests refl refl
      (omega arith, (omega arith, (omega arith, (omega arith, (omega arith, tt))))) 61

allowed-check_rate_limit_example : (check_rate_limit 1 alice two_a_minute).0.allowed ≡ (
    has_room global "global" 1 two_a_minute
    && has_room_given model (given alice.model_name) 1 two_a_minute
    && has_room_given team (given alice.team_id) 1 two_a_minute
    && has_room_given key (given alice.key_id) 1 two_a_minute
    && has_room_given user (given alice.user_id) 1 two_a_minute)
allowed-check_rate_limit_example = allowed-check_rate_limit 1 alice two_a_minute
