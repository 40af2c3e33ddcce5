-- ===== src/Router/Dispatch/Examples.antt =====
-- The theorems on retries, fallbacks and dispatch, at a router with one model and one fallback.
use routerbot.Base.{
  ℕ, zero, suc, ◌+◌, ◌<◌, String, ◌≡◌, refl, inl, none, true, [], ◌∷◌, arith, lookup, string_eq,
  if◌then◌else◌, ◌==◌,
}
use routerbot.Errors.{Error, Outcome, returned, raised}
use routerbot.Router.Cooldown.{init, is_in_cooldown, failure_count}
use routerbot.Router.Cooldown.Isolation.{init-IsConsistent}
use routerbot.Router.Deployment.{Deployment, no_latency}
use routerbot.Router.Strategies.{Random, round_robin}
use routerbot.Router.Strategies.Choice.{IsRandom}
use routerbot.Router.Retry.{RetryPolicy, default_status_codes, should_retry, with_retry, delay_for}
use routerbot.Router.Retry.Attempts.{retries, before, with_retry_stops}
use routerbot.Router.Fallback.{execute_with_fallbacks}
use routerbot.Router.Fallback.Chain.{after_models, execute_with_fallbacks_stops}
use routerbot.Router.Dispatch.{World, policy, get_deployments, chat_completion}
use routerbot.Router.Dispatch.Selection.{get_deployments_all_or_none}
use routerbot.Router.Dispatch.Attempt.{IsServed}
use routerbot.Router.Dispatch.Cooling.{chat_completion_failing}

-- A world that counts calls; the third call succeeds.
abbrev third_time : ℕ → Outcome ℕ × ℕ
third_time zero = (raised Error.rate_limit, 1)
third_time (suc zero) = (raised Error.rate_limit, 2)
third_time (suc (suc n)) = (returned n, suc n + 2)

abbrev no_wait : ℕ → ℕ → ℕ
no_wait d s = s

abbrev patient : RetryPolicy
patient = record {
  max_retries = 3;
  base_delay = 500;
  max_delay = 60000;
  exponential_base = 2;
  jitter = true;
  retryable_status_codes = default_status_codes;
}

abbrev exact : ℕ → ℕ
exact d = d

first_two :
    (i : ℕ)
    → i < 2
    → retries patient (third_time (before exact no_wait patient third_time i 0 0)).0 ≡ true
unfolding before should_retry
first_two zero h = refl
first_two (suc zero) h = refl
first_two (suc (suc i)) h = absurd (omega arith)

with_retry_stops_example : with_retry exact no_wait patient third_time 0 ≡ (returned 0, 3)
unfolding before
with_retry_stops_example =
    with_retry_stops exact no_wait patient third_time 2 0 (omega arith) first_two (inl refl)

third_time-counts : (s : ℕ) → (third_time s).1 ≡ s + 1
third_time-counts zero = refl
third_time-counts (suc zero) = refl
third_time-counts (suc (suc n)) = omega arith

-- Only the model "b" answers.
abbrev answers : String → ℕ → Outcome ℕ × ℕ
answers m s = if m == "b" then (returned s, s + 1) else (raised Error.service_unavailable, s + 1)

execute_with_fallbacks_stops_example :
    execute_with_fallbacks answers "a" ("b" ∷ "c" ∷ []) 0 ≡ (returned 1, 2)
unfolding after_models
execute_with_fallbacks_stops_example =
    execute_with_fallbacks_stops answers "a" ("b" ∷ "c" ∷ []) ("a" ∷ []) ("c" ∷ []) "b" 0 refl
      (refl, tt) (inl refl)

abbrev gpt : Deployment
gpt = record {
  ref = 0;
  name = "gpt";
  provider_name = "openai";
  provider_model = "openai/gpt";
  api_key = none;
  api_base = none;
  extra_headers = [];
  weight = 1;
  active_requests = 0;
  avg_latency_ms = no_latency;
  cost_per_token = none;
}

abbrev claude : Deployment
claude = record gpt { ref = 1; name = "claude"; provider_name = "anthropic" }

-- The router's defaults, in milliseconds: three retries, three failures, a minute of cooldown.
abbrev start : World ℕ
start = record {
  router = record {
    strategy = round_robin 0;
    max_retries = 3;
    retry_delay = 500;
    fallbacks = ("gpt", "claude" ∷ []) ∷ [];
    cooldown = init 3 60000;
    deployments = ("gpt", gpt ∷ []) ∷ ("claude", claude ∷ []) ∷ [];
    provider_cache = [];
  };
  now = 0;
  second = 1000;
}

abbrev build : Deployment → Outcome ℕ
build d = returned d.ref

abbrev rng : World ℕ → Random
rng w = record { choice = λ n. 0; choices = λ ws. 0 }

rng-IsRandom : (w : World ℕ) → IsRandom (rng w)
rng-IsRandom w = record { choice_range = λ n h. h; choices_range = λ ws h. h }

abbrev sleep : ℕ → World ℕ → World ℕ
sleep d w = record w { now = w.now + d }

-- The provider of "gpt" is down, and that of "claude" answers.
abbrev call : String → ℕ → World ℕ → Outcome ℕ × World ℕ
call m q w = if m == "gpt" then (raised (Error.provider 503), w) else (returned q, w)

start-IsServed : IsServed "gpt" start
unfolding lookup
start-IsServed = record { first = gpt; others = []; found = refl; named = (refl, tt) }

fresh_count : failure_count "gpt" (init 3 60000) ≡ 0
unfolding failure_count lookup init
fresh_count = refl

fresh_limits : ((init 3 60000).allowed_fails ≡ 3) × ((init 3 60000).cooldown_seconds ≡ 60000)
unfolding init
fresh_limits = (refl, refl)

short_delays : (k : ℕ) → k < 3 → delay_for exact (policy start) k < 60000
unfolding delay_for
short_delays zero h = omega arith
short_delays (suc zero) h = omega arith
short_delays (suc (suc zero)) h = omega arith
short_delays (suc (suc (suc k))) h = absurd (omega arith)

-- With the defaults the fallback is never tried.
chat_completion_failing_example :
    (chat_completion build rng exact sleep "gpt" call start).0
    ≡ raised (Error.model_not_found "gpt")
unfolding should_retry
chat_completion_failing_example =
    chat_completion_failing build rng exact sleep call (Error.provider 503) "gpt" start
      (λ d. (d.ref, refl)) rng-IsRandom (λ d v. refl) (λ q v. refl) refl start-IsServed
      (init-IsConsistent 3 60000) (omega (arith, fresh_count, fresh_limits.0))
      (omega (arith, fresh_count, fresh_limits.0)) λ k h. rw fresh_limits.1 (short_delays k h)

abbrev cooling : World ℕ
cooling = record start {
  router = record (start.router) {
    cooldown = record {
      allowed_fails = 3;
      cooldown_seconds = 60000;
      failures = ("gpt", 3) ∷ [];
      cooldown_until = ("gpt", 60000) ∷ [];
    };
  };
}

cooling-IsServed : IsServed "gpt" cooling
unfolding lookup
cooling-IsServed = record { first = gpt; others = []; found = refl; named = (refl, tt) }

get_deployments_all_or_none_example :
    (get_deployments "gpt" cooling).0
    ≡ (if (is_in_cooldown 0 "gpt" cooling.router.cooldown).0 then [] else gpt ∷ [])
unfolding lookup
get_deployments_all_or_none_example =
    get_deployments_all_or_none cooling "gpt" (gpt ∷ []) refl (refl, tt)
