-- ===== src/Router/Health/Examples.antt =====
-- The theorem on health checks, at two deployments of one model and one of another.
use routerbot.Base.{
  ℕ, ◌+◌, String, ◌≡◌, refl, none, true, false, ◌&&◌, List, [], ◌∷◌, ◌++◌, ltb, leb, string_eq,
  ◌==◌, eq_iff,
}
use routerbot.Errors.{Error, returned, raised}
use routerbot.Router.Cooldown.{init, is_in_cooldown, failure_count}
use routerbot.Router.Cooldown.Isolation.{init-IsConsistent}
use routerbot.Router.Deployment.{Deployment, no_latency}
use routerbot.Router.Health.{HealthChecker, is_running, start, stop, is_cancelled, End, reports}
use routerbot.Router.Health.Reports.{streak, is_in_cooldown-reports}

abbrev deployment : ℕ → String → Deployment
deployment n name = record {
  ref = n;
  name = name;
  provider_name = "openai";
  provider_model = "openai/gpt-4o";
  api_key = none;
  api_base = none;
  extra_headers = [];
  weight = 1;
  active_requests = 0;
  avg_latency_ms = no_latency;
  cost_per_token = none;
}

abbrev gpt : String
gpt = "gpt"

abbrev claude : String
claude = "claude"

abbrev failed : List (End ℕ)
failed = (deployment 0 "gpt", 3, raised Error.timeout) ∷ []

abbrev other : List (End ℕ)
other = (deployment 2 "claude", 6, raised Error.rate_limit) ∷ []

is_in_cooldown-reports_example :
    ((a : ℕ)
      → (is_in_cooldown 9 "gpt"
          (reports (failed ++ (deployment 1 "gpt", 5, returned a) ∷ other) (init 2 60))).0
        ≡ false)
    × ((e : Error)
        → is_cancelled e ≡ false
        → (is_in_cooldown 9 "gpt"
            (reports (failed ++ (deployment 1 "gpt", 5, raised e) ∷ other) (init 2 60))).0
          ≡ leb 2 (streak "gpt" failed (failure_count "gpt" (init 2 60)) + 1) && ltb 9 (5 + 60))
unfolding init
is_in_cooldown-reports_example =
    is_in_cooldown-reports (deployment 1 "gpt") 5 9 failed other (init 2 60)
      (init-IsConsistent 2 60)
      ((λ e. let z : (claude == gpt) ≡ true = (eq_iff claude gpt).1 e in cc), tt)

-- Two deployments that fail once each count as two failures in a row.
both_failed : streak "gpt" failed 0 + 1 ≡ 2
both_failed = refl

abbrev checker : HealthChecker
checker = record { interval = 300; timeout = 10; task = none }

restarted : is_running (start (stop (start checker))) ≡ true
unfolding start stop
restarted = refl
