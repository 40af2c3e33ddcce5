-- ===== src/Router/Strategies/Examples.antt =====
-- The theorems on strategies at two deployments.
use routerbot.Base.{◌≡◌, refl, none, some, [], ◌∷◌}
use routerbot.Router.Deployment.{Deployment, no_latency}
use routerbot.Router.Strategies.{Random, latency_based, select, min_by}
use routerbot.Router.Strategies.Choice.{IsRandom}

abbrev draws : Random
draws = record { choice = λ n. 0; choices = λ ws. 0 }

draws-IsRandom : IsRandom draws
draws-IsRandom = record { choice_range = λ n h. h; choices_range = λ ws h. h }

abbrev idle : Deployment
idle = record {
  ref = 0;
  name = "gpt";
  provider_name = "openai";
  provider_model = "openai/gpt";
  api_key = none;
  api_base = none;
  extra_headers = [];
  weight = 1;
  active_requests = 0;
  avg_latency_ms = no_latency;
  cost_per_token = none;
}

abbrev busy : Deployment
busy = record idle {
  ref = 1;
  active_requests = 4;
  avg_latency_ms = record { num = 80; exp = 0 };
  cost_per_token = some 3;
}

-- The untested deployment comes second, though the comment in the code gives it priority.
untested_waits : (select latency_based draws (idle ∷ busy ∷ [])).0 ≡ some busy
unfolding select min_by
untested_waits = refl
