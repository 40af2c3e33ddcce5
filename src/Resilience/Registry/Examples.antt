-- ===== src/Resilience/Registry/Examples.antt =====
-- The theorem on registries, at failures of one provider among requests for another, which has an
-- override.
use routerbot.Base.{◌≡◌, none, some, List, [], ◌∷◌}
use routerbot.Resilience.Breaker.{CircuitBreakerConfig, allow, failure}
use routerbot.Resilience.Registry.{init}
use routerbot.Resilience.Registry.Refinement.{
  Call, happened, registering, overriding, resetting, apply_all, view, slot_steps, view-apply_all,
}

abbrev config : CircuitBreakerConfig
config = record {
  failure_threshold = 2;
  recovery_timeout = 30;
  half_open_max_calls = 1;
  success_threshold = 1;
  excluded_exceptions = [];
}

abbrev strict : CircuitBreakerConfig
strict = record config { failure_threshold = 1 }

abbrev mixed : List Call
mixed =
    happened "openai" 1 (failure none)
    ∷ overriding "azure" strict
    ∷ happened "azure" 2 allow
    ∷ happened "openai" 3 (failure none)
    ∷ registering "azure" (some config)
    ∷ happened "azure" 4 (failure none)
    ∷ resetting
    ∷ []

view-apply_all_example :
    view "azure" (apply_all (init config) mixed)
    ≡ slot_steps config "azure" (view "azure" (init config)) mixed
unfolding init
view-apply_all_example = view-apply_all "azure" mixed (init config)
