-- ===== src/Resilience/Breaker/Examples.antt =====
-- The theorems on circuit breakers, with three failures to open and one probe call.
use routerbot.Base.{ltb, ◌≡◌, refl, none, some, [], ◌∷◌, arith}
use routerbot.Resilience.Breaker.{
  closed, open_, half_open, CircuitBreakerConfig, CircuitBreaker, init, allow, failure, step,
  allow_request,
}
use routerbot.Resilience.Breaker.Machine.{
  IsConfig, IsValid, init-IsValid, Transition, step-Transition, step-IsValid,
}
use routerbot.Resilience.Breaker.Probes.{probes, probes_never_close}

abbrev config : CircuitBreakerConfig
config = record {
  failure_threshold = 3;
  recovery_timeout = 30;
  half_open_max_calls = 1;
  success_threshold = 2;
  excluded_exceptions = "BadRequestError" ∷ [];
}

config-IsConfig : IsConfig config
config-IsConfig = omega arith

abbrev healthy : CircuitBreaker
healthy = record {
  config = config;
  state = closed;
  failure_count = 0;
  success_count = 0;
  half_open_calls = 0;
  last_failure_time = none;
  last_success_time = none;
  opened_at = none;
  half_opened_at = none;
}

healthy-IsValid : IsValid healthy
healthy-IsValid = unfold init in init-IsValid config config-IsConfig

abbrev broken : CircuitBreaker
broken = record healthy { state = open_; failure_count = 3; opened_at = some 100 }

abbrev probing : CircuitBreaker
probing = record broken { state = half_open; half_opened_at = some 130 }

step-Transition_example : Transition 140 broken allow (step broken (140, allow)).state
step-Transition_example = step-Transition broken 140 allow

step-IsValid_example : IsValid (step healthy (5, failure none))
step-IsValid_example = step-IsValid healthy 5 (failure none) healthy-IsValid

-- One probe succeeds, two successes are needed, and nothing is let through from then on.
probes_never_close_example :
    ((probes (131 ∷ []) probing).state ≡ half_open)
    × ((allow_request 9999 (probes (131 ∷ []) probing)).0 ≡ ltb 1 1)
probes_never_close_example =
    probes_never_close (131 ∷ []) probing 9999 refl (omega arith) (omega arith) (omega arith)
