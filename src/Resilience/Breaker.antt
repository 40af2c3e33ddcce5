-- ===== src/Resilience/Breaker.antt =====
-- src/routerbot/core/resilience/circuit_breaker.py, and its part of models.py. Each method holds the
-- lock throughout, so it is one step; `now` is the reading of time.monotonic(), a natural number.
pub mod Machine
pub mod Probes
pub mod Trip
mod Examples
use routerbot.Base.{
  ℕ, ◌+◌, String, Option, none, some, Bool, true, false, List, [], ◌∷◌, ltb, leb, if◌then◌else◌,
  any, ◌==◌, string_eq,
}

pub data CircuitState : Type 0 where
  closed open_ half_open : CircuitState

pub record CircuitBreakerConfig : Type 0 where
  pub failure_threshold : ℕ
  pub recovery_timeout : ℕ
  pub half_open_max_calls : ℕ
  pub success_threshold : ℕ
  pub excluded_exceptions : List String

pub record CircuitBreaker : Type 0 where
  pub config : CircuitBreakerConfig
  pub state : CircuitState
  pub failure_count : ℕ
  pub success_count : ℕ
  pub half_open_calls : ℕ
  pub last_failure_time : Option ℕ
  pub last_success_time : Option ℕ
  pub opened_at : Option ℕ
  pub half_opened_at : Option ℕ

-- CircuitBreaker.__init__
unfoldable pub init : CircuitBreakerConfig → CircuitBreaker
init config = record {
  config = config;
  state = closed;
  failure_count = 0;
  success_count = 0;
  half_open_calls = 0;
  last_failure_time = none;
  last_success_time = none;
  opened_at = none;
  half_opened_at = none;
}

unfoldable pub transition_to_open : ℕ → CircuitBreaker → CircuitBreaker
transition_to_open now b = record b {
  state = open_;
  opened_at = some now;
  success_count = 0;
  half_open_calls = 0;
}

unfoldable pub transition_to_half_open : ℕ → CircuitBreaker → CircuitBreaker
transition_to_half_open now b = record b {
  state = half_open;
  half_opened_at = some now;
  success_count = 0;
  half_open_calls = 0;
}

unfoldable pub transition_to_closed : CircuitBreaker → CircuitBreaker
transition_to_closed b = record b {
  state = closed;
  failure_count = 0;
  success_count = 0;
  half_open_calls = 0;
  opened_at = none;
  half_opened_at = none;
}

-- time.monotonic() - opened_at >= recovery_timeout
abbrev pub elapsed : ℕ → ℕ → Option ℕ → Bool
elapsed now timeout none = false
elapsed now timeout (some opened) = leb (opened + timeout) now

abbrev refreshed : CircuitState → ℕ → CircuitBreaker → CircuitBreaker
refreshed open_ now b =
    if elapsed now b.config.recovery_timeout b.opened_at then transition_to_half_open now b else b
refreshed closed now b = b
refreshed half_open now b = b

-- The property `state`: its effect. The value that it returns is the state afterwards.
unfoldable pub current : ℕ → CircuitBreaker → CircuitBreaker
unfolding transition_to_half_open
current now b = refreshed b.state now b

abbrev admit : CircuitState → CircuitBreaker → Bool × CircuitBreaker
admit closed b = (true, b)
admit open_ b = (false, b)
admit half_open b =
    if ltb b.half_open_calls b.config.half_open_max_calls
    then (true, record b { half_open_calls = b.half_open_calls + 1 })
    else (false, b)

unfoldable pub allow_request : ℕ → CircuitBreaker → Bool × CircuitBreaker
unfolding current
allow_request now b = let b' = current now b in admit b'.state b'

abbrev succeed : CircuitState → CircuitBreaker → CircuitBreaker
succeed half_open b =
    let b' = record b { success_count = b.success_count + 1 } in
    if leb b.config.success_threshold b'.success_count then transition_to_closed b' else b'
succeed closed b = record b { failure_count = 0 }
succeed open_ b = record b { failure_count = 0 }

unfoldable pub record_success : ℕ → CircuitBreaker → CircuitBreaker
unfolding transition_to_closed
record_success now b = succeed b.state (record b { last_success_time = some now })

abbrev fail : CircuitState → ℕ → CircuitBreaker → CircuitBreaker
fail half_open now b = transition_to_open now b
fail closed now b =
    if leb b.config.failure_threshold b.failure_count then transition_to_open now b else b
fail open_ now b = b

-- if exc and type(exc).__name__ in self.config.excluded_exceptions
abbrev pub excluded : CircuitBreakerConfig → Option String → Bool
excluded c none = false
excluded c (some name) = any (λ x. x == name) c.excluded_exceptions

unfoldable pub record_failure : ℕ → Option String → CircuitBreaker → CircuitBreaker
unfolding transition_to_open
record_failure now exc b =
    if excluded b.config exc
    then b
    else fail b.state now
        (record b { last_failure_time = some now; failure_count = b.failure_count + 1 })

unfoldable pub reset : CircuitBreaker → CircuitBreaker
unfolding transition_to_closed
reset b = transition_to_closed b

-- What happens to a breaker.
pub data Event : Type 0 where
  allow : Event
  success : Event
  failure : Option String → Event
  look : Event
  force_close : Event

unfoldable pub step : CircuitBreaker → ℕ × Event → CircuitBreaker
unfolding allow_request record_success record_failure current reset
step b (now, allow) = (allow_request now b).1
step b (now, success) = record_success now b
step b (now, failure exc) = record_failure now exc b
step b (now, look) = current now b
step b (now, force_close) = reset b

unfoldable pub run : CircuitBreaker → List (ℕ × Event) → CircuitBreaker
run b [] = b
run b (e ∷ es) = run (step b e) es
