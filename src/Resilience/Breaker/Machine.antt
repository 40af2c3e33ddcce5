-- ===== src/Resilience/Breaker/Machine.antt =====
-- The state machine: its invariant, and the transitions that it makes.
use routerbot.Base.{
  ℕ, ◌+◌, ◌≤◌, ◌<◌, ◌≡◌, ◌≢◌, refl, ◌⊎◌, Option, none, some, Bool, true, false, arith,
}
use routerbot.Resilience.Breaker.{
  CircuitState, closed, open_, half_open, CircuitBreakerConfig, CircuitBreaker, init, Event, allow,
  success, failure, look, force_close, step, elapsed,
}

-- The bounds that the configuration model declares.
pub record IsConfig (c : CircuitBreakerConfig) : Type 0 where
  pub failures : 1 ≤ c.failure_threshold
  pub timeout : 1 ≤ c.recovery_timeout
  pub calls : 1 ≤ c.half_open_max_calls
  pub successes : 1 ≤ c.success_threshold

abbrev pub is_some {ℓ} : {A : Type ℓ} → Option A → Bool
is_some none = false
is_some (some a) = true

-- What each state promises of the counters and times.
pub record IsValid (b : CircuitBreaker) : Type 0 where
  pub config : IsConfig b.config
  pub closed_low : b.state ≡ closed → b.failure_count < b.config.failure_threshold
  pub closed_time : b.state ≡ closed → b.opened_at ≡ none
  pub open_time : b.state ≡ open_ → is_some b.opened_at ≡ true
  pub half_open_low : b.state ≡ half_open → b.success_count < b.config.success_threshold
  pub half_open_time : b.state ≡ half_open → is_some b.half_opened_at ≡ true
  pub idle_successes : b.state ≢ half_open → b.success_count ≡ 0
  pub idle_calls : b.state ≢ half_open → b.half_open_calls ≡ 0
  pub calls : b.half_open_calls ≤ b.config.half_open_max_calls

pub init-IsValid : (c : CircuitBreakerConfig) → IsConfig c → IsValid (init c)
unfolding init
init-IsValid c v = record {
  config = v;
  closed_low = λ e. v.failures;
  closed_time = λ e. refl;
  open_time = λ e. cc;
  half_open_low = λ e. cc;
  half_open_time = λ e. cc;
  idle_successes = λ e. refl;
  idle_calls = λ e. refl;
  calls = omega arith;
}

abbrev pub IsFailure : Event → Type 0
IsFailure (failure exc) = Unit
IsFailure _ = ⊥

-- The transitions of the diagram, each with its trigger; a reset closes from any state.
abbrev pub Transition : ℕ → CircuitBreaker → Event → CircuitState → Type 0
Transition now b e s =
    (s ≡ b.state)
    ⊎ ((b.state ≡ closed)
        × (s ≡ open_)
        × IsFailure e
        × (b.config.failure_threshold ≤ b.failure_count + 1))
    ⊎ ((b.state ≡ open_)
        × (s ≡ half_open)
        × ((e ≡ allow) ⊎ (e ≡ look))
        × (elapsed now b.config.recovery_timeout b.opened_at ≡ true))
    ⊎ ((b.state ≡ half_open)
        × (s ≡ closed)
        × (e ≡ success)
        × (b.config.success_threshold ≤ b.success_count + 1))
    ⊎ ((b.state ≡ half_open) × (s ≡ open_) × IsFailure e)
    ⊎ ((s ≡ closed) × (e ≡ force_close))

-- Every event leaves the state as it is or makes one of five transitions: from closed to open by a
-- failure that reaches the threshold, from open to half open on a look or a request after the
-- recovery timeout, from half open to closed by a success that reaches its threshold, from half
-- open to open by a failure, and to closed by a reset.
pub step-Transition :
    (b : CircuitBreaker) (now : ℕ) (e : Event) → Transition now b e (step b (now, e)).state
unfolding step
step-Transition b now allow = ground arith
step-Transition b now success = ground arith
step-Transition b now (failure exc) = ground arith
step-Transition b now look = ground arith
step-Transition b now force_close = ground arith

-- Every event takes a valid breaker to a valid one: closed, its failures are below the threshold
-- and it has no time of opening; open or half open, it has the time at which it became so; half
-- open, its successes are below theirs; elsewhere successes and probe calls are at zero; and the
-- probe calls never exceed their number.
pub step-IsValid :
    (b : CircuitBreaker) (now : ℕ) (e : Event) → IsValid b → IsValid (step b (now, e))
unfolding step
step-IsValid b now allow v = ground arith
step-IsValid b now success v = ground arith
step-IsValid b now (failure exc) v = ground arith
step-IsValid b now look v = ground arith
step-IsValid b now force_close v = ground arith
