-- ===== src/Resilience/Registry.antt =====
-- `CircuitBreakerRegistry` of src/routerbot/core/resilience/circuit_breaker.py. A breaker that the
-- registry answers with is shared: what is done to it is done in the registry.
pub mod Isolation
pub mod Refinement
mod Examples
use routerbot.Base.{
  ℕ, String, Option, none, some, Bool, true, false, List, [], ◌∷◌, map, keep, Dict, keys, lookup,
  insert, has, string_eq, ◌==◌, get_or, if◌then◌else◌,
}
use routerbot.Resilience.Breaker.{
  CircuitBreaker, CircuitBreakerConfig, CircuitState, closed, open_, half_open, current, reset,
  Event,
}
use routerbot.Resilience.Breaker as Breaker

pub record CircuitBreakerRegistry : Type 0 where
  pub default_config : CircuitBreakerConfig
  pub breakers : Dict String CircuitBreaker
  pub overrides : Dict String CircuitBreakerConfig

unfoldable pub init : CircuitBreakerConfig → CircuitBreakerRegistry
init default_config = record { default_config = default_config; breakers = []; overrides = [] }

-- config or self._overrides.get(name, self._default_config)
abbrev pub config_for :
    String → Option CircuitBreakerConfig → CircuitBreakerRegistry → CircuitBreakerConfig
config_for name config r = get_or config (get_or (lookup name r.overrides) r.default_config)

abbrev pub registered :
    String
    → Option CircuitBreakerConfig
    → Option CircuitBreaker
    → CircuitBreakerRegistry
    → CircuitBreaker × CircuitBreakerRegistry
registered name config (some b) r = (b, r)
registered name config none r =
    let b = Breaker.init (config_for name config r) in
    (b, record r { breakers = insert name b r.breakers })

unfoldable pub register :
    String
    → Option CircuitBreakerConfig
    → CircuitBreakerRegistry
    → CircuitBreaker × CircuitBreakerRegistry
register name config r = registered name config (lookup name r.breakers) r

unfoldable pub get : String → CircuitBreakerRegistry → CircuitBreaker × CircuitBreakerRegistry
unfolding register
get name r = register name none r

unfoldable pub set_override :
    String → CircuitBreakerConfig → CircuitBreakerRegistry → CircuitBreakerRegistry
set_override name config r = record r { overrides = insert name config r.overrides }

abbrev is_open : CircuitState → Bool
is_open closed = false
is_open open_ = true
is_open half_open = false

-- The names of the open breakers. Reading a breaker's `state` brings it up to date.
unfoldable pub all_open : ℕ → CircuitBreakerRegistry → List String × CircuitBreakerRegistry
all_open now r = (
  keys (keep (λ p. is_open (current now p.1).state) r.breakers),
  record r { breakers = map (λ p. (p.0, current now p.1)) r.breakers },
)

unfoldable pub reset_all : CircuitBreakerRegistry → CircuitBreakerRegistry
reset_all r = record r { breakers = map (λ p. (p.0, reset p.1)) r.breakers }

-- An event at a breaker that the registry is asked for.
unfoldable pub step : CircuitBreakerRegistry → String × ℕ × Event → CircuitBreakerRegistry
unfolding get
step r (name, now, event) =
    let (b, r') = get name r in
    record r' { breakers = insert name (Breaker.step b (now, event)) r'.breakers }

unfoldable pub run : CircuitBreakerRegistry → List (String × ℕ × Event) → CircuitBreakerRegistry
unfolding step
run r [] = r
run r (e ∷ es) = run (step r e) es
