-- ===== src/Router/Cooldown.antt =====
-- src/routerbot/router/cooldown.py. Each method holds the lock throughout, so it is one step.
-- Readings of `time.monotonic()` are arguments `now`, natural numbers of one unit (a tick of the
-- clock); both dictionaries keep Python's insertion order.
pub mod Episodes
pub mod Isolation
mod Examples
use routerbot.Base.{
  ℕ, ◌+◌, String, Option, none, some, Bool, true, false, List, [], ◌∷◌, map, Dict, lookup, insert,
  remove, string_eq, ltb, leb, if◌then◌else◌, get_or, keep,
}

pub record CooldownManager : Type 0 where
  pub allowed_fails : ℕ
  pub cooldown_seconds : ℕ
  pub failures : Dict String ℕ
  pub cooldown_until : Dict String ℕ

-- CooldownManager.__init__
unfoldable pub init : ℕ → ℕ → CooldownManager
init allowed_fails cooldown_seconds = record {
  allowed_fails = allowed_fails;
  cooldown_seconds = cooldown_seconds;
  failures = [];
  cooldown_until = [];
}

unfoldable pub record_success : String → CooldownManager → CooldownManager
record_success id m = record m {
  failures = remove id m.failures;
  cooldown_until = remove id m.cooldown_until;
}

unfoldable pub failure_count : String → CooldownManager → ℕ
failure_count id m = get_or (lookup id m.failures) 0

unfoldable pub record_failure : ℕ → String → CooldownManager → CooldownManager
record_failure now id m =
    let count = get_or (lookup id m.failures) 0 + 1 in
    if leb m.allowed_fails count
    then record m {
      failures = insert id count m.failures;
      cooldown_until = insert id (now + m.cooldown_seconds) m.cooldown_until;
    }
    else record m { failures = insert id count m.failures }

-- The answer, and the manager with an expired cooldown cleared.
unfoldable pub is_in_cooldown : ℕ → String → CooldownManager → Bool × CooldownManager
is_in_cooldown now id m = elim (lookup id m.cooldown_until) [
  | none ↦ (false, m)
  | some until ↦ if ltb now until then (true, m) else (
    false,
    record m { failures = remove id m.failures; cooldown_until = remove id m.cooldown_until },
  )
]

unfoldable pub reset : String → CooldownManager → CooldownManager
reset id m = record m {
  failures = remove id m.failures;
  cooldown_until = remove id m.cooldown_until;
}

unfoldable pub all_in_cooldown : ℕ → CooldownManager → List String
all_in_cooldown now m = map (λ p. p.0) (keep (λ p. ltb now p.1) m.cooldown_until)

-- The calls that the router and the health checker make.
pub data Call : Type 0 where
  success : String → Call
  failure : ℕ → String → Call
  query : ℕ → String → Call
  clear : String → Call

abbrev pub target : Call → String
target (success id) = id
target (failure now id) = id
target (query now id) = id
target (clear id) = id

unfoldable pub apply : CooldownManager → Call → CooldownManager
unfolding record_success record_failure is_in_cooldown reset
apply m (success id) = record_success id m
apply m (failure now id) = record_failure now id m
apply m (query now id) = (is_in_cooldown now id m).1
apply m (clear id) = reset id m
