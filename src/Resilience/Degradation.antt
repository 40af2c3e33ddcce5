-- ===== src/Resilience/Degradation.antt =====
-- src/routerbot/core/resilience/degradation.py, and its part of models.py: the levels of degraded
-- service and what each allows. A threshold is a share in thousandths, and a ratio is compared with
-- it by products; readings of the clock are arguments.
pub mod Levels
mod Examples
use routerbot.Base.{
  ℕ, zero, suc, ◌*◌, ◌≡◌, ◌↔◌, arith, String, Option, none, some, Bool, true, false, not, ◌||◌,
  List, [], ◌∷◌, if◌then◌else◌, leb, eqb, Dict, Eq, lookup, insert, remove, string_eq, ◌==◌,
  contains,
}

pub data DegradationLevel : Type 0 where
  normal degraded limited emergency : DegradationLevel

-- The order in which service degrades.
abbrev pub rank : DegradationLevel → ℕ
rank normal = 0
rank degraded = 1
rank limited = 2
rank emergency = 3

abbrev pub level_beq : DegradationLevel → DegradationLevel → Bool
level_beq a b = eqb (rank a) (rank b)

pub level_beq_iff : (a b : DegradationLevel) → (level_beq a b ≡ true) ↔ (a ≡ b)
level_beq_iff a b = ground arith

instance abbrev pub level_eq : Eq DegradationLevel
level_eq = record { beq = level_beq; beq_iff = level_beq_iff }

pub record DegradationPolicy : Type 0 where
  pub level : DegradationLevel
  pub reject_new_requests : Bool
  pub queue_requests : Bool
  pub max_tokens_override : Option ℕ
  pub allowed_models : List String
  pub disable_streaming : Bool

-- DegradationPolicy(level=level)
abbrev pub plain_policy : DegradationLevel → DegradationPolicy
plain_policy level = record {
  level = level;
  reject_new_requests = false;
  queue_requests = false;
  max_tokens_override = none;
  allowed_models = [];
  disable_streaming = false;
}

-- The reasons that the manager itself writes count the unhealthy providers.
pub data Reason : Type 0 where
  text : String → Reason
  unhealthy_of : ℕ → ℕ → Reason

pub record DegradationStatus : Type 0 where
  pub provider : String
  pub level : DegradationLevel
  pub reason : Reason
  pub since : ℕ

abbrev pub Policies : Type 0
Policies = Dict DegradationLevel DegradationPolicy

-- _DEFAULT_POLICIES
abbrev pub default_policies : Policies
default_policies =
    (normal, plain_policy normal)
    ∷ (degraded, record (plain_policy degraded) { queue_requests = true })
    ∷ (
      limited,
      record (plain_policy limited) {
        queue_requests = true;
        max_tokens_override = some 1000;
        disable_streaming = true;
      },
    )
    ∷ (emergency, record (plain_policy emergency) { reject_new_requests = true })
    ∷ []

pub record Thresholds : Type 0 where
  pub degraded_t : ℕ
  pub limited_t : ℕ
  pub emergency_t : ℕ

pub record DegradationManager : Type 0 where
  pub policies : Policies
  pub thresholds : Thresholds
  pub global_status : DegradationStatus
  pub provider_status : Dict String DegradationStatus

-- policies or dict(_DEFAULT_POLICIES)
abbrev or_default : Policies → Policies
or_default [] = default_policies
or_default (p ∷ ps) = p ∷ ps

-- DegradationManager.__init__; no policies are the empty dict.
unfoldable pub init : ℕ → Policies → Thresholds → DegradationManager
init now policies thresholds = record {
  policies = or_default policies;
  thresholds = thresholds;
  global_status = record { provider = "global"; level = normal; reason = text ""; since = now };
  provider_status = [];
}

abbrev pub global_level : DegradationManager → DegradationLevel
global_level m = m.global_status.level

unfoldable pub set_global_level :
    ℕ → DegradationLevel → Reason → DegradationManager → DegradationManager
set_global_level now level reason m = if level == global_level m then m else record m {
  global_status = record { provider = "global"; level = level; reason = reason; since = now };
}

abbrev policy_or : DegradationLevel → Option DegradationPolicy → DegradationPolicy
policy_or level none = plain_policy level
policy_or level (some p) = p

-- get_policy of a level that is given; without one it is the global level's.
unfoldable pub get_policy : DegradationLevel → DegradationManager → DegradationPolicy
get_policy level m = policy_or level (lookup level m.policies)

abbrev has_level : DegradationLevel → Option DegradationStatus → Bool
has_level level none = false
has_level level (some s) = s.level == level

unfoldable pub set_provider_level :
    ℕ → String → DegradationLevel → Reason → DegradationManager → DegradationManager
set_provider_level now provider level reason m =
    if has_level level (lookup provider m.provider_status) then m else record m {
      provider_status =
          insert provider
            (record { provider = provider; level = level; reason = reason; since = now })
            m.provider_status;
    }

abbrev level_or_normal : Option DegradationStatus → DegradationLevel
level_or_normal none = normal
level_or_normal (some s) = s.level

unfoldable pub get_provider_level : String → DegradationManager → DegradationLevel
get_provider_level provider m = level_or_normal (lookup provider m.provider_status)

unfoldable pub clear_provider : String → DegradationManager → DegradationManager
clear_provider provider m = record m { provider_status = remove provider m.provider_status }

-- unhealthy_count / total_providers >= threshold
abbrev pub at_least : ℕ → ℕ → ℕ → Bool
at_least threshold total unhealthy = leb (threshold * total) (unhealthy * 1000)

abbrev pub level_of : Thresholds → ℕ → ℕ → DegradationLevel
level_of t total unhealthy =
    if at_least t.emergency_t total unhealthy
    then emergency
    else if at_least t.limited_t total unhealthy
    then limited
    else if at_least t.degraded_t total unhealthy
    then degraded
    else normal

unfoldable pub auto_escalate :
    ℕ → ℕ → ℕ → DegradationManager → DegradationLevel × DegradationManager
unfolding set_global_level
auto_escalate now total_providers unhealthy_count m =
    let level = level_of m.thresholds total_providers unhealthy_count in
    if eqb total_providers 0
    then (normal, m)
    else (level, set_global_level now level (unhealthy_of unhealthy_count total_providers) m)

-- if provider: …
abbrev provider_policy : (DegradationPolicy → Bool) → Option String → DegradationManager → Bool
provider_policy ask none m = false
provider_policy ask (some provider) m =
    if provider == "" then false else ask (get_policy (get_provider_level provider m) m)

unfoldable pub should_reject : Option String → DegradationManager → Bool
unfolding get_policy get_provider_level
should_reject provider m =
    if (get_policy (global_level m) m).reject_new_requests
    then true
    else provider_policy (λ p. p.reject_new_requests) provider m

unfoldable pub should_queue : Option String → DegradationManager → Bool
unfolding get_policy get_provider_level
should_queue provider m =
    if (get_policy (global_level m) m).queue_requests
    then true
    else provider_policy (λ p. p.queue_requests) provider m

unfoldable pub effective_max_tokens : DegradationManager → Option ℕ
unfolding get_policy
effective_max_tokens m = (get_policy (global_level m) m).max_tokens_override

abbrev listed_or_none : String → List String → Bool
listed_or_none model [] = true
listed_or_none model (x ∷ xs) = contains model (x ∷ xs)

unfoldable pub is_model_allowed : String → DegradationManager → Bool
unfolding get_policy
is_model_allowed model m = listed_or_none model (get_policy (global_level m) m).allowed_models

unfoldable pub is_streaming_allowed : DegradationManager → Bool
unfolding get_policy
is_streaming_allowed m = not (get_policy (global_level m) m).disable_streaming
