-- ===== src/Router/Budget.antt =====
-- src/routerbot/router/budget.py. Money is a whole number of one unit, and `now` is the reading of
-- time.time(), a natural number; `second` is the number of its units in a second. Providers and tags
-- are handled alike: a Ledger is the budgets of one of the two with their states.
pub mod Spending
pub mod Availability
mod Examples
use routerbot.Base.{
  ℕ, ◌+◌, ◌-◌, ◌*◌, String, Option, none, some, Bool, true, false, List, [], ◌∷◌, map, Dict, lookup,
  insert, remove, string_eq, ltb, leb, eqb, if◌then◌else◌, get_or,
}

pub data BudgetPeriod : Type 0 where
  daily weekly monthly unlimited : BudgetPeriod

-- No length is the infinite one.
abbrev pub seconds : BudgetPeriod → Option ℕ
seconds daily = some 86400
seconds weekly = some 604800
seconds monthly = some 2592000
seconds unlimited = none

pub record BudgetConfig : Type 0 where
  pub max_budget : ℕ
  pub budget_period : BudgetPeriod

-- _BudgetState
pub record BudgetState : Type 0 where
  pub current_spend : ℕ
  pub period_start : ℕ

abbrev pub has_passed : ℕ → ℕ → ℕ → Option ℕ → Bool
has_passed second now since none = false
has_passed second now since (some n) = leb (since + n * second) now

unfoldable pub should_reset : ℕ → ℕ → BudgetPeriod → BudgetState → Bool
should_reset second now period s = has_passed second now s.period_start (seconds period)

-- A new state, and what reset makes of any: nothing spent in a period that starts now.
abbrev pub new_state : ℕ → BudgetState
new_state now = record { current_spend = 0; period_start = now }

unfoldable pub refresh : ℕ → ℕ → BudgetPeriod → BudgetState → BudgetState
refresh second now period s = if should_reset second now period s then new_state now else s

pub record BudgetCheckResult : Type 0 where
  pub allowed : Bool
  pub provider : String
  pub current_spend : ℕ
  pub max_budget : ℕ
  pub remaining : ℕ
  pub exceeded_by : ℕ

pub record Ledger : Type 0 where
  pub budgets : Dict String BudgetConfig
  pub states : Dict String BudgetState

-- The state that _get_provider_state answers with, or _get_tag_state.
abbrev pub state_of : ℕ → String → Ledger → BudgetState
state_of now name l = get_or (lookup name l.states) (new_state now)

abbrev pub charge_budget : ℕ → ℕ → String → ℕ → Option BudgetConfig → Ledger → Ledger
charge_budget second now name cost none l = l
charge_budget second now name cost (some c) l =
    let s = refresh second now c.budget_period (state_of now name l) in
    record l { states = insert name (record s { current_spend = s.current_spend + cost }) l.states }

unfoldable pub charge : ℕ → ℕ → String → ℕ → Ledger → Ledger
charge second now name cost l = charge_budget second now name cost (lookup name l.budgets) l

-- BudgetCheckResult(allowed=True, provider=provider)
abbrev pub no_budget : String → BudgetCheckResult
no_budget name = record {
  allowed = true;
  provider = name;
  current_spend = 0;
  max_budget = 0;
  remaining = 0;
  exceeded_by = 0;
}

-- remaining = max_budget - current_spend, of either sign
abbrev pub judge_budget : String → BudgetConfig → BudgetState → BudgetCheckResult
judge_budget name c s = record {
  allowed = ltb s.current_spend c.max_budget;
  provider = name;
  current_spend = s.current_spend;
  max_budget = c.max_budget;
  remaining = c.max_budget - s.current_spend;
  exceeded_by = s.current_spend - c.max_budget;
}

abbrev pub check_budget : ℕ → ℕ → String → Option BudgetConfig → Ledger → BudgetCheckResult × Ledger
check_budget second now name none l = (no_budget name, l)
check_budget second now name (some c) l =
    let s = refresh second now c.budget_period (state_of now name l) in
    (judge_budget name c s, record l { states = insert name s l.states })

unfoldable pub check : ℕ → ℕ → String → Ledger → BudgetCheckResult × Ledger
check second now name l = check_budget second now name (lookup name l.budgets) l

abbrev pub set_budget : String → BudgetConfig → Ledger → Ledger
set_budget name c l = record l { budgets = insert name c l.budgets }

abbrev pub remove_budget : String → Ledger → Ledger
remove_budget name l = record { budgets = remove name l.budgets; states = remove name l.states }

abbrev pub reset_state : ℕ → String → Option BudgetState → Ledger → Ledger
reset_state now name none l = l
reset_state now name (some s) l = record l { states = insert name (new_state now) l.states }

abbrev pub reset_states : ℕ → Ledger → Ledger
reset_states now l = record l { states = map (λ p. (p.0, new_state now)) l.states }

pub record ProviderBudgetManager : Type 0 where
  pub second : ℕ
  pub providers : Ledger
  pub tags : Ledger

unfoldable pub set_provider_budget :
    String → BudgetConfig → ProviderBudgetManager → ProviderBudgetManager
set_provider_budget provider c m = record m { providers = set_budget provider c m.providers }

unfoldable pub remove_provider_budget : String → ProviderBudgetManager → ProviderBudgetManager
remove_provider_budget provider m = record m { providers = remove_budget provider m.providers }

unfoldable pub set_tag_budget :
    String → BudgetConfig → ProviderBudgetManager → ProviderBudgetManager
set_tag_budget tag c m = record m { tags = set_budget tag c m.tags }

unfoldable pub remove_tag_budget : String → ProviderBudgetManager → ProviderBudgetManager
remove_tag_budget tag m = record m { tags = remove_budget tag m.tags }

abbrev pub charge_tags : ℕ → ℕ → List String → ℕ → Ledger → Ledger
charge_tags second now [] cost l = l
charge_tags second now (tag ∷ tags) cost l =
    charge_tags second now tags cost (charge second now tag cost l)

unfoldable pub record_spend :
    ℕ → String → ℕ → List String → ProviderBudgetManager → ProviderBudgetManager
record_spend now provider cost tags m = if eqb cost 0 then m else record m {
  providers = charge m.second now provider cost m.providers;
  tags = charge_tags m.second now tags cost m.tags;
}

unfoldable pub check_provider_budget :
    ℕ → String → ProviderBudgetManager → BudgetCheckResult × ProviderBudgetManager
check_provider_budget now provider m =
    let (r, l) = check m.second now provider m.providers in (r, record m { providers = l })

unfoldable pub check_tag_budget :
    ℕ → String → ProviderBudgetManager → BudgetCheckResult × ProviderBudgetManager
check_tag_budget now tag m =
    let (r, l) = check m.second now tag m.tags in (r, record m { tags = l })

unfoldable pub get_available_providers :
    ℕ → List String → ProviderBudgetManager → List String × ProviderBudgetManager
unfolding check_provider_budget
get_available_providers now [] m = ([], m)
get_available_providers now (p ∷ ps) m =
    let r = check_provider_budget now p m in
    let rest = get_available_providers now ps r.1 in
    ((if r.0.allowed then p ∷ rest.0 else rest.0), rest.1)

unfoldable pub reset_provider : ℕ → String → ProviderBudgetManager → ProviderBudgetManager
reset_provider now provider m = record m {
  providers = reset_state now provider (lookup provider m.providers.states) m.providers;
}

unfoldable pub reset_tag : ℕ → String → ProviderBudgetManager → ProviderBudgetManager
reset_tag now tag m = record m { tags = reset_state now tag (lookup tag m.tags.states) m.tags }

unfoldable pub reset_all : ℕ → ProviderBudgetManager → ProviderBudgetManager
reset_all now m = record m {
  providers = reset_states now m.providers;
  tags = reset_states now m.tags;
}
