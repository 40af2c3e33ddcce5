-- ===== src/Router/Budget/Examples.antt =====
-- The theorems on budgets, at one provider with a daily budget of 100.
use routerbot.Base.{ℕ, ◌+◌, String, ◌≡◌, refl, List, [], ◌∷◌, ltb, lookup, insert, string_eq}
use routerbot.Router.Budget.{
  BudgetConfig, BudgetState, daily, ProviderBudgetManager, check_provider_budget,
  get_available_providers, should_reset, refresh, check, charge, record_spend,
}
use routerbot.Router.Budget.Spending.{spend_all, spend_all-allowed}

abbrev hundred : BudgetConfig
hundred = record { max_budget = 100; budget_period = daily }

abbrev begun : BudgetState
begun = record { current_spend = 40; period_start = 1000 }

abbrev manager : ProviderBudgetManager
manager = record {
  second = 1;
  providers = record { budgets = ("openai", hundred) ∷ []; states = ("openai", begun) ∷ [] };
  tags = record { budgets = ("batch", hundred) ∷ []; states = [] };
}

abbrev spends : List (ℕ × ℕ × List String)
spends = (1001, 35, "batch" ∷ []) ∷ (1002, 30, []) ∷ []

spend_all-allowed_example :
    (check_provider_budget 1003 "openai" (spend_all "openai" spends manager)).0.allowed
    ≡ ltb (40 + 65) 100
unfolding should_reset lookup
spend_all-allowed_example =
    spend_all-allowed "openai" hundred begun 1003 spends manager refl refl (refl, (refl, tt)) refl

-- Over its budget today, and within it again after a day.
over :
    (get_available_providers 1003 ("openai" ∷ "azure" ∷ []) (spend_all "openai" spends manager)).0
    ≡ "azure" ∷ []
unfolding get_available_providers check_provider_budget check spend_all record_spend charge refresh
    should_reset lookup insert
over = refl

next_day :
    (get_available_providers 87400 ("openai" ∷ "azure" ∷ []) (spend_all "openai" spends manager)).0
    ≡ "openai" ∷ "azure" ∷ []
unfolding get_available_providers check_provider_budget check spend_all record_spend charge refresh
    should_reset lookup insert
next_day = refl
