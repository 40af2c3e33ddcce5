-- ===== src/Router/Budget/Spending.antt =====
-- What a series of spends within one period comes to.
use routerbot.Base.{
  ℕ, ◌+◌, ◌≡◌, refl, ap, some_inj, Bool-cases, inl, inr, ◌∙◌, String, Option, none, some, false,
  List, [], ◌∷◌, lookup, string_eq, lookup-insert, arith, ltb, All, sum, map, ==-refl, eqb,
  All-mono,
}
use routerbot.Router.Budget.{
  BudgetConfig, BudgetState, Ledger, refresh, should_reset, charge, charge_budget, check,
  check_budget, state_of, ProviderBudgetManager, record_spend, check_provider_budget,
}

-- The calls record_spend(provider, cost), each with its time and the tags.
unfoldable pub spend_all :
    String → List (ℕ × ℕ × List String) → ProviderBudgetManager → ProviderBudgetManager
spend_all p [] m = m
spend_all p ((now, cost, tags) ∷ rest) m = spend_all p rest (record_spend now p cost tags m)

abbrev pub costs : List (ℕ × ℕ × List String) → List ℕ
costs = map (λ x. x.1)

-- The manager knows the provider's budget, and `s` of its current period.
record Tracks (p : String) (c : BudgetConfig) (second : ℕ) (s : BudgetState)
    (m : ProviderBudgetManager) : Type 0 where
  budget : lookup p m.providers.budgets ≡ some c
  state : lookup p m.providers.states ≡ some s
  scale : m.second ≡ second

spent : BudgetState → ℕ → BudgetState
spent s cost = record s { current_spend = s.current_spend + cost }

charge-states :
    (second now cost : ℕ) (p : String) (o : Option BudgetConfig) (c : BudgetConfig)
    (s : BudgetState) (l : Ledger)
    → o ≡ some c
    → lookup p l.states ≡ some s
    → should_reset second now c.budget_period s ≡ false
    → ((charge_budget second now p cost o l).budgets ≡ l.budgets)
      × (lookup p (charge_budget second now p cost o l).states ≡ some (spent s cost))
unfolding refresh spent
charge-states second now cost p none c s l o h r = cc
charge-states second now cost p (some d) c s l o h r =
    let e : d ≡ c = some_inj o in
    (
      refl,
      ground (
        arith,
        e,
        h,
        r,
        ==-refl p,
        lookup-insert p p (spent (refresh second now d.budget_period (state_of now p l)) cost)
            l.states,
      ),
    )

charged :
    (p : String) (c : BudgetConfig) (second now cost : ℕ) (tags : List String) (s : BudgetState)
    (m : ProviderBudgetManager)
    → should_reset second now c.budget_period s ≡ false
    → Tracks p c second s m
    → Tracks p c second (spent s cost) (record_spend now p cost tags m)
unfolding record_spend charge spent
charged p c second now cost tags s m r h =
    let t =
      charge-states m.second now cost p (lookup p m.providers.budgets) c s m.providers h.budget
        h.state (ap (λ k. should_reset k now c.budget_period s) h.scale ∙ r) in
    elim (Bool-cases (eqb cost 0)) [
      | inl z ↦ rw z record {
        budget = h.budget;
        state = h.state ∙ ap (λ n. some (record s { current_spend = n })) (ground arith);
        scale = h.scale;
      }
      | inr n ↦ rw n record { budget = ap (lookup p) t.0 ∙ h.budget; state = t.1; scale = h.scale }
    ]

-- The refusal to reset looks at the start of the period only.
same_period :
    (p : String) (c : BudgetConfig) (second now cost : ℕ) (s : BudgetState)
    → should_reset second now c.budget_period (spent s cost)
      ≡ should_reset second now c.budget_period s
unfolding should_reset spent
same_period p c second now cost s = refl

check-allowed :
    (now second : ℕ) (p : String) (o : Option BudgetConfig) (c : BudgetConfig) (s : BudgetState)
    (l : Ledger)
    → o ≡ some c
    → lookup p l.states ≡ some s
    → should_reset second now c.budget_period s ≡ false
    → (check_budget second now p o l).0.allowed ≡ ltb s.current_spend c.max_budget
unfolding refresh
check-allowed now second p none c s l o h r = cc
check-allowed now second p (some d) c s l o h r =
    let e : d ≡ c = some_inj o in ground (arith, e, h, r)

spend_all-Tracks :
    (p : String) (c : BudgetConfig) (second now : ℕ) (rs : List (ℕ × ℕ × List String))
    (s : BudgetState) (m : ProviderBudgetManager)
    → Tracks p c second s m
    → All (λ x. should_reset second x.0 c.budget_period s ≡ false) rs
    → should_reset second now c.budget_period s ≡ false
    → (check_provider_budget now p (spend_all p rs m)).0.allowed
      ≡ ltb (s.current_spend + sum (costs rs)) c.max_budget
unfolding spend_all check_provider_budget check
spend_all-Tracks p c second now [] s m h w r =
    check-allowed now m.second p (lookup p m.providers.budgets) c s m.providers h.budget h.state
      (ap (λ k. should_reset k now c.budget_period s) h.scale ∙ r)
    ∙ ground arith
spend_all-Tracks p c second now ((t, cost, tags) ∷ rs) s m h w r =
    spend_all-Tracks p c second now rs (spent s cost) (record_spend t p cost tags m)
      (charged p c second t cost tags s m w.0 h)
      (All-mono rs w.1 (λ x e. same_period p c second x.0 cost s ∙ e))
      (same_period p c second now cost s ∙ r)
    ∙ ap (λ n. ltb n c.max_budget) (unfold spent in omega arith)

-- Where a provider has a budget and a period that has begun, after any spends within that period, with
-- or without tags, a check within it allows the provider exactly while what was spent in the period,
-- with these spends, is below the budget.
pub spend_all-allowed :
    (p : String) (c : BudgetConfig) (s : BudgetState) (now : ℕ) (rs : List (ℕ × ℕ × List String))
    (m : ProviderBudgetManager)
    → lookup p m.providers.budgets ≡ some c
    → lookup p m.providers.states ≡ some s
    → All (λ x. should_reset m.second x.0 c.budget_period s ≡ false) rs
    → should_reset m.second now c.budget_period s ≡ false
    → (check_provider_budget now p (spend_all p rs m)).0.allowed
      ≡ ltb (s.current_spend + sum (costs rs)) c.max_budget
spend_all-allowed p c s now rs m b h w r =
    spend_all-Tracks p c m.second now rs s m record { budget = b; state = h; scale = refl } w r
