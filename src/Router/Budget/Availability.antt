-- ===== src/Router/Budget/Availability.antt =====
-- Which providers are within their budgets.
use routerbot.Base.{
  ℕ, ◌≡◌, refl, sym, ap, ap₂, some_inj, ◌∙◌, String, Option, none, some, Bool, List, [], ◌∷◌,
  lookup, string_eq, lookup-insert, keep, arith, eq_iff, ◌==◌, ltb, Bool-cases, inl, inr,
}
use routerbot.Router.Budget.{
  BudgetPeriod, BudgetConfig, BudgetState, Ledger, refresh, should_reset, check, check_budget,
  state_of, ProviderBudgetManager, check_provider_budget, get_available_providers,
}

-- A second look at the same time finds what the first left.
refresh-refresh :
    (second now : ℕ) (period : BudgetPeriod) (s : BudgetState)
    → refresh second now period (refresh second now period s) ≡ refresh second now period s
unfolding refresh
refresh-refresh second now period s = elim (Bool-cases (should_reset second now period s)) [
  | inl t ↦ rw t (ground arith)
  | inr n ↦ rw n (ground arith)
]

-- The state that a check at `now` judges is not changed by another check at that time.
refreshed-check :
    (second now : ℕ) (a b : String) (o : Option BudgetConfig) (c : BudgetConfig) (l : Ledger)
    → lookup a l.budgets ≡ o
    → lookup b l.budgets ≡ some c
    → refresh second now c.budget_period (state_of now b (check_budget second now a o l).1)
      ≡ refresh second now c.budget_period (state_of now b l)
refreshed-check second now a b none c l h k = refl
refreshed-check second now a b (some d) c l h k =
    let s = refresh second now d.budget_period (state_of now a l) in
    elim (Bool-cases (a == b)) [
      | inl t ↦
          let e = (eq_iff a b).0 t in
          let f : d ≡ c = some_inj (sym h ∙ ap (λ n. lookup n l.budgets) e ∙ k) in
          let r : s ≡ refresh second now c.budget_period (state_of now b l) =
            ap₂ (λ (x : BudgetConfig) n. refresh second now x.budget_period (state_of now n l)) f
              e in
          rw (lookup-insert a b s l.states, t)
            (ap (refresh second now c.budget_period) r
              ∙ refresh-refresh second now c.budget_period (state_of now b l))
      | inr n ↦ rw (lookup-insert a b s l.states, n) refl
    ]

check-budgets :
    (second now : ℕ) (a : String) (o : Option BudgetConfig) (l : Ledger)
    → (check_budget second now a o l).1.budgets ≡ l.budgets
check-budgets second now a none l = refl
check-budgets second now a (some c) l = refl

-- The answer about a name with this budget, if it has one.
answer : ℕ → ℕ → String → Option BudgetConfig → Ledger → Bool
answer second now name o l = (check_budget second now name o l).0.allowed

answer-check :
    (second now : ℕ) (a b : String) (o : Option BudgetConfig) (l : Ledger)
    → lookup b l.budgets ≡ o
    → answer second now b o (check second now a l).1 ≡ answer second now b o l
unfolding check answer
answer-check second now a b none l h = refl
answer-check second now a b (some c) l h =
    ap (λ (s : BudgetState). ltb s.current_spend c.max_budget)
      (refreshed-check second now a b (lookup a l.budgets) c l refl h)

-- A check at one time changes the answer of no other check at that time.
check-check :
    (second now : ℕ) (a b : String) (l : Ledger)
    → (check second now b (check second now a l).1).0.allowed ≡ (check second now b l).0.allowed
unfolding check answer
check-check second now a b l =
    let l' = (check second now a l).1 in
    ap (λ d. (check_budget second now b (lookup b d) l').0.allowed)
      (check-budgets second now a (lookup a l.budgets) l)
    ∙ answer-check second now a b (lookup b l.budgets) l refl

keep-check :
    (now : ℕ) (p : String) (ps : List String) (m : ProviderBudgetManager)
    → keep (λ q. (check_provider_budget now q (check_provider_budget now p m).1).0.allowed) ps
      ≡ keep (λ q. (check_provider_budget now q m).0.allowed) ps
unfolding check_provider_budget
keep-check now p [] m = refl
keep-check now p (q ∷ qs) m =
    ground (arith, keep-check now p qs m, check-check m.second now p q m.providers)

-- The available ones of a list of providers are those that a check at that time allows, in the order
-- of the list: the resets that checks make for one provider do not change the answer for another.
pub get_available_providers-keep :
    (now : ℕ) (ps : List String) (m : ProviderBudgetManager)
    → (get_available_providers now ps m).0
      ≡ keep (λ p. (check_provider_budget now p m).0.allowed) ps
unfolding get_available_providers
get_available_providers-keep now [] m = refl
get_available_providers-keep now (p ∷ ps) m =
    let m' = (check_provider_budget now p m).1 in
    ground (arith, get_available_providers-keep now ps m', keep-check now p ps m)
