-- ===== src/Router/Strategies.antt =====
-- src/routerbot/router/strategies.py. `select` returns the choice and the strategy, whose counter
-- only round robin moves. The draws of Python's `random` are an argument.
pub mod Choice
pub mod Rotation
mod Examples
use routerbot.Base.{
  ℕ, suc, ◌+◌, ◌%◌, max, String, Option, none, some, Bool, true, false, List, [], ◌∷◌, map, ltb,
  if◌then◌else◌, get_elem?, length, get_or, keep, ◌==◌, string_eq, eqb,
}
use routerbot.Router.Deployment.{Deployment, lt_latency}

-- random.choice gives an index below a length, random.choices an index into a list of weights.
pub record Random : Type 0 where
  pub choice : ℕ → ℕ
  pub choices : List ℕ → ℕ

pub data Strategy : Type 0 where
  round_robin : ℕ → Strategy
  least_connections latency_based cost_based weighted : Strategy

-- min(x :: xs, key=...): the first of the least.
unfoldable pub min_by {ℓ} : {A : Type ℓ} → (A → A → Bool) → A → List A → A
min_by lt best [] = best
min_by lt best (y ∷ ys) = min_by lt (if lt y best then y else best) ys

abbrev pub fewer_requests : Deployment → Deployment → Bool
fewer_requests a b = ltb a.active_requests b.active_requests

-- d.avg_latency_ms if d.avg_latency_ms > 0 else inf
abbrev pub lower_latency : Deployment → Deployment → Bool
lower_latency a b =
    if eqb a.avg_latency_ms.num 0
    then false
    else if eqb b.avg_latency_ms.num 0
    then true
    else lt_latency a.avg_latency_ms b.avg_latency_ms

abbrev pub has_cost : Deployment → Bool
has_cost d = elim d.cost_per_token [ none ↦ false | some _ ↦ true ]

abbrev pub cheaper : Deployment → Deployment → Bool
cheaper a b = ltb (get_or a.cost_per_token 0) (get_or b.cost_per_token 0)

abbrev pub weights : List Deployment → List ℕ
weights = map (λ d. max d.weight 1)

abbrev pub cheapest : Random → List Deployment → List Deployment → Option Deployment
cheapest r ds [] = get_elem? ds (r.choice (length ds))
cheapest r ds (c ∷ cs) = some (min_by cheaper c cs)

unfoldable pub select : Strategy → Random → List Deployment → Option Deployment × Strategy
unfolding min_by
select s r [] = (none, s)
select (round_robin n) r (d ∷ ds) = (get_elem? (d ∷ ds) (n % length (d ∷ ds)), round_robin (n + 1))
select least_connections r (d ∷ ds) = (some (min_by fewer_requests d ds), least_connections)
select latency_based r (d ∷ ds) = (some (min_by lower_latency d ds), latency_based)
select cost_based r (d ∷ ds) = (cheapest r (d ∷ ds) (keep has_cost (d ∷ ds)), cost_based)
select weighted r (d ∷ ds) = (get_elem? (d ∷ ds) (r.choices (weights (d ∷ ds))), weighted)

-- `none` stands for the ValueError.
unfoldable pub get_strategy : String → Option Strategy
get_strategy name =
    if name == "round-robin"
    then some (round_robin 0)
    else if name == "least-connections"
    then some least_connections
    else if name == "latency-based"
    then some latency_based
    else if name == "cost-based"
    then some cost_based
    else if name == "weighted"
    then some weighted
    else if name == "weighted-round-robin"
    then some weighted
    else if name == "random"
    then some weighted
    else none
