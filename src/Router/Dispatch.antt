-- ===== src/Router/Dispatch.antt =====
-- `Router` of src/routerbot/router/router.py. The world of a request is the router, which other
-- requests share, and the clock. An awaited call, of a provider or of asyncio.sleep, is a function
-- that may change the whole world, since other requests run meanwhile. `second` is the number of
-- clock ticks in a second; latencies are measured in ticks times 1000.
pub mod Selection
pub mod Accounting
pub mod Attempt
pub mod Cooling
pub mod Stream
pub mod Endpoints
mod Examples
use routerbot.Base.{
  ℕ, ◌+◌, ◌-◌, ◌*◌, String, Option, none, some, Bool, true, false, List, [], ◌∷◌, map, Dict, lookup,
  insert, has, string_eq, get_or, eqb, if◌then◌else◌,
}
use routerbot.Errors.{Error, Outcome, returned, raised}
use routerbot.Errors
use routerbot.Router.Cooldown.{CooldownManager, record_success, record_failure, is_in_cooldown}
use routerbot.Router.Deployment.{Deployment, record_latency}
use routerbot.Router.Strategies.{Random, Strategy, select}
use routerbot.Router.Retry.{RetryPolicy, default_status_codes, should_retry, with_retry}
use routerbot.Router.Fallback.{execute_with_fallbacks}

pub record Router (P : Type 0) : Type 0 where
  pub strategy : Strategy
  pub max_retries : ℕ
  pub retry_delay : ℕ
  pub fallbacks : Dict String (List String)
  pub cooldown : CooldownManager
  pub deployments : Dict String (List Deployment)
  pub provider_cache : Dict String P

pub record World (P : Type 0) : Type 0 where
  pub router : Router P
  pub now : ℕ
  pub second : ℕ

-- The deployments that are not cooling, and the manager after it was asked about each.
unfoldable pub available : ℕ → List Deployment → CooldownManager → List Deployment × CooldownManager
available now [] c = ([], c)
available now (d ∷ ds) c =
    let (cooling, c') = is_in_cooldown now d.name c in
    let (rest, c'') = available now ds c' in (if cooling then rest else d ∷ rest, c'')

-- An assignment through a reference to the shared object.
abbrev pub update_list : ℕ → (Deployment → Deployment) → List Deployment → List Deployment
update_list ref f = map (λ d. if eqb d.ref ref then f d else d)

abbrev pub update_registry :
    ℕ → (Deployment → Deployment) → Dict String (List Deployment) → Dict String (List Deployment)
update_registry ref f = map (λ p. (p.0, update_list ref f p.1))

abbrev pub start_request : Deployment → Deployment
start_request d = record d { active_requests = d.active_requests + 1 }

abbrev pub end_request : ℕ → Deployment → Deployment
end_request elapsed d =
    record_latency elapsed (record d { active_requests = d.active_requests - 1 })

module _ {P : Type 0} where
  abbrev pub with_cooldown : CooldownManager → World P → World P
  with_cooldown c w = record w { router = record (w.router) { cooldown = c } }

  unfoldable pub get_deployments : String → World P → List Deployment × World P
  get_deployments model_name w =
      let all_deps = get_or (lookup model_name w.router.deployments) [] in
      let (ds, c) = available w.now all_deps w.router.cooldown in (ds, with_cooldown c w)

  abbrev pub with_strategy : Strategy → World P → World P
  with_strategy s w = record w { router = record (w.router) { strategy = s } }

  abbrev pub chosen : String → Option Deployment → World P → Outcome Deployment × World P
  chosen model_name none w = (raised (Error.model_not_found model_name), w)
  chosen model_name (some d) w = (returned d, w)

  abbrev pub pick : Random → String → List Deployment → World P → Outcome Deployment × World P
  pick r model_name [] w = (raised (Error.model_not_found model_name), w)
  pick r model_name (d ∷ ds) w =
      let (selected, s) = select w.router.strategy r (d ∷ ds) in
      chosen model_name selected (with_strategy s w)

  unfoldable pub select_deployment :
      (World P → Random) → String → World P → Outcome Deployment × World P
  unfolding get_deployments
  select_deployment rng model_name w =
      if has model_name w.router.deployments
      then (let (ds, w') = get_deployments model_name w in pick (rng w') model_name ds w')
      else (raised (Error.model_not_found model_name), w)

  abbrev pub update : ℕ → (Deployment → Deployment) → World P → World P
  update ref f w = record w {
    router = record (w.router) { deployments = update_registry ref f w.router.deployments };
  }

  abbrev pub cached : Deployment → Outcome P → World P → Outcome P × World P
  cached d (raised e) w = (raised e, w)
  cached d (returned p) w = (
    returned p,
    record w {
      router = record (w.router) { provider_cache = insert d.name p w.router.provider_cache };
    },
  )

  -- `build` stands for the provider class of the registry and its constructor.
  unfoldable pub make_provider :
      (Deployment → Outcome P) → Deployment → World P → Outcome P × World P
  make_provider build d w = elim (lookup d.name w.router.provider_cache) [
    | none ↦ cached d (build d) w
    | some p ↦ (returned p, w)
  ]

  -- RetryPolicy(max_retries=..., base_delay=...), the rest by default.
  abbrev pub policy : World P → RetryPolicy
  policy w = record {
    max_retries = w.router.max_retries;
    base_delay = w.router.retry_delay;
    max_delay = 60 * w.second;
    exponential_base = 2;
    jitter = true;
    retryable_status_codes = default_status_codes;
  }

  module _ {A : Type 0} where
    abbrev pub run_provider :
        (P → World P → Outcome A × World P) → Outcome P × World P → Outcome A × World P
    run_provider coro (raised e, w) = (raised e, w)
    run_provider coro (returned p, w) = coro p w

    -- try: record_success on a result; except: record_failure on what is worth a retry.
    abbrev pub settle : RetryPolicy → String → Outcome A × World P → Outcome A × World P
    settle p name (returned a, w) =
        (returned a, with_cooldown (record_success name w.router.cooldown) w)
    settle p name (raised e, w) = (
      raised e,
      if should_retry p e then with_cooldown (record_failure w.now name w.router.cooldown) w else w,
    )

    -- finally: the request is no longer active, and its latency counts.
    abbrev pub finish : Deployment → ℕ → Outcome A × World P → Outcome A × World P
    finish d start (r, w) = (r, update d.ref (end_request ((w.now - start) * 1000)) w)

    abbrev pub on_deployment :
        (Deployment → Outcome P)
        → RetryPolicy
        → (P → World P → Outcome A × World P)
        → Outcome Deployment × World P
        → Outcome A × World P
    on_deployment build p coro (raised e, w) = (raised e, w)
    on_deployment build p coro (returned d, w) =
        let w' = update d.ref start_request w in
        finish d w'.now (settle p d.name (run_provider coro (make_provider build d w')))

    -- `attempt` of _execute_with_retry
    unfoldable pub attempt :
        (Deployment → Outcome P)
        → (World P → Random)
        → RetryPolicy
        → String
        → (P → World P → Outcome A × World P)
        → World P
        → Outcome A × World P
    attempt build rng p model_name coro w =
        on_deployment build p coro (select_deployment rng model_name w)

    module _ (build : Deployment → Outcome P) (rng : World P → Random) (noise : ℕ → ℕ)
        (sleep : ℕ → World P → World P) where
      unfoldable pub execute_with_retry :
          String → (P → World P → Outcome A × World P) → World P → Outcome A × World P
      execute_with_retry model_name coro w =
          with_retry noise sleep (policy w) (attempt build rng (policy w) model_name coro) w

      -- `call` is the provider's chat_completion on the request with its model replaced.
      unfoldable pub chat_completion :
          String → (String → P → World P → Outcome A × World P) → World P → Outcome A × World P
      chat_completion model call w =
          execute_with_fallbacks (λ m. execute_with_retry m (call m)) model
            (get_or (lookup model w.router.fallbacks) []) w
