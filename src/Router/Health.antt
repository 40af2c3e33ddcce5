-- ===== src/Router/Health.antt =====
-- `HealthChecker` of src/routerbot/router/health.py. The probes of a round run at the same time, each
-- as one task: a round is the list of their ends, in the order in which these come, each with its time
-- and with what the awaited call came to. A timeout of asyncio.timeout is one of its errors.
pub mod Reports
mod Examples
use routerbot.Base.{
  ℕ, String, Option, none, some, Bool, true, false, not, List, [], ◌∷◌, ◌++◌, values, if◌then◌else◌,
}
use routerbot.Errors.{Error, Outcome, returned, raised}
use routerbot.Router.Cooldown.{CooldownManager, record_success, record_failure}
use routerbot.Router.Deployment.{Deployment}
use routerbot.Router.Dispatch.{Router, World, with_cooldown, make_provider, run_provider}

pub data Task : Type 0 where
  alive done : Task

pub record HealthChecker : Type 0 where
  pub interval : ℕ
  pub timeout : ℕ
  pub task : Option Task

abbrev pub is_running : HealthChecker → Bool
is_running h = elim h.task [ none ↦ false | some alive ↦ true | some done ↦ false ]

unfoldable pub start : HealthChecker → HealthChecker
start h = if is_running h then h else record h { task = some alive }

unfoldable pub stop : HealthChecker → HealthChecker
stop h = if not (is_running h) then h else record h { task = none }

-- A cancellation is no Exception, and passes every `except` of the probe.
abbrev pub is_cancelled : Error → Bool
is_cancelled Error.cancelled = true
is_cancelled _ = false

abbrev pub End : Type 0 → Type 0
End A = Deployment × ℕ × Outcome A

module _ {A : Type 0} where
  -- What the end of a probe does to the cooldown, and its answer.
  unfoldable pub settled : ℕ → String → Outcome A → CooldownManager → Outcome Bool × CooldownManager
  settled now name (returned a) c = (returned true, record_success name c)
  settled now name (raised e) c =
      if is_cancelled e then (raised e, c) else (returned false, record_failure now name c)

  -- The ends of the tasks that _run_checks gathers.
  unfoldable pub reports : List (End A) → CooldownManager → CooldownManager
  unfolding settled
  reports [] c = c
  reports ((d, now, o) ∷ rs) c = reports rs (settled now d.name o c).1

module _ {P A : Type 0} where
  abbrev settled_in : String → Outcome A × World P → Outcome Bool × World P
  settled_in name (o, w) =
      let (answer, c) = settled w.now name o w.router.cooldown in (answer, with_cooldown c w)

  -- _check_deployment; `call` is the provider's chat_completion of a probe for the model, within the
  -- time.
  unfoldable pub check_deployment :
      (Deployment → Outcome P)
      → (String → P → World P → Outcome A × World P)
      → Deployment
      → World P
      → Outcome Bool × World P
  unfolding settled
  check_deployment build call d w =
      settled_in d.name (run_provider (call d.provider_model) (make_provider build d w))

abbrev concat : List (List Deployment) → List Deployment
concat [] = []
concat (ds ∷ dss) = ds ++ concat dss

-- The deployments that a round probes.
unfoldable pub all_deployments : {P : Type 0} → Router P → List Deployment
all_deployments r = concat (values r.deployments)
