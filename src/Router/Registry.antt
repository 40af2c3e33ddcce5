-- ===== src/Router/Registry.antt =====
-- `build_router`, `Router.__init__` and `Router._build_registry` of src/routerbot/router/router.py, with
-- what they read of core/config_models.py. `environ` is os.environ.get; the identity of a new
-- deployment is the number of its entry in the configuration.
pub mod Served
pub mod Serving
mod Examples
use Prim.Native.Char.{code}
use routerbot.Base.{
  ℕ, zero, suc, ◌+◌, String, Option, none, some, Bool, true, false, List, [], ◌∷◌, ◌++◌, Dict,
  lookup, insert, string_eq, ◌==◌, get_or, eqb, if◌then◌else◌,
}
use routerbot.Router.Cooldown as Cooldown
use routerbot.Router.Deployment.{Deployment, no_latency}
use routerbot.Router.Strategies.{Strategy, round_robin, get_strategy}
use routerbot.Router.Dispatch.{Router}

pub record ModelEntry : Type 0 where
  pub model_name : String
  pub model : String
  pub api_key : Option String
  pub api_base : Option String
  pub extra_headers : Dict String String

pub record RouterSettings : Type 0 where
  pub routing_strategy : String
  pub num_retries : ℕ
  pub retry_delay : ℕ
  pub cooldown_time : ℕ
  pub fallbacks : Dict String (List String)
  pub allowed_fails : ℕ

pub record RouterBotConfig : Type 0 where
  pub model_list : List ModelEntry
  pub router_settings : Option RouterSettings

-- provider_model.split("/", 1)[0], if there is a "/".
unfoldable pub before_slash : String → Option String
before_slash String.[] = none
before_slash (String.◌∷◌ c s) =
    let rest = before_slash s in
    if eqb (code c) b'/'
    then some ""
    else elim rest [ none ↦ none | some name ↦ some (String.◌∷◌ c name) ]

-- What follows a prefix, if it is one.
unfoldable pub after_prefix : String → String → Option String
after_prefix String.[] s = some s
after_prefix (String.◌∷◌ p ps) String.[] = none
after_prefix (String.◌∷◌ p ps) (String.◌∷◌ c s) =
    if eqb (code p) (code c) then after_prefix ps s else none

-- The API key of an entry, that of the environment where it names a variable. An empty text is no
-- name, and starts with no prefix.
abbrev pub resolve_key : (String → Option String) → Option String → Option String
resolve_key environ none = none
resolve_key environ (some key) = elim (after_prefix "os.environ/" key) [
  | none ↦ some key
  | some env_var ↦ environ env_var
]

abbrev pub made : (String → Option String) → ℕ → ModelEntry → Option String → Option Deployment
made environ n entry none = none
made environ n entry (some provider_name) = some record {
  ref = n;
  name = entry.model_name;
  provider_name = provider_name;
  provider_model = entry.model;
  api_key = resolve_key environ entry.api_key;
  api_base = entry.api_base;
  extra_headers = entry.extra_headers;
  weight = 1;
  active_requests = 0;
  avg_latency_ms = no_latency;
  cost_per_token = none;
}

-- The deployment of an entry, if its model names a provider.
unfoldable pub deployment_of : (String → Option String) → ℕ → ModelEntry → Option Deployment
deployment_of environ n entry = made environ n entry (before_slash entry.model)

abbrev pub Deployments : Type 0
Deployments = Dict String (List Deployment)

abbrev pub add_deployment : String → Option Deployment → Deployments → Deployments
add_deployment model_name none d = d
add_deployment model_name (some deployment) d =
    insert model_name (get_or (lookup model_name d) [] ++ deployment ∷ []) d

-- The loop over config.model_list, from the n-th entry on.
unfoldable pub register_entries :
    (String → Option String) → ℕ → List ModelEntry → Deployments → Deployments
unfolding deployment_of
register_entries environ n [] d = d
register_entries environ n (entry ∷ entries) d =
    register_entries environ (suc n) entries
      (add_deployment entry.model_name (deployment_of environ n entry) d)

-- self._fallbacks.setdefault(model, []).extend(fb_list), for each model.
unfoldable pub merge_fallbacks :
    Dict String (List String) → Dict String (List String) → Dict String (List String)
merge_fallbacks [] fallbacks = fallbacks
merge_fallbacks ((model, fb_list) ∷ more) fallbacks =
    merge_fallbacks more (insert model (get_or (lookup model fallbacks) [] ++ fb_list) fallbacks)

abbrev fallbacks_of : Option RouterSettings → Dict String (List String)
fallbacks_of none = []
fallbacks_of (some rs) = rs.fallbacks

module _ {P : Type 0} where
  abbrev pub registry_of : (String → Option String) → Option RouterBotConfig → Router P → Router P
  registry_of environ none r = r
  registry_of environ (some config) r = record r {
    deployments = register_entries environ 0 config.model_list [];
    fallbacks = merge_fallbacks (fallbacks_of config.router_settings) r.fallbacks;
  }

  -- Router.__init__ with the arguments that build_router gives it; without a strategy it is
  -- RoundRobinStrategy().
  unfoldable pub init :
      (String → Option String) → Option RouterBotConfig → Option Strategy → ℕ → ℕ → ℕ → ℕ → Router P
  unfolding register_entries merge_fallbacks
  init environ config strategy max_retries retry_delay allowed_fails cooldown_seconds =
      registry_of environ config (record {
        strategy = get_or strategy (round_robin 0);
        max_retries = max_retries;
        retry_delay = retry_delay;
        fallbacks = [];
        cooldown = Cooldown.init allowed_fails cooldown_seconds;
        deployments = [];
        provider_cache = [];
      })

  abbrev with_settings :
      (String → Option String)
      → RouterBotConfig
      → RouterSettings
      → Option Strategy
      → Option (Router P)
  with_settings environ config rs none = none
  with_settings environ config rs (some strategy) = some (
      init environ (some config) (some strategy) rs.num_retries rs.retry_delay rs.allowed_fails
        rs.cooldown_time)

  -- build_router, with half a second as a parameter for the default delay; no router is the
  -- ValueError of get_strategy.
  unfoldable pub build_router :
      (String → Option String) → ℕ → Option RouterBotConfig → Option (Router P)
  unfolding init
  build_router environ half_second none = some (init environ none none 3 half_second 3 60)
  build_router environ half_second (some config) = elim config.router_settings [
    | none ↦ some (init environ (some config) none 3 half_second 3 60)
    | some rs ↦ with_settings environ config rs (get_strategy rs.routing_strategy)
  ]
