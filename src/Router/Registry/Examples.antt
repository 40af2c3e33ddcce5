-- ===== src/Router/Registry/Examples.antt =====
-- The theorems on the registry, at two entries of one model and one that names no provider.
use routerbot.Base.{
  String, ◌≡◌, refl, none, some, List, [], ◌∷◌, All, length, get_elem?, lookup, insert, string_eq,
}
use routerbot.Router.Deployment.{Deployment}
use routerbot.Router.Strategies.{Random, select, cost_based}
use routerbot.Router.Registry.{
  ModelEntry, before_slash, after_prefix, resolve_key, register_entries,
}
use routerbot.Router.Registry.Serving.{Serving, register_entries-Serving}
use routerbot.Router.Registry.Served.{
  listed, deployments_for, IsConfigured, select-register_entries,
}

abbrev entry : String → String → ModelEntry
entry name model = record {
  model_name = name;
  model = model;
  api_key = some "os.environ/KEY";
  api_base = none;
  extra_headers = [];
}

abbrev entries : List ModelEntry
entries = entry "gpt" "openai/gpt-4o" ∷ entry "local" "llama" ∷ entry "gpt" "azure/gpt-4o" ∷ []

provider_of : before_slash "openai/gpt-4o" ≡ some "openai"
unfolding before_slash
provider_of = refl

key_of : resolve_key (λ s. some s) (some "os.environ/KEY") ≡ some "KEY"
unfolding after_prefix
key_of = refl

abbrev random : Random
random = record { choice = λ n. 0; choices = λ ws. 0 }

abbrev two : List Deployment
two = deployments_for (λ s. none) "gpt" 0 entries

two_registered : lookup "gpt" (register_entries (λ s. none) 0 entries []) ≡ some two
unfolding register_entries before_slash lookup insert after_prefix
two_registered = refl

select-register_entries_example :
    All (IsConfigured "gpt") two
    × (select cost_based random two ≡ (get_elem? two (random.choice (length two)), cost_based))
select-register_entries_example =
    select-register_entries (λ s. none) "gpt" entries random two two_registered

register_entries-Serving_example :
    (ds : List Deployment) × (lookup "gpt" (register_entries (λ s. none) 0 entries []) ≡ listed ds)
    × Serving (λ s. none) "gpt" entries ds
register_entries-Serving_example = register_entries-Serving (λ s. none) "gpt" entries
