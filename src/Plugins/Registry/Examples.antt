-- ===== src/Plugins/Registry/Examples.antt =====
-- The theorem on plugins, at one that is set up, one whose setup fails and one that replaces another.
use routerbot.Base.{ℕ, ◌≡◌, refl, String, none, some, List, [], ◌∷◌, lookup, insert, keep, values}
use routerbot.Plugins.Registry.{
  PluginType, guardrail, auth, loaded, PluginInfo, Call, add, finish, finish_failed, init, register,
  set_up, set_up_failed, run, hooks_of, is_active, get_hooks_by_type,
}
use routerbot.Plugins.Registry.Whole.{Stand, get_hooks_by_type-run}

abbrev plugin : ℕ → String → PluginType → PluginInfo
plugin n name t = record {
  ref = n;
  name = name;
  plugin_type = t;
  status = loaded;
  error_message = none;
  loaded_at = none;
}

abbrev calls : List (Call ℕ)
calls =
    add 7 (plugin 0 "mask" guardrail)
    ∷ finish 10 0
    ∷ add 8 (plugin 1 "login" auth)
    ∷ finish_failed "setup() failed for login" 1
    ∷ add 9 (plugin 2 "filter" guardrail)
    ∷ finish 12 2
    ∷ []

both_active : get_hooks_by_type guardrail (run init calls) ≡ some (7 ∷ 9 ∷ [])
unfolding get_hooks_by_type hooks_of run init register set_up set_up_failed lookup insert
both_active = refl

get_hooks_by_type-run_example :
    (hs : List ℕ) × (get_hooks_by_type guardrail (run init calls) ≡ some hs)
    × Stand (run init calls).plugins (keep (is_active guardrail) (values (run init calls).info)) hs
get_hooks_by_type-run_example = get_hooks_by_type-run calls guardrail
