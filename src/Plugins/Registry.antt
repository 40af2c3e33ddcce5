-- ===== src/Plugins/Registry.antt =====
-- `PluginRegistry` of src/routerbot/core/plugins/registry.py, the types of models.py, and what the
-- PluginManager of manager.py does to the registry. The metadata of a plugin is an object that the
-- manager and the registry share: `ref` is its identity, and a change by the manager is one at all of
-- its places. Hooks are opaque.
pub mod Whole
mod Examples
use routerbot.Base.{
  ℕ, ◌+◌, String, Option, none, some, Bool, true, false, ◌&&◌, List, [], ◌∷◌, keep, map, Dict,
  lookup, insert, remove, has, keys, values, string_eq, eqb, if◌then◌else◌, length,
}

pub data PluginType : Type 0 where
  provider guardrail callback auth middleware : PluginType

pub data PluginStatus : Type 0 where
  discovered loaded active error disabled : PluginStatus

abbrev pub type_number : PluginType → ℕ
type_number provider = 0
type_number guardrail = 1
type_number callback = 2
type_number auth = 3
type_number middleware = 4

abbrev pub status_number : PluginStatus → ℕ
status_number discovered = 0
status_number loaded = 1
status_number active = 2
status_number error = 3
status_number disabled = 4

abbrev pub same_type : PluginType → PluginType → Bool
same_type a b = eqb (type_number a) (type_number b)

abbrev pub same_status : PluginStatus → PluginStatus → Bool
same_status a b = eqb (status_number a) (status_number b)

pub record PluginInfo : Type 0 where
  pub ref : ℕ
  pub name : String
  pub plugin_type : PluginType
  pub status : PluginStatus
  pub error_message : Option String
  pub loaded_at : Option ℕ

abbrev pub activate : ℕ → PluginInfo → PluginInfo
activate now i = record i { status = active; loaded_at = some now }

abbrev pub fail : String → PluginInfo → PluginInfo
fail message i = record i { status = error; error_message = some message }

pub record PluginRegistry (H : Type 0) : Type 0 where
  pub plugins : Dict String H
  pub info : Dict String PluginInfo

-- if a filter is given
abbrev pub filtered :
    {A : Type 0} → (A → PluginInfo → Bool) → Option A → List PluginInfo → List PluginInfo
filtered test none xs = xs
filtered test (some a) xs = keep (test a) xs

abbrev pub update_info :
    ℕ → (PluginInfo → PluginInfo) → Dict String PluginInfo → Dict String PluginInfo
update_info ref f = map (λ p. (p.0, if eqb p.1.ref ref then f p.1 else p.1))

abbrev pub is_active : PluginType → PluginInfo → Bool
is_active plugin_type i = same_type i.plugin_type plugin_type && same_status i.status active

module _ {H : Type 0} where
  unfoldable pub init : PluginRegistry H
  init = record { plugins = []; info = [] }

  unfoldable pub register : H → PluginInfo → PluginRegistry H → PluginRegistry H
  register hook i r = record {
    plugins = insert i.name hook r.plugins;
    info = insert i.name i r.info;
  }

  unfoldable pub unregister : String → PluginRegistry H → Bool × PluginRegistry H
  unregister name r =
      (has name r.plugins, record { plugins = remove name r.plugins; info = remove name r.info })

  abbrev pub get : String → PluginRegistry H → Option H
  get name r = lookup name r.plugins

  abbrev pub get_info : String → PluginRegistry H → Option PluginInfo
  get_info name r = lookup name r.info

  unfoldable pub list_plugins :
      Option PluginType → Option PluginStatus → PluginRegistry H → List PluginInfo
  list_plugins plugin_type status r =
      filtered (λ s i. same_status i.status s) status
        (filtered (λ t i. same_type i.plugin_type t) plugin_type (values r.info))

  -- self._plugins[info.name] for each; no answer is the KeyError.
  abbrev pub joined : Option H → Option (List H) → Option (List H)
  joined (some h) (some hs) = some (h ∷ hs)
  joined _ _ = none

  unfoldable pub hooks_of : List PluginInfo → Dict String H → Option (List H)
  hooks_of [] plugins = some []
  hooks_of (i ∷ is) plugins = joined (lookup i.name plugins) (hooks_of is plugins)

  unfoldable pub get_hooks_by_type : PluginType → PluginRegistry H → Option (List H)
  unfolding hooks_of
  get_hooks_by_type plugin_type r =
      hooks_of (keep (is_active plugin_type) (values r.info)) r.plugins

  abbrev pub all_names : PluginRegistry H → List String
  all_names r = keys r.plugins

  abbrev pub count : PluginRegistry H → ℕ
  count r = length r.plugins

  unfoldable pub clear : PluginRegistry H → PluginRegistry H
  clear r = record { plugins = []; info = [] }

  -- What PluginManager does after a setup() that went well, and after one that raised.
  unfoldable pub set_up : ℕ → ℕ → PluginRegistry H → PluginRegistry H
  set_up now ref r = record r { info = update_info ref (activate now) r.info }

  unfoldable pub set_up_failed : String → ℕ → PluginRegistry H → PluginRegistry H
  set_up_failed message ref r = record r { info = update_info ref (fail message) r.info }

-- The calls of the managers and of others, between which all may wait.
pub data Call (H : Type 0) : Type 0 where
  add : H → PluginInfo → Call H
  drop : String → Call H
  finish : ℕ → ℕ → Call H
  finish_failed : String → ℕ → Call H
  wipe : Call H

unfoldable pub run : {H : Type 0} → PluginRegistry H → List (Call H) → PluginRegistry H
unfolding register unregister set_up set_up_failed clear
run r [] = r
run r (add hook i ∷ cs) = run (register hook i r) cs
run r (drop name ∷ cs) = run (unregister name r).1 cs
run r (finish now ref ∷ cs) = run (set_up now ref r) cs
run r (finish_failed message ref ∷ cs) = run (set_up_failed message ref r) cs
run r (wipe ∷ cs) = run (clear r) cs
