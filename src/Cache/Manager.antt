-- ===== src/Cache/Manager.antt =====
-- src/routerbot/cache/manager.py: the manager that wraps a backend. What is handed to build_cache_key
-- is a KeyArguments; readings of time.time() are arguments, and the `{}` of an absent `metadata` is
-- `no_metadata`.
pub mod Laws
mod Examples
use routerbot.Base.{
  ℕ, zero, suc, ◌+◌, String, Option, none, some, Bool, true, false, not, ◌&&◌, ◌||◌, List, [], ◌∷◌,
  map, if◌then◌else◌, codes, lower, same_codes, get_or, string_eq, ◌==◌, leb, eqb,
}
use routerbot.Cache.Memory.{CacheEntry}
use routerbot.Cache.Backend.{CacheBackend, KeyParts, KeyArguments, build_cache_key}

pub record ResponseCacheManager : Type 0 where
  pub default_ttl : ℕ
  pub namespace : String
  pub skip_streaming : Bool
  pub enabled : Bool

-- ResponseCacheManager.__init__
unfoldable pub init : ℕ → String → Bool → ResponseCacheManager
init default_ttl namespace skip_streaming = record {
  default_ttl = default_ttl;
  namespace = namespace;
  skip_streaming = skip_streaming;
  enabled = true;
}

unfoldable pub set_enabled : Bool → ResponseCacheManager → ResponseCacheManager
set_enabled value m = record m { enabled = value }

-- cache_control and cache_control.lower() == "no-cache"
abbrev pub no_cache : Option String → Bool
no_cache none = false
no_cache (some s) = same_codes (lower s) (codes "no-cache")

-- ttl or self._default_ttl
abbrev pub positive_or : Option ℕ → ℕ → ℕ
positive_or none d = d
positive_or (some zero) d = d
positive_or (some (suc t)) d = suc t

-- The three ways in which `lookup` passes the cache by.
abbrev pub bypassed : ResponseCacheManager → Bool → Option String → Bool
bypassed m stream cache_control =
    not m.enabled || (stream && m.skip_streaming) || no_cache cache_control

abbrev pub key_of :
    {J : Type 0} → (KeyParts J → String) → ResponseCacheManager → KeyArguments J → String
key_of digest m a = build_cache_key digest m.namespace a

-- What `invalidate` hands to build_cache_key: no tenant, and no extra parameters.
abbrev pub bare : {J : Type 0} → KeyArguments J → KeyArguments J
bare a = record a { extra = none; tenant = none }

-- CacheEntry(key=…, …) as `store` builds it.
abbrev pub entry_of :
    {D J : Type 0}
    → (KeyParts J → String)
    → D
    → ℕ
    → ResponseCacheManager
    → KeyArguments J
    → D
    → Option ℕ
    → Option D
    → CacheEntry D
entry_of digest no_metadata now m a response_data ttl metadata = record {
  key = key_of digest m a;
  response_data = response_data;
  model = a.model;
  created_at = now;
  ttl = some (positive_or ttl m.default_ttl);
  metadata = get_or metadata no_metadata;
}

module _ {D S J : Type 0} (backend : CacheBackend D S) (digest : KeyParts J → String) where
  unfoldable pub lookup :
      ℕ
      → ResponseCacheManager
      → KeyArguments J
      → Bool
      → Option String
      → S
      → Option (CacheEntry D) × S
  lookup now m a stream cache_control s =
      if bypassed m stream cache_control then (none, s) else backend.get now (key_of digest m a) s

  unfoldable pub store :
      D → ℕ → ResponseCacheManager → KeyArguments J → D → Option ℕ → Option D → S → S
  store no_metadata now m a response_data ttl metadata s =
      let entry = entry_of digest no_metadata now m a response_data ttl metadata in
      if m.enabled then backend.set now (key_of digest m a) entry entry.ttl s else s

  unfoldable pub invalidate : ResponseCacheManager → KeyArguments J → S → S
  invalidate m a s = backend.delete (key_of digest m (bare a)) s

-- ResponseCacheManager.clear
unfoldable pub clear : {D S : Type 0} → CacheBackend D S → S → S
clear backend s = backend.clear s
