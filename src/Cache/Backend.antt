-- ===== src/Cache/Backend.antt =====
-- src/routerbot/cache/base.py: the CacheBackend protocol and build_cache_key. A backend is a record of
-- its operations on a state; what its users rely on is IsLawful. SHA-256 of the sorted JSON of the
-- key's parts is a parameter `digest`; `J` are the JSON values.
pub mod Keys
pub mod Memory
mod Examples
use Prim.Native.String.{◌++◌ as ◌<>◌}
use routerbot.Base.{
  ℕ, ◌≡◌, ◌≢◌, ◌⊎◌, String, Option, none, some, [], ◌∷◌, Dict, lookup, string_eq, ◌==◌,
  if◌then◌else◌,
}
use routerbot.Cache.Memory.{CacheEntry, is_expired}

pub record CacheBackend (D S : Type 0) : Type 0 where
  pub get : ℕ → String → S → Option (CacheEntry D) × S
  pub set : ℕ → String → CacheEntry D → Option ℕ → S → S
  pub delete : String → S → S
  pub clear : S → S

-- The entry is none that an operation would have to stamp: it has a lifetime, and was created now.
pub record IsStamped {D : Type 0} (now : ℕ) (ttl : Option ℕ) (e : CacheEntry D) : Type 0 where
  pub created : e.created_at ≡ now
  pub lifetime : (t : ℕ) × (ttl ≡ some t) × (e.ttl ≡ some t)

-- What the users of a backend rely on, in the states that its operations reach.
pub record IsLawful {D S : Type 0} (b : CacheBackend D S) (Ready : S → Type 0) : Type 0 where
  pub get-set :
      (now later : ℕ) (key : String) (e : CacheEntry D) (ttl : Option ℕ) (s : S)
      → Ready s
      → IsStamped now ttl e
      → (b.get later key (b.set now key e ttl s)).0 ≡ (if is_expired later e then none else some e)
  pub get-set_other :
      (now later : ℕ) (key other : String) (e : CacheEntry D) (ttl : Option ℕ) (s : S)
      → Ready s
      → key ≢ other
      → ((b.get later other (b.set now key e ttl s)).0 ≡ none)
        ⊎ ((b.get later other (b.set now key e ttl s)).0 ≡ (b.get later other s).0)
  pub get-delete :
      (later : ℕ) (key other : String) (s : S)
      → (b.get later other (b.delete key s)).0
        ≡ (if key == other then none else (b.get later other s).0)
  pub get-clear : (later : ℕ) (key : String) (s : S) → (b.get later key (b.clear s)).0 ≡ none
  pub set-Ready :
      (now : ℕ) (key : String) (e : CacheEntry D) (ttl : Option ℕ) (s : S)
      → Ready s
      → Ready (b.set now key e ttl s)

-- The arguments of build_cache_key, but for the namespace.
pub record KeyArguments (J : Type 0) : Type 0 where
  pub model : String
  pub messages : J
  pub temperature : Option J
  pub top_p : Option J
  pub max_tokens : Option J
  pub tools : Option J
  pub extra : Option (Dict String J)
  pub tenant : Option String

-- key_parts: what is serialised. The JSON of `extra` is sorted, so it is what stands under each key;
-- an empty dict is left out, and nothing stands under any.
pub record KeyParts (J : Type 0) : Type 0 where
  pub model : String
  pub messages : J
  pub temperature : Option J
  pub top_p : Option J
  pub max_tokens : Option J
  pub tools : Option J
  pub extra : String → Option J

abbrev pub extra_of : {J : Type 0} → Option (Dict String J) → String → Option J
extra_of none k = none
extra_of (some d) k = lookup k d

abbrev pub serialised : {J : Type 0} → KeyArguments J → KeyParts J
serialised a = record {
  model = a.model;
  messages = a.messages;
  temperature = a.temperature;
  top_p = a.top_p;
  max_tokens = a.max_tokens;
  tools = a.tools;
  extra = extra_of a.extra;
}

-- f"{namespace}:{tenant}" if tenant else namespace
abbrev pub scoped_namespace : String → Option String → String
scoped_namespace namespace none = namespace
scoped_namespace namespace (some tenant) =
    if tenant == "" then namespace else namespace <> (":" <> tenant)

unfoldable pub build_cache_key :
    {J : Type 0} → (KeyParts J → String) → String → KeyArguments J → String
build_cache_key digest namespace a =
    scoped_namespace namespace a.tenant <> (":cache:" <> digest (serialised a))
