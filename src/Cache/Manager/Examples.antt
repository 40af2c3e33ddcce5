-- ===== src/Cache/Manager/Examples.antt =====
-- The theorems on the manager, over the in-memory cache, at two tenants.
use routerbot.Base.{
  ℕ, ◌+◌, ◌<◌, ◌≤◌, Option, String, ◌≡◌, ◌⊎◌, ◌≢◌, refl, none, some, true, false, [], arith, eq_iff,
}
use routerbot.Cache.Memory.{CacheEntry, InMemoryCacheBackend}
use routerbot.Cache.Backend.{KeyParts, KeyArguments, build_cache_key}
use routerbot.Cache.Backend.Memory.{memory_backend, Ready, memory-IsLawful}
use routerbot.Cache.Manager.{ResponseCacheManager, lookup, store, invalidate}
use routerbot.Cache.Backend.Keys.{some_tenant, SameRequest}
use routerbot.Cache.Manager.Laws.{IsLifetime, lookup-store, lookup-store_other, lookup-invalidate}

abbrev asked_by : String → KeyArguments String
asked_by tenant = record {
  model = "gpt";
  messages = "hi";
  temperature = none;
  top_p = none;
  max_tokens = none;
  tools = none;
  extra = none;
  tenant = some tenant;
}

abbrev digest : KeyParts String → String
digest p = p.model

abbrev manager : ResponseCacheManager
manager = record {
  default_ttl = 3600;
  namespace = "routerbot";
  skip_streaming = true;
  enabled = true;
}

abbrev empty : InMemoryCacheBackend ℕ
empty = record {
  max_size = 2;
  default_ttl = none;
  namespace = "routerbot";
  store = [];
  hits = 0;
  misses = 0;
}

empty-Ready : Ready empty
empty-Ready = record { valid = record { within = omega arith; distinct = tt }; room = omega arith }

lookup-store_example :
    (l : ℕ) × IsLifetime none 3600 l
    × (100 + l < 200
        → (lookup memory_backend digest 200 manager
            (asked_by "a")
            false
            none
            (store memory_backend digest 0 100 manager (asked_by "a") 7 none none empty)).0
          ≡ none)
    × (200 ≤ 100 + l
        → (lookup memory_backend digest 200 manager
            (asked_by "a")
            false
            none
            (store memory_backend digest 0 100 manager (asked_by "a") 7 none none empty)).0
          ≡ some record {
            key = build_cache_key digest "routerbot" (asked_by "a");
            response_data = 7;
            model = "gpt";
            created_at = 100;
            ttl = some l;
            metadata = 0;
          })
lookup-store_example =
    lookup-store memory_backend Ready memory-IsLawful digest 100 200 manager (asked_by "a") 7 0 none
      none false none empty empty-Ready refl refl refl

a≢b : ◌≢◌ {A = String} "a" "b"
a≢b e = cc ((eq_iff "a" "b").1 e)

lookup-store_other_example :
    ((lookup memory_backend digest 200 manager
        (asked_by "b")
        false
        none
        (store memory_backend digest 0 100 manager (asked_by "a") 7 none none empty)).0
      ≡ none)
    ⊎ ((lookup memory_backend digest 200 manager
          (asked_by "b")
          false
          none
          (store memory_backend digest 0 100 manager (asked_by "a") 7 none none empty)).0
        ≡ (lookup memory_backend digest 200 manager (asked_by "b") false none empty).0)
lookup-store_other_example =
    lookup-store_other memory_backend Ready memory-IsLawful digest 100 200 manager (asked_by "a")
      (asked_by "b") 7 0 none none false none empty empty-Ready refl (λ e. refl)
      (λ p. a≢b (cc (p.0)))

abbrev found : InMemoryCacheBackend ℕ → Option (CacheEntry ℕ)
found c = (lookup memory_backend digest 200 manager (asked_by "b") false none c).0

lookup-invalidate_example :
    ((none ≡ some_tenant (some "b"))
        × SameRequest (record (asked_by "a") { extra = none }) (asked_by "b")
      → found (invalidate memory_backend digest manager (asked_by "a") empty) ≡ none)
    × (¬ (
          (none ≡ some_tenant (some "b"))
          × SameRequest (record (asked_by "a") { extra = none }) (asked_by "b"))
        → found (invalidate memory_backend digest manager (asked_by "a") empty) ≡ found empty)
lookup-invalidate_example =
    lookup-invalidate memory_backend Ready memory-IsLawful digest 200 manager (asked_by "a")
      (asked_by "b") false none empty refl (λ e. refl)
