-- ===== src/Cache/Backend/Examples.antt =====
-- The theorems on backends and keys, at two tenants.
use routerbot.Base.{ℕ, String, ◌≡◌, ◌↔◌, refl, none, some}
use routerbot.Cache.Backend.{IsLawful, KeyArguments, build_cache_key}
use routerbot.Cache.Backend.Memory.{memory_backend, Ready, memory-IsLawful}
use routerbot.Cache.Backend.Keys.{some_tenant, SameRequest, build_cache_key-inj}

abbrev asked : KeyArguments String
asked = record {
  model = "gpt";
  messages = "hi";
  temperature = none;
  top_p = none;
  max_tokens = none;
  tools = none;
  extra = none;
  tenant = some "a";
}

abbrev asked_by : String → KeyArguments String
asked_by tenant = record asked { tenant = some tenant }

build_cache_key-inj_example :
    (build_cache_key (λ p. p.model) "routerbot" asked
      ≡ build_cache_key (λ p. p.model) "routerbot" (asked_by "b"))
    ↔ (◌≡◌ (some_tenant (some "a")) (some_tenant (some "b")) × SameRequest asked (asked_by "b"))
build_cache_key-inj_example =
    build_cache_key-inj (λ p. p.model) "routerbot" asked (asked_by "b") refl (λ e. refl)

memory-IsLawful_example : IsLawful (memory_backend {D = ℕ}) Ready
memory-IsLawful_example = memory-IsLawful {D = ℕ}
