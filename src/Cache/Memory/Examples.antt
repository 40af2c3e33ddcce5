-- ===== src/Cache/Memory/Examples.antt =====
-- The theorems on the cache, at one of two entries.
use routerbot.Base.{
  ℕ, String, ◌≡◌, ◌≢◌, refl, none, some, [], ◌∷◌, arith, lookup, eq_iff, string_eq,
}
use routerbot.Cache.Memory.{CacheEntry, InMemoryCacheBackend, set, stamped, read, run}
use routerbot.Cache.Memory.Capacity.{IsValid}
use routerbot.Cache.Memory.Recency.{lookup-run}

abbrev answer : String → CacheEntry ℕ
answer key = record {
  key = key;
  response_data = 7;
  model = "gpt";
  created_at = 100;
  ttl = none;
  metadata = 0;
}

abbrev pair : InMemoryCacheBackend ℕ
pair = record {
  max_size = 2;
  default_ttl = some 3600;
  namespace = "routerbot";
  store = ("a", answer "a") ∷ ("b", answer "b") ∷ [];
  hits = 0;
  misses = 0;
}

a≢b : ◌≢◌ {A = String} "a" "b"
a≢b e = cc ((eq_iff "a" "b").1 e)

pair-IsValid : IsValid pair
unfolding lookup
pair-IsValid = record { within = omega arith; distinct = (refl, (refl, tt)) }

lookup-run_example :
    lookup "b" (run (set 100 "b" (answer "b") none pair) (read 101 "a" ∷ [])).store
    ≡ some (stamped 100 (answer "b") none pair)
lookup-run_example =
    lookup-run 100 "b" (answer "b") none pair (read 101 "a" ∷ []) pair-IsValid (a≢b, tt)
      (omega arith)
