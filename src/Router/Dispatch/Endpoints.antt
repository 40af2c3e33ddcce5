-- ===== src/Router/Dispatch/Endpoints.antt =====
-- The methods of `Router` beside chat completions, each with the provider's method as `call`, and what
-- is done to all of its providers and models at once.
use routerbot.Base.{ℕ, ◌≡◌, refl, String, List, [], ◌∷◌, keys, values, lookup, string_eq}
use routerbot.Errors.{Outcome}
use routerbot.Router.Deployment.{Deployment}
use routerbot.Router.Strategies.{Random}
use routerbot.Router.Dispatch.{World, execute_with_retry, make_provider, cached}

module _ {P A : Type 0} (build : Deployment → Outcome P) (rng : World P → Random) (noise : ℕ → ℕ)
    (sleep : ℕ → World P → World P) (model : String)
    (call : P → World P → Outcome A × World P) where
  unfoldable pub embeddings : World P → Outcome A × World P
  embeddings w = execute_with_retry build rng noise sleep model call w

  unfoldable pub image_generation : World P → Outcome A × World P
  image_generation w = execute_with_retry build rng noise sleep model call w

  unfoldable pub rerank : World P → Outcome A × World P
  rerank w = execute_with_retry build rng noise sleep model call w

  unfoldable pub audio_transcription : World P → Outcome A × World P
  audio_transcription w = execute_with_retry build rng noise sleep model call w

  unfoldable pub audio_speech : World P → Outcome A × World P
  audio_speech w = execute_with_retry build rng noise sleep model call w

module _ {P : Type 0} where
  unfoldable pub list_models : World P → List String
  list_models w = keys w.router.deployments

  abbrev close_all : (P → World P → World P) → List P → World P → World P
  close_all close [] w = w
  close_all close (p ∷ ps) w = close_all close ps (close p w)

  abbrev emptied : World P → World P
  emptied w = record w { router = record (w.router) { provider_cache = [] } }

  -- `close` is the awaited close() of a provider.
  unfoldable pub aclose : (P → World P → World P) → World P → World P
  aclose close w = emptied (close_all close (values w.router.provider_cache) w)

  -- After the providers are closed, the next request of any deployment makes a new one.
  pub make_provider-aclose :
      (build : Deployment → Outcome P) (close : P → World P → World P) (d : Deployment)
      (w : World P)
      → make_provider build d (aclose close w) ≡ cached d (build d) (aclose close w)
  unfolding make_provider aclose lookup
  make_provider-aclose build close d w = refl
