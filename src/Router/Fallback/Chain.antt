-- ===== src/Router/Fallback/Chain.antt =====
-- Where the walk along the chain of models stops.
use routerbot.Base.{
  String, ◌≡◌, refl, Option, ◌⊎◌, none, some, Bool, true, false, List, [], ◌∷◌, ◌++◌, arith,
  if◌then◌else◌,
}
use routerbot.Errors.{Error, Outcome, returned, raised}
use routerbot.Router.Fallback.{ends_chain, try_models, execute_with_fallbacks}

-- An outcome after which the next model is tried.
abbrev pub goes_on : {A : Type 0} → Outcome A → Bool
goes_on (returned a) = false
goes_on (raised e) = if ends_chain e then false else true

goes_on-raised :
    {A : Type 0} (o : Outcome A)
    → goes_on o ≡ true
    → (e : Error) × (o ≡ raised e) × (ends_chain e ≡ false)
goes_on-raised (returned a) h = cc
goes_on-raised (raised e) h = (e, refl, ground arith)

module _ {S A : Type 0} (provider_fn : String → S → Outcome A × S) where
  -- The world after the calls of some models, in order.
  unfoldable pub after_models : List String → S → S
  after_models [] s = s
  after_models (m ∷ ms) s = after_models ms (provider_fn m s).1

  -- Each of these models, called in turn, fails in a way that the chain survives.
  abbrev pub AllGoOn : List String → S → Type 0
  AllGoOn [] s = Unit
  AllGoOn (m ∷ ms) s = (goes_on (provider_fn m s).0 ≡ true) × AllGoOn ms (provider_fn m s).1

  try_models_stops :
      (last : Option Error) (ms rest : List String) (m : String) (s : S)
      → AllGoOn ms s
      → (goes_on (provider_fn m (after_models ms s)).0 ≡ false) ⊎ (rest ≡ [])
      → try_models provider_fn last (ms ++ m ∷ rest) s ≡ provider_fn m (after_models ms s)
  unfolding try_models after_models
  try_models_stops none [] rest m s h e = ground arith
  try_models_stops (some _) [] rest m s h e = ground arith
  try_models_stops none (m' ∷ ms) rest m s h e =
      let (x, q, r) = goes_on-raised (provider_fn m' s).0 h.0 in
      ground (arith, q, r, try_models_stops (some x) ms rest m (provider_fn m' s).1 h.1 e)
  try_models_stops (some _) (m' ∷ ms) rest m s h e =
      let (x, q, r) = goes_on-raised (provider_fn m' s).0 h.0 in
      ground (arith, q, r, try_models_stops (some x) ms rest m (provider_fn m' s).1 h.1 e)

  -- Along the chain `failed ++ m ∷ rest` of a primary model and its fallbacks, where the models
  -- of `failed` raise errors that the chain survives, and `m` does not or is the last: the answer
  -- and the world are those of `m`, called after the others, and no later model is called.
  pub execute_with_fallbacks_stops :
      (primary : String) (fallbacks failed rest : List String) (m : String) (s : S)
      → primary ∷ fallbacks ≡ failed ++ m ∷ rest
      → AllGoOn failed s
      → (goes_on (provider_fn m (after_models failed s)).0 ≡ false) ⊎ (rest ≡ [])
      → execute_with_fallbacks provider_fn primary fallbacks s
        ≡ provider_fn m (after_models failed s)
  unfolding execute_with_fallbacks
  execute_with_fallbacks_stops primary fallbacks failed rest m s chain h e =
      rw chain (try_models_stops none failed rest m s h e)
