-- ===== src/Router/Fallback.antt =====
-- src/routerbot/router/fallback.py. The calls of the models run in a world that they change.
pub mod Chain
use routerbot.Base.{String, Option, none, some, Bool, ◌||◌, List, [], ◌∷◌, if◌then◌else◌}
use routerbot.Errors.{
  Error, Outcome, returned, raised, is_bad_request, is_authentication, is_model_not_found,
}

-- except (AuthenticationError, BadRequestError, ModelNotFoundError): raise
abbrev pub ends_chain : Error → Bool
ends_chain e = is_authentication e || is_bad_request e || is_model_not_found e

module _ {S A : Type 0} (provider_fn : String → S → Outcome A × S) where
  -- The loop over the models that are left, with the last exception so far.
  unfoldable pub try_models : Option Error → List String → S → Outcome A × S
  try_models none [] s = (raised Error.service_unavailable, s)
  try_models (some e) [] s = (raised e, s)
  try_models last (m ∷ ms) s =
      let (r, s') = provider_fn m s in
      elim r [
        | returned a ↦ (returned a, s')
        | raised e ↦
            let next = try_models (some e) ms s' in if ends_chain e then (raised e, s') else next
      ]

  unfoldable pub execute_with_fallbacks : String → List String → S → Outcome A × S
  unfolding try_models
  execute_with_fallbacks primary_model fallback_models s =
      try_models none (primary_model ∷ fallback_models) s
