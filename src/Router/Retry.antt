-- ===== src/Router/Retry.antt =====
-- src/routerbot/router/retry.py. A call is a function of the world that it runs in; `sleep` moves
-- the world's clock. Delays are whole numbers of one unit of time, and the factor of the random
-- jitter is the function `noise`. That a request is cancelled while it sleeps between two attempts,
-- which ends the loop with CancelledError, is not modelled.
pub mod Attempts
use routerbot.Base.{
  ℕ, zero, suc, ◌+◌, ◌*◌, ◌^◌, min, Bool, true, false, ◌||◌, List, [], ◌∷◌, any, eqb, if◌then◌else◌,
}
use routerbot.Errors.{
  Error, Outcome, returned, raised, is_bad_request, is_authentication, is_model_not_found,
  is_rate_limit, is_service_unavailable,
}
use routerbot.Errors

pub record RetryPolicy : Type 0 where
  pub max_retries : ℕ
  pub base_delay : ℕ
  pub max_delay : ℕ
  pub exponential_base : ℕ
  pub jitter : Bool
  pub retryable_status_codes : List ℕ

-- _RETRYABLE_STATUS_CODES
abbrev pub default_status_codes : List ℕ
default_status_codes = 429 ∷ 500 ∷ 502 ∷ 503 ∷ 504 ∷ []

unfoldable pub delay_for : (ℕ → ℕ) → RetryPolicy → ℕ → ℕ
delay_for noise p attempt =
    let delay = min (p.base_delay * p.exponential_base ^ attempt) p.max_delay in
    if p.jitter then noise delay else delay

-- The tests after the first three, by class.
abbrev pub retryable_rest : RetryPolicy → Error → Bool
retryable_rest p (Error.provider status) = any (λ c. eqb c status) p.retryable_status_codes
retryable_rest p Error.http_timeout = true
retryable_rest p Error.http_network = true
retryable_rest p _ = false

unfoldable pub should_retry : RetryPolicy → Error → Bool
should_retry p e =
    if is_authentication e || is_bad_request e || is_model_not_found e
    then false
    else if is_rate_limit e || is_service_unavailable e
    then true
    else retryable_rest p e

module _ {S A : Type 0} (noise : ℕ → ℕ) (sleep : ℕ → S → S) (p : RetryPolicy)
    (func : S → Outcome A × S) where
  -- The loop at number `attempt`, with `left` numbers after it in the range.
  unfoldable pub retry_loop : ℕ → ℕ → S → Outcome A × S
  retry_loop zero attempt s = func s
  retry_loop (suc left) attempt s =
      let (r, s') = func s in
      let again = retry_loop left (attempt + 1) (sleep (delay_for noise p attempt) s') in
      elim r [
        | returned a ↦ (returned a, s')
        | raised e ↦ if should_retry p e then again else (raised e, s')
      ]

  unfoldable pub with_retry : S → Outcome A × S
  unfolding retry_loop
  with_retry s = retry_loop p.max_retries 0 s
