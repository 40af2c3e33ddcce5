-- ===== src/Errors.antt =====
-- src/routerbot/core/exceptions.py: the exceptions that reach the router, with their class tests,
-- and the httpx and asyncio ones that `should_retry` sees beside them.
use routerbot.Base.{ℕ, String, Bool, true, false}

pub data Error : Type 0 where
  bad_request content_policy authentication permission_denied not_found : Error
  model_not_found : String → Error
  timeout rate_limit budget_exceeded configuration : Error
  provider : ℕ → Error
  service_unavailable : Error
  http_timeout http_network cancelled other : Error

-- isinstance(exc, BadRequestError); ContentPolicyError is a subclass.
abbrev pub is_bad_request : Error → Bool
is_bad_request bad_request = true
is_bad_request content_policy = true
is_bad_request _ = false

abbrev pub is_authentication : Error → Bool
is_authentication authentication = true
is_authentication _ = false

abbrev pub is_model_not_found : Error → Bool
is_model_not_found (model_not_found m) = true
is_model_not_found _ = false

-- isinstance(exc, RateLimitError); BudgetExceededError is a subclass.
abbrev pub is_rate_limit : Error → Bool
is_rate_limit rate_limit = true
is_rate_limit budget_exceeded = true
is_rate_limit _ = false

abbrev pub is_service_unavailable : Error → Bool
is_service_unavailable service_unavailable = true
is_service_unavailable _ = false

-- What an awaited call comes to.
pub data Outcome (A : Type 0) : Type 0 where
  returned : A → Outcome A
  raised : Error → Outcome A
