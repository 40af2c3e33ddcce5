-- ===== src/Proxy/RateLimit/Admission.antt =====
-- `RateLimitMiddleware` of src/routerbot/proxy/middleware/rate_limit_mw.py: a request is checked, then
-- recorded when it is allowed. Nothing is awaited in between, so both are one step at one time.
use routerbot.Base.{ℕ, Bool, List, [], ◌∷◌, if◌then◌else◌, Option, none, some, ◌≤◌}
use routerbot.Proxy.RateScope.{RateLimitResult, InMemoryRateLimiter}
use routerbot.Proxy.RateLimit.{Caller, check_rate_limit, record_request}

unfoldable pub admit : ℕ → Caller → InMemoryRateLimiter → RateLimitResult × InMemoryRateLimiter
admit now c l =
    let p = check_rate_limit now c l in if p.0.allowed then (p.0, record_request now c 0 p.1) else p

-- What becomes of a request: it goes on unchecked, is answered with status 429, or goes on with the
-- headers of the result on its response.
pub data Verdict : Type 0 where
  bypassed : Verdict
  too_many_requests : RateLimitResult → Verdict
  passed : RateLimitResult → Verdict

-- `limited` is whether the path starts with one of _LLM_PATH_PREFIXES. The middleware has no model
-- to name.
unfoldable pub dispatch :
    Bool → ℕ → Caller → Option InMemoryRateLimiter → Verdict × Option InMemoryRateLimiter
unfolding admit
dispatch limited now c none = (bypassed, none)
dispatch limited now c (some l) =
    if limited
    then (let p = admit now (record c { model_name = none }) l in
        ((if p.0.allowed then passed p.0 else too_many_requests p.0), some p.1))
    else (bypassed, some l)

-- The times at which requests, each with its time, were let through.
unfoldable pub admitted : List (ℕ × Caller) → InMemoryRateLimiter → List ℕ
admitted [] l = []
admitted (r ∷ rs) l =
    let p = admit r.0 r.1 l in
    let rest = admitted rs p.1 in if p.0.allowed then r.0 ∷ rest else rest

-- The requests come in the order of their times, from `since` on.
abbrev pub IsSorted : ℕ → List (ℕ × Caller) → Type 0
IsSorted since [] = Unit
IsSorted since (r ∷ rs) = (since ≤ r.0) × IsSorted r.0 rs
