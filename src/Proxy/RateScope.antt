-- ===== src/Proxy/RateScope.antt =====
-- src/routerbot/proxy/middleware/rate_limit.py: the results, the sliding windows, and the check and the
-- record of one scope. Readings of time.time() are arguments `now`, natural
-- numbers of a unit of which `minute` is sixty seconds; the readings inside one call are one.
-- Counts left over are integers in the code and may fall below zero there: `remaining` keeps the
-- limit and the count.
use routerbot.Base.{
  ℕ, ◌+◌, ◌-◌, String, ◌≡◌, Option, none, some, Bool, true, false, ◌&&◌, ◌↔◌, eq_iff, ◌==◌, ℤ,
  sub_ℕ, ltb_ℤ, min, List, [], ◌∷◌, ◌++◌, map, Dict, Eq, lookup, insert, string_eq, ltb, leb,
  if◌then◌else◌, length, keep, sum, get_or, arith,
}

pub data RateLimitScope : Type 0 where
  global key user team model : RateLimitScope

pub record RateLimitConfig : Type 0 where
  pub rpm : Option ℕ
  pub tpm : Option ℕ
  pub rpm_per_hour : Option ℕ
  pub tpm_per_hour : Option ℕ

-- RateLimitConfig()
abbrev pub unlimited : RateLimitConfig
unlimited = record { rpm = none; tpm = none; rpm_per_hour = none; tpm_per_hour = none }

pub record RateLimitResult : Type 0 where
  pub allowed : Bool
  pub scope : Option RateLimitScope
  pub limit_requests : Option ℕ
  pub remaining_requests : Option ℤ
  pub limit_tokens : Option ℕ
  pub remaining_tokens : Option ℤ
  pub reset_at : Option ℕ
  pub retry_after : Option ℕ

-- RateLimitResult(allowed=True)
abbrev pub nothing_yet : RateLimitResult
nothing_yet = record {
  allowed = true;
  scope = none;
  limit_requests = none;
  remaining_requests = none;
  limit_tokens = none;
  remaining_tokens = none;
  reset_at = none;
  retry_after = none;
}

-- _WindowEntry
pub record WindowEntry : Type 0 where
  pub timestamps : List ℕ
  pub token_records : List (ℕ × ℕ)

abbrev pub empty_window : WindowEntry
empty_window = record { timestamps = []; token_records = [] }

-- t > now - window
abbrev pub recent : ℕ → ℕ → ℕ → Bool
recent window now t = ltb now (t + window)

unfoldable pub prune : ℕ → ℕ → WindowEntry → WindowEntry
prune window now e = record {
  timestamps = keep (recent window now) e.timestamps;
  token_records = keep (λ p. recent window now p.0) e.token_records;
}

unfoldable pub request_count : ℕ → ℕ → WindowEntry → ℕ
unfolding prune
request_count window now e = length (prune window now e).timestamps

unfoldable pub token_count : ℕ → ℕ → WindowEntry → ℕ
unfolding prune
token_count window now e = sum (map (λ p. p.1) (prune window now e).token_records)

unfoldable pub window_record_request : ℕ → WindowEntry → WindowEntry
window_record_request now e = record e { timestamps = e.timestamps ++ now ∷ [] }

unfoldable pub record_tokens : ℕ → ℕ → WindowEntry → WindowEntry
record_tokens now tokens e =
    if ltb 0 tokens then record e { token_records = e.token_records ++ (now, tokens) ∷ [] } else e

-- Windows are kept by the scope's name and an identifier.
abbrev pub scope_beq : RateLimitScope → RateLimitScope → Bool
scope_beq global global = true
scope_beq key key = true
scope_beq user user = true
scope_beq team team = true
scope_beq model model = true
scope_beq _ _ = false

abbrev pub WindowKey : Type 0
WindowKey = RateLimitScope × String

abbrev pub window_key_beq : WindowKey → WindowKey → Bool
window_key_beq a b = scope_beq a.0 b.0 && a.1 == b.1

pub scope_beq_iff : (a b : RateLimitScope) → (scope_beq a b ≡ true) ↔ (a ≡ b)
scope_beq_iff a b = (λ h. ground arith, λ h. ground arith)

pub window_key_beq_iff : (a b : WindowKey) → (window_key_beq a b ≡ true) ↔ (a ≡ b)
window_key_beq_iff a b = (λ h. ground (arith, eq_iff a.1 b.1), λ h. ground (arith, eq_iff a.1 b.1))

instance abbrev pub window_key_eq : Eq WindowKey
window_key_eq = record { beq = window_key_beq; beq_iff = window_key_beq_iff }

pub record InMemoryRateLimiter : Type 0 where
  pub minute : ℕ
  pub global_config : RateLimitConfig
  pub default_key_config : RateLimitConfig
  pub key_configs : Dict String RateLimitConfig
  pub user_configs : Dict String RateLimitConfig
  pub team_configs : Dict String RateLimitConfig
  pub model_configs : Dict String RateLimitConfig
  pub windows : Dict WindowKey WindowEntry

-- self._windows[...], a defaultdict
unfoldable pub window_at : WindowKey → InMemoryRateLimiter → WindowEntry
window_at k l = get_or (lookup k l.windows) empty_window

-- (oldest + window) - now, at least 0, for the oldest of the times.
abbrev pub oldest : ℕ → List ℕ → ℕ
oldest t [] = t
oldest t (u ∷ us) = oldest (min t u) us

unfoldable pub time_until_slot : ℕ → ℕ → List ℕ → ℕ
time_until_slot window now [] = 0
time_until_slot window now (t ∷ ts) = oldest t ts + window - now

unfoldable pub time_until_token_slot : ℕ → ℕ → List (ℕ × ℕ) → ℕ
unfolding time_until_slot
time_until_token_slot window now records = time_until_slot window now (map (λ p. p.0) records)

abbrev pub reached : Option ℕ → ℕ → Bool
reached none n = false
reached (some limit) n = leb limit n

abbrev pub left : Option ℕ → ℕ → Option ℤ
left none n = none
left (some limit) n = some (sub_ℕ limit n)

-- What _check_scope answers, given the pruned window.
abbrev pub judge : RateLimitScope → RateLimitConfig → ℕ → ℕ → WindowEntry → RateLimitResult
judge s c window now e =
    let requests = length e.timestamps in
    let tokens = sum (map (λ p. p.1) e.token_records) in
    let base = record nothing_yet { scope = some s; reset_at = some (now + window) } in
    let after_rpm = record base {
      limit_requests = c.rpm;
      remaining_requests = left c.rpm requests;
    } in
    let after_tpm = record after_rpm {
      limit_tokens = c.tpm;
      remaining_tokens = left c.tpm tokens;
    } in
    if reached c.rpm requests
    then record after_rpm {
      allowed = false;
      retry_after = some (time_until_slot window now e.timestamps);
    }
    else if reached c.tpm tokens
    then record after_tpm {
      allowed = false;
      retry_after = some (time_until_token_slot window now e.token_records);
    }
    else after_tpm

unfoldable pub check_scope :
    RateLimitScope
    → String
    → RateLimitConfig
    → ℕ
    → InMemoryRateLimiter
    → RateLimitResult × InMemoryRateLimiter
unfolding window_at prune
check_scope s identifier c now l =
    let e = prune l.minute now (window_at (s, identifier) l) in
    (judge s c l.minute now e, record l { windows = insert (s, identifier) e l.windows })

abbrev tighter : Option ℤ → Option ℤ → Bool
tighter none current = false
tighter (some a) none = true
tighter (some a) (some b) = ltb_ℤ a b

abbrev earlier : Option ℕ → Option ℕ → Bool
earlier none current = false
earlier (some a) none = true
earlier (some a) (some b) = ltb a b

unfoldable pub merge_tightest : RateLimitResult → RateLimitResult → RateLimitResult
merge_tightest current candidate =
    let requests = tighter candidate.remaining_requests current.remaining_requests in
    let tokens = tighter candidate.remaining_tokens current.remaining_tokens in
    record current {
      limit_requests = (if requests then candidate.limit_requests else current.limit_requests);
      remaining_requests =
          (if requests then candidate.remaining_requests else current.remaining_requests);
      limit_tokens = (if tokens then candidate.limit_tokens else current.limit_tokens);
      remaining_tokens = (if tokens then candidate.remaining_tokens else current.remaining_tokens);
      reset_at =
          (if earlier candidate.reset_at current.reset_at
            then candidate.reset_at
            else current.reset_at);
    }
