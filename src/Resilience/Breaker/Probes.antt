-- ===== src/Resilience/Breaker/Probes.antt =====
-- The requests that a half-open breaker lets through.
use routerbot.Base.{
  ℕ, ◌+◌, ◌-◌, ◌≤◌, ◌<◌, min, ◌≡◌, Bool, List, [], ◌∷◌, arith, ltb, if◌then◌else◌, length, max, ap,
  ◌∙◌,
}
use routerbot.Resilience.Breaker.{half_open, CircuitBreaker, allow_request, record_success}

-- Requests at the times of a list, with nothing reported back: how many are let through.
unfoldable pub admitted : List ℕ → CircuitBreaker → ℕ
admitted [] b = 0
admitted (t ∷ ts) b =
    let (yes_, b') = allow_request t b in
    let rest = admitted ts b' in if yes_ then rest + 1 else rest

record IsAsked (b : CircuitBreaker) (r : Bool × CircuitBreaker) : Type 0 where
  answer : r.0 ≡ ltb b.half_open_calls b.config.half_open_max_calls
  same_config : r.1.config ≡ b.config
  same_state : r.1.state ≡ half_open
  calls :
      r.1.half_open_calls
      ≡ min (b.half_open_calls + 1) (max b.half_open_calls b.config.half_open_max_calls)
  successes : r.1.success_count ≡ b.success_count

allow_request-IsAsked :
    (now : ℕ) (b : CircuitBreaker) → b.state ≡ half_open → IsAsked b (allow_request now b)
unfolding allow_request
allow_request-IsAsked now b h = ground arith

-- A half-open breaker lets through what is left of its probe calls, and no more.
pub admitted-half_open :
    (ts : List ℕ) (b : CircuitBreaker)
    → b.state ≡ half_open
    → admitted ts b ≡ min (length ts) (b.config.half_open_max_calls - b.half_open_calls)
unfolding admitted
admitted-half_open [] b h = ground arith
admitted-half_open (t ∷ ts) b h =
    let a = allow_request-IsAsked t b h in
    ground (
      arith,
      a.answer,
      a.same_config,
      a.calls,
      admitted-half_open ts (allow_request t b).1 a.same_state,
    )

-- A request whose call succeeds, if it is let through.
unfoldable pub probe : ℕ → CircuitBreaker → CircuitBreaker
probe t b = let (yes_, b') = allow_request t b in if yes_ then record_success t b' else b'

unfoldable pub probes : List ℕ → CircuitBreaker → CircuitBreaker
probes [] b = b
probes (t ∷ ts) b = probes ts (probe t b)

record IsProbed (b b' : CircuitBreaker) : Type 0 where
  same_config : b'.config ≡ b.config
  same_state : b'.state ≡ half_open
  calls : b'.half_open_calls ≡ min (b.half_open_calls + 1) b.config.half_open_max_calls
  successes : b'.success_count ≤ b'.half_open_calls

probe-IsProbed :
    (t : ℕ) (b : CircuitBreaker)
    → b.state ≡ half_open
    → b.success_count ≤ b.half_open_calls
    → b.half_open_calls ≤ b.config.half_open_max_calls
    → b.config.half_open_max_calls < b.config.success_threshold
    → IsProbed b (probe t b)
unfolding probe record_success
probe-IsProbed t b h s c few =
    let a = allow_request-IsAsked t b h in
    ground (arith, a.answer, a.same_config, a.same_state, a.calls, a.successes)

-- Where fewer probe calls are allowed than successes are needed, a half-open breaker does not
-- close, though every probe succeeds; and it lets a further request through exactly while probe
-- calls are left, at any time, so never again after the last.
pub probes_never_close :
    (ts : List ℕ) (b : CircuitBreaker) (now : ℕ)
    → b.state ≡ half_open
    → b.success_count ≤ b.half_open_calls
    → b.half_open_calls ≤ b.config.half_open_max_calls
    → b.config.half_open_max_calls < b.config.success_threshold
    → ((probes ts b).state ≡ half_open)
      × ((allow_request now (probes ts b)).0
          ≡ ltb (b.half_open_calls + length ts) b.config.half_open_max_calls)
unfolding probes
probes_never_close [] b now h s c few = (h, (allow_request-IsAsked now b h).answer ∙ ground arith)
probes_never_close (t ∷ ts) b now h s c few =
    let p = probe-IsProbed t b h s c few in
    let (st, refused) =
      probes_never_close ts (probe t b) now p.same_state p.successes
        (omega (arith, p.calls, ap (λ k. k.half_open_max_calls) p.same_config))
        (omega (
          arith,
          ap (λ k. k.half_open_max_calls) p.same_config,
          ap (λ k. k.success_threshold) p.same_config,
        )) in
    (st, ground (arith, refused, p.calls, p.same_config))
