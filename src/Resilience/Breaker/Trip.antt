-- ===== src/Resilience/Breaker/Trip.antt =====
-- How a breaker opens, and how long it then refuses.
use routerbot.Base.{
  ℕ, ◌+◌, ◌<◌, String, ◌≡◌, refl, Option, some, false, List, [], ◌∷◌, map, arith, leb,
  if◌then◌else◌, length, All, sym, ◌∙◌, subst, inl, inr, Bool-cases,
}
use routerbot.Resilience.Breaker.{
  closed, open_, CircuitBreaker, Event, allow, success, failure, look, force_close, allow_request,
  step, run, excluded,
}
use routerbot.Resilience.Breaker.Machine.{IsValid, step-IsValid}

abbrev pub failures : List (ℕ × Option String) → List (ℕ × Event)
failures = map (λ f. (f.0, failure f.1))

open-failures :
    (b : CircuitBreaker) (fs : List (ℕ × Option String))
    → b.state ≡ open_
    → (run b (failures fs)).state ≡ open_
unfolding run
open-failures b [] o = o
open-failures b ((t, exc) ∷ fs) o =
    open-failures (step b (t, failure exc)) fs (unfold step in ground arith)

record IsCounted (b b' : CircuitBreaker) : Type 0 where
  same_config : b'.config ≡ b.config
  now_state :
      b'.state ≡ (if leb b.config.failure_threshold (b.failure_count + 1) then open_ else closed)
  now_count : b'.failure_count ≡ b.failure_count + 1

step-IsCounted :
    (b : CircuitBreaker) (t : ℕ) (exc : Option String)
    → b.state ≡ closed
    → excluded b.config exc ≡ false
    → IsCounted b (step b (t, failure exc))
unfolding step
step-IsCounted b t exc c f = ground arith

-- A closed breaker that meets nothing but failures that count is open exactly when their number,
-- with those before, has reached the threshold.
pub run-failures :
    (b : CircuitBreaker) (fs : List (ℕ × Option String))
    → IsValid b
    → b.state ≡ closed
    → All (λ f. excluded b.config f.1 ≡ false) fs
    → (run b (failures fs)).state
      ≡ (if leb b.config.failure_threshold (b.failure_count + length fs) then open_ else closed)
unfolding run
run-failures b [] v c counted = ground (arith, v.closed_low c)
run-failures b ((t, exc) ∷ fs) v c counted =
    let b' = step b (t, failure exc) in
    let s = step-IsCounted b t exc c counted.0 in
    let rest = subst (λ k. All (λ f. excluded k f.1 ≡ false) fs) (sym s.same_config) counted.1 in
    let valid = step-IsValid b t (failure exc) v in
    elim (Bool-cases (leb b.config.failure_threshold (b.failure_count + 1))) [
      | inl trips ↦ open-failures b' fs (s.now_state ∙ rw trips refl) ∙ ground arith
      | inr holds ↦
          run-failures b' fs valid (s.now_state ∙ rw holds refl) rest
          ∙ ground (arith, s.same_config, s.now_count)
    ]

-- An event that is not a forced reset.
abbrev pub IsOrdinary : Event → Type 0
IsOrdinary force_close = ⊥
IsOrdinary _ = Unit

record IsStillOpen (b b' : CircuitBreaker) : Type 0 where
  same_config : b'.config ≡ b.config
  is_open : b'.state ≡ open_
  same_time : b'.opened_at ≡ b.opened_at

step-IsStillOpen :
    (b : CircuitBreaker) (now : ℕ) (e : Event) (opened : ℕ)
    → b.state ≡ open_
    → b.opened_at ≡ some opened
    → now < opened + b.config.recovery_timeout
    → IsOrdinary e
    → IsStillOpen b (step b (now, e))
unfolding step
step-IsStillOpen b now allow opened o at early h = ground arith
step-IsStillOpen b now success opened o at early h = ground arith
step-IsStillOpen b now (failure exc) opened o at early h = ground arith
step-IsStillOpen b now look opened o at early h = ground arith
step-IsStillOpen b now force_close opened o at early h = absurd h

-- Until the recovery timeout has passed since it opened, an open breaker stays open whatever is
-- reported to it, short of a reset, and refuses every request.
pub run_open :
    (b : CircuitBreaker) (es : List (ℕ × Event)) (opened now : ℕ)
    → b.state ≡ open_
    → b.opened_at ≡ some opened
    → All (λ e. (e.0 < opened + b.config.recovery_timeout) × IsOrdinary e.1) es
    → now < opened + b.config.recovery_timeout
    → ((run b es).state ≡ open_) × ((allow_request now (run b es)).0 ≡ false)
unfolding run
run_open b [] opened now o at early late = unfold allow_request in ground arith
run_open b ((t, e) ∷ es) opened now o at early late =
    let s = step-IsStillOpen b t e opened o at early.0.0 early.0.1 in
    run_open (step b (t, e)) es opened now s.is_open (s.same_time ∙ at)
      (subst (λ k. All (λ x. (x.0 < opened + k.recovery_timeout) × IsOrdinary x.1) es)
        (sym s.same_config) early.1)
      (rw s.same_config late)
