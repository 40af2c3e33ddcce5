-- ===== src/Router/Dispatch/Cooling.antt =====
-- A provider that keeps failing: its failures bring on the cooldown, and the cooldown then answers
-- the remaining retries with ModelNotFoundError, which ends the fallback chain.
use routerbot.Base.{
  ℕ, zero, suc, ◌+◌, ◌≤◌, ◌<◌, String, ◌≡◌, refl, sym, ap, ◌∙◌, inl, inr, true, arith, string_eq,
  ltb, leb, ltb→lt, ◌&&◌, subst, Bool-cases,
}
use routerbot.Errors.{Error, Outcome, returned, raised}
use routerbot.Router.Cooldown.{is_in_cooldown, record_failure, failure_count}
use routerbot.Router.Cooldown.Isolation.{IsConsistent, record_failure-IsConsistent}
use routerbot.Router.Cooldown.Episodes.{
  after_failure, failure_count-record_failure, settings-record_failure,
}
use routerbot.Router.Deployment.{Deployment}
use routerbot.Router.Strategies.{Random}
use routerbot.Router.Strategies.Choice.{IsRandom}
use routerbot.Router.Retry.{RetryPolicy, delay_for, should_retry, retry_loop, with_retry}
use routerbot.Router.Retry.Attempts.{loop-again, loop-final}
use routerbot.Router.Fallback.{execute_with_fallbacks}
use routerbot.Router.Dispatch.{World, attempt, execute_with_retry, chat_completion, policy}
use routerbot.Router.Dispatch.Selection.{select_deployment_cooling}
use routerbot.Router.Dispatch.Attempt.{
  IsServed, same-IsServed, below_threshold, attempt_failing, attempt_cooling,
}

module _ {P : Type 0} (build : Deployment → Outcome P)
    (builds : (d : Deployment) → (q : P) × (build d ≡ returned q)) where
  module _ {A : Type 0} (rng : World P → Random) (random : (v : World P) → IsRandom (rng v))
      (p : RetryPolicy) (model : String) (coro : P → World P → Outcome A × World P) where
    module _ (noise : ℕ → ℕ) (sleep : ℕ → World P → World P) (e : Error)
        (fails : (q : P) (v : World P) → coro q v ≡ (raised e, v)) (again : should_retry p e ≡ true)
        (sleeps : (d : ℕ) (v : World P) → sleep d v ≡ record v { now = v.now + d }) where
      abbrev func : World P → Outcome A × World P
      func = attempt build rng p model coro

      -- One failed attempt and the sleep after it, `n` attempts having gone before.
      record IsRetried (left n : ℕ) (w v : World P) : Type 0 where
        step :
            retry_loop noise sleep p func (suc left) n w
            ≡ retry_loop noise sleep p func left (n + 1) v
        served : IsServed model v
        consistent : IsConsistent v.router.cooldown
        count : failure_count model v.router.cooldown ≡ failure_count model w.router.cooldown + 1
        allowed : v.router.cooldown.allowed_fails ≡ w.router.cooldown.allowed_fails
        seconds : v.router.cooldown.cooldown_seconds ≡ w.router.cooldown.cooldown_seconds
        cooling :
            (is_in_cooldown v.now model v.router.cooldown).0
            ≡ leb w.router.cooldown.allowed_fails (failure_count model w.router.cooldown + 1)
              && ltb v.now (w.now + w.router.cooldown.cooldown_seconds)
        slept : v.now ≡ w.now + delay_for noise p n

      retried :
          (left n : ℕ) (w : World P)
          → IsServed model w
          → IsConsistent w.router.cooldown
          → failure_count model w.router.cooldown < w.router.cooldown.allowed_fails
          → (v : World P) × IsRetried left n w v
      retried left n w s c low =
          let cd = w.router.cooldown in
          let calm = below_threshold w.now model cd c low in
          let (w', tried, f) =
            attempt_failing build builds rng random p model coro e w fails again s
              (ap (λ x. x.0) calm) in
          let d = delay_for noise p n in
          let r : w'.router.cooldown ≡ record_failure w.now model cd =
            f.recorded ∙ ap (λ x. record_failure w.now model x.1) calm in
          let settings = settings-record_failure w.now model cd in
          (
            record w' { now = w'.now + d },
            record {
              step =
                  loop-again noise sleep p func left n w (rw tried again)
                  ∙ ap (retry_loop noise sleep p func left (n + 1))
                      (ap (λ x. sleep d x.1) tried ∙ sleeps d w');
              served = same-IsServed model w' _ refl f.served;
              consistent =
                  subst IsConsistent (sym r) (record_failure-IsConsistent w.now model cd c);
              count = ap (failure_count model) r ∙ failure_count-record_failure w.now model cd;
              allowed = ap (λ x. x.allowed_fails) r ∙ settings.0;
              seconds = ap (λ x. x.cooldown_seconds) r ∙ settings.1;
              cooling =
                  ap (λ x. (is_in_cooldown (w'.now + d) model x).0) r
                  ∙ after_failure w.now (w'.now + d) model cd c;
              slept = ap (λ t. t + d) f.same_now;
            },
          )

      -- Below the threshold with enough retries left, every attempt fails until the cooldown, and
      -- the attempt after that finds no deployment.
      loop_failing :
          (left n : ℕ) (w : World P)
          → IsServed model w
          → IsConsistent w.router.cooldown
          → failure_count model w.router.cooldown < w.router.cooldown.allowed_fails
          → w.router.cooldown.allowed_fails ≤ failure_count model w.router.cooldown + left
          → ((k : ℕ) → k < n + left → delay_for noise p k < w.router.cooldown.cooldown_seconds)
          → (retry_loop noise sleep p func left n w).0 ≡ raised (Error.model_not_found model)
      unfolding should_retry
      loop_failing zero n w s c low high short = absurd (omega arith)
      loop_failing (suc left) n w s c low high short =
          let (v, r) = retried left n w s c low in
          let onward =
            λ (l : failure_count model v.router.cooldown < v.router.cooldown.allowed_fails).
              loop_failing left (n + 1) v r.served r.consistent l
                (omega (arith, r.count, r.allowed)) (λ k b. rw r.seconds (short k (omega arith))) in
          elim (Bool-cases
            (ltb (failure_count model w.router.cooldown + 1) w.router.cooldown.allowed_fails)) [
              | inl more ↦ rw r.step (onward (omega (arith, r.count, r.allowed, ltb→lt _ _ more)))
              | inr reached ↦
                  let cool : (is_in_cooldown v.now model v.router.cooldown).0 ≡ true =
                    r.cooling ∙ ground (arith, r.slept, short n (omega arith)) in
                  let ends = attempt_cooling build builds rng random p model coro v r.served cool in
                  rw r.step (
                    rw (loop-final noise sleep p func left (n + 1) v (rw ends refl))
                      (ap (λ x. x.0) ends))
            ]

module _ {P A : Type 0} (build : Deployment → Outcome P) (rng : World P → Random) (noise : ℕ → ℕ)
    (sleep : ℕ → World P → World P) (call : String → P → World P → Outcome A × World P) where
  -- A model whose provider fails at once and each time with an error worth a retry, such as 503,
  -- has been asked fewer than `allowed_fails` times, and the retries left reach that number: then,
  -- if each delay is shorter than the cooldown, the request fails with ModelNotFoundError for the primary
  -- model, whatever fallbacks are configured. None of them is tried.
  pub chat_completion_failing :
      (e : Error) (model : String) (w : World P)
      → ((d : Deployment) → (q : P) × (build d ≡ returned q))
      → ((v : World P) → IsRandom (rng v))
      → ((d : ℕ) (v : World P) → sleep d v ≡ record v { now = v.now + d })
      → ((q : P) (v : World P) → call model q v ≡ (raised e, v))
      → should_retry (policy w) e ≡ true
      → IsServed model w
      → IsConsistent w.router.cooldown
      → failure_count model w.router.cooldown < w.router.cooldown.allowed_fails
      → w.router.cooldown.allowed_fails
        ≤ failure_count model w.router.cooldown + w.router.max_retries
      → ((k : ℕ)
          → k < w.router.max_retries
          → delay_for noise (policy w) k < w.router.cooldown.cooldown_seconds)
      → (chat_completion build rng noise sleep model call w).0
        ≡ raised (Error.model_not_found model)
  unfolding chat_completion execute_with_retry with_retry execute_with_fallbacks
  chat_completion_failing e model w builds random sleeps fails again s c low high short =
      let ends =
        loop_failing build builds rng random (policy w) model (call model) noise sleep e fails again
          sleeps w.router.max_retries 0 w s c low high (λ k b. short k (omega arith)) in
      ground (arith, ends)

  -- When every deployment of the primary model is cooling, the request fails with
  -- ModelNotFoundError and leaves the world as it was: no fallback is tried.
  pub chat_completion_cooling :
      (model : String) (w : World P)
      → IsServed model w
      → (is_in_cooldown w.now model w.router.cooldown).0 ≡ true
      → chat_completion build rng noise sleep model call w
        ≡ (raised (Error.model_not_found model), w)
  unfolding chat_completion execute_with_retry with_retry execute_with_fallbacks should_retry
  chat_completion_cooling model w s k =
      let func = attempt build rng (policy w) model (call model) in
      let ends : func w ≡ (raised (Error.model_not_found model), w) =
        unfold attempt in
        rw (select_deployment_cooling rng w model s.first s.others s.found s.named k) refl in
      ground (
        arith,
        ends,
        loop-final noise sleep (policy w) func w.router.max_retries 0 w (rw ends refl),
      )
