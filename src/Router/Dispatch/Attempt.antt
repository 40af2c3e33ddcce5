-- ===== src/Router/Dispatch/Attempt.antt =====
-- One attempt of a request: on a provider that fails, and on a model that is cooling.
use routerbot.Base.{
  ℕ, ◌-◌, ◌*◌, ◌<◌, String, ◌≡◌, refl, ap, ◌∙◌, inl, inr, some, true, false, List, [], ◌∷◌, arith,
  Dict, lookup, string_eq, Option-cases,
}
use routerbot.Errors.{Error, Outcome, returned, raised}
use routerbot.Router.Cooldown.{CooldownManager, is_in_cooldown, record_failure, failure_count}
use routerbot.Router.Cooldown.Isolation.{IsConsistent}
use routerbot.Router.Deployment.{Deployment, record_latency}
use routerbot.Router.Strategies.{Random}
use routerbot.Router.Strategies.Choice.{IsRandom}
use routerbot.Router.Retry.{RetryPolicy, should_retry}
use routerbot.Router.Dispatch.{
  World, update_list, with_cooldown, update_registry, update, start_request, end_request,
  make_provider, cached, attempt,
}
use routerbot.Router.Dispatch.Selection.{
  AllNamed, select_deployment_cooling, select_deployment_serving,
}

-- The model is registered, under its own name, with at least one deployment.
pub record IsServed {P : Type 0} (model : String) (w : World P) : Type 0 where
  pub first : Deployment
  pub others : List Deployment
  pub found : lookup model w.router.deployments ≡ some (first ∷ others)
  pub named : AllNamed model (first ∷ others)

-- A change of the object that keeps its name.
abbrev KeepsName : (Deployment → Deployment) → Type 0
KeepsName f = (d : Deployment) → (f d).name ≡ d.name

update_list-named :
    (ref : ℕ) (f : Deployment → Deployment) (model : String) (ds : List Deployment)
    → KeepsName f
    → AllNamed model ds
    → AllNamed model (update_list ref f ds)
update_list-named ref f model [] k h = tt
update_list-named ref f model (d ∷ ds) k h =
    (ground (arith, k d, h.0), update_list-named ref f model ds k h.1)

lookup-update_registry :
    (ref : ℕ) (f : Deployment → Deployment) (model : String) (ds : List Deployment)
    (r : Dict String (List Deployment))
    → lookup model r ≡ some ds
    → lookup model (update_registry ref f r) ≡ some (update_list ref f ds)
unfolding lookup
lookup-update_registry ref f model ds [] e = cc
lookup-update_registry ref f model ds ((m, x) ∷ r) e =
    ground (arith, lookup-update_registry ref f model ds r)

pub same-IsServed :
    {P : Type 0} (model : String) (w w' : World P)
    → w'.router.deployments ≡ w.router.deployments
    → IsServed model w
    → IsServed model w'
same-IsServed model w w' e v = record {
  first = v.first;
  others = v.others;
  found = ap (lookup model) e ∙ v.found;
  named = v.named;
}

update-IsServed :
    {P : Type 0} (ref : ℕ) (f : Deployment → Deployment) (model : String) (w : World P)
    → KeepsName f
    → IsServed model w
    → IsServed model (update ref f w)
update-IsServed ref f model w k v = record {
  first = _;
  others = update_list ref f v.others;
  found = lookup-update_registry ref f model (v.first ∷ v.others) w.router.deployments v.found;
  named = update_list-named ref f model (v.first ∷ v.others) k v.named;
}

start_request-KeepsName : KeepsName start_request
start_request-KeepsName d = refl

end_request-KeepsName : (t : ℕ) → KeepsName (end_request t)
unfolding record_latency
end_request-KeepsName t d = ground arith

-- A deployment with fewer failures than are allowed is not cooling, and asking changes nothing.
pub below_threshold :
    (now : ℕ) (id : String) (c : CooldownManager)
    → IsConsistent c
    → failure_count id c < c.allowed_fails
    → is_in_cooldown now id c ≡ (false, c)
unfolding is_in_cooldown
below_threshold now id c v h = elim (Option-cases (lookup id c.cooldown_until)) [
  | inl e ↦ rw (e, is_in_cooldown) refl
  | inr (u, e) ↦ absurd (omega (arith, v.at id u e))
]

module _ {P : Type 0} (build : Deployment → Outcome P)
    (builds : (d : Deployment) → (q : P) × (build d ≡ returned q)) where
  make_provider_ready :
      (d : Deployment) (w : World P)
      → (q : P) × (w' : World P) × (make_provider build d w ≡ (returned q, w'))
        × (w'.now ≡ w.now)
        × (w'.router.cooldown ≡ w.router.cooldown)
        × (w'.router.deployments ≡ w.router.deployments)
  unfolding make_provider
  make_provider_ready d w = elim (Option-cases (lookup d.name w.router.provider_cache)) [
    | inl e ↦
        let (q, b) = builds d in
        (q, (cached d (returned q) w).1, rw (e, make_provider) (rw b refl), refl, refl, refl)
    | inr (q, e) ↦ (q, w, rw (e, make_provider) refl, refl, refl, refl)
  ]

  module _ {A : Type 0} (rng : World P → Random) (random : (v : World P) → IsRandom (rng v))
      (p : RetryPolicy) (model : String) (coro : P → World P → Outcome A × World P) where
    -- A failed attempt: no time passes, the failure is recorded, and the model is still served.
    pub record IsFailed (w w' : World P) : Type 0 where
      pub same_now : w'.now ≡ w.now
      pub recorded :
          w'.router.cooldown
          ≡ record_failure w.now model (is_in_cooldown w.now model w.router.cooldown).1
      pub served : IsServed model w'

    pub attempt_failing :
        (e : Error) (w : World P)
        → ((q : P) (v : World P) → coro q v ≡ (raised e, v))
        → should_retry p e ≡ true
        → IsServed model w
        → (is_in_cooldown w.now model w.router.cooldown).0 ≡ false
        → (w' : World P) × (attempt build rng p model coro w ≡ (raised e, w')) × IsFailed w w'
    unfolding attempt
    attempt_failing e w fails again v k =
        let (d, w₁, selected, s) =
          select_deployment_serving rng w model v.first v.others random v.found v.named k in
        let w₂ = update d.ref start_request w₁ in
        let (q, w₃, made, now₃, cooldown₃, deployments₃) = make_provider_ready d w₂ in
        let w₄ = with_cooldown (record_failure w₃.now d.name w₃.router.cooldown) w₃ in
        let elapsed = (w₄.now - w₂.now) * 1000 in
        let served₂ =
          update-IsServed d.ref start_request model w₁ start_request-KeepsName
            (same-IsServed model w w₁ s.same_deployments v) in
        (
          update d.ref (end_request elapsed) w₄,
          rw (selected, made, fails q w₃, again) refl,
          record {
            same_now = now₃ ∙ s.same_now;
            recorded = cc (now₃, cooldown₃, s.same_now, s.asked, s.named);
            served =
                update-IsServed d.ref (end_request elapsed) model w₄ (end_request-KeepsName elapsed)
                  (same-IsServed model w₂ w₄ deployments₃ served₂);
          },
        )

    pub attempt_cooling :
        (w : World P)
        → IsServed model w
        → (is_in_cooldown w.now model w.router.cooldown).0 ≡ true
        → attempt build rng p model coro w ≡ (raised (Error.model_not_found model), w)
    unfolding attempt
    attempt_cooling w v k =
        rw (select_deployment_cooling rng w model v.first v.others v.found v.named k) refl
