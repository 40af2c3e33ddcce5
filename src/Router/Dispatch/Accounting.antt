-- ===== src/Router/Dispatch/Accounting.antt =====
-- What an attempt leaves behind: the counts of active requests, and the provider that it made.
use routerbot.Base.{
  ℕ, ◌+◌, ◌-◌, ◌*◌, String, ◌≡◌, refl, ap, ◌∙◌, List, [], ◌∷◌, map, arith, Dict, string_eq,
  lookup-insert, ==-refl, eqb, if◌then◌else◌,
}
use routerbot.Errors.{Outcome, returned, raised}
use routerbot.Router.Deployment.{Deployment, record_latency}
use routerbot.Router.Strategies.{Random}
use routerbot.Router.Retry.{RetryPolicy}
use routerbot.Router.Dispatch.{
  World, update_list, update_registry, update, start_request, end_request, make_provider,
  on_deployment, attempt, select_deployment, settle, run_provider, pick, get_deployments,
}

-- Which deployment has how many active requests, by object.
abbrev pub counts : List Deployment → List (ℕ × ℕ)
counts = map (λ d. (d.ref, d.active_requests))

abbrev pub registry_counts : Dict String (List Deployment) → List (List (ℕ × ℕ))
registry_counts = map (λ p. counts p.1)

abbrev pub active : {P : Type 0} → World P → List (List (ℕ × ℕ))
active w = registry_counts w.router.deployments

-- A change of one count, at an object.
abbrev pub at_ref : ℕ → (ℕ → ℕ) → List (ℕ × ℕ) → List (ℕ × ℕ)
at_ref ref g = map (λ p. if eqb p.0 ref then (p.0, g p.1) else p)

pub record Counts (f : Deployment → Deployment) (g : ℕ → ℕ) : Type 0 where
  pub same_ref : (d : Deployment) → (f d).ref ≡ d.ref
  pub count : (d : Deployment) → (f d).active_requests ≡ g d.active_requests

pub start-Counts : Counts start_request (λ n. n + 1)
start-Counts = record { same_ref = λ d. refl; count = λ d. refl }

pub end-Counts : (t : ℕ) → Counts (end_request t) (λ n. n - 1)
unfolding record_latency
end-Counts t = record { same_ref = λ d. ground arith; count = λ d. ground arith }

module _ (ref : ℕ) {f : Deployment → Deployment} {g : ℕ → ℕ} (c : Counts f g) where
  counts-update : (ds : List Deployment) → counts (update_list ref f ds) ≡ at_ref ref g (counts ds)
  counts-update [] = refl
  counts-update (d ∷ ds) = ground (arith, c.same_ref d, c.count d, counts-update ds)

  pub registry_counts-update :
      (r : Dict String (List Deployment))
      → registry_counts (update_registry ref f r) ≡ map (at_ref ref g) (registry_counts r)
  registry_counts-update [] = refl
  registry_counts-update ((k, ds) ∷ r) = ground (arith, counts-update ds, registry_counts-update r)

up_down : (ref : ℕ) (xs : List (ℕ × ℕ)) → at_ref ref (λ n. n - 1) (at_ref ref (λ n. n + 1) xs) ≡ xs
up_down ref [] = refl
up_down ref ((r, n) ∷ xs) = ground (arith, up_down ref xs)

pub all_up_down :
    (ref : ℕ) (xs : List (List (ℕ × ℕ)))
    → map (at_ref ref (λ n. n - 1)) (map (at_ref ref (λ n. n + 1)) xs) ≡ xs
all_up_down ref [] = refl
all_up_down ref (x ∷ xs) = ground (arith, up_down ref x, all_up_down ref xs)

module _ {P : Type 0} where
  pick-active :
      (r : Random) (model : String) (ds : List Deployment) (w : World P)
      → (pick r model ds w).1.router.deployments ≡ w.router.deployments
  pick-active r model [] w = refl
  pick-active r model (d ∷ ds) w = ground arith

  pub select_deployment-active :
      (rng : World P → Random) (model : String) (w : World P)
      → (select_deployment rng model w).1.router.deployments ≡ w.router.deployments
  unfolding select_deployment
  select_deployment-active rng model w =
      let (ds, w') = get_deployments model w in ground (arith, pick-active (rng w') model ds w')

  pub make_provider-active :
      (build : Deployment → Outcome P) (d : Deployment) (w : World P)
      → (make_provider build d w).1.router.deployments ≡ w.router.deployments
  unfolding make_provider
  make_provider-active build d w = ground arith

  settle-active :
      {A : Type 0} (p : RetryPolicy) (name : String) (o : Outcome A) (w : World P)
      → active (settle p name (o, w)).1 ≡ active w
  settle-active p name (returned a) w = refl
  settle-active p name (raised e) w = ground arith

  pub run_provider-active :
      {A : Type 0} (coro : P → World P → Outcome A × World P) (o : Outcome P) (w : World P)
      → ((q : P) (v : World P) → active (coro q v).1 ≡ active v)
      → active (run_provider coro (o, w)).1 ≡ active w
  run_provider-active coro (raised e) w keeps = refl
  run_provider-active coro (returned q) w keeps = keeps q w

  on_deployment-active :
      {A : Type 0} (build : Deployment → Outcome P) (p : RetryPolicy)
      (coro : P → World P → Outcome A × World P) (o : Outcome Deployment) (w : World P)
      → ((q : P) (v : World P) → active (coro q v).1 ≡ active v)
      → active (on_deployment build p coro (o, w)).1 ≡ active w
  on_deployment-active build p coro (raised e) w keeps = refl
  on_deployment-active build p coro (returned d) w keeps =
      let w₂ = update d.ref start_request w in
      let (o, w₃) = make_provider build d w₂ in
      let (r, w₄) = run_provider coro (o, w₃) in
      let (r', w₅) = settle p d.name (r, w₄) in
      registry_counts-update d.ref (end-Counts ((w₅.now - w₂.now) * 1000)) w₅.router.deployments
      ∙ ap (map (at_ref d.ref (λ n. n - 1))) (
          settle-active p d.name r w₄
          ∙ run_provider-active coro o w₃ keeps
          ∙ ap registry_counts (make_provider-active build d w₂)
          ∙ registry_counts-update d.ref start-Counts w.router.deployments)
      ∙ all_up_down d.ref (active w)

  -- Whatever it comes to, and whoever else is running, an attempt whose provider call leaves the
  -- counts of active requests alone leaves them as they were: none is leaked on any error path.
  pub attempt-active :
      {A : Type 0} (build : Deployment → Outcome P) (rng : World P → Random) (p : RetryPolicy)
      (model : String) (coro : P → World P → Outcome A × World P) (w : World P)
      → ((q : P) (v : World P) → active (coro q v).1 ≡ active v)
      → active (attempt build rng p model coro w).1 ≡ active w
  unfolding attempt
  attempt-active build rng p model coro w keeps =
      let (o, w') = select_deployment rng model w in
      on_deployment-active build p coro o w' keeps
      ∙ ap registry_counts (select_deployment-active rng model w)

  -- Once a deployment has its provider, every other deployment of the same name is given that one
  -- too: its own key, base URL and provider class are not consulted.
  pub make_provider_shared :
      (build : Deployment → Outcome P) (d d' : Deployment) (w : World P) (q : P)
      → (make_provider build d w).0 ≡ returned q
      → d'.name ≡ d.name
      → make_provider build d' (make_provider build d w).1
        ≡ (returned q, (make_provider build d w).1)
  unfolding make_provider
  make_provider_shared build d d' w q e n =
      ground (arith, ==-refl d.name, lookup-insert d.name d.name q w.router.provider_cache)
