-- ===== src/Router/Dispatch/Selection.antt =====
-- Which deployments of a model can be selected, and what a selection changes.
use routerbot.Base.{
  ℕ, String, ◌≡◌, refl, some, true, false, List, [], ◌∷◌, arith, lookup, has, string_eq, ==-refl,
  lookup-remove, All, In-All, if◌then◌else◌,
}
use routerbot.Errors.{Error, returned, raised}
use routerbot.Router.Cooldown.{CooldownManager, is_in_cooldown}
use routerbot.Router.Deployment.{Deployment}
use routerbot.Router.Strategies.{Random, select}
use routerbot.Router.Strategies.Choice.{IsRandom, select-In}
use routerbot.Router.Dispatch.{
  World, available, with_cooldown, get_deployments, select_deployment, with_strategy,
}

-- Asking again at the same time changes nothing.
ask_twice :
    (now : ℕ) (id : String) (c : CooldownManager)
    → is_in_cooldown now id (is_in_cooldown now id c).1 ≡ is_in_cooldown now id c
unfolding is_in_cooldown
ask_twice now id c =
    ground (arith, ==-refl id, lookup-remove id id c.failures, lookup-remove id id c.cooldown_until)

-- Asking about a deployment that is cooling changes nothing.
pub ask_cooling :
    (now : ℕ) (id : String) (c : CooldownManager)
    → (is_in_cooldown now id c).0 ≡ true
    → (is_in_cooldown now id c).1 ≡ c
unfolding is_in_cooldown
ask_cooling now id c h = ground arith

abbrev pub AllNamed : String → List Deployment → Type 0
AllNamed name = All (λ d. d.name ≡ name)

available-named :
    (now : ℕ) (name : String) (d : Deployment) (ds : List Deployment) (c : CooldownManager)
    → AllNamed name (d ∷ ds)
    → available now (d ∷ ds) c
      ≡ ((if (is_in_cooldown now name c).0 then [] else d ∷ ds), (is_in_cooldown now name c).1)
unfolding available
available-named now name d [] c h = ground arith
available-named now name d (d' ∷ ds) c h = ground (
  arith,
  h.0,
  ask_twice now name c,
  available-named now name d' ds (is_in_cooldown now name c).1 h.1,
)

-- The deployments registered under a model name carry that name, as `_build_registry` gives it to
-- them. A cooldown is kept by that name, so all of the model's deployments can be selected or none.
pub get_deployments_all_or_none :
    {P : Type 0} (w : World P) (model : String) (ds : List Deployment)
    → lookup model w.router.deployments ≡ some ds
    → AllNamed model ds
    → (get_deployments model w).0
      ≡ (if (is_in_cooldown w.now model w.router.cooldown).0 then [] else ds)
unfolding get_deployments
get_deployments_all_or_none w model [] e h = unfold available in ground arith
get_deployments_all_or_none w model (d ∷ ds) e h =
    ground (arith, e, available-named w.now model d ds w.router.cooldown h)

-- What a selection leaves of the world.
pub record IsSelected {P : Type 0} (model : String) (w w' : World P) (d : Deployment) : Type 0 where
  pub named : d.name ≡ model
  pub same_now : w'.now ≡ w.now
  pub same_deployments : w'.router.deployments ≡ w.router.deployments
  pub asked : w'.router.cooldown ≡ (is_in_cooldown w.now model w.router.cooldown).1

module _ {P : Type 0} (rng : World P → Random) where
  pub select_deployment_cooling :
      (w : World P) (model : String) (d : Deployment) (ds : List Deployment)
      → lookup model w.router.deployments ≡ some (d ∷ ds)
      → AllNamed model (d ∷ ds)
      → (is_in_cooldown w.now model w.router.cooldown).0 ≡ true
      → select_deployment rng model w ≡ (raised (Error.model_not_found model), w)
  unfolding select_deployment has
  select_deployment_cooling w model d ds e h k = ground (
    arith,
    available-named w.now model d ds w.router.cooldown h,
    ask_cooling w.now model w.router.cooldown k,
  )

  abbrev asked_world : String → World P → World P
  asked_world model w = with_cooldown (is_in_cooldown w.now model w.router.cooldown).1 w

  -- Unless the model is cooling, one of its deployments is selected.
  pub select_deployment_serving :
      (w : World P) (model : String) (d : Deployment) (ds : List Deployment)
      → ((v : World P) → IsRandom (rng v))
      → lookup model w.router.deployments ≡ some (d ∷ ds)
      → AllNamed model (d ∷ ds)
      → (is_in_cooldown w.now model w.router.cooldown).0 ≡ false
      → (a : Deployment) × (w' : World P) × (select_deployment rng model w ≡ (returned a, w'))
        × IsSelected model w w' a
  unfolding select_deployment has
  select_deployment_serving w model d ds random e h k =
      let w₁ = asked_world model w in
      let (a, q, m) = select-In w.router.strategy (rng w₁) (d ∷ ds) (random w₁) (omega arith) in
      let w₂ = with_strategy (select w.router.strategy (rng w₁) (d ∷ ds)).1 w₁ in
      (
        a,
        w₂,
        ground (arith, e, k, q, available-named w.now model d ds w.router.cooldown h),
        record {
          named = In-All (λ x. x.name ≡ model) a (d ∷ ds) m h;
          same_now = refl;
          same_deployments = refl;
          asked = refl;
        },
      )
