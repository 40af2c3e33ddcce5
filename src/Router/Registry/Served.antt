-- ===== src/Router/Registry/Served.antt =====
-- Which deployments a router that is built from a configuration has.
use routerbot.Base.{
  ℕ, suc, ◌≡◌, refl, sym, ap, ◌∙◌, String, arith, Option, none, some, List, [], ◌∷◌, ◌++◌, lookup,
  lookup-insert, lookup-nil, string_eq, ◌==◌, eq_iff, get_or, if◌then◌else◌, append_assoc,
  append-nil, All, length, get_elem?, Bool-cases, Option-cases, inl, inr, subst, keep, some_inj,
}
use routerbot.Router.Deployment.{Deployment}
use routerbot.Router.Strategies.{Random, select, cost_based, has_cost, cheapest}
use routerbot.Router.Registry.{
  ModelEntry, before_slash, deployment_of, Deployments, add_deployment, register_entries,
}

abbrev prepend : Option Deployment → List Deployment → List Deployment
prepend none ds = ds
prepend (some d) ds = d ∷ ds

-- The deployments of a model's entries, in the order of these.
abbrev pub deployments_for :
    (String → Option String) → String → ℕ → List ModelEntry → List Deployment
deployments_for environ model n [] = []
deployments_for environ model n (e ∷ es) =
    let rest = deployments_for environ model (suc n) es in
    if e.model_name == model then prepend (deployment_of environ n e) rest else rest

-- The model's list, if it has a deployment.
abbrev pub listed : List Deployment → Option (List Deployment)
listed [] = none
listed (d ∷ ds) = some (d ∷ ds)

listed_last : (ds : List Deployment) (d : Deployment) → listed (ds ++ d ∷ []) ≡ some (ds ++ d ∷ [])
listed_last [] d = refl
listed_last (x ∷ ds) d = refl

or-listed : (ds : List Deployment) → get_or (listed ds) [] ≡ ds
or-listed [] = refl
or-listed (d ∷ ds) = refl

lookup-add_deployment :
    (model name : String) (o : Option Deployment) (ds : List Deployment) (d : Deployments)
    → lookup model d ≡ listed ds
    → lookup model (add_deployment name o d)
      ≡ listed (if name == model then ds ++ prepend o [] else ds)
lookup-add_deployment model name none ds d h = ground (arith, append-nil ds)
lookup-add_deployment model name (some x) ds d h =
    lookup-insert name model (get_or (lookup name d) [] ++ x ∷ []) d
    ∙ elim (Bool-cases (name == model)) [
      | inl t ↦
          let same = (eq_iff name model).0 t in
          rw t (
            ap (λ k. some (get_or (lookup k d) [] ++ x ∷ [])) same
            ∙ ap (λ o. some (get_or o [] ++ x ∷ [])) h
            ∙ ap (λ l. some (l ++ x ∷ [])) (or-listed ds)
            ∙ sym (listed_last ds x))
      | inr f ↦ rw f h
    ]

lookup-register :
    (environ : String → Option String) (model : String) (n : ℕ) (entries : List ModelEntry)
    (ds : List Deployment) (d : Deployments)
    → lookup model d ≡ listed ds
    → lookup model (register_entries environ n entries d)
      ≡ listed (ds ++ deployments_for environ model n entries)
unfolding register_entries
lookup-register environ model n [] ds d h = rw (append-nil ds) h
lookup-register environ model n (e ∷ es) ds d h =
    lookup-register environ model (suc n) es
      (if e.model_name == model then ds ++ prepend (deployment_of environ n e) [] else ds)
      (add_deployment e.model_name (deployment_of environ n e) d)
      (lookup-add_deployment model e.model_name (deployment_of environ n e) ds d h)
    ∙ ap listed (elim (Bool-cases (e.model_name == model)) [
      | inl t ↦
          rw t (
            append_prepend (deployment_of environ n e) ds
              (deployments_for environ model (suc n) es))
      | inr f ↦ rw f refl
    ])
  where
    append_prepend :
        (o : Option Deployment) (xs ys : List Deployment)
        → (xs ++ prepend o []) ++ ys ≡ xs ++ prepend o ys
    append_prepend none xs ys = ap (λ l. l ++ ys) (append-nil xs)
    append_prepend (some d) xs ys = append_assoc xs (d ∷ []) ys

-- After the configuration is read, a model is registered exactly if one of its entries names a
-- provider, with one deployment for each such entry, in their order.
pub lookup-register_entries :
    (environ : String → Option String) (model : String) (entries : List ModelEntry)
    → lookup model (register_entries environ 0 entries [])
      ≡ listed (deployments_for environ model 0 entries)
lookup-register_entries environ model entries =
    lookup-register environ model 0 entries [] [] (lookup-nil model)

-- What every deployment of a configuration is like.
abbrev pub IsConfigured : String → Deployment → Type 0
IsConfigured model d = (d.name ≡ model) × (d.cost_per_token ≡ none) × (d.weight ≡ 1)

deployment_of-IsConfigured :
    (environ : String → Option String) (n : ℕ) (e : ModelEntry) (d : Deployment)
    → deployment_of environ n e ≡ some d
    → IsConfigured e.model_name d
unfolding deployment_of
deployment_of-IsConfigured environ n e d h = elim (Option-cases (before_slash e.model)) [
  | inl m ↦ let h' = rw m at h in cc
  | inr (p, m) ↦
      let h' = rw m at h in subst (IsConfigured e.model_name) (some_inj h') (refl, refl, refl)
]

deployments_for-IsConfigured :
    (environ : String → Option String) (model : String) (n : ℕ) (entries : List ModelEntry)
    → All (IsConfigured model) (deployments_for environ model n entries)
deployments_for-IsConfigured environ model n [] = tt
deployments_for-IsConfigured environ model n (e ∷ es) =
    let rest = deployments_for-IsConfigured environ model (suc n) es in
    elim (Bool-cases (e.model_name == model)) [
      | inl t ↦ elim (Option-cases (deployment_of environ n e)) [
        | inl m ↦ rw (t, m) rest
        | inr (d, m) ↦
            rw (t, m)
              (
                subst (λ k. IsConfigured k d) ((eq_iff e.model_name model).0 t)
                    (deployment_of-IsConfigured environ n e d m),
                rest,
              )
      ]
      | inr f ↦ rw f rest
    ]

listed-eq : (xs ds : List Deployment) → listed xs ≡ some ds → xs ≡ ds
listed-eq [] ds h = cc
listed-eq (x ∷ xs) ds h = some_inj h

no_costs :
    (model : String) (ds : List Deployment) → All (IsConfigured model) ds → keep has_cost ds ≡ []
no_costs model [] a = refl
no_costs model (d ∷ ds) a = rw (a.0.1) (no_costs model ds a.1)

drawn :
    (model : String) (r : Random) (ds : List Deployment)
    → All (IsConfigured model) ds
    → select cost_based r ds ≡ (get_elem? ds (r.choice (length ds)), cost_based)
unfolding select
drawn model r [] a = refl
drawn model r (d ∷ ds) a =
    ap (λ cs. (cheapest r (d ∷ ds) cs, cost_based)) (no_costs model (d ∷ ds) a)

-- Every deployment that is registered for a model carries the model's name, the weight one and no
-- cost, so among them the strategy by cost draws at random, whatever they cost.
pub select-register_entries :
    (environ : String → Option String) (model : String) (entries : List ModelEntry) (r : Random)
    (ds : List Deployment)
    → lookup model (register_entries environ 0 entries []) ≡ some ds
    → All (IsConfigured model) ds
      × (select cost_based r ds ≡ (get_elem? ds (r.choice (length ds)), cost_based))
select-register_entries environ model entries r ds h =
    let same =
      listed-eq (deployments_for environ model 0 entries) ds
        (sym (lookup-register_entries environ model entries) ∙ h) in
    let a =
      subst (All (IsConfigured model)) same
        (deployments_for-IsConfigured environ model 0 entries) in
    (a, drawn model r ds a)
