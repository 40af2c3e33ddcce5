-- ===== src/Router/Registry/Serving.antt =====
-- Which entries of a configuration a deployment stands for.
use Prim.Native.Char.{code}
use routerbot.Base.{
  ℕ, suc, ◌≡◌, ◌≢◌, ◌⊎◌, inl, inr, refl, sym, ◌∙◌, ap, arith, String, Option, none, some, true,
  false, List, [], ◌∷◌, ◌++◌, All, codes, lookup, eqb, eq_iff, string_eq, ◌==◌, Bool-cases,
  Option-cases,
}
use routerbot.Router.Deployment.{Deployment}
use routerbot.Router.Registry.{
  ModelEntry, before_slash, after_prefix, resolve_key, deployment_of, register_entries,
}
use routerbot.Router.Registry.Served.{deployments_for, listed, lookup-register_entries}

abbrev pub NoSlash : String → Type 0
NoSlash s = All (λ c. c ≢ b'/') (codes s)

-- The text before the first slash.
abbrev pub NamesProvider : String → String → Type 0
NamesProvider s p = (rest : List ℕ) × (codes s ≡ codes p ++ b'/' ∷ rest) × NoSlash p

abbrev Names : String → Option String → Type 0
Names s none = NoSlash s
Names s (some p) = NamesProvider s p

before_slash-Names : (s : String) → Names s (before_slash s)
unfolding before_slash
before_slash-Names String.[] = tt
before_slash-Names (String.◌∷◌ c s) =
    let rest = before_slash-Names s in
    elim (Bool-cases (eqb (code c) b'/')) [
      | inl t ↦
          let same : code c ≡ b'/' = ground arith in rw t (codes s, ap (λ x. x ∷ codes s) same, tt)
      | inr f ↦
          let differ : code c ≢ b'/' = λ e. ground (arith, e, f) in
          elim (Option-cases (before_slash s)) [
            | inl n ↦ let rest' : NoSlash s = rw n at rest in rw (f, n) (differ, rest')
            | inr (p, m) ↦
                let found : NamesProvider s p = rw m at rest in
                rw (f, m) (found.0, ap (λ l. code c ∷ l) found.1, (differ, found.2))
          ]
    ]

-- The key is written down, or read from the variable of the environment that it names.
abbrev pub IsKey : (String → Option String) → Option String → Option String → Type 0
IsKey environ none key = key ≡ none
IsKey environ (some k) key =
    ((v : String) × (codes k ≡ codes "os.environ/" ++ codes v) × (key ≡ environ v))
    ⊎ (((v : String) → codes k ≢ codes "os.environ/" ++ codes v) × (key ≡ some k))

After : String → String → Option String → Type 0
After p s none = (v : String) → codes s ≢ codes p ++ codes v
After p s (some v) = codes s ≡ codes p ++ codes v

after_prefix-After : (p s : String) → After p s (after_prefix p s)
unfolding after_prefix After
after_prefix-After String.[] s = refl
after_prefix-After (String.◌∷◌ c p) String.[] = λ v e. cc
after_prefix-After (String.◌∷◌ c p) (String.◌∷◌ d s) =
    let rest = after_prefix-After p s in
    elim (Bool-cases (eqb (code c) (code d))) [
      | inr f ↦ rw f (λ v e. let same : code d ≡ code c = cc in ground (arith, same, f))
      | inl t ↦
          let same : code d ≡ code c = ground (arith, t) in
          elim (Option-cases (after_prefix p s)) [
            | inl n ↦
                let no : (v : String) → codes s ≢ codes p ++ codes v = rw n at rest in
                rw (t, n) (λ v e. no v (cc))
            | inr (v, m) ↦
                let found : codes s ≡ codes p ++ codes v = rw m at rest in
                rw (t, m) (rw same (ap (λ l. code c ∷ l) found))
          ]
    ]

IsKey-After :
    (environ : String → Option String) (k : String) (o : Option String)
    → After "os.environ/" k o
    → IsKey environ (some k) (elim o [ none ↦ some k | some v ↦ environ v ])
unfolding After
IsKey-After environ k none a = inr (a, refl)
IsKey-After environ k (some v) a = inl (v, a, refl)

resolve_key-IsKey :
    (environ : String → Option String) (k : Option String) → IsKey environ k (resolve_key environ k)
resolve_key-IsKey environ none = refl
resolve_key-IsKey environ (some k) =
    IsKey-After environ k (after_prefix "os.environ/" k) (after_prefix-After "os.environ/" k)

-- A deployment as the entry configures it.
pub record IsMade (environ : String → Option String) (e : ModelEntry) (d : Deployment)
    : Type 0 where
  pub name : d.name ≡ e.model_name
  pub provider : NamesProvider e.model d.provider_name
  pub model : d.provider_model ≡ e.model
  pub key : IsKey environ e.api_key d.api_key
  pub base : d.api_base ≡ e.api_base
  pub headers : d.extra_headers ≡ e.extra_headers
  pub idle : d.active_requests ≡ 0

-- The deployments of a model are those of its entries that name a provider, one for each, in their
-- order.
pub data Serving (environ : String → Option String) (model : String)
    : List ModelEntry → List Deployment → Type 0 where
  done : Serving environ model [] []
  of_other :
      {e : ModelEntry} {es : List ModelEntry} {ds : List Deployment}
      → e.model_name ≢ model
      → Serving environ model es ds
      → Serving environ model (e ∷ es) ds
  no_provider :
      {e : ModelEntry} {es : List ModelEntry} {ds : List Deployment}
      → NoSlash e.model
      → Serving environ model es ds
      → Serving environ model (e ∷ es) ds
  serves :
      {e : ModelEntry} {es : List ModelEntry} {d : Deployment} {ds : List Deployment}
      → e.model_name ≡ model
      → IsMade environ e d
      → Serving environ model es ds
      → Serving environ model (e ∷ es) (d ∷ ds)

deployments_for-Serving :
    (environ : String → Option String) (model : String) (n : ℕ) (es : List ModelEntry)
    → Serving environ model es (deployments_for environ model n es)
unfolding deployment_of
deployments_for-Serving environ model n [] = done
deployments_for-Serving environ model n (e ∷ es) =
    let rest = deployments_for-Serving environ model (suc n) es in
    let named = before_slash-Names e.model in
    elim (Bool-cases (e.model_name == model)) [
      | inr f ↦ rw f (
          of_other (λ s. let z : true ≡ false = sym ((eq_iff e.model_name model).1 s) ∙ f in cc)
            rest)
      | inl t ↦ elim (Option-cases (before_slash e.model)) [
        | inl m ↦ let no : NoSlash e.model = rw m at named in rw (t, m) (no_provider no rest)
        | inr (p, m) ↦
            let found : NamesProvider e.model p = rw m at named in
            rw (t, m)
              (serves ((eq_iff e.model_name model).0 t)
                (record {
                  name = refl;
                  provider = found;
                  model = refl;
                  key = resolve_key-IsKey environ e.api_key;
                  base = refl;
                  headers = refl;
                  idle = refl;
                })
                rest)
      ]
    ]

-- After the configuration is read, a model is registered exactly if an entry of it names a provider,
-- which is the text before the first slash of its provider's model. It has one deployment for each
-- such entry, in their order, with the entry's name, model, base and headers, and with its key, which
-- is read from the environment where the entry names a variable of it.
pub register_entries-Serving :
    (environ : String → Option String) (model : String) (entries : List ModelEntry)
    → (ds : List Deployment) × (lookup model (register_entries environ 0 entries []) ≡ listed ds)
      × Serving environ model entries ds
register_entries-Serving environ model entries = (
  deployments_for environ model 0 entries,
  lookup-register_entries environ model entries,
  deployments_for-Serving environ model 0 entries,
)
