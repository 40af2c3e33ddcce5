-- ===== src/Cache/Backend/Keys.antt =====
-- Which requests share a key.
use mathlib.Core.Path.{fun_ext}
use Prim.Native.String.{count, ◌++◌ as ◌<>◌}
use text.Mathlib.TextLemmas.{append_inj, append_cancel_left, length-append}
use routerbot.Base.{
  ◌≡◌, ◌≢◌, ◌↔◌, refl, sym, ◌∙◌, ap, String, Option, none, some, arith, string_eq, ◌==◌,
  if◌then◌else◌, Bool-cases, inl, inr, Dict, lookup,
}
use routerbot.Cache.Backend.{
  KeyParts, KeyArguments, extra_of, serialised, scoped_namespace, build_cache_key,
}

-- An empty tenant is no tenant.
abbrev pub some_tenant : Option String → Option String
some_tenant none = none
some_tenant (some t) = if t == "" then none else some t

scoped : String → Option String → String
scoped ns none = ns
scoped ns (some t) = ns <> (":" <> t)

scoped_lem : (ns : String) (t : Option String) → scoped_namespace ns t ≡ scoped ns (some_tenant t)
unfolding scoped
scoped_lem ns none = refl
scoped_lem ns (some t) = elim (Bool-cases (t == "")) [ inl e ↦ rw e refl | inr e ↦ rw e refl ]

longer : (ns t : String) → ns <> (":" <> t) ≢ ns
longer ns t e =
    absurd (omega (arith, ap count e, length-append ns (":" <> t), length-append ":" t, colon))
  where
    colon : count ":" ≡ 1
    colon = refl

scoped-inj : (ns : String) (t u : Option String) → scoped ns t ≡ scoped ns u → t ≡ u
unfolding scoped
scoped-inj ns none none e = refl
scoped-inj ns none (some u) e = absurd (longer ns u (sym e))
scoped-inj ns (some t) none e = absurd (longer ns t e)
scoped-inj ns (some t) (some u) e =
    ap some (append_cancel_left ":" t u (append_cancel_left ns (":" <> t) (":" <> u) e))

-- What a request asks for under a name of `extra`.
abbrev pub parameter : {J : Type 0} → String → Option (Dict String J) → Option J
parameter k none = none
parameter k (some d) = lookup k d

-- The requests ask for the same, whoever asks.
pub record SameRequest {J : Type 0} (a b : KeyArguments J) : Type 0 where
  pub model : a.model ≡ b.model
  pub messages : a.messages ≡ b.messages
  pub temperature : a.temperature ≡ b.temperature
  pub top_p : a.top_p ≡ b.top_p
  pub max_tokens : a.max_tokens ≡ b.max_tokens
  pub tools : a.tools ≡ b.tools
  pub extra : (k : String) → parameter k a.extra ≡ parameter k b.extra

extra_of-parameter :
    {J : Type 0} (o : Option (Dict String J)) (k : String) → extra_of o k ≡ parameter k o
extra_of-parameter none k = refl
extra_of-parameter (some d) k = refl

serialised-SameRequest :
    {J : Type 0} (a b : KeyArguments J) → serialised a ≡ serialised b → SameRequest a b
serialised-SameRequest {J} a b e = record {
  model = ap (λ (p : KeyParts J). p.model) e;
  messages = ap (λ (p : KeyParts J). p.messages) e;
  temperature = ap (λ (p : KeyParts J). p.temperature) e;
  top_p = ap (λ (p : KeyParts J). p.top_p) e;
  max_tokens = ap (λ (p : KeyParts J). p.max_tokens) e;
  tools = ap (λ (p : KeyParts J). p.tools) e;
  extra = λ k.
      sym (extra_of-parameter a.extra k)
      ∙ ap (λ (p : KeyParts J). p.extra k) e
      ∙ extra_of-parameter b.extra k;
}

SameRequest-serialised :
    {J : Type 0} (a b : KeyArguments J) → SameRequest a b → serialised a ≡ serialised b
SameRequest-serialised {J} a b s =
    let x : extra_of a.extra ≡ extra_of b.extra =
      fun_ext
        (λ k. extra_of-parameter a.extra k ∙ s.extra k ∙ sym (extra_of-parameter b.extra k)) in
    λ i. record {
      model = s.model i;
      messages = s.messages i;
      temperature = s.temperature i;
      top_p = s.top_p i;
      max_tokens = s.max_tokens i;
      tools = s.tools i;
      extra = x i;
    }

module _ {J : Type 0} (digest : KeyParts J → String) (namespace : String) (a b : KeyArguments J)
    (same_length : count (digest (serialised a)) ≡ count (digest (serialised b)))
    (no_collision : digest (serialised a) ≡ digest (serialised b)
      → serialised a ≡ serialised b) where
  -- Under one namespace, two requests whose digests are of one length and do not collide have one
  -- key exactly when they have one tenant, an empty tenant counting as none, and ask for the same
  -- model, messages, temperature, top_p, max_tokens and tools, and for the same under each name of
  -- `extra`, in whichever order that lists them.
  pub build_cache_key-inj :
      (build_cache_key digest namespace a ≡ build_cache_key digest namespace b)
      ↔ ((some_tenant a.tenant ≡ some_tenant b.tenant) × SameRequest a b)
  unfolding build_cache_key
  build_cache_key-inj =
      let s = scoped_namespace namespace a.tenant in
      let t = scoped_namespace namespace b.tenant in
      let u = ":cache:" <> digest (serialised a) in
      let v = ":cache:" <> digest (serialised b) in
      (
        λ e.
            let p = append_inj {s₁ = s} {s₂ = t} {t₁ = u} {t₂ = v} e (
              omega (
                arith,
                ap count e,
                length-append s u,
                length-append t v,
                length-append ":cache:" (digest (serialised a)),
                length-append ":cache:" (digest (serialised b)),
                same_length,
              )) in
            (
              scoped-inj namespace (some_tenant a.tenant) (some_tenant b.tenant)
                  (sym (scoped_lem namespace a.tenant) ∙ p.0 ∙ scoped_lem namespace b.tenant),
              serialised-SameRequest a b (no_collision (append_cancel_left ":cache:" _ _ p.1)),
            ),
        λ p.
            rw (scoped_lem namespace a.tenant, scoped_lem namespace b.tenant)
              (rw (p.0, SameRequest-serialised a b p.1) refl),
      )
