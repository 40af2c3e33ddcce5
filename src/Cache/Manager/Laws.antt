-- ===== src/Cache/Manager/Laws.antt =====
-- What a manager promises over any lawful backend.
use Prim.Native.String.{count}
use routerbot.Base.{
  ℕ, zero, suc, ◌+◌, ◌<◌, ◌≤◌, ltb, lt→ltb, some_inj, get_or, ◌≡◌, ◌⊎◌, inl, inr, refl, ◌∙◌, String,
  Option, none, some, Bool, true, false, arith, string_eq, ==-false, eq_iff, Bool-cases, ◌&&◌,
}
use routerbot.Cache.Memory.{is_expired}
use routerbot.Cache.Backend.{
  CacheBackend, IsLawful, IsStamped, KeyParts, build_cache_key, KeyArguments, serialised,
}
use routerbot.Cache.Backend.Keys.{some_tenant, SameRequest, build_cache_key-inj}
use routerbot.Cache.Manager.{
  ResponseCacheManager, bypassed, no_cache, positive_or, key_of, entry_of, lookup, store,
  invalidate, bare,
}

entry-IsStamped :
    {D J : Type 0} (digest : KeyParts J → String) (no_metadata : D) (now : ℕ)
    (m : ResponseCacheManager) (a : KeyArguments J) (response_data : D) (ttl : Option ℕ)
    (metadata : Option D)
    → IsStamped now
        (some (positive_or ttl m.default_ttl))
        (entry_of digest no_metadata now m a response_data ttl metadata)
entry-IsStamped digest no_metadata now m a response_data ttl metadata = record {
  created = refl;
  lifetime = (positive_or ttl m.default_ttl, refl, refl);
}

-- How long a stored response lives: for the time that is given, or by default where none or zero is.
abbrev pub IsLifetime : Option ℕ → ℕ → ℕ → Type 0
IsLifetime ttl default_ttl l =
    ((t : ℕ) → ttl ≡ some t → 0 < t → l ≡ t) × ((ttl ≡ none) ⊎ (ttl ≡ some 0) → l ≡ default_ttl)

positive_or-IsLifetime :
    (ttl : Option ℕ) (default_ttl : ℕ) → IsLifetime ttl default_ttl (positive_or ttl default_ttl)
positive_or-IsLifetime none d = ((λ t e _. cc), λ _. refl)
positive_or-IsLifetime (some zero) d =
    ((λ t e h. let z : zero ≡ t = some_inj e in omega (arith, z, h)), λ _. refl)
positive_or-IsLifetime (some (suc n)) d = (
  (λ t e h. some_inj e),
  λ c. elim c [ inl e ↦ cc | inr e ↦ let z : suc n ≡ 0 = some_inj e in absurd (omega (arith, z)) ],
)

le→ltb : (a b : ℕ) → a ≤ b → ltb b a ≡ false
le→ltb a b h = ground arith

-- A tenant is no part of a request.
plain :
    {J : Type 0} (a b : KeyArguments J)
    → SameRequest (record a { extra = none }) b
    → SameRequest (bare a) b
plain a b s = record {
  model = s.model;
  messages = s.messages;
  temperature = s.temperature;
  top_p = s.top_p;
  max_tokens = s.max_tokens;
  tools = s.tools;
  extra = s.extra;
}

bared :
    {J : Type 0} (a b : KeyArguments J)
    → SameRequest (bare a) b
    → SameRequest (record a { extra = none }) b
bared a b s = record {
  model = s.model;
  messages = s.messages;
  temperature = s.temperature;
  top_p = s.top_p;
  max_tokens = s.max_tokens;
  tools = s.tools;
  extra = s.extra;
}

module _ {D S J : Type 0} (backend : CacheBackend D S) (Ready : S → Type 0)
    (lawful : IsLawful backend Ready) (digest : KeyParts J → String) where
  bypassed-enabled :
      (m : ResponseCacheManager) (stream : Bool) (cache_control : Option String)
      → bypassed m stream cache_control ≡ false
      → m.enabled ≡ true
  bypassed-enabled m stream cache_control f = elim (Bool-cases m.enabled) [
    | inl t ↦ t
    | inr g ↦ let f' : true ≡ false = rw g at f in cc
  ]

  -- Over a lawful backend that is ready, with a manager that is enabled, a response that was stored
  -- is what a lookup with the same arguments returns, where that is neither streamed past the cache
  -- nor asked for without it, with the model, the time and the metadata that it was stored with,
  -- until its lifetime is over: the one given, or the default where none or zero was given. After
  -- that the lookup returns nothing.
  pub lookup-store :
      (now later : ℕ) (m : ResponseCacheManager) (a : KeyArguments J)
      (response_data no_metadata : D) (ttl : Option ℕ) (metadata : Option D) (stream : Bool)
      (cache_control : Option String) (s : S)
      → Ready s
      → m.enabled ≡ true
      → (stream && m.skip_streaming) ≡ false
      → no_cache cache_control ≡ false
      → (l : ℕ) × IsLifetime ttl m.default_ttl l
        × (now + l < later
            → (lookup backend digest later m a stream cache_control
                (store backend digest no_metadata now m a response_data ttl metadata s)).0
              ≡ none)
        × (later ≤ now + l
            → (lookup backend digest later m a stream cache_control
                (store backend digest no_metadata now m a response_data ttl metadata s)).0
              ≡ some record {
                key = build_cache_key digest m.namespace a;
                response_data = response_data;
                model = a.model;
                created_at = now;
                ttl = some l;
                metadata = get_or metadata no_metadata;
              })
  unfolding lookup store
  lookup-store now later m a response_data no_metadata ttl metadata stream cache_control s r on f
        n =
      let l = positive_or ttl m.default_ttl in
      let e = entry_of digest no_metadata now m a response_data ttl metadata in
      let found =
        lawful.get-set now later (key_of digest m a) e e.ttl s r
          (entry-IsStamped digest no_metadata now m a response_data ttl metadata) in
      (
        l,
        positive_or-IsLifetime ttl m.default_ttl,
        (λ h. rw (on, f, n) (found ∙ unfold is_expired in rw (lt→ltb (now + l) later h) refl)),
        λ h. rw (on, f, n) (found ∙ unfold is_expired in rw (le→ltb later (now + l) h) refl),
      )

  -- What is stored for one request is never served for another, by another tenant or with another
  -- model, messages, sampling parameter or tools, where the two digests are of one length and do not
  -- collide: a lookup for the other finds what it found before, or nothing.
  pub lookup-store_other :
      (now later : ℕ) (m : ResponseCacheManager) (a b : KeyArguments J)
      (response_data no_metadata : D) (ttl : Option ℕ) (metadata : Option D) (stream : Bool)
      (cache_control : Option String) (s : S)
      → Ready s
      → count (digest (serialised a)) ≡ count (digest (serialised b))
      → (digest (serialised a) ≡ digest (serialised b) → serialised a ≡ serialised b)
      → ¬ ((some_tenant a.tenant ≡ some_tenant b.tenant) × SameRequest a b)
      → ((lookup backend digest later m b stream cache_control
            (store backend digest no_metadata now m a response_data ttl metadata s)).0
          ≡ none)
        ⊎ ((lookup backend digest later m b stream cache_control
              (store backend digest no_metadata now m a response_data ttl metadata s)).0
            ≡ (lookup backend digest later m b stream cache_control s).0)
  unfolding lookup store
  lookup-store_other now later m a b response_data no_metadata ttl metadata stream cache_control s r
        same_length no_collision differ =
      elim (Bool-cases (bypassed m stream cache_control)) [
        | inl t ↦ rw t (inl refl)
        | inr f ↦ rw f (
            rw (bypassed-enabled m stream cache_control f) (
              lawful.get-set_other now later (key_of digest m a) (key_of digest m b) _ _ s r (λ e.
                differ
                  ((build_cache_key-inj digest m.namespace a b same_length no_collision).0 e))))
      ]

  -- Invalidating a request removes what was stored for it without a tenant and without extra
  -- parameters, and nothing else: a lookup for any request `b` finds nothing if `b` has no tenant, no
  -- extra parameters and else the same arguments, and finds what it found before if not, where the
  -- two digests are of one length and do not collide.
  pub lookup-invalidate :
      (later : ℕ) (m : ResponseCacheManager) (a b : KeyArguments J) (stream : Bool)
      (cache_control : Option String) (s : S)
      → count (digest (serialised (bare a))) ≡ count (digest (serialised b))
      → (digest (serialised (bare a)) ≡ digest (serialised b) → serialised (bare a) ≡ serialised b)
      → ((none ≡ some_tenant b.tenant) × SameRequest (record a { extra = none }) b
          → (lookup backend digest later m b stream cache_control
              (invalidate backend digest m a s)).0
            ≡ none)
        × (¬ ((none ≡ some_tenant b.tenant) × SameRequest (record a { extra = none }) b)
            → (lookup backend digest later m b stream cache_control
                (invalidate backend digest m a s)).0
              ≡ (lookup backend digest later m b stream cache_control s).0)
  unfolding lookup invalidate
  lookup-invalidate later m a b stream cache_control s same_length no_collision =
      let key = build_cache_key-inj digest m.namespace (bare a) b same_length no_collision in
      let deleted = lawful.get-delete later (key_of digest m (bare a)) (key_of digest m b) s in
      elim (Bool-cases (bypassed m stream cache_control)) [
        | inl t ↦ (λ _. rw t refl, λ _. rw t refl)
        | inr f ↦ (
          (λ p. rw f (deleted ∙ rw ((eq_iff _ _).1 (key.1 (p.0, plain a b p.1))) refl)),
          λ n.
              rw f (deleted ∙ rw (==-false _ _ (λ e. n ((key.0 e).0, bared a b (key.0 e).1))) refl),
        )
      ]
