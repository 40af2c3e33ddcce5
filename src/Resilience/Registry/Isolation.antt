-- ===== src/Resilience/Registry/Isolation.antt =====
-- The breakers of a registry do not influence one another.
use routerbot.Base.{
  ℕ, ◌≡◌, refl, ◌∙◌, ap, String, Option, none, some, List, [], ◌∷◌, lookup, insert, lookup-insert,
  insert_twice, string_eq, ◌==◌, eq_iff, get_or, if◌then◌else◌, Bool-cases, Option-cases, inl, inr,
}
use routerbot.Resilience.Breaker.{CircuitBreaker, CircuitBreakerConfig, Event}
use routerbot.Resilience.Breaker as Breaker
use routerbot.Resilience.Registry.{
  CircuitBreakerRegistry, config_for, register, set_override, step, run,
}

-- The breaker of a name, or the one that would be made for it.
abbrev pub breaker_of : String → CircuitBreakerRegistry → CircuitBreaker
breaker_of name r = get_or (lookup name r.breakers) (Breaker.init (config_for name none r))

-- The events at one name.
abbrev pub own : String → List (String × ℕ × Event) → List (ℕ × Event)
own name [] = []
own name ((n, t, e) ∷ es) = let rest = own name es in if n == name then (t, e) ∷ rest else rest

step_lem :
    (r : CircuitBreakerRegistry) (n : String) (t : ℕ) (e : Event)
    → step r (n, t, e)
      ≡ record r { breakers = insert n (Breaker.step (breaker_of n r) (t, e)) r.breakers }
unfolding step register
step_lem r n t e = elim (Option-cases (lookup n r.breakers)) [
  | inl m ↦ rw m (
      ap (λ d. record r { breakers = d })
        (insert_twice n (Breaker.step (Breaker.init (config_for n none r)) (t, e))
          (Breaker.init (config_for n none r)) r.breakers))
  | inr (b, m) ↦ rw m refl
]

breaker_of-step :
    (r : CircuitBreakerRegistry) (n name : String) (t : ℕ) (e : Event)
    → breaker_of name (step r (n, t, e))
      ≡ (if n == name then Breaker.step (breaker_of name r) (t, e) else breaker_of name r)
breaker_of-step r n name t e =
    ap (breaker_of name) (step_lem r n t e)
    ∙ rw (lookup-insert n name (Breaker.step (breaker_of n r) (t, e)) r.breakers)
        (elim (Bool-cases (n == name)) [
          | inl s ↦ rw s (ap (λ k. Breaker.step (breaker_of k r) (t, e)) ((eq_iff n name).0 s))
          | inr f ↦ rw f refl
        ])

-- After any events at any breakers of a registry, each breaker is as its own events alone leave it:
-- it has seen these and no others, in their order, from the start that its override or the default
-- gives to it.
pub breaker_of-run :
    (r : CircuitBreakerRegistry) (events : List (String × ℕ × Event)) (name : String)
    → breaker_of name (run r events) ≡ Breaker.run (breaker_of name r) (own name events)
unfolding run Breaker.run
breaker_of-run r [] name = refl
breaker_of-run r ((n, t, e) ∷ es) name =
    breaker_of-run (step r (n, t, e)) es name
    ∙ rw (breaker_of-step r n name t e)
        (elim (Bool-cases (n == name)) [ inl s ↦ rw s refl | inr f ↦ rw f refl ])

-- An override that is set for a breaker which is there already has no effect on it, also when it
-- is registered again.
pub register-set_override :
    (name : String) (config : CircuitBreakerConfig) (given : Option CircuitBreakerConfig)
    (b : CircuitBreaker) (r : CircuitBreakerRegistry)
    → lookup name r.breakers ≡ some b
    → register name given (set_override name config r) ≡ (b, set_override name config r)
unfolding register set_override
register-set_override name config given b r m = rw m refl
