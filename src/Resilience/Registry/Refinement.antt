-- ===== src/Resilience/Registry/Refinement.antt =====
-- A registry is one breaker for each name, with its own override.
use routerbot.Base.{
  ℕ, ◌≡◌, refl, sym, ◌∙◌, ap, String, Option, none, some, List, [], ◌∷◌, map, Dict, lookup,
  lookup-insert, string_eq, ◌==◌, eq_iff, if◌then◌else◌, Bool-cases, Option-cases, inl, inr,
}
use routerbot.Resilience.Breaker.{CircuitBreaker, CircuitBreakerConfig, Event, reset}
use routerbot.Resilience.Breaker as Breaker
use routerbot.Resilience.Registry.{
  CircuitBreakerRegistry, config_for, register, get, set_override, reset_all, step,
}

-- What the registry, and the breakers that it answers with, are asked for.
pub data Call : Type 0 where
  happened : String → ℕ → Event → Call
  registering : String → Option CircuitBreakerConfig → Call
  overriding : String → CircuitBreakerConfig → Call
  resetting : Call

unfoldable pub apply : CircuitBreakerRegistry → Call → CircuitBreakerRegistry
apply r (happened name now event) = step r (name, now, event)
apply r (registering name config) = (register name config r).1
apply r (overriding name config) = set_override name config r
apply r resetting = reset_all r

unfoldable pub apply_all : CircuitBreakerRegistry → List Call → CircuitBreakerRegistry
apply_all r [] = r
apply_all r (c ∷ cs) = apply_all (apply r c) cs

-- One name by itself.
pub record Slot : Type 0 where
  pub override : Option CircuitBreakerConfig
  pub breaker : Option CircuitBreaker

abbrev pub view : String → CircuitBreakerRegistry → Slot
view name r = record { override = lookup name r.overrides; breaker = lookup name r.breakers }

-- A breaker is made once: with the configuration that is given, else with the override that is there,
-- else by default.
abbrev pub made_with :
    CircuitBreakerConfig
    → Option CircuitBreakerConfig
    → Option CircuitBreakerConfig
    → CircuitBreaker
made_with default (some config) override = Breaker.init config
made_with default none (some override) = Breaker.init override
made_with default none none = Breaker.init default

abbrev pub in_place :
    CircuitBreakerConfig
    → Option CircuitBreakerConfig
    → Option CircuitBreakerConfig
    → Option CircuitBreaker
    → CircuitBreaker
in_place default config override (some b) = b
in_place default config override none = made_with default config override

abbrev if_there : Option CircuitBreaker → Option CircuitBreaker
if_there none = none
if_there (some b) = some (reset b)

-- A call as one name sees it: those for other names are none.
abbrev pub slot_step : CircuitBreakerConfig → String → Slot → Call → Slot
slot_step default name s (happened n now event) =
    if n == name
    then record s {
      breaker = some (Breaker.step (in_place default none s.override s.breaker) (now, event));
    }
    else s
slot_step default name s (registering n config) =
    if n == name
    then record s { breaker = some (in_place default config s.override s.breaker) }
    else s
slot_step default name s (overriding n config) =
    if n == name then record s { override = some config } else s
slot_step default name s resetting = record s { breaker = if_there s.breaker }

abbrev pub slot_steps : CircuitBreakerConfig → String → Slot → List Call → Slot
slot_steps default name s [] = s
slot_steps default name s (c ∷ cs) = slot_steps default name (slot_step default name s c) cs

init-config_for :
    (name : String) (config : Option CircuitBreakerConfig) (r : CircuitBreakerRegistry)
    → Breaker.init (config_for name config r)
      ≡ made_with r.default_config config (lookup name r.overrides)
init-config_for name (some c) r = refl
init-config_for name none r = elim (Option-cases (lookup name r.overrides)) [
  | inl e ↦ rw e refl
  | inr (c, e) ↦ rw e refl
]

-- Registering leaves the breaker that is in place, under its name.
register_lem :
    (n name : String) (config : Option CircuitBreakerConfig) (r : CircuitBreakerRegistry)
    → let b = in_place r.default_config config (lookup n r.overrides) (lookup n r.breakers) in
      ((register n config r).0 ≡ b)
      × (lookup name (register n config r).1.breakers
          ≡ (if n == name then some b else lookup name r.breakers))
      × ((register n config r).1.overrides ≡ r.overrides)
      × ((register n config r).1.default_config ≡ r.default_config)
unfolding register
register_lem n name config r = elim (Option-cases (lookup n r.breakers)) [
  | inl e ↦
      let b = Breaker.init (config_for n config r) in
      rw (e, ← init-config_for n config r) (refl, lookup-insert n name b r.breakers, refl, refl)
  | inr (b, e) ↦ rw e (
    refl,
    elim (Bool-cases (n == name)) [
      | inl t ↦ rw t (ap (λ k. lookup k r.breakers) (sym ((eq_iff n name).0 t)) ∙ e)
      | inr f ↦ rw f refl
    ],
    refl,
    refl,
  )
]

lookup-reset :
    (name : String) (d : Dict String CircuitBreaker)
    → lookup name (map (λ p. (p.0, reset p.1)) d) ≡ if_there (lookup name d)
unfolding lookup
lookup-reset name [] = refl
lookup-reset name ((k, b) ∷ d) = elim (Bool-cases (k == name)) [
  | inl t ↦ rw t refl
  | inr f ↦ rw f (lookup-reset name d)
]

Slot-eq : (s t : Slot) → s.override ≡ t.override → s.breaker ≡ t.breaker → s ≡ t
Slot-eq s t a b = λ i. record { override = a i; breaker = b i }

view-apply :
    (name : String) (r : CircuitBreakerRegistry) (c : Call)
    → (view name (apply r c) ≡ slot_step r.default_config name (view name r) c)
      × ((apply r c).default_config ≡ r.default_config)
unfolding apply
view-apply name r (happened n now event) =
    let (a, b, o, d) = register_lem n name none r in
    let x = Breaker.step (register n none r).0 (now, event) in
    unfold step in
    unfold get in
    (
      elim (Bool-cases (n == name)) [
        | inl t ↦ rw t (
            Slot-eq _ _ (ap (lookup name) o) (
              lookup-insert n name x (register n none r).1.breakers
              ∙ rw (t, a)
                  (ap
                    (λ k. some (
                      Breaker.step
                        (in_place r.default_config none (lookup k r.overrides)
                          (lookup k r.breakers))
                        (now, event)))
                    ((eq_iff n name).0 t))))
        | inr f ↦ rw f (
            Slot-eq _ _ (ap (lookup name) o)
              (lookup-insert n name x (register n none r).1.breakers ∙ rw f (b ∙ rw f refl)))
      ],
      d,
    )
view-apply name r (registering n config) =
    let (a, b, o, d) = register_lem n name config r in
    (
      elim (Bool-cases (n == name)) [
        | inl t ↦ rw t (
            Slot-eq _ _ (ap (lookup name) o) (
              b
              ∙ rw t (
                  ap
                    (λ k. some (
                      in_place r.default_config config (lookup k r.overrides)
                        (lookup k r.breakers)))
                    ((eq_iff n name).0 t))))
        | inr f ↦ rw f (Slot-eq _ _ (ap (lookup name) o) (b ∙ rw f refl))
      ],
      d,
    )
view-apply name r (overriding n config) =
    unfold set_override in
    (
      elim (Bool-cases (n == name)) [
        | inl t ↦ rw t (Slot-eq _ _ (lookup-insert n name config r.overrides ∙ rw t refl) refl)
        | inr f ↦ rw f (Slot-eq _ _ (lookup-insert n name config r.overrides ∙ rw f refl) refl)
      ],
      refl,
    )
view-apply name r resetting =
    unfold reset_all in (Slot-eq _ _ refl (lookup-reset name r.breakers), refl)

-- After any calls, what a registry holds for a name, its breaker and its override, is what one
-- breaker by itself comes to under the calls that concern it: it is made once, at the first event
-- or registration of the name, with the configuration that is given there, else with the override
-- that is set by then, else with the default; after that it has seen the events of its own name
-- and every reset, in their order, and no later override.
pub view-apply_all :
    (name : String) (cs : List Call) (r : CircuitBreakerRegistry)
    → view name (apply_all r cs) ≡ slot_steps r.default_config name (view name r) cs
unfolding apply_all
view-apply_all name [] r = refl
view-apply_all name (c ∷ cs) r =
    let (v, d) = view-apply name r c in view-apply_all name cs (apply r c) ∙ rw (v, d) refl
