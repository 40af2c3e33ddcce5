-- ===== src/Router/Cooldown/Isolation.antt =====
-- What a call changes: its own deployment, and never so that a cooling deployment has too few
-- failures on record.
use routerbot.Base.{
  ℕ, ◌≤◌, String, ◌≡◌, ◌≢◌, some, arith, lookup, remove, lookup-insert, lookup-nil, lookup-remove,
  ==-false, string_eq, get_or, ◌==◌, eq_iff, ◌+◌, Distinct, insert-Distinct, remove-Distinct,
  Option-cases, Bool-cases, inl, inr, ltb, any, any-keep,
}
use routerbot.Router.Cooldown.{
  CooldownManager, Call, success, failure, query, clear, target, apply, init, record_success,
  record_failure, is_in_cooldown, reset, all_in_cooldown, failure_count,
}

-- A call for one deployment leaves the failure count and the cooldown answer of every other
-- deployment as they were, at every time.
pub apply-isolated :
    (m : CooldownManager) (c : Call) (j : String) (now : ℕ)
    → target c ≢ j
    → (failure_count j (apply m c) ≡ failure_count j m)
      × ((is_in_cooldown now j (apply m c)).0 ≡ (is_in_cooldown now j m).0)
unfolding apply failure_count
apply-isolated m (success id) j now h =
    ground
      (arith, ==-false id j h, lookup-remove id j m.failures, lookup-remove id j m.cooldown_until)
apply-isolated m (failure t id) j now h = ground (
  arith,
  ==-false id j h,
  lookup-insert id j (get_or (lookup id m.failures) 0 + 1) m.failures,
  lookup-insert id j (t + m.cooldown_seconds) m.cooldown_until,
)
apply-isolated m (query t id) j now h =
    ground
      (arith, ==-false id j h, lookup-remove id j m.failures, lookup-remove id j m.cooldown_until)
apply-isolated m (clear id) j now h =
    ground
      (arith, ==-false id j h, lookup-remove id j m.failures, lookup-remove id j m.cooldown_until)

-- A deployment with a cooldown on record has failed at least `allowed_fails` times, and no
-- deployment has two cooldowns.
pub record IsConsistent (m : CooldownManager) : Type 0 where
  pub at :
      (j : String) (until : ℕ)
      → lookup j m.cooldown_until ≡ some until
      → m.allowed_fails ≤ failure_count j m
  pub distinct : Distinct m.cooldown_until

pub init-IsConsistent : (a c : ℕ) → IsConsistent (init a c)
unfolding init
init-IsConsistent a c = record { at = λ j u e. cc (lookup-nil {V = ℕ} j); distinct = tt }

forget-IsConsistent :
    (id : String) (m : CooldownManager)
    → IsConsistent m
    → IsConsistent
        (record m { failures = remove id m.failures; cooldown_until = remove id m.cooldown_until })
unfolding failure_count
forget-IsConsistent id m v = record {
  at = λ j u e.
      ground (arith, v.at j u, lookup-remove id j m.failures, lookup-remove id j m.cooldown_until);
  distinct = remove-Distinct id m.cooldown_until v.distinct;
}

pub record_failure-IsConsistent :
    (now : ℕ) (id : String) (m : CooldownManager)
    → IsConsistent m
    → IsConsistent (record_failure now id m)
unfolding record_failure failure_count
record_failure-IsConsistent now id m v = record {
  at = λ j u e. ground (
    arith,
    v.at j u,
    eq_iff id j,
    lookup-insert id j (get_or (lookup id m.failures) 0 + 1) m.failures,
    lookup-insert id j (now + m.cooldown_seconds) m.cooldown_until,
  );
  distinct = ground (
    arith,
    v.distinct,
    insert-Distinct id (now + m.cooldown_seconds) m.cooldown_until v.distinct,
  );
}

is_in_cooldown-IsConsistent :
    (now : ℕ) (id : String) (m : CooldownManager)
    → IsConsistent m
    → IsConsistent (is_in_cooldown now id m).1
unfolding is_in_cooldown
is_in_cooldown-IsConsistent now id m v = elim (Option-cases (lookup id m.cooldown_until)) [
  | inl e ↦ rw (e, is_in_cooldown) v
  | inr (u, e) ↦ elim (Bool-cases (ltb now u)) [
    | inl t ↦ rw (e, is_in_cooldown) (rw t v)
    | inr f ↦ rw (e, is_in_cooldown) (rw f (forget-IsConsistent id m v))
  ]
]

-- Every call keeps the manager consistent: a deployment with a cooldown on record has failed at
-- least `allowed_fails` times since its last reset.
pub apply-IsConsistent :
    (m : CooldownManager) (c : Call) → IsConsistent m → IsConsistent (apply m c)
unfolding apply record_success reset
apply-IsConsistent m (success id) v = forget-IsConsistent id m v
apply-IsConsistent m (failure t id) v = record_failure-IsConsistent t id m v
apply-IsConsistent m (query t id) v = is_in_cooldown-IsConsistent t id m v
apply-IsConsistent m (clear id) v = forget-IsConsistent id m v

-- In a consistent manager, the list of cooling deployments and the question about one deployment
-- agree, at every time.
pub all_in_cooldown-agrees :
    (m : CooldownManager) (j : String) (now : ℕ)
    → IsConsistent m
    → any (λ i. i == j) (all_in_cooldown now m) ≡ (is_in_cooldown now j m).0
unfolding all_in_cooldown is_in_cooldown
all_in_cooldown-agrees m j now v =
    ground (arith, any-keep (λ u. ltb now u) j m.cooldown_until v.distinct)
