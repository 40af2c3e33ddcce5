-- ===== src/Router/Cooldown/Episodes.antt =====
-- A run of failures of one deployment, and the cooldown that it brings about.
use routerbot.Base.{
  ℕ, ◌+◌, String, ◌≡◌, inl, inr, ◌&&◌, List, [], ◌∷◌, ◌++◌, arith, lookup, lookup-insert, ==-refl,
  string_eq, get_or, ltb, leb, length, Option-cases,
}
use routerbot.Router.Cooldown.{CooldownManager, record_failure, is_in_cooldown, failure_count}
use routerbot.Router.Cooldown.Isolation.{IsConsistent, record_failure-IsConsistent}

-- The failures of `id` at the times of the list, first to last.
unfoldable pub failures_at : String → List ℕ → CooldownManager → CooldownManager
failures_at id [] m = m
failures_at id (t ∷ ts) m = failures_at id ts (record_failure t id m)

pub failure_count-record_failure :
    (t : ℕ) (id : String) (m : CooldownManager)
    → failure_count id (record_failure t id m) ≡ failure_count id m + 1
unfolding failure_count record_failure
failure_count-record_failure t id m =
    ground (arith, ==-refl id, lookup-insert id id (get_or (lookup id m.failures) 0 + 1) m.failures)

pub settings-record_failure :
    (t : ℕ) (id : String) (m : CooldownManager)
    → ((record_failure t id m).allowed_fails ≡ m.allowed_fails)
      × ((record_failure t id m).cooldown_seconds ≡ m.cooldown_seconds)
unfolding record_failure
settings-record_failure t id m = ground arith

-- One failure: the answer is fixed by the count before it and the time since it.
pub after_failure :
    (t now : ℕ) (id : String) (m : CooldownManager)
    → IsConsistent m
    → (is_in_cooldown now id (record_failure t id m)).0
      ≡ leb m.allowed_fails (failure_count id m + 1) && ltb now (t + m.cooldown_seconds)
unfolding is_in_cooldown record_failure failure_count
after_failure t now id m v = elim (Option-cases (lookup id m.cooldown_until)) [
  | inl e ↦
      ground (arith, ==-refl id, lookup-insert id id (t + m.cooldown_seconds) m.cooldown_until)
  | inr (u, e) ↦ ground (
    arith,
    ==-refl id,
    v.at id u e,
    lookup-insert id id (t + m.cooldown_seconds) m.cooldown_until,
  )
]

-- From a consistent manager, after any failures of a deployment, the last at time `t`, it is in
-- cooldown at `now` exactly when its failures since the last reset have reached `allowed_fails` and
-- fewer than `cooldown_seconds` have passed since the last of them.
pub cooldown-failures_at :
    (id : String) (ts : List ℕ) (t now : ℕ) (m : CooldownManager)
    → IsConsistent m
    → (is_in_cooldown now id (failures_at id (ts ++ t ∷ []) m)).0
      ≡ leb m.allowed_fails (failure_count id m + length ts + 1) && ltb now (t + m.cooldown_seconds)
unfolding failures_at
cooldown-failures_at id [] t now m v = ground (arith, after_failure t now id m v)
cooldown-failures_at id (s ∷ ts) t now m v = ground (
  arith,
  cooldown-failures_at id ts t now (record_failure s id m) (record_failure-IsConsistent s id m v),
  failure_count-record_failure s id m,
  settings-record_failure s id m,
)
