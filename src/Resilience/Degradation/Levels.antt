-- ===== src/Resilience/Degradation/Levels.antt =====
-- The level follows the share of unhealthy providers, and the requests follow the level.
use routerbot.Base.{
  ◌*◌, ℕ, ◌≤◌, ◌≡◌, refl, String, arith, some, true, false, ◌||◌, lookup, string_eq, ◌==◌,
}
use routerbot.Resilience.Degradation.{
  DegradationLevel, normal, degraded, limited, emergency, rank, level_eq, level_beq, Thresholds,
  DegradationManager, default_policies, global_level, get_policy, get_provider_level, at_least,
  level_of, auto_escalate, should_reject, should_queue,
}

at_least_mono :
    (threshold total u v : ℕ)
    → u ≤ v
    → at_least threshold total u ≡ true
    → at_least threshold total v ≡ true
at_least_mono threshold total u v h e = ground arith

-- More unhealthy providers of as many never bring a lower level.
pub level_of_mono :
    (t : Thresholds) (total u v : ℕ) → u ≤ v → rank (level_of t total u) ≤ rank (level_of t total v)
level_of_mono t total u v h = ground (
  arith,
  at_least_mono t.emergency_t total u v,
  at_least_mono t.limited_t total u v,
  at_least_mono t.degraded_t total u v,
)

policy_rejects :
    (m : DegradationManager)
    → m.policies ≡ default_policies
    → (l : DegradationLevel) → (get_policy l m).reject_new_requests ≡ level_beq l emergency
unfolding get_policy lookup
policy_rejects m d normal = rw d refl
policy_rejects m d degraded = rw d refl
policy_rejects m d limited = rw d refl
policy_rejects m d emergency = rw d refl

policy_queues :
    (m : DegradationManager)
    → m.policies ≡ default_policies
    → (l : DegradationLevel)
    → (get_policy l m).queue_requests ≡ (level_beq l degraded || level_beq l limited)
unfolding get_policy lookup
policy_queues m d normal = rw d refl
policy_queues m d degraded = rw d refl
policy_queues m d limited = rw d refl
policy_queues m d emergency = rw d refl

-- Under the default policies, requests are rejected exactly at the global level `emergency` or at
-- that of the provider that is asked for, and queued at the levels `degraded` and `limited`.
pub should_reject-should_queue :
    (provider : String) (m : DegradationManager)
    → m.policies ≡ default_policies
    → (provider == "") ≡ false
    → (should_reject (some provider) m ≡ (
        level_beq (global_level m) emergency
        || level_beq (get_provider_level provider m) emergency))
      × (should_queue (some provider) m ≡ (
          level_beq (global_level m) degraded
          || level_beq (global_level m) limited
          || level_beq (get_provider_level provider m) degraded
          || level_beq (get_provider_level provider m) limited))
unfolding should_reject should_queue
should_reject-should_queue provider m d n =
    let g = global_level m in
    let p = get_provider_level provider m in
    ground (
      arith,
      policy_rejects m d g,
      policy_rejects m d p,
      policy_queues m d g,
      policy_queues m d p,
      n,
    )

-- The share of unhealthy providers reaches a threshold, in thousandths.
abbrev pub Reached : ℕ → ℕ → ℕ → Type 0
Reached total unhealthy threshold = threshold * total ≤ unhealthy * 1000

module _ (now total unhealthy : ℕ) (m : DegradationManager) where
  abbrev after : DegradationManager
  after = (auto_escalate now total unhealthy m).1
