-- ===== src/Router/Cooldown/Examples.antt =====
-- The theorems on cooldown at a manager with two failures allowed.
use routerbot.Base.{
  ℕ, String, ◌≡◌, ◌≢◌, refl, true, false, ◌&&◌, [], ◌∷◌, eq_iff, lookup, insert, string_eq, ltb,
  leb, length, ◌+◌,
}
use routerbot.Router.Cooldown.{CooldownManager, init, failure_count, is_in_cooldown, record_failure}
use routerbot.Router.Cooldown.Isolation.{IsConsistent, init-IsConsistent}
use routerbot.Router.Cooldown.Episodes.{failures_at, cooldown-failures_at}

abbrev fresh : CooldownManager
fresh = init 2 60

fresh-IsConsistent : IsConsistent fresh
fresh-IsConsistent = init-IsConsistent 2 60

a≢b : ◌≢◌ {A = String} "a" "b"
a≢b e = cc ((eq_iff "a" "b").1 e)

cooldown-failures_at_example :
    (is_in_cooldown 69 "a" (failures_at "a" (5 ∷ 10 ∷ []) fresh)).0
    ≡ leb fresh.allowed_fails (failure_count "a" fresh + length {A = ℕ} (5 ∷ []) + 1)
      && ltb 69 (10 + fresh.cooldown_seconds)
cooldown-failures_at_example = cooldown-failures_at "a" (5 ∷ []) 10 69 fresh fresh-IsConsistent

-- The second failure starts the cooldown, which ends 60 ticks after it.
still_cooling : (is_in_cooldown 69 "a" (failures_at "a" (5 ∷ 10 ∷ []) fresh)).0 ≡ true
unfolding is_in_cooldown failures_at record_failure init lookup insert
still_cooling = refl

cooled_down : (is_in_cooldown 70 "a" (failures_at "a" (5 ∷ 10 ∷ []) fresh)).0 ≡ false
unfolding is_in_cooldown failures_at record_failure init lookup insert
cooled_down = refl
