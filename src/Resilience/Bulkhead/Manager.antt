-- ===== src/Resilience/Bulkhead/Manager.antt =====
-- `BulkheadManager` of src/routerbot/core/resilience/bulkhead.py. A bulkhead that the manager answers
-- with is shared; `acquire` is that of the bulkhead.
use routerbot.Base.{
  ℕ, ◌≡◌, refl, String, Option, none, some, [], arith, Dict, lookup, insert, string_eq, get_or,
  total, total-insert_new, Option-cases, inl, inr, lookup-insert_self, length,
}
use routerbot.Resilience.Bulkhead.{Bulkhead, BulkheadConfig}
use routerbot.Resilience.Bulkhead as Bulkhead

pub record BulkheadManager : Type 0 where
  pub default_config : BulkheadConfig
  pub overrides : Dict String BulkheadConfig
  pub bulkheads : Dict String Bulkhead

unfoldable init : BulkheadConfig → Dict String BulkheadConfig → BulkheadManager
init default_config overrides = record {
  default_config = default_config;
  overrides = overrides;
  bulkheads = [];
}

abbrev found : String → Option Bulkhead → BulkheadManager → Bulkhead × BulkheadManager
found provider (some b) m = (b, m)
found provider none m =
    let b = Bulkhead.init provider (get_or (lookup provider m.overrides) m.default_config) in
    (b, record m { bulkheads = insert provider b m.bulkheads })

unfoldable get : String → BulkheadManager → Bulkhead × BulkheadManager
get provider m = found provider (lookup provider m.bulkheads) m

abbrev total_active : BulkheadManager → ℕ
total_active m = total (λ b. b.active) m.bulkheads

-- The number of providers, and the totals of active and of rejected requests.
unfoldable summary : BulkheadManager → ℕ × ℕ × ℕ
summary m = (length m.bulkheads, total_active m, total (λ b. b.total_rejected) m.bulkheads)

-- To ask for a bulkhead changes no total, and who asks again gets the same one.
get_lem :
    (provider : String) (m : BulkheadManager)
    → let p = get provider m in (total_active p.1 ≡ total_active m) × (get provider p.1 ≡ p)
unfolding get Bulkhead.init
get_lem provider m = elim (Option-cases (lookup provider m.bulkheads)) [
  | inl e ↦
      let b = Bulkhead.init provider (get_or (lookup provider m.overrides) m.default_config) in
      rw e (
        omega (arith, total-insert_new (λ b. b.active) provider b m.bulkheads e),
        rw (lookup-insert_self provider b m.bulkheads) refl,
      )
  | inr (b, e) ↦ rw e (refl, rw e refl)
]
