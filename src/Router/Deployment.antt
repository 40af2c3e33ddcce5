-- ===== src/Router/Deployment.antt =====
-- `Deployment` of src/routerbot/router/router.py, with its rolling average of latencies.
use routerbot.Base.{ℕ, ◌+◌, ◌*◌, ◌^◌, String, Option, Bool, Dict, ltb, eqb, if◌then◌else◌}

-- A float that the average takes: `num / 5 ^ exp`, exactly. The weights 0.2 and 0.8 are fifths, so
-- every value that the recurrence reaches from whole latencies has this form.
pub record Latency : Type 0 where
  pub num : ℕ
  pub exp : ℕ

abbrev pub no_latency : Latency
no_latency = record { num = 0; exp = 0 }

abbrev pub lt_latency : Latency → Latency → Bool
lt_latency a b = ltb (a.num * 5 ^ b.exp) (b.num * 5 ^ a.exp)

-- `ref` is the identity of the object: a deployment is shared and changed in place.
pub record Deployment : Type 0 where
  pub ref : ℕ
  pub name : String
  pub provider_name : String
  pub provider_model : String
  pub api_key : Option String
  pub api_base : Option String
  pub extra_headers : Dict String String
  pub weight : ℕ
  pub active_requests : ℕ
  pub avg_latency_ms : Latency
  pub cost_per_token : Option ℕ

-- alpha * latency + (1 - alpha) * average, with alpha = 1 / 5
unfoldable pub smooth : ℕ → Latency → Latency
smooth latency avg = record { num = latency * 5 ^ avg.exp + 4 * avg.num; exp = avg.exp + 1 }

unfoldable pub record_latency : ℕ → Deployment → Deployment
unfolding smooth
record_latency latency_ms d =
    if eqb d.avg_latency_ms.num 0
    then record d { avg_latency_ms = record { num = latency_ms; exp = 0 } }
    else record d { avg_latency_ms = smooth latency_ms d.avg_latency_ms }
