-- ===== src/Resilience/Degradation/Examples.antt =====
-- The theorems on degradation, at a manager that was in an emergency.
use routerbot.Base.{[]}
use routerbot.Resilience.Degradation.{
  emergency, text, Thresholds, DegradationManager, default_policies, auto_escalate,
}

abbrev thresholds : Thresholds
thresholds = record { degraded_t = 200; limited_t = 500; emergency_t = 800 }

abbrev troubled : DegradationManager
troubled = record {
  policies = default_policies;
  thresholds = thresholds;
  global_status = record { provider = "global"; level = emergency; reason = text ""; since = 5 };
  provider_status = [];
}

abbrev later : DegradationManager
later = (auto_escalate 9 10 6 troubled).1
