-- ===== src/Resilience.antt =====
-- src/routerbot/core/resilience: circuit breakers, bulkheads and request queues.
pub mod Breaker
pub mod Bulkhead
pub mod RequestQueue
pub mod Degradation
pub mod Registry
pub mod Region
