-- ===== src/Proxy.antt =====
-- src/routerbot/proxy: the in-memory rate limiter of the middleware.
pub mod RateScope
pub mod RateLimit
pub mod Guardrails
pub mod IpFilter
