-- ===== src/Cache.antt =====
-- src/routerbot/cache: the in-memory response cache.
pub mod Memory
pub mod Backend
pub mod Manager
