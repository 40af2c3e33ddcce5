-- ===== src/Router.antt =====
-- src/routerbot/router: cooldown, load balancing, retries, fallbacks, dispatch and budgets.
pub mod Cooldown
pub mod Deployment
pub mod Strategies
pub mod Retry
pub mod Fallback
pub mod Dispatch
pub mod Budget
pub mod Registry
pub mod Health
