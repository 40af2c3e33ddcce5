-- ===== src/Plugins.antt =====
-- src/routerbot/core/plugins: the plugins that are loaded, and their lifecycle.
pub mod Registry
