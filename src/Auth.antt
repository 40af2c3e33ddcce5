-- ===== src/Auth.antt =====
-- src/routerbot/auth: who may do what.
pub mod Rbac
pub mod Permissions
