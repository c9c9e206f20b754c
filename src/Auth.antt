-- ===== src/Auth.antt =====
-- Who may do what, packages/auth: roles and permissions, and session tokens.
pub mod Authorization
pub mod Scope
pub mod Examples
pub mod Session
