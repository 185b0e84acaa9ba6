-- ===== src/Access.antt =====
-- The check of roles in security/tls_manager.py.
pub mod Roles
pub mod Guard
mod Tests
