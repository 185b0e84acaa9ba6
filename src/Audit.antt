-- ===== src/Audit.antt =====
-- The audit log of security/audit_logger.py: the logger, and what its chain of hashes shows.
pub mod Log
pub mod Chain
pub mod Tampering
mod Tests
